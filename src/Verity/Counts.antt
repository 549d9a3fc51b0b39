-- ===== src/Verity/Counts.antt =====
-- The number of levels and of their blocks.
use native.Mathlib.Nat.{div-mul-le_self, pow-suc, lt-div-mul-add}
use rules_mkosi.Prelude.{
  ℕ, zero, suc, ◌+◌, ◌-◌, ◌*◌, ◌/◌, ◌^◌, ◌≤◌, ◌<◌, ◌≡◌, refl, ap, List, [], ◌∷◌, length, ltb, ok,
  >>=-eq-ok, arith, Bool-cases, inl, inr, subst,
}
use rules_mkosi.Verity.Tree.{count_levels, level_offsets}

-- The digests of the top level.
abbrev pub last_count : ℕ → List ℕ → ℕ
last_count n [] = n
last_count n (m ∷ counts) = last_count m counts

-- Blocks that hold `n` digests.
abbrev blocks_for : ℕ → ℕ → ℕ
blocks_for n per = (n + per - 1) / per

product_less : (q per n : ℕ) → q * per ≤ n + per - 1 → 2 ≤ per → 1 ≤ n → q ≤ (n + 1) / 2
product_less zero per n h k l = omega arith
product_less (suc a) per n h k l =
    let small : a * per ≤ n - 1 = grind arith in
    let twice : a * 2 ≤ n - 1 = grind arith in omega arith

blocks_halve : (n per : ℕ) → 2 ≤ per → 1 ≤ n → blocks_for n per ≤ (n + 1) / 2
blocks_halve n per h k =
    product_less (blocks_for n per) per n (div-mul-le_self (n + per - 1) per) h k

quotient_pos : (q b a : ℕ) → a < q * b + b → b ≤ a → 1 ≤ q
quotient_pos zero b a h k = absurd (omega arith)
quotient_pos (suc q) b a h k = omega arith

blocks_pos : (n per : ℕ) → 1 ≤ per → 1 ≤ n → 1 ≤ blocks_for n per
blocks_pos n per h k =
    quotient_pos (blocks_for n per) per (n + per - 1)
      (lt-div-mul-add {a = n + per - 1} (omega arith)) (omega arith)

half_power : (n k : ℕ) → n ≤ 2 ^ suc k → (n + 1) / 2 ≤ 2 ^ k
half_power n k h = omega (arith, pow-suc 2 k)

-- If the levels are counted, the top one holds a single digest.
pub count_levels-last :
    (left n per : ℕ) (counts : List ℕ)
    → 1 ≤ per
    → 1 ≤ n
    → count_levels left n per ≡ ok counts
    → last_count n counts ≡ 1
unfolding count_levels
count_levels-last zero n per counts h k e = ground arith
count_levels-last (suc left) n per counts h k e = elim (Bool-cases (ltb 1 n)) [
  | inl more ↦
      let e₁ = rw more at e in
      let (rest, counted, e₂) = >>=-eq-ok (count_levels left (blocks_for n per) per) _ e₁ in
      subst (λ c. last_count n c ≡ 1) {x = blocks_for n per ∷ rest} {y = counts} (ground arith)
        (count_levels-last left (blocks_for n per) per rest h (blocks_pos n per h k) counted)
  | inr one ↦
      let e₁ = rw one at e in
      subst (λ c. last_count n c ≡ 1) {x = []} {y = counts} (ground arith) (ground arith)
]

-- As many levels as the count has binary digits are enough, if a block holds two digests.
pub count_levels-total :
    (left k n per : ℕ)
    → 2 ≤ per
    → 1 ≤ n
    → n ≤ 2 ^ k
    → k ≤ left
    → (counts : List ℕ) × (count_levels left n per ≡ ok counts) × (length counts ≤ k)
unfolding count_levels
count_levels-total zero (suc k) n per a b c d = absurd (omega arith)
count_levels-total zero zero n per a b c d = ([], ground arith, omega arith)
count_levels-total (suc left) zero n per a b c d = ([], ground arith, omega arith)
count_levels-total (suc left) (suc k) n per a b c d = elim (Bool-cases (ltb 1 n)) [
  | inl more ↦
      let (counts, counted, short) =
        count_levels-total left k (blocks_for n per) per a (blocks_pos n per (omega arith) b)
          (omega (arith, blocks_halve n per a b, half_power n k c)) (omega arith) in
      (blocks_for n per ∷ counts, rw (more, counted), omega arith)
  | inr one ↦ ([], rw one, omega arith)
]

pub length-level_offsets :
    (counts : List ℕ) (tree_offset block_size : ℕ)
    → length (level_offsets counts tree_offset block_size).0 ≡ length counts
unfolding level_offsets
length-level_offsets [] tree_offset block_size = refl
length-level_offsets (n ∷ counts) tree_offset block_size =
    ap suc (length-level_offsets counts tree_offset block_size)
