-- ===== src/Debian/Version/Numbers.antt =====
-- Runs of digits are compared as the numbers that they write, leading zeros aside.
use native.Mathlib.Nat.{pow-suc, pow-le-pow_right}
use rules_mkosi.Prelude.{
  ℕ, ◌+◌, ◌-◌, ◌*◌, ◌^◌, ◌≤◌, ◌<◌, ◌⊎◌, ◌≡◌, ◌≢◌, refl, &&-eq-true, true, false, [], ◌∷◌, ◌++◌,
  length, ltb, ◌==◌, if◌then◌else◌, arith, inl, inr,
}
use rules_mkosi.Prelude.Int.{ℤ, pos, negsuc, ◌-ℤ◌, is_zero, is_neg}
use rules_mkosi.Prelude.Text.{Text, is_digit, every, decimal}
use rules_mkosi.Debian.Version.{skip_zeros, digits_loop, compare_digits, at_digit}

-- The sign of a difference is that of the comparison of two numbers.
abbrev pub Agrees : ℤ → ℕ → ℕ → Type 0
Agrees d a b = (is_neg d ≡ ltb a b) × (is_zero d ≡ (a == b))

next-Agrees :
    (d : ℤ) (a b x y : ℕ)
    → Agrees d a b
    → is_digit x ≡ true
    → is_digit y ≡ true
    → Agrees (if is_zero d then pos x -ℤ pos y else d) (a * 10 + (x - 48)) (b * 10 + (y - 48))
unfolding is_zero is_neg ◌-ℤ◌ is_digit
next-Agrees d a b x y h hx hy = ground arith

scaled-bounds :
    (acc x p v : ℕ)
    → x ≤ 9
    → (acc * 10 + x) * p ≤ v
    → v < (acc * 10 + x + 1) * p
    → (acc * (p * 10) ≤ v) × (v < (acc + 1) * (p * 10))
scaled-bounds acc x p v h lo hi = grind arith

digit-le : (c : ℕ) → is_digit c ≡ true → c - 48 ≤ 9
unfolding is_digit
digit-le c h = ground arith

-- `decimal acc s` lies between `acc` and `acc + 1` times the power of ten.
decimal-bounds :
    (acc : ℕ) (s : Text)
    → every is_digit s ≡ true
    → (acc * 10 ^ length s ≤ decimal acc s) × (decimal acc s < (acc + 1) * 10 ^ length s)
unfolding every is_digit decimal
decimal-bounds acc [] h = omega arith
decimal-bounds acc (c ∷ s) h =
    let (hc, hs) = &&-eq-true (is_digit c) (every is_digit s) h in
    let (lo, hi) = decimal-bounds (acc * 10 + (c - 48)) s hs in
    rw pow-suc (scaled-bounds acc (c - 48) (10 ^ length s) _ (digit-le c hc) lo hi)

skip_zeros-append :
    (ds l : Text)
    → every is_digit ds ≡ true
    → at_digit l ≡ false
    → skip_zeros (ds ++ l) ≡ skip_zeros ds ++ l
unfolding skip_zeros every at_digit is_digit
skip_zeros-append [] [] h k = refl
skip_zeros-append [] (c ∷ l) h k = ground arith
skip_zeros-append (c ∷ ds) l h k = ground (arith, skip_zeros-append ds l)

skip_zeros-digits : (ds : Text) → every is_digit ds ≡ true → every is_digit (skip_zeros ds) ≡ true
unfolding skip_zeros every
skip_zeros-digits [] h = refl
skip_zeros-digits (c ∷ ds) h = ground (arith, skip_zeros-digits ds)

decimal-skip_zeros : (ds : Text) → decimal 0 (skip_zeros ds) ≡ decimal 0 ds
unfolding skip_zeros decimal
decimal-skip_zeros [] = refl
decimal-skip_zeros (c ∷ ds) = ground (arith, decimal-skip_zeros ds)

-- What is left begins with a digit that is not zero, so its value has as many digits.
abbrev Leads : Text → Type 0
Leads [] = Unit
Leads (c ∷ s) = c ≢ 48

skip_zeros-Leads : (ds : Text) → Leads (skip_zeros ds)
unfolding skip_zeros
skip_zeros-Leads [] = tt
skip_zeros-Leads (c ∷ ds) = ground (arith, skip_zeros-Leads ds)

-- The runs by their lengths: from equal values so far, the sign is that of the values.
digits_loop-Agrees :
    (d : ℤ) (a b : ℕ) (ds es l r : Text)
    → length ds ≡ length es
    → Agrees d a b
    → every is_digit ds ≡ true
    → every is_digit es ≡ true
    → at_digit l ≡ false
    → at_digit r ≡ false
    → Agrees (digits_loop d (ds ++ l) (es ++ r)).0 (decimal a ds) (decimal b es)
      × ((digits_loop d (ds ++ l) (es ++ r)).1 ≡ l)
      × ((digits_loop d (ds ++ l) (es ++ r)).2 ≡ r)
unfolding digits_loop decimal every at_digit
digits_loop-Agrees d a b [] [] [] [] e g hd he hl hr = ground arith
digits_loop-Agrees d a b [] [] (x ∷ l) [] e g hd he hl hr = ground arith
digits_loop-Agrees d a b [] [] [] (y ∷ r) e g hd he hl hr = ground arith
digits_loop-Agrees d a b [] [] (x ∷ l) (y ∷ r) e g hd he hl hr = ground arith
digits_loop-Agrees d a b [] (y ∷ es) l r e g hd he hl hr = absurd (omega arith)
digits_loop-Agrees d a b (x ∷ ds) [] l r e g hd he hl hr = absurd (omega arith)
digits_loop-Agrees d a b (x ∷ ds) (y ∷ es) l r e g hd he hl hr =
    let (hx, hds) = &&-eq-true (is_digit x) (every is_digit ds) hd in
    let (hy, hes) = &&-eq-true (is_digit y) (every is_digit es) he in
    rw (hx, hy)
      (digits_loop-Agrees (if is_zero d then pos x -ℤ pos y else d) (a * 10 + (x - 48))
        (b * 10 + (y - 48)) ds es l r (omega arith) (next-Agrees d a b x y g hx hy) hds hes hl hr)

digits_loop-shorter :
    (d : ℤ) (ds es l r : Text)
    → length ds < length es
    → every is_digit ds ≡ true
    → every is_digit es ≡ true
    → at_digit l ≡ false
    → (digits_loop d (ds ++ l) (es ++ r)).0 ≡ negsuc 0
unfolding digits_loop every at_digit
digits_loop-shorter d [] [] l r e hd he hl = absurd (omega arith)
digits_loop-shorter d [] (y ∷ es) [] r e hd he hl = ground arith
digits_loop-shorter d [] (y ∷ es) (x ∷ l) r e hd he hl = ground arith
digits_loop-shorter d (x ∷ ds) [] l r e hd he hl = absurd (omega arith)
digits_loop-shorter d (x ∷ ds) (y ∷ es) l r e hd he hl =
    ground (arith, digits_loop-shorter (if is_zero d then pos x -ℤ pos y else d) ds es l r)

digits_loop-longer :
    (d : ℤ) (ds es l r : Text)
    → length es < length ds
    → every is_digit ds ≡ true
    → every is_digit es ≡ true
    → at_digit r ≡ false
    → (digits_loop d (ds ++ l) (es ++ r)).0 ≡ pos 1
unfolding digits_loop every at_digit
digits_loop-longer d [] [] l r e hd he hl = absurd (omega arith)
digits_loop-longer d (x ∷ ds) [] l [] e hd he hl = ground arith
digits_loop-longer d (x ∷ ds) [] l (y ∷ r) e hd he hl = ground arith
digits_loop-longer d [] (y ∷ es) l r e hd he hl = absurd (omega arith)
digits_loop-longer d (x ∷ ds) (y ∷ es) l r e hd he hl =
    ground (arith, digits_loop-longer (if is_zero d then pos x -ℤ pos y else d) ds es l r)

every-cons :
    (c : ℕ) (s : Text)
    → every is_digit (c ∷ s) ≡ true
    → (is_digit c ≡ true) × (every is_digit s ≡ true)
unfolding every
every-cons c s h = &&-eq-true (is_digit c) (every is_digit s) h

lead-ge-one : (c : ℕ) → is_digit c ≡ true → c ≢ 48 → 1 ≤ c - 48
unfolding is_digit
lead-ge-one c h n = ground arith

lt_of_scaled : (y p q a b : ℕ) → 1 ≤ y → p ≤ q → a < 1 * p → y * q ≤ b → a < b
lt_of_scaled y p q a b h k m n = grind arith

-- A shorter run without leading zeros writes a smaller number.
decimal-lt_of_shorter :
    (ds es : Text)
    → every is_digit ds ≡ true
    → every is_digit es ≡ true
    → Leads es
    → length ds < length es
    → decimal 0 ds < decimal 0 es
decimal-lt_of_shorter ds [] hd he lead h = absurd (omega arith)
decimal-lt_of_shorter ds (y ∷ es) hd he lead h =
    let (hy, hes) = every-cons y es he in
    unfold decimal in
    lt_of_scaled (0 + (y - 48)) (10 ^ length ds) (10 ^ length es) _ _
      (omega (arith, lead-ge-one y hy lead)) (pow-le-pow_right {n = 10} (omega arith) (omega arith))
      (decimal-bounds 0 ds hd).1 (decimal-bounds (0 + (y - 48)) es hes).0

abbrev Run : Text → Type 0
Run ds = every is_digit ds ≡ true

lengths : (m n : ℕ) → (m ≡ n) ⊎ (m < n) ⊎ (n < m)
lengths m n = grind arith

stripped-Agrees :
    (ds es l r : Text)
    → Run ds
    → Run es
    → Leads ds
    → Leads es
    → at_digit l ≡ false
    → at_digit r ≡ false
    → Agrees (digits_loop (pos 0) (ds ++ l) (es ++ r)).0 (decimal 0 ds) (decimal 0 es)
unfolding is_zero is_neg
stripped-Agrees ds es l r hd he kd ke hl hr = elim (lengths (length ds) (length es)) [
  | inl same ↦ (digits_loop-Agrees (pos 0) 0 0 ds es l r same (refl, refl) hd he hl hr).0
  | inr (inl shorter) ↦
      rw (digits_loop-shorter (pos 0) ds es l r shorter hd he hl)
        (ground (arith, decimal-lt_of_shorter ds es hd he ke shorter))
  | inr (inr longer) ↦
      rw (digits_loop-longer (pos 0) ds es l r longer hd he hr)
        (ground (arith, decimal-lt_of_shorter es ds he hd kd longer))
]

-- Two runs of digits, each followed by no digit, are compared as the numbers that they write: the
-- difference is negative exactly when the left number is smaller, and 0 exactly when they are equal.
pub compare_digits-Agrees :
    (ds es l r : Text)
    → every is_digit ds ≡ true
    → every is_digit es ≡ true
    → at_digit l ≡ false
    → at_digit r ≡ false
    → (is_neg (compare_digits (ds ++ l) (es ++ r)).0 ≡ ltb (decimal 0 ds) (decimal 0 es))
      × (is_zero (compare_digits (ds ++ l) (es ++ r)).0 ≡ (decimal 0 ds == decimal 0 es))
unfolding compare_digits
compare_digits-Agrees ds es l r hd he hl hr =
    rw
      (
        skip_zeros-append ds l hd hl,
        skip_zeros-append es r he hr,
        ← decimal-skip_zeros ds,
        ← decimal-skip_zeros es,
      )
      (stripped-Agrees (skip_zeros ds) (skip_zeros es) l r (skip_zeros-digits ds hd)
        (skip_zeros-digits es he) (skip_zeros-Leads ds) (skip_zeros-Leads es) hl hr)
