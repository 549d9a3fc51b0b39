-- ===== src/Debian/Version/Fuel.antt =====
-- The comparison loop ends: each round that finds no difference shortens the texts.
use rules_mkosi.Prelude.{
  ℕ, zero, suc, ◌+◌, ◌≤◌, ◌<◌, ◌≡◌, refl, Bool, true, false, ◌&&◌, ◌||◌, [], ◌∷◌, some, length,
  if◌then◌else◌, arith, Bool-cases, inl, inr,
}
use rules_mkosi.Prelude.Int.{ℤ, pos, ◌-ℤ◌, int_eq, is_zero, is_zero-sub}
use rules_mkosi.Prelude.Text.{Text, is_digit}
use rules_mkosi.Debian.Version.{
  order, Step, compare_non_digits, skip_zeros, digits_loop, compare_digits, fragment_round,
  fragment_loop, is_empty, at_digit,
}

abbrev size : Step → ℕ
size (d, l, r) = length l + length r

-- No text is left, or the rest begins with a digit.
ready : Text → Bool
ready [] = true
ready (c ∷ s) = is_digit c

non_digits-size : (l r : Text) → size (compare_non_digits l r) ≤ length l + length r
unfolding compare_non_digits
non_digits-size [] [] = omega arith
non_digits-size (a ∷ l) [] = ground (arith, non_digits-size l [])
non_digits-size [] (b ∷ r) = ground (arith, non_digits-size [] r)
non_digits-size (a ∷ l) (b ∷ r) = ground (arith, non_digits-size l r)

abbrev Ready : Step → Type 0
Ready (d, l, r) = is_zero d ≡ true → (ready l ≡ true) × (ready r ≡ true)

order-digit : (c : ℕ) → int_eq (order c) (pos 0) ≡ is_digit c
unfolding order int_eq is_digit
order-digit c = ground arith

non_digits-Ready : (l r : Text) → Ready (compare_non_digits l r)
unfolding compare_non_digits ready
non_digits-Ready [] [] h = (refl, refl)
non_digits-Ready (a ∷ l) [] h =
    ground (arith, non_digits-Ready l [], is_zero-sub (order a) (pos 0), order-digit a)
non_digits-Ready [] (b ∷ r) h = ground (arith, non_digits-Ready [] r, is_zero-sub (pos 0) (order b))
non_digits-Ready (a ∷ l) (b ∷ r) h =
    ground
      (arith, non_digits-Ready l r, is_zero-sub (order a) (order b), order-digit a, order-digit b)

skip_zeros-size : (s : Text) → length (skip_zeros s) ≤ length s
unfolding skip_zeros
skip_zeros-size [] = omega arith
skip_zeros-size (c ∷ s) = ground (arith, skip_zeros-size s)

-- A digit that the first loops leave is none that they would drop, so it is still there.
skip_zeros-stops :
    (s : Text)
    → ready s ≡ true
    → at_digit (skip_zeros s) ≡ false
    → length (skip_zeros s) ≡ length s
    → length s ≡ 0
unfolding skip_zeros ready at_digit
skip_zeros-stops [] h k e = refl
skip_zeros-stops (c ∷ s) h k e = ground (arith, skip_zeros-size s)

digits_loop-size : (d : ℤ) (l r : Text) → size (digits_loop d l r) ≤ length l + length r
unfolding digits_loop
digits_loop-size d [] [] = ground arith
digits_loop-size d (a ∷ l) [] = ground arith
digits_loop-size d [] (b ∷ r) = ground arith
digits_loop-size d (a ∷ l) (b ∷ r) =
    ground (arith, digits_loop-size (if is_zero d then pos a -ℤ pos b else d) l r)

abbrev Shortens : ℕ → Step → Type 0
Shortens n (d, l, r) = is_zero d ≡ true → length l + length r < n

-- A loop that begins at a digit of one text consumes it or finds a difference.
digits_loop-Shortens :
    (d : ℤ) (l r : Text)
    → at_digit l || at_digit r ≡ true
    → Shortens (length l + length r) (digits_loop d l r)
unfolding digits_loop at_digit is_zero
digits_loop-Shortens d [] [] h = cc
digits_loop-Shortens d (a ∷ l) [] h = ground arith
digits_loop-Shortens d [] (b ∷ r) h = ground arith
digits_loop-Shortens d (a ∷ l) (b ∷ r) h =
    ground (arith, digits_loop-size (if is_zero d then pos a -ℤ pos b else d) l r)

compare_digits-Shortens :
    (l r : Text)
    → ready l ≡ true
    → ready r ≡ true
    → 0 < length l + length r
    → Shortens (length l + length r) (compare_digits l r)
unfolding compare_digits
compare_digits-Shortens l r hl hr h = ground (
  arith,
  skip_zeros-size l,
  skip_zeros-size r,
  skip_zeros-stops l hl,
  skip_zeros-stops r hr,
  digits_loop-size (pos 0) (skip_zeros l) (skip_zeros r),
  digits_loop-Shortens (pos 0) (skip_zeros l) (skip_zeros r),
)

compare_digits-size : (l r : Text) → size (compare_digits l r) ≤ length l + length r
unfolding compare_digits
compare_digits-size l r = ground (
  arith,
  skip_zeros-size l,
  skip_zeros-size r,
  digits_loop-size (pos 0) (skip_zeros l) (skip_zeros r),
)

fragment_round-Shortens :
    (l r : Text) → 0 < length l + length r → Shortens (length l + length r) (fragment_round l r)
unfolding fragment_round
fragment_round-Shortens l r h =
    let (d, l', r') = compare_non_digits l r in
    ground (
      arith,
      non_digits-size l r,
      non_digits-Ready l r,
      compare_digits-size l' r',
      compare_digits-Shortens l' r',
    )

empty-length : (s : Text) → is_empty s ≡ false → 0 < length s
unfolding is_empty
empty-length [] h = cc
empty-length (c ∷ s) h = omega arith

suc-add : (n m : ℕ) → suc n + m ≡ suc (n + m)
suc-add n m = omega arith

-- With more fuel than the texts have characters the loop of `_compare_fragment` ends, and more
-- fuel gives the same difference.
pub fragment_loop-total :
    (fuel more : ℕ) (l r : Text)
    → length l + length r < fuel
    → (d : ℤ) × (fragment_loop fuel l r ≡ some d) × (fragment_loop (fuel + more) l r ≡ some d)
unfolding fragment_loop
fragment_loop-total zero more l r h = absurd (omega arith)
fragment_loop-total (suc fuel) more l r h =
    let (d, l', r') = fragment_round l r in
    elim (Bool-cases (is_empty l && is_empty r)) [
      | inl done ↦ (pos 0, rw done, rw (suc-add fuel more, done))
      | inr more_text ↦ elim (Bool-cases (is_zero d)) [
        | inl same ↦
            let (x, p, q) =
              fragment_loop-total fuel more l' r'
                (ground (arith, fragment_round-Shortens l r, empty-length l, empty-length r)) in
            (x, rw (more_text, same, p), rw (suc-add fuel more, more_text, same, q))
        | inr differ ↦ (d, rw (more_text, differ), rw (suc-add fuel more, more_text, differ))
      ]
    ]
