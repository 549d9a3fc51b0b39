-- ===== src/Debian/Version/Antisymmetry.antt =====
-- Exchanging the two versions negates the difference, at every level of the comparison.
use rules_mkosi.Prelude.{
  ℕ, zero, suc, ◌+◌, ◌≡◌, refl, sym, false, ◌&&◌, [], ◌∷◌, Option, none, some, length,
  if◌then◌else◌, arith, ok, err, ◌>>=◌, Outcome-cases, inl, inr,
}
use rules_mkosi.Prelude.Int.{ℤ, pos, neg, ◌-ℤ◌, is_zero, int_eq_comm, neg-sub, is_zero-neg}
use rules_mkosi.Prelude.Text.{Text}
use rules_mkosi.Debian.Version.{
  order, Step, compare_non_digits, skip_zeros, finish_digits, digits_loop, compare_digits,
  fragment_round, fragment_loop, or_zero, compare_fragment, at_digit, Version, compare_parts,
  compare_versions, split_version,
}
use rules_mkosi.Debian.Error.{LockError, invalid_epoch}
use native.Mathlib.Nat.{add_comm}

abbrev flip : Step → Step
flip (d, l, r) = (neg d, r, l)

neg-zero : neg (pos 0) ≡ pos 0
unfolding neg
neg-zero = refl

non_digits-flip : (l r : Text) → compare_non_digits r l ≡ flip (compare_non_digits l r)
unfolding compare_non_digits
non_digits-flip [] [] = rw neg-zero
non_digits-flip (a ∷ l) [] = ground (
  arith,
  non_digits-flip l [],
  neg-sub (order a) (pos 0),
  int_eq_comm (order a) (pos 0),
  neg-zero,
)
non_digits-flip [] (b ∷ r) = ground (
  arith,
  non_digits-flip [] r,
  neg-sub (pos 0) (order b),
  int_eq_comm (order b) (pos 0),
  neg-zero,
)
non_digits-flip (a ∷ l) (b ∷ r) = ground (
  arith,
  non_digits-flip l r,
  neg-sub (order a) (order b),
  int_eq_comm (order a) (order b),
  neg-zero,
)

-- Both texts cannot go on with a digit where the loop ends; then the order of the tests counts.
finish-flip :
    (d : ℤ) (l r : Text)
    → (at_digit l && at_digit r) ≡ false
    → finish_digits (neg d) r l ≡ flip (finish_digits d l r)
unfolding finish_digits neg
finish-flip d l r h = ground arith

next-flip :
    (d : ℤ) (a b : ℕ)
    → (if is_zero (neg d) then pos b -ℤ pos a else neg d)
      ≡ neg (if is_zero d then pos a -ℤ pos b else d)
next-flip d a b = ground (arith, is_zero-neg d, neg-sub (pos a) (pos b))

digits_loop-flip : (d : ℤ) (l r : Text) → digits_loop (neg d) r l ≡ flip (digits_loop d l r)
unfolding digits_loop at_digit
digits_loop-flip d [] [] = finish-flip d [] [] refl
digits_loop-flip d (a ∷ l) [] = finish-flip d (a ∷ l) [] (ground arith)
digits_loop-flip d [] (b ∷ r) = finish-flip d [] (b ∷ r) refl
digits_loop-flip d (a ∷ l) (b ∷ r) = rw (next-flip d a b) (
    ground (
      arith,
      digits_loop-flip (if is_zero d then pos a -ℤ pos b else d) l r,
      finish-flip d (a ∷ l) (b ∷ r),
    ))

compare_digits-flip : (l r : Text) → compare_digits r l ≡ flip (compare_digits l r)
unfolding compare_digits
compare_digits-flip l r =
    ground (arith, digits_loop-flip (pos 0) (skip_zeros l) (skip_zeros r), neg-zero)

fragment_round-flip : (l r : Text) → fragment_round r l ≡ flip (fragment_round l r)
unfolding fragment_round
fragment_round-flip l r =
    let (d, l', r') = compare_non_digits l r in
    rw (non_digits-flip l r) (ground (arith, is_zero-neg d, compare_digits-flip l' r'))

abbrev negated : Option ℤ → Option ℤ
negated none = none
negated (some d) = some (neg d)

fragment_loop-flip :
    (fuel : ℕ) (l r : Text) → fragment_loop fuel r l ≡ negated (fragment_loop fuel l r)
unfolding fragment_loop
fragment_loop-flip zero l r = refl
fragment_loop-flip (suc fuel) l r =
    let (d, l', r') = fragment_round l r in
    rw (fragment_round-flip l r)
      (ground (arith, is_zero-neg d, fragment_loop-flip fuel l' r', neg-zero))

or_zero-negated : (o : Option ℤ) → or_zero (negated o) ≡ neg (or_zero o)
unfolding or_zero
or_zero-negated none = sym neg-zero
or_zero-negated (some d) = refl

compare_fragment-flip : (l r : Text) → compare_fragment r l ≡ neg (compare_fragment l r)
unfolding compare_fragment
compare_fragment-flip l r = ground (
  arith,
  add_comm (length l) (length r),
  fragment_loop-flip (length l + length r + 1) l r,
  or_zero-negated (fragment_loop (length l + length r + 1) l r),
)

compare_parts-flip : (v w : Version) → compare_parts w v ≡ neg (compare_parts v w)
unfolding compare_parts
compare_parts-flip v w = ground (
  arith,
  compare_fragment-flip v.upstream w.upstream,
  compare_fragment-flip v.revision w.revision,
  neg-sub (pos v.epoch) (pos w.epoch),
  is_zero-neg (compare_fragment v.upstream w.upstream),
)

split_version-err : (t : Text) (e : LockError) → split_version t ≡ err e → e ≡ invalid_epoch
unfolding split_version
split_version-err t e h = ground arith

-- Exchanging two versions negates their difference, and neither order of them hides an invalid
-- epoch: one comparison raises exactly when the other does, with the same error.
pub compare_versions-flip :
    (left right : Text)
    → compare_versions right left ≡ (do d ← compare_versions left right; ok (neg d))
unfolding compare_versions
compare_versions-flip left right = elim (Outcome-cases (split_version left)) [
  | inl (v, p) ↦ elim (Outcome-cases (split_version right)) [
    | inl (w, q) ↦ rw (p, q, compare_parts-flip v w)
    | inr (e, q) ↦ rw (p, q)
  ]
  | inr (e, p) ↦ elim (Outcome-cases (split_version right)) [
    | inl (w, q) ↦ rw (p, q)
    | inr (f, q) ↦ rw (p, q, split_version-err left e p, split_version-err right f q)
  ]
]
