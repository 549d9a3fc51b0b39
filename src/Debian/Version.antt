-- ===== src/Debian/Version.antt =====
-- Debian version comparison: `_order` to `compare_versions` of mkosi/debian/generate_lock.py.
-- An index into a text is the rest of the text from it on. Texts are ASCII.
pub mod Antisymmetry
pub mod Fuel
pub mod Numbers
use rules_mkosi.Prelude.{
  ℕ, zero, suc, ◌+◌, ◌-◌, ◌*◌, Bool, true, false, not, ◌&&◌, ◌||◌, List, [], ◌∷◌, ◌++◌, Option,
  none, some, length, ltb, leb, ◌==◌, if◌then◌else◌, Outcome, ok, err, ◌>>=◌,
}
use rules_mkosi.Prelude.Int.{ℤ, pos, negsuc, ◌-ℤ◌, int_eq, is_zero}
use rules_mkosi.Prelude.Text.{Text, is_digit, is_alpha, is_numeric, decimal}
use rules_mkosi.Debian.Error.{LockError, invalid_epoch}

-- `_order`
unfoldable pub order : ℕ → ℤ
unfolding is_digit is_alpha
order c =
    if c == b'~'
    then negsuc 0
    else if is_digit c
    then pos 0
    else if is_alpha c
    then pos c
    else pos (c + 256)

-- What a comparison step returns: the difference, and what is left of both texts.
abbrev pub Step : Type 0
Step = ℤ × Text × Text

-- `_compare_non_digits`. Past the end of a text the order is 0.
unfoldable pub compare_non_digits : Text → Text → Step
compare_non_digits [] [] = (pos 0, [], [])
compare_non_digits (a ∷ l) [] =
    let rest = compare_non_digits l [] in
    if is_digit a
    then (pos 0, a ∷ l, [])
    else if int_eq (order a) (pos 0)
    then rest
    else (order a -ℤ pos 0, a ∷ l, [])
compare_non_digits [] (b ∷ r) =
    let rest = compare_non_digits [] r in
    if is_digit b
    then (pos 0, [], b ∷ r)
    else if int_eq (pos 0) (order b)
    then rest
    else (pos 0 -ℤ order b, [], b ∷ r)
compare_non_digits (a ∷ l) (b ∷ r) =
    let rest = compare_non_digits l r in
    if is_digit a && is_digit b
    then (pos 0, a ∷ l, b ∷ r)
    else if int_eq (order a) (order b)
    then rest
    else (order a -ℤ order b, a ∷ l, b ∷ r)

-- The first two loops of `_compare_digits`.
unfoldable pub skip_zeros : Text → Text
skip_zeros [] = []
skip_zeros (c ∷ s) = let rest = skip_zeros s in if c == b'0' then rest else c ∷ s

-- The test of one end of the digit runs, with which `_compare_digits` ends.
unfoldable pub at_digit : Text → Bool
at_digit [] = false
at_digit (c ∷ s) = is_digit c

unfoldable pub finish_digits : ℤ → Text → Text → Step
unfolding at_digit
finish_digits difference l r =
    if at_digit l
    then (pos 1, l, r)
    else if at_digit r
    then (negsuc 0, l, r)
    else (difference, l, r)

-- The last loop of `_compare_digits`, and the tests after it.
unfoldable pub digits_loop : ℤ → Text → Text → Step
unfolding finish_digits
digits_loop difference (a ∷ l) (b ∷ r) =
    let rest = digits_loop (if is_zero difference then pos a -ℤ pos b else difference) l r in
    if is_digit a && is_digit b then rest else finish_digits difference (a ∷ l) (b ∷ r)
digits_loop difference [] r = finish_digits difference [] r
digits_loop difference (a ∷ l) [] = finish_digits difference (a ∷ l) []

-- `_compare_digits`
unfoldable pub compare_digits : Text → Text → Step
unfolding digits_loop skip_zeros
compare_digits l r = digits_loop (pos 0) (skip_zeros l) (skip_zeros r)

-- One round of `_compare_fragment`: the non-digits, then the digits, unless there was a difference.
unfoldable pub fragment_round : Text → Text → Step
unfolding compare_non_digits compare_digits
fragment_round l r =
    let (d, l', r') = compare_non_digits l r in
    if is_zero d then compare_digits l' r' else (d, l', r')

unfoldable pub is_empty : Text → Bool
is_empty [] = true
is_empty (c ∷ s) = false

-- The `while` loop of `_compare_fragment` on fuel; `none` means that the fuel ran out.
unfoldable pub fragment_loop : ℕ → Text → Text → Option ℤ
unfolding fragment_round is_empty
fragment_loop zero l r = none
fragment_loop (suc fuel) l r =
    let (d, l', r') = fragment_round l r in
    let rest = fragment_loop fuel l' r' in
    if is_empty l && is_empty r then some (pos 0) else if is_zero d then rest else some d

unfoldable pub or_zero : Option ℤ → ℤ
or_zero none = pos 0
or_zero (some d) = d

-- `_compare_fragment`. Each round that goes on shortens the texts, so their lengths are enough.
unfoldable pub compare_fragment : Text → Text → ℤ
unfolding fragment_loop or_zero
compare_fragment l r = or_zero (fragment_loop (length l + length r + 1) l r)

-- `text.split(sep, 1)`: the part before the first separator and the part after it.
unfoldable pub split_first : ℕ → Text → Option (Text × Text)
split_first sep [] = none
split_first sep (c ∷ s) =
    let rest = split_first sep s in
    if c == sep
    then some ([], s)
    else elim rest [ none ↦ none | some (before, after) ↦ some (c ∷ before, after) ]

-- `text.rpartition(sep)`: the parts about the last separator.
unfoldable pub split_last : ℕ → Text → Option (Text × Text)
split_last sep [] = none
split_last sep (c ∷ s) = elim (split_last sep s) [
  | some (before, after) ↦ some (c ∷ before, after)
  | none ↦ if c == sep then some ([], s) else none
]

pub record Version : Type 0 where
  pub epoch : ℕ
  pub upstream : Text
  pub revision : Text

-- `_split_version`
unfoldable pub split_revision : ℕ → Text → Version
unfolding split_last
split_revision epoch text = elim (split_last b'-' text) [
  | none ↦ record { epoch = epoch; upstream = text; revision = [] }
  | some (upstream, revision) ↦ record { epoch = epoch; upstream = upstream; revision = revision }
]

unfoldable pub split_version : Text → Outcome LockError Version
unfolding split_first split_revision is_numeric decimal
split_version text = elim (split_first b':' text) [
  | none ↦ ok (split_revision 0 text)
  | some (epoch_text, rest) ↦
      if is_numeric epoch_text
      then ok (split_revision (decimal 0 epoch_text) rest)
      else err invalid_epoch
]

-- The part of `compare_versions` after the split. `x or y` is `y` where `x` is 0.
unfoldable pub compare_parts : Version → Version → ℤ
unfolding compare_fragment
compare_parts left right =
    if left.epoch == right.epoch
    then (let d = compare_fragment left.upstream right.upstream in
        if is_zero d then compare_fragment left.revision right.revision else d)
    else pos left.epoch -ℤ pos right.epoch

-- `compare_versions`
unfoldable pub compare_versions : Text → Text → Outcome LockError ℤ
unfolding split_version compare_parts
compare_versions left right = do
  l ← split_version left
  r ← split_version right
  ok (compare_parts l r)
