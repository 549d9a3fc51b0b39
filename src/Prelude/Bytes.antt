-- ===== src/Prelude/Bytes.antt =====
-- Byte strings, their slices, and the little-endian integers of Python's `struct`.
use Prim.Native.Nat.{ℕ, zero, suc, ◌+◌, ◌*◌, ◌/◌, ◌%◌, ◌≤◌}
use mathlib.Core.Path.{◌≡◌, refl, ap, ◌∙◌}
use mathlib.Core.List.{List, [], ◌∷◌, ◌++◌}
use native.Mathlib.Omega.{arith}
use rules_mkosi.Prelude.Lists.{
  drop-append_le, take-append_le, drop-append_ge, length, take, drop, replicate, length-append,
  length-take, length-drop,
}

abbrev pub Bytes : Type 0
Bytes = List ℕ

-- `bytes[offset : offset + size]`
abbrev pub slice : ℕ → ℕ → Bytes → Bytes
slice offset size bytes = take size (drop offset bytes)

-- `bytes[offset : offset + len(value)] = value` of a `bytearray`.
unfoldable pub put : ℕ → Bytes → Bytes → Bytes
put offset value bytes = take offset bytes ++ (value ++ drop (offset + length value) bytes)

-- `b"\0" * n`
abbrev pub zeros : ℕ → Bytes
zeros n = replicate n 0

-- An unsigned little-endian integer.
unfoldable pub little_endian : Bytes → ℕ
little_endian [] = 0
little_endian (b ∷ bs) = b + 256 * little_endian bs

-- `struct.unpack_from("<I", bytes, offset)` and so on, with the size in bytes.
unfoldable pub unpack : ℕ → ℕ → Bytes → ℕ
unfolding little_endian
unpack size offset bytes = little_endian (slice offset size bytes)

-- The bytes of an integer, lowest first.
unfoldable pub pack : ℕ → ℕ → Bytes
pack zero n = []
pack (suc size) n = (n % 256) ∷ pack size (n / 256)

pub length-pack : (size n : ℕ) → length (pack size n) ≡ size
unfolding pack
length-pack zero n = refl
length-pack (suc size) n = omega (arith, length-pack size (n / 256))

-- A write inside of the data keeps its length.
pub length-put :
    (offset : ℕ) (value bytes : Bytes)
    → offset + length value ≤ length bytes
    → length (put offset value bytes) ≡ length bytes
unfolding put
length-put offset value bytes h = omega (
  arith,
  length-append {0} (take offset bytes) (value ++ drop (offset + length value) bytes),
  length-append {0} value (drop (offset + length value) bytes),
  length-take {0} offset bytes,
  length-drop {0} (offset + length value) bytes,
)

-- A slice of the first part of a concatenation, and one of its second part.
pub slice-append_left :
    (offset size : ℕ) (xs ys : Bytes)
    → offset + size ≤ length xs
    → slice offset size (xs ++ ys) ≡ slice offset size xs
slice-append_left offset size xs ys h =
    ap (take size) (drop-append_le offset xs ys (omega arith))
    ∙ take-append_le size (drop offset xs) ys (omega (arith, length-drop {0} offset xs))

pub slice-append_right :
    (offset size : ℕ) (xs ys : Bytes)
    → slice (length xs + offset) size (xs ++ ys) ≡ slice offset size ys
slice-append_right offset size xs ys = ap (take size) (drop-append_ge xs ys offset)
