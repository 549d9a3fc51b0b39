-- ===== src/Esp/Names.antt =====
-- The names of directory entries: `_short_name_checksum` to `_fold`. The code page 437 and Python's
-- case mappings are parameters.
use rules_mkosi.Prelude.{
  ℕ, zero, suc, ◌+◌, ◌-◌, ◌*◌, ◌/◌, ◌%◌, Bool, true, not, ◌&&◌, ◌||◌, List, [], ◌∷◌, ◌++◌, Option,
  none, some, take, map, leb, ◌==◌, if◌then◌else◌,
}
use rules_mkosi.Prelude.Text.{Text, text_eq}
use rules_mkosi.Prelude.Bytes.{Bytes, slice, unpack}
use rules_mkosi.Gpt.Partitions.{until_nul}

-- Bit `n` of a byte, `2 ^ n` being given.
abbrev pub has_bit : ℕ → ℕ → Bool
has_bit byte power = byte / power % 2 == 1

-- `_short_name_checksum`, from a checksum on.
unfoldable pub short_name_checksum : ℕ → Bytes → ℕ
short_name_checksum checksum [] = checksum
short_name_checksum checksum (byte ∷ raw_name) =
    short_name_checksum ((checksum % 2 * 128 + checksum / 2 + byte) % 256) raw_name

-- `bytes.rstrip(b" ")`
unfoldable pub strip_spaces : Bytes → Bytes
strip_spaces [] = []
strip_spaces (b ∷ bs) = elim (strip_spaces bs) [
  | [] ↦ if b == 32 then [] else b ∷ []
  | c ∷ cs ↦ b ∷ c ∷ cs
]

-- `units.decode("utf-16-le", errors="replace")`
unfoldable pub decode_replacing : Bytes → Text
decode_replacing [] = []
decode_replacing (lo ∷ []) = 0xfffd ∷ []
decode_replacing (lo ∷ hi ∷ []) =
    let unit = lo + 256 * hi in (if leb 0xd800 unit && leb unit 0xdfff then 0xfffd else unit) ∷ []
decode_replacing (lo ∷ hi ∷ odd ∷ []) =
    let unit = lo + 256 * hi in
    (if leb 0xd800 unit && leb unit 0xdfff then 0xfffd else unit) ∷ 0xfffd ∷ []
decode_replacing (lo ∷ hi ∷ lo' ∷ hi' ∷ rest) =
    let unit = lo + 256 * hi in
    let next = lo' + 256 * hi' in
    let single = decode_replacing (lo' ∷ hi' ∷ rest) in
    let paired = decode_replacing rest in
    if leb 0xd800 unit && leb unit 0xdbff && leb 0xdc00 next && leb next 0xdfff
    then (0x10000 + (unit - 0xd800) * 1024 + (next - 0xdc00)) ∷ paired
    else if leb 0xd800 unit && leb unit 0xdfff
    then 0xfffd ∷ single
    else unit ∷ single

abbrev pub max_long_name_slots : ℕ
max_long_name_slots = 20

-- `slot[0]`
unfoldable pub first_byte : Bytes → ℕ
unfolding unpack
first_byte raw = unpack 1 0 raw

-- `byte & ~_LAST_LONG_NAME_SLOT` of a byte.
unfoldable pub slot_number : ℕ → ℕ
slot_number byte = byte % 64 + byte / 128 * 128

-- `list(range(n, 0, -1))`
unfoldable pub countdown : ℕ → List ℕ
countdown zero = []
countdown (suc n) = suc n ∷ countdown n

-- The first bytes of the slots of a long name of `count` slots.
unfoldable pub expected_slots : ℕ → List ℕ
unfolding countdown
expected_slots count = (if has_bit count 64 then count else count + 64) ∷ countdown (count - 1)

unfoldable pub all_checksums : ℕ → List Bytes → Bool
unfolding unpack
all_checksums checksum [] = true
all_checksums checksum (slot ∷ slots) = unpack 1 13 slot == checksum && all_checksums checksum slots

-- The code units of the slots, which stand on the disk in reverse.
unfoldable pub slot_units : List Bytes → Bytes
slot_units [] = []
slot_units (slot ∷ slots) =
    slot_units slots ++ (slice 1 10 slot ++ (slice 14 12 slot ++ slice 28 4 slot))

-- `text or None`
unfoldable pub nonempty : Text → Option Text
nonempty [] = none
nonempty (c ∷ s) = some (c ∷ s)

-- `_long_name` of slots that start with `first`.
unfoldable pub long_name_of : Bytes → List Bytes → Bytes → Option Text
unfolding first_byte slot_number expected_slots all_checksums slot_units nonempty decode_replacing
    short_name_checksum text_eq until_nul
long_name_of first slots raw =
    let count = slot_number (first_byte first) in
    let checksum = short_name_checksum 0 (take 11 raw) in
    if not (leb 1 count && leb count max_long_name_slots)
    then none
    else if not (text_eq (map first_byte slots) (expected_slots count))
        || not (all_checksums checksum slots)
    then none
    else nonempty (until_nul (decode_replacing (slot_units slots)))

-- `_long_name`
unfoldable pub long_name : List Bytes → Bytes → Option Text
unfolding long_name_of
long_name [] raw = none
long_name (first ∷ slots) raw = long_name_of first (first ∷ slots) raw

module _ (cp437 : ℕ → ℕ) (lower : Text → Text) where
  -- `_short_name`
  unfoldable pub short_name : Bytes → Text
  unfolding first_byte strip_spaces unpack
  short_name raw =
      let first = if first_byte raw == 5 then 0xe5 ∷ slice 1 7 raw else take 8 raw in
      let base = map cp437 (strip_spaces first) in
      let extension = map cp437 (strip_spaces (slice 8 3 raw)) in
      let flags = unpack 1 12 raw in
      let base' = if has_bit flags 8 then lower base else base in
      let extension' = if has_bit flags 16 then lower extension else extension in
      elim extension' [ [] ↦ base' | c ∷ s ↦ base' ++ (b'.' ∷ c ∷ s) ]
