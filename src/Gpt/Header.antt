-- ===== src/Gpt/Header.antt =====
-- The two headers of a GPT: `_read_exact` to `_validated_gpt` of mkosi/private/partition_metadata.py.
-- An image is its bytes; CRC-32 is a parameter.
pub mod Bounds
use rules_mkosi.Prelude.{
  ℕ, zero, suc, ◌+◌, ◌-◌, ◌*◌, ◌/◌, ◌%◌, Bool, true, false, not, ◌&&◌, ◌||◌, List, [], ◌∷◌, ◌++◌,
  Option, none, some, length, take, drop, ltb, leb, ◌==◌, if◌then◌else◌, Outcome, ok, err, guard,
  ◌>>=◌, ◌>>◌,
}
use rules_mkosi.Prelude.Text.{Text, codes, text_eq}
use rules_mkosi.Prelude.Bytes.{Bytes, slice, put, zeros, unpack}
use rules_mkosi.Gpt.Error.{
  GptError, outside_image, truncated, invalid_signature, unsupported_revision, invalid_header_size,
  header_crc_mismatch, nonzero_reserved, invalid_reciprocal, unexpected_location,
  invalid_usable_range, hostile_count, hostile_entry_size, oversized_array, invalid_array_location,
  array_not_before_usable, array_not_after_usable, array_crc_mismatch, ambiguous_sector_size,
  copies_disagree, arrays_disagree,
}

-- `_read_exact`
unfoldable pub read_exact : Bytes → ℕ → ℕ → ℕ → Outcome GptError Bytes
read_exact image offset size image_size =
    if ltb image_size offset || ltb (image_size - offset) size
    then err outside_image
    else (let value = slice offset size image in
        if length value == size then ok value else err truncated)

-- `_require`: the first check that fails gives the error.
unfoldable pub require : List (Bool × GptError) → Outcome GptError (Unit {0})
require [] = ok tt
require ((passed, e) ∷ checks) = let rest = require checks in if passed then rest else err e

-- What `_header_fields` reads from a header.
pub record Fields : Type 0 where
  pub array_crc : ℕ
  pub backup : ℕ
  pub count : ℕ
  pub current : ℕ
  pub entries_lba : ℕ
  pub entry_size : ℕ
  pub first_usable : ℕ
  pub last_usable : ℕ

-- `_header_fields`
unfoldable pub header_fields : Bytes → Fields
unfolding unpack
header_fields raw = record {
  array_crc = unpack 4 88 raw;
  backup = unpack 8 32 raw;
  count = unpack 4 80 raw;
  current = unpack 8 24 raw;
  entries_lba = unpack 8 72 raw;
  entry_size = unpack 4 84 raw;
  first_usable = unpack 8 40 raw;
  last_usable = unpack 8 48 raw;
}

-- What `_header` returns.
pub record Header : Type 0 where
  pub array : Bytes
  pub array_offset : ℕ
  pub count : ℕ
  pub disk_guid : Bytes
  pub entry_size : ℕ
  pub entries_lba : ℕ
  pub first_usable : ℕ
  pub header_offset : ℕ
  pub header_size : ℕ
  pub last_usable : ℕ
  pub raw_header : Bytes

abbrev pub max_array_bytes : ℕ
max_array_bytes = 64 * 1024 * 1024

abbrev pub max_entries : ℕ
max_entries = 1024 * 1024

-- `_check_header_geometry`
unfoldable pub check_header_geometry : Fields → ℕ → ℕ → ℕ → Outcome GptError (Unit {0})
unfolding require
check_header_geometry f lba expected_backup last_lba = require (
    (f.current == lba && f.backup == expected_backup, invalid_reciprocal)
    ∷ (lba == 1 || lba == last_lba, unexpected_location)
    ∷ (leb f.first_usable f.last_usable && ltb f.last_usable last_lba, invalid_usable_range)
    ∷ (ltb 0 f.count && leb f.count max_entries, hostile_count)
    ∷ (leb 128 f.entry_size && leb f.entry_size 4096 && f.entry_size % 8 == 0, hostile_entry_size)
    ∷ (leb (f.count * f.entry_size) max_array_bytes, oversized_array)
    ∷ [])

-- `_check_array_location`
unfoldable pub check_array_location : Fields → ℕ → ℕ → ℕ → Outcome GptError (Unit {0})
unfolding require
check_array_location f lba last_lba array_last_lba = require (
    (leb 2 f.entries_lba && ltb array_last_lba last_lba, invalid_array_location)
    ∷ (not (lba == 1) || ltb array_last_lba f.first_usable, array_not_before_usable)
    ∷ (not (lba == last_lba) || ltb f.last_usable f.entries_lba, array_not_after_usable)
    ∷ [])

module _ (crc32 : Bytes → ℕ) where
  -- The checks of `_check_header_bytes`.
  unfoldable pub header_checks : Bytes → ℕ → List (Bool × GptError)
  unfolding text_eq put unpack
  header_checks raw sector_size =
      let revision = unpack 4 8 raw in
      let header_size = unpack 4 12 raw in
      let header_crc = unpack 4 16 raw in
      let checked = put 16 (zeros 4) (take header_size raw) in
      (text_eq (take 8 raw) (codes "EFI PART"), invalid_signature)
      ∷ (revision == 0x00010000, unsupported_revision)
      ∷ (leb 92 header_size && leb header_size sector_size, invalid_header_size)
      ∷ (crc32 checked == header_crc, header_crc_mismatch)
      ∷ (text_eq (slice 20 4 raw) (zeros 4), nonzero_reserved)
      ∷ []

  -- `_check_header_bytes`
  unfoldable pub check_header_bytes : Bytes → ℕ → Outcome GptError ℕ
  unfolding require header_checks
  check_header_bytes raw sector_size =
      require (header_checks raw sector_size) >> ok (unpack 4 12 raw)

  -- `_header`
  unfoldable pub header : Bytes → ℕ → ℕ → ℕ → ℕ → Outcome GptError Header
  unfolding read_exact check_header_bytes header_fields check_header_geometry check_array_location
  header image image_size sector_size lba expected_backup = do
    raw ← read_exact image (lba * sector_size) sector_size image_size
    header_size ← check_header_bytes raw sector_size
    let f = header_fields raw
    let last_lba = image_size / sector_size - 1
    check_header_geometry f lba expected_backup last_lba
    let array_size = f.count * f.entry_size
    let array_offset = f.entries_lba * sector_size
    array ← read_exact image array_offset array_size image_size
    let array_last_lba = f.entries_lba + (array_size + sector_size - 1) / sector_size - 1
    check_array_location f lba last_lba array_last_lba
    guard (crc32 array == f.array_crc) array_crc_mismatch
    ok (record {
      array = array;
      array_offset = array_offset;
      count = f.count;
      disk_guid = slice 56 16 raw;
      entry_size = f.entry_size;
      entries_lba = f.entries_lba;
      first_usable = f.first_usable;
      header_offset = lba * sector_size;
      header_size = header_size;
      last_usable = f.last_usable;
      raw_header = raw;
    })

-- The test of `_sector_size` for one size.
unfoldable pub has_gpt : Bytes → ℕ → ℕ → Bool
unfolding text_eq
has_gpt image image_size size =
    image_size % size == 0
    && leb (size * 3) image_size
    && text_eq (slice size 8 image) (codes "EFI PART")

-- `_sector_size`: exactly one of the two sizes has a signature.
unfoldable pub find_sector_size : Bytes → ℕ → Outcome GptError ℕ
find_sector_size image image_size =
    if has_gpt image image_size 512
    then (if has_gpt image image_size 4096 then err ambiguous_sector_size else ok 512)
    else if has_gpt image image_size 4096
    then ok 4096
    else err ambiguous_sector_size

-- The comparisons of `_validated_gpt`.
unfoldable pub copies_agree : Header → Header → Outcome GptError (Unit {0})
unfolding require text_eq
copies_agree primary backup = require (
    (text_eq primary.disk_guid backup.disk_guid, copies_disagree)
    ∷ (primary.first_usable == backup.first_usable, copies_disagree)
    ∷ (primary.last_usable == backup.last_usable, copies_disagree)
    ∷ (primary.count == backup.count, copies_disagree)
    ∷ (primary.entry_size == backup.entry_size, copies_disagree)
    ∷ (text_eq primary.array backup.array, arrays_disagree)
    ∷ [])

pub record Gpt : Type 0 where
  pub image_size : ℕ
  pub sector_size : ℕ
  pub primary : Header
  pub backup : Header

-- `_validated_gpt`
unfoldable pub validated_gpt : (Bytes → ℕ) → Bytes → Outcome GptError Gpt
unfolding find_sector_size has_gpt header copies_agree
validated_gpt crc32 image = do
  let image_size = length image
  sector_size ← find_sector_size image image_size
  let last_lba = image_size / sector_size - 1
  primary ← header crc32 image image_size sector_size 1 last_lba
  backup ← header crc32 image image_size sector_size last_lba 1
  copies_agree primary backup
  ok (record {
    image_size = image_size;
    sector_size = sector_size;
    primary = primary;
    backup = backup;
  })
