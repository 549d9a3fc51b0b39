-- ===== src/Esp/Image.antt =====
-- The disk image and its GPT: `_Image` to `_find_esp`. CRC-32 is a parameter.
use rules_mkosi.Prelude.{
  ℕ, zero, suc, ◌+◌, ◌-◌, ◌*◌, ◌%◌, Bool, ◌&&◌, ◌||◌, List, [], ◌∷◌, ◌++◌, length, take, drop, ltb,
  leb, ◌==◌, if◌then◌else◌, Outcome, ok, err, guard, ◌>>=◌, ◌>>◌,
}
use rules_mkosi.Prelude.Text.{Text, codes, text_eq}
use rules_mkosi.Prelude.Bytes.{Bytes, slice, zeros, unpack}
use rules_mkosi.Gpt.Partitions.{guid_text}
use rules_mkosi.Esp.Error.{
  EspError, beyond_image, no_protective_mbr, no_gpt_header, invalid_header_size, header_crc_differs,
  invalid_array, array_outside, array_crc_differs, esp_count, esp_outside,
}

pub record Partition : Type 0 where
  pub offset : ℕ
  pub size : ℕ
  pub sector_size : ℕ

-- `_Image.read`
unfoldable pub read : Bytes → ℕ → ℕ → Outcome EspError Bytes
read image offset size =
    if ltb (length image) (offset + size) then err beyond_image else ok (slice offset size image)

-- The test of `_gpt_sector_size` for one size.
unfoldable pub has_header : Bytes → ℕ → Bool
unfolding text_eq
has_header image sector_size =
    leb (2 * sector_size) (length image) && text_eq (slice sector_size 8 image) (codes "EFI PART")

-- `_gpt_sector_size`
unfoldable pub gpt_sector_size : Bytes → Outcome EspError ℕ
unfolding read has_header text_eq unpack
gpt_sector_size image = do
  mbr ← read image 0 512
  let protective =
      unpack 1 450 mbr == 0xee
      || unpack 1 466 mbr == 0xee
      || unpack 1 482 mbr == 0xee
      || unpack 1 498 mbr == 0xee
  guard (text_eq (slice 510 2 mbr) (0x55 ∷ 0xaa ∷ []) && protective) no_protective_mbr
  if has_header image 512
      then ok 512
      else if has_header image 4096
      then ok 4096
      else err no_gpt_header

abbrev pub max_gpt_array_bytes : ℕ
max_gpt_array_bytes = 4 * 1024 * 1024

-- `[array[start : start + entry_size] for start in ...]` of an array of `count` entries.
unfoldable pub split_entries : ℕ → ℕ → Bytes → List Bytes
split_entries zero entry_size array = []
split_entries (suc count) entry_size array =
    take entry_size array ∷ split_entries count entry_size (drop entry_size array)

abbrev pub esp_type_guid : Text
esp_type_guid = codes "c12a7328-f81f-11d2-ba4b-00a0c93ec93b"

-- The partitions of the EFI system type. A last sector before the first gives size 0 in place of
-- a negative one.
unfoldable pub esps_of : ℕ → List Bytes → List Partition
unfolding guid_text text_eq unpack
esps_of sector_size [] = []
esps_of sector_size (entry ∷ entries) =
    let rest = esps_of sector_size entries in
    if text_eq (guid_text (slice 0 16 entry)) esp_type_guid
    then (record {
      offset = unpack 8 32 entry * sector_size;
      size = (unpack 8 40 entry + 1 - unpack 8 32 entry) * sector_size;
      sector_size = sector_size;
    })
      ∷ rest
    else rest

unfoldable pub only_esp : List Partition → Outcome EspError Partition
only_esp [] = err esp_count
only_esp (p ∷ []) = ok p
only_esp (p ∷ q ∷ ps) = err esp_count

module _ (crc32 : Bytes → ℕ) where
  -- `_gpt_entries`
  unfoldable pub gpt_entries : Bytes → ℕ → Outcome EspError (List Bytes)
  unfolding read split_entries unpack
  gpt_entries image sector_size = do
    header ← read image sector_size sector_size
    let header_size = unpack 4 12 header
    guard (leb 92 header_size && leb header_size sector_size) invalid_header_size
    let checked = take 16 header ++ (zeros 4 ++ slice 20 (header_size - 20) header)
    guard (crc32 checked == unpack 4 16 header) header_crc_differs
    let array_lba = unpack 8 72 header
    let count = unpack 4 80 header
    let entry_size = unpack 4 84 header
    guard
        (leb 128 entry_size && entry_size % 8 == 0 && leb (count * entry_size) max_gpt_array_bytes)
        invalid_array
    let array_offset = array_lba * sector_size
    guard (leb 2 array_lba && leb (array_offset + count * entry_size) (length image)) array_outside
    array ← read image array_offset (count * entry_size)
    guard (crc32 array == unpack 4 88 header) array_crc_differs
    ok (split_entries count entry_size array)

  -- `_find_esp`
  unfoldable pub find_esp : Bytes → Outcome EspError Partition
  unfolding gpt_sector_size gpt_entries esps_of only_esp
  find_esp image = do
    sector_size ← gpt_sector_size image
    entries ← gpt_entries image sector_size
    esp ← only_esp (esps_of sector_size entries)
    guard
        (leb (2 * sector_size) esp.offset
          && ltb 0 esp.size
          && leb (esp.offset + esp.size) (length image))
        esp_outside
    ok esp
