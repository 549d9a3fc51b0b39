-- ===== src/Gpt/Header/Bounds.antt =====
-- What a header that `_header` accepts satisfies, and how the two copies of a GPT lie in an image.
use rules_mkosi.Prelude.{
  ℕ, ◌+◌, ◌-◌, ◌*◌, ◌/◌, ◌%◌, ◌≤◌, ◌<◌, ◌≡◌, refl, ◌⊎◌, inl, inr, Bool, true, ◌&&◌, List, [], ◌∷◌,
  length, leb, ◌==◌, ok, guard, IfOk, IfOk-bind, IfOk-intro, IfOk-ok, All, arith, Bool-cases,
}
use rules_mkosi.Prelude.Text.{text_eq_iff}
use rules_mkosi.Prelude.Bytes.{Bytes, slice, unpack}
use rules_mkosi.Gpt.Error.{GptError, array_crc_mismatch}
use rules_mkosi.Gpt.Header.{
  read_exact, require, Fields, header_fields, Header, max_array_bytes, max_entries,
  check_header_geometry, check_array_location, header_checks, check_header_bytes, header,
  find_sector_size, has_gpt, copies_agree, Gpt, validated_gpt,
}

require-All :
    (checks : List (Bool × GptError)) → IfOk (λ _. All (λ c. c.0 ≡ true) checks) (require checks)
unfolding require
require-All [] = tt
require-All ((passed, e) ∷ checks) = elim (Bool-cases passed) [
  | inl yes_passed ↦ rw yes_passed (
      IfOk-intro _ (require checks)
        (λ t h. (refl, IfOk-ok _ (require checks) h (require-All checks))))
  | inr failed ↦ rw failed tt
]

-- A read that succeeds returns the slice, which lies in the image.
read_exact-IfOk :
    (image : Bytes) (offset size image_size : ℕ)
    → IfOk
        (λ bytes.
          (bytes ≡ slice offset size image) × (length bytes ≡ size) × (offset + size ≤ image_size))
        (read_exact image offset size image_size)
unfolding read_exact
read_exact-IfOk image offset size image_size = ground arith

geometry-IfOk :
    (f : Fields) (lba expected_backup last_lba : ℕ)
    → IfOk
        (λ _.
          (f.current ≡ lba)
          × (f.backup ≡ expected_backup)
          × (f.first_usable ≤ f.last_usable)
          × (f.last_usable < last_lba)
          × (0 < f.count)
          × (f.count ≤ max_entries)
          × (128 ≤ f.entry_size)
          × (f.entry_size ≤ 4096)
          × (f.count * f.entry_size ≤ max_array_bytes))
        (check_header_geometry f lba expected_backup last_lba)
unfolding check_header_geometry
geometry-IfOk f lba expected_backup last_lba = ground arith

location-IfOk :
    (f : Fields) (lba last_lba array_last_lba : ℕ)
    → IfOk
        (λ _.
          (2 ≤ f.entries_lba)
          × (array_last_lba < last_lba)
          × (lba ≡ 1 → array_last_lba < f.first_usable)
          × (lba ≡ last_lba → f.last_usable < f.entries_lba))
        (check_array_location f lba last_lba array_last_lba)
unfolding check_array_location
location-IfOk f lba last_lba array_last_lba = ground arith

-- A header as `_header` returns it: read at its LBA, with its array inside of the image.
pub record IsHeader (image : Bytes) (sector_size lba last_lba : ℕ) (h : Header) : Type 0 where
  pub header_at : h.header_offset ≡ lba * sector_size
  pub raw_is : h.raw_header ≡ slice (lba * sector_size) sector_size image
  pub raw_length : length h.raw_header ≡ sector_size
  pub header_end : lba * sector_size + sector_size ≤ length image
  pub guid_is : h.disk_guid ≡ slice 56 16 h.raw_header
  pub header_min : 92 ≤ h.header_size
  pub header_max : h.header_size ≤ sector_size
  pub array_at : h.array_offset ≡ h.entries_lba * sector_size
  pub array_is : h.array ≡ slice h.array_offset (h.count * h.entry_size) image
  pub array_length : length h.array ≡ h.count * h.entry_size
  pub array_inside : h.array_offset + h.count * h.entry_size ≤ length image
  pub usable : h.first_usable ≤ h.last_usable
  pub usable_end : h.last_usable < last_lba
  pub count_pos : 0 < h.count
  pub entry_min : 128 ≤ h.entry_size
  pub array_start : 2 ≤ h.entries_lba
  pub array_end :
      h.entries_lba + (h.count * h.entry_size + sector_size - 1) / sector_size - 1 < last_lba
  pub primary_before :
      lba ≡ 1
      → h.entries_lba + (h.count * h.entry_size + sector_size - 1) / sector_size - 1
        < h.first_usable
  pub backup_after : lba ≡ last_lba → h.last_usable < h.entries_lba

in_range : (a n b : ℕ) → (leb a n && leb n b) ≡ true → (a ≤ n) × (n ≤ b)
in_range a n b h = ground arith

module _ (crc32 : Bytes → ℕ) where
  header_bytes-IfOk :
      (raw : Bytes) (sector_size : ℕ)
      → IfOk (λ n. (92 ≤ n) × (n ≤ sector_size)) (check_header_bytes crc32 raw sector_size)
  unfolding check_header_bytes
  header_bytes-IfOk raw sector_size =
      IfOk-bind (λ _. All (λ c. c.0 ≡ true) (header_checks crc32 raw sector_size))
        (λ n. (92 ≤ n) × (n ≤ sector_size)) (require (header_checks crc32 raw sector_size))
        (λ _. ok (unpack 4 12 raw)) (require-All (header_checks crc32 raw sector_size))
        (λ _ checked. in_range 92 (unpack 4 12 raw) sector_size checked.1.1.0)

  header-IsHeader :
      (image : Bytes) (sector_size lba expected_backup : ℕ)
      → IfOk
          (IsHeader image sector_size lba (length image / sector_size - 1))
          (header crc32 image (length image) sector_size lba expected_backup)
  unfolding header
  header-IsHeader image ss lba expected_backup =
      let last_lba = length image / ss - 1 in
      IfOk-bind _ _ (read_exact image (lba * ss) ss (length image)) _
        (read_exact-IfOk image (lba * ss) ss (length image))
        λ raw (raw_is, raw_length, raw_end).
          IfOk-bind _ _ (check_header_bytes crc32 raw ss) _ (header_bytes-IfOk raw ss)
            λ header_size (header_min, header_max).
              let f = header_fields raw in
              IfOk-bind _ _ (check_header_geometry f lba expected_backup last_lba) _
                (geometry-IfOk f lba expected_backup last_lba)
                λ _ geometry.
                  IfOk-bind _ _
                    (read_exact image (f.entries_lba * ss) (f.count * f.entry_size) (length image))
                    _
                    (read_exact-IfOk image (f.entries_lba * ss) (f.count * f.entry_size)
                      (length image))
                    λ array (array_is, array_length, array_end).
                      let array_last = f.entries_lba + (f.count * f.entry_size + ss - 1) / ss - 1 in
                      IfOk-bind _ _ (check_array_location f lba last_lba array_last) _
                        (location-IfOk f lba last_lba array_last)
                        λ _ location.
                          IfOk-bind (λ _. Unit {0}) _
                            (guard (crc32 array == f.array_crc) array_crc_mismatch) _
                            (IfOk-intro _ (guard (crc32 array == f.array_crc) array_crc_mismatch)
                              (λ _ _. tt))
                            λ _ _. record {
                              header_at = refl;
                              raw_is = raw_is;
                              raw_length = raw_length;
                              header_end = raw_end;
                              guid_is = refl;
                              header_min = header_min;
                              header_max = header_max;
                              array_at = refl;
                              array_is = array_is;
                              array_length = array_length;
                              array_inside = array_end;
                              usable = geometry.2;
                              usable_end = geometry.3;
                              count_pos = geometry.4;
                              entry_min = geometry.6;
                              array_start = location.0;
                              array_end = location.1;
                              primary_before = location.2;
                              backup_after = location.3;
                            }

-- A GPT as `_validated_gpt` returns it.
pub record IsGpt (image : Bytes) (g : Gpt) : Type 0 where
  pub size_is : g.image_size ≡ length image
  pub sector : (g.sector_size ≡ 512) ⊎ (g.sector_size ≡ 4096)
  pub whole : length image % g.sector_size ≡ 0
  pub three : g.sector_size * 3 ≤ length image
  pub primary : IsHeader image g.sector_size 1 (length image / g.sector_size - 1) g.primary
  pub backup :
      IsHeader image g.sector_size
        (length image / g.sector_size - 1)
        (length image / g.sector_size - 1)
        g.backup
  pub guids : g.primary.disk_guid ≡ g.backup.disk_guid
  pub first_same : g.primary.first_usable ≡ g.backup.first_usable
  pub last_same : g.primary.last_usable ≡ g.backup.last_usable
  pub count_same : g.primary.count ≡ g.backup.count
  pub entry_same : g.primary.entry_size ≡ g.backup.entry_size
  pub arrays : g.primary.array ≡ g.backup.array

has_gpt_fits : (image : Bytes) (n s : ℕ) → has_gpt image n s ≡ true → (n % s ≡ 0) × (s * 3 ≤ n)
unfolding has_gpt
has_gpt_fits image n s h = ground arith

sector_size-IfOk :
    (image : Bytes) (n : ℕ)
    → IfOk (λ s. ((s ≡ 512) ⊎ (s ≡ 4096)) × (n % s ≡ 0) × (s * 3 ≤ n)) (find_sector_size image n)
unfolding find_sector_size
sector_size-IfOk image n = ground (arith, has_gpt_fits image n 512, has_gpt_fits image n 4096)

copies-IfOk :
    (p b : Header)
    → IfOk
        (λ _.
          (p.disk_guid ≡ b.disk_guid)
          × (p.first_usable ≡ b.first_usable)
          × (p.last_usable ≡ b.last_usable)
          × (p.count ≡ b.count)
          × (p.entry_size ≡ b.entry_size)
          × (p.array ≡ b.array))
        (copies_agree p b)
unfolding copies_agree
copies-IfOk p b = ground (arith, text_eq_iff p.disk_guid b.disk_guid, text_eq_iff p.array b.array)

-- A GPT that `_validated_gpt` accepts: whole sectors of one of the two sizes, both headers in
-- place, and copies that agree.
pub validated_gpt-IsGpt :
    (crc32 : Bytes → ℕ) (image : Bytes) → IfOk (IsGpt image) (validated_gpt crc32 image)
unfolding validated_gpt
validated_gpt-IsGpt crc32 image =
    IfOk-bind _ (IsGpt image) (find_sector_size image (length image)) _
      (sector_size-IfOk image (length image))
      λ ss (sector, whole, three).
        let last_lba = length image / ss - 1 in
        IfOk-bind _ (IsGpt image) (header crc32 image (length image) ss 1 last_lba) _
          (header-IsHeader crc32 image ss 1 last_lba)
          λ primary hp.
            IfOk-bind _ (IsGpt image) (header crc32 image (length image) ss last_lba 1) _
              (header-IsHeader crc32 image ss last_lba 1)
              λ backup hb.
                IfOk-bind _ (IsGpt image) (copies_agree primary backup) _
                  (copies-IfOk primary backup)
                  λ _ same. record {
                    size_is = refl;
                    sector = sector;
                    whole = whole;
                    three = three;
                    primary = hp;
                    backup = hb;
                    guids = same.0;
                    first_same = same.1;
                    last_same = same.2;
                    count_same = same.3;
                    entry_same = same.4;
                    arrays = same.5;
                  }
