-- ===== src/Gpt/Canonical/Total.antt =====
-- For an accepted image the patches are in order and apart, so the canonical hash exists.
use mathlib.Core.Path.{ap₂}
use rules_mkosi.Prelude.{
  ℕ, zero, suc, ◌+◌, ◌-◌, ◌*◌, ◌/◌, ◌≤◌, ◌<◌, ◌≡◌, refl, sym, ap, ◌∙◌, subst, ◌⊎◌, inl, inr, List,
  [], ◌∷◌, Option, length, take, ok, IfOk-ok, arith,
}
use rules_mkosi.Prelude.Text.{Text, codes}
use rules_mkosi.Prelude.Bytes.{Bytes, put, zeros, pack, length-put, length-pack}
use rules_mkosi.Gpt.Header.{Header, Gpt, validated_gpt}
use rules_mkosi.Gpt.Header.Bounds.{IsGpt, validated_gpt-IsGpt}
use rules_mkosi.Gpt.Partitions.{project_image, Metadata}
use rules_mkosi.Gpt.Canonical.{
  Patch, insert_patch, sort_patches, canonical_header, clear_guids, canonical_patches,
  hash_with_patches, canonical_image_sha256,
}
use rules_mkosi.Gpt.Canonical.Hashing.{apply_patches, Fits, hash_patches-apply}

-- Clearing the fields of a header keeps its length.
length-canonical_header :
    (crc32 : Bytes → ℕ) (h : Header) (array_crc : ℕ)
    → 92 ≤ length h.raw_header
    → length (canonical_header crc32 h array_crc) ≡ length h.raw_header
unfolding canonical_header
length-canonical_header crc32 h array_crc long =
    let a = put 16 (zeros 4) h.raw_header in
    let la : length a ≡ length h.raw_header = length-put 16 (zeros 4) h.raw_header (omega arith) in
    let b = put 56 (zeros 16) a in
    let lb : length b ≡ length a = length-put 56 (zeros 16) a (omega arith) in
    let c = put 88 (pack 4 array_crc) b in
    let lc : length c ≡ length b =
      length-put 88 (pack 4 array_crc) b (omega (arith, length-pack 4 array_crc)) in
    let crc = crc32 (take h.header_size c) in
    length-put 16 (pack 4 crc) c (omega (arith, length-pack 4 crc)) ∙ (lc ∙ (lb ∙ la))

next_slot : (slot left : ℕ) → slot + 1 + left ≡ slot + suc left
next_slot slot left = omega arith

product_pos : (m n : ℕ) → 0 < m → 128 ≤ n → 1 ≤ m * n
product_pos m n h k = grind arith

slot_inside : (slot left es n : ℕ) → 128 ≤ es → (slot + suc left) * es ≤ n → slot * es + 16 + 16 ≤ n
slot_inside slot left es n h k = grind arith

-- Clearing the GUIDs of the slots that are left writes inside of the array.
length-clear_guids :
    (left slot entry_size : ℕ) (array : Bytes)
    → 128 ≤ entry_size
    → (slot + left) * entry_size ≤ length array
    → length (clear_guids left slot entry_size array) ≡ length array
unfolding clear_guids
length-clear_guids zero slot es array h k = refl
length-clear_guids (suc left) slot es array h k =
    let inside : slot * es + 16 + 16 ≤ length array = slot_inside slot left es (length array) h k in
    let kept : length (put (slot * es + 16) (zeros 16) array) ≡ length array =
      length-put (slot * es + 16) (zeros 16) array inside in
    length-clear_guids left (slot + 1) es (put (slot * es + 16) (zeros 16) array) h
      (omega (arith, kept, k, ap (λ (n : ℕ). n * es) (next_slot slot left)))
    ∙ kept

-- A list of patches at growing offsets is sorted.
abbrev Ascending : List Patch → Type 0
Ascending [] = Unit
Ascending (x ∷ []) = Unit
Ascending (x ∷ y ∷ ys) = (x.0 < y.0) × Ascending (y ∷ ys)

insert_first : (x y : Patch) (ys : List Patch) → x.0 < y.0 → insert_patch x (y ∷ ys) ≡ x ∷ y ∷ ys
unfolding insert_patch
insert_first x y ys h = ground arith

sort-Ascending : (ps : List Patch) → Ascending ps → sort_patches ps ≡ ps
unfolding sort_patches insert_patch
sort-Ascending [] h = refl
sort-Ascending (x ∷ []) h = refl
sort-Ascending (x ∷ y ∷ ys) h =
    ap (insert_patch x) (sort-Ascending (y ∷ ys) h.1) ∙ insert_first x y ys h.0

-- Where the headers and the arrays of a GPT lie.
pub record IsLaidOut (image : Bytes) (g : Gpt) : Type 0 where
  pub first : g.primary.header_offset + g.sector_size ≤ g.primary.array_offset
  pub second :
      g.primary.array_offset + g.primary.count * g.primary.entry_size ≤ g.backup.array_offset
  pub third :
      g.backup.array_offset + g.primary.count * g.primary.entry_size ≤ g.backup.header_offset
  pub fourth : g.backup.header_offset + g.sector_size ≤ length image

sectors_512 : (e a n : ℕ) → e + (a + 512 - 1) / 512 - 1 < n → 1 ≤ a → e * 512 + a ≤ n * 512
sectors_512 e a n h k = omega arith

sectors_4096 : (e a n : ℕ) → e + (a + 4096 - 1) / 4096 - 1 < n → 1 ≤ a → e * 4096 + a ≤ n * 4096
sectors_4096 e a n h k = omega arith

sectors :
    (s e a n : ℕ) → (s ≡ 512) ⊎ (s ≡ 4096) → e + (a + s - 1) / s - 1 < n → 1 ≤ a → e * s + a ≤ n * s
sectors s e a n (inl small) h k =
    subst (λ t. e * t + a ≤ n * t) (sym small)
      (sectors_512 e a n (subst (λ t. e + (a + t - 1) / t - 1 < n) small h) k)
sectors s e a n (inr large) h k =
    subst (λ t. e * t + a ≤ n * t) (sym large)
      (sectors_4096 e a n (subst (λ t. e + (a + t - 1) / t - 1 < n) large h) k)

below : (a b s : ℕ) → a ≤ b → a * s ≤ b * s
below a b s h = grind arith

zero_plus : (n : ℕ) → 0 + n ≡ n
zero_plus n = omega arith

sector_long : (s : ℕ) → (s ≡ 512) ⊎ (s ≡ 4096) → 512 ≤ s
sector_long s h = omega arith

IsGpt-IsLaidOut : (image : Bytes) (g : Gpt) → IsGpt image g → IsLaidOut image g
IsGpt-IsLaidOut image g v =
    let s = g.sector_size in
    let p = g.primary in
    let b = g.backup in
    let size = p.count * p.entry_size in
    let some_bytes : 1 ≤ size =
      product_pos p.count p.entry_size v.primary.count_pos v.primary.entry_min in
    let same_size : b.count * b.entry_size ≡ size =
      ap₂ (λ (m n : ℕ). m * n) (sym v.count_same) (sym v.entry_same) in
    record {
      first = omega (
        arith,
        v.primary.header_at,
        v.primary.array_at,
        below 2 p.entries_lba s v.primary.array_start,
      );
      second = omega (
        arith,
        v.primary.array_at,
        v.backup.array_at,
        sectors s p.entries_lba size p.first_usable v.sector (v.primary.primary_before refl)
            some_bytes,
        below p.first_usable b.entries_lba s
            (omega (arith, v.primary.usable, v.last_same, v.backup.backup_after refl)),
      );
      third = omega (
        arith,
        v.backup.array_at,
        v.backup.header_at,
        sectors s b.entries_lba (b.count * b.entry_size) (length image / s - 1) v.sector
            v.backup.array_end (omega (arith, some_bytes, same_size)),
        same_size,
      );
      fourth = omega (arith, v.backup.header_at, v.backup.header_end);
    }

hash_with_patches-apply :
    (sha256 : Bytes → Text) (image : Bytes) (n : ℕ) (ps : List Patch)
    → n ≡ length image
    → Ascending ps
    → Fits (length image) 0 ps
    → hash_with_patches sha256 image n ps ≡ ok (sha256 (apply_patches image ps))
unfolding hash_with_patches
hash_with_patches-apply sha256 image n ps e ascending fits =
    rw (e, sort-Ascending ps ascending, hash_patches-apply ps [] image fits)

canonical_patches-Fits :
    (crc32 : Bytes → ℕ) (image : Bytes) (g : Gpt)
    → IsGpt image g
    → Fits (length image) 0 (canonical_patches crc32 g) × Ascending (canonical_patches crc32 g)
unfolding canonical_patches
canonical_patches-Fits crc32 image g v =
    let laid = IsGpt-IsLaidOut image g v in
    let array = clear_guids g.primary.count 0 g.primary.entry_size g.primary.array in
    let array_length : length array ≡ length g.primary.array =
      length-clear_guids g.primary.count 0 g.primary.entry_size g.primary.array v.primary.entry_min
        (omega (
          arith,
          v.primary.array_length,
          ap (λ (n : ℕ). n * g.primary.entry_size) (zero_plus g.primary.count),
        )) in
    let long = sector_long g.sector_size v.sector in
    let head =
      length-canonical_header crc32 g.primary (crc32 array)
        (omega (arith, long, v.primary.raw_length)) in
    let tail =
      length-canonical_header crc32 g.backup (crc32 array)
        (omega (arith, long, v.backup.raw_length)) in
    let some_bytes =
      product_pos g.primary.count g.primary.entry_size v.primary.count_pos v.primary.entry_min in
    (
      (
        omega arith,
        omega (arith, head, v.primary.raw_length, laid.first, laid.second, laid.third, laid.fourth),
        (
          omega (arith, head, v.primary.raw_length, laid.first),
          omega (arith, array_length, v.primary.array_length, laid.second, laid.third, laid.fourth),
          (
            omega (arith, array_length, v.primary.array_length, laid.second),
            omega (arith, array_length, v.primary.array_length, laid.third, laid.fourth),
            (
              omega (arith, array_length, v.primary.array_length, laid.third),
              omega (arith, tail, v.backup.raw_length, laid.fourth),
              omega (arith, tail, v.backup.raw_length, laid.fourth),
            ),
          ),
        ),
      ),
      (
        omega (arith, laid.first, long),
        (omega (arith, laid.second, some_bytes), (omega (arith, laid.third, some_bytes), tt)),
      ),
    )

-- If `project_image` accepts an image, `canonical_image_sha256` succeeds: it is the hash of the
-- image with the canonical header and the canonical array written over both copies, and no two of
-- the four writes overlap.
pub canonical_image_sha256-apply :
    (crc32 : Bytes → ℕ) (sha256 : Bytes → Text) (image : Bytes) (slot_label : Option Text)
    (m : Metadata) (g : Gpt)
    → project_image crc32 image (codes "uefi") slot_label ≡ ok m
    → validated_gpt crc32 image ≡ ok g
    → (canonical_image_sha256 crc32 sha256 image slot_label
        ≡ ok (sha256 (apply_patches image (canonical_patches crc32 g))))
      × Fits (length image) 0 (canonical_patches crc32 g)
unfolding canonical_image_sha256
canonical_image_sha256-apply crc32 sha256 image slot_label m g projected accepted =
    let v =
      IfOk-ok (IsGpt image) (validated_gpt crc32 image) accepted
        (validated_gpt-IsGpt crc32 image) in
    let (fits, ascending) = canonical_patches-Fits crc32 image g v in
    (
      rw (projected, accepted)
          (hash_with_patches-apply sha256 image g.image_size (canonical_patches crc32 g) v.size_is
            ascending fits),
      fits,
    )
