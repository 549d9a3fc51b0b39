-- ===== src/Esp/Bounds.antt =====
-- Where the regions of an opened volume lie: nothing that is read of it lies outside of the image.
use rules_mkosi.Prelude.{
  ℕ, ◌+◌, ◌*◌, ◌≤◌, ◌<◌, ◌≡◌, refl, subst, inl, inr, Bool, Bool-cases, All, IfOk-ok, true, false,
  ltb, leb, List, [], ◌∷◌, length, drop, ok, guard, ◌&&◌, >>=-eq-ok, arith, length-take,
  length-drop,
}
use rules_mkosi.Prelude.Text.{text_eq}
use rules_mkosi.Prelude.Bytes.{Bytes, slice}
use rules_mkosi.Gpt.Partitions.{guid_text}
use rules_mkosi.Esp.Error.{esp_outside, fat_too_small}
use rules_mkosi.Esp.Image.{
  Partition, esp_type_guid, read, find_esp, gpt_sector_size, gpt_entries, only_esp, esps_of,
}
use rules_mkosi.Esp.Regions.{geometry_of-InPartition, leb-true}
use rules_mkosi.Esp.Geometry.{width, Volume, boot_sector, geometry_of, geometry, open_volume}

pub guard-true : {E : Type 0} (b : Bool) (raised : E) → guard b raised ≡ ok tt → b ≡ true
guard-true true raised e = refl
guard-true false raised e = absurd (ground arith)

pub length-read :
    (image : Bytes) (offset size : ℕ) {bytes : Bytes}
    → read image offset size ≡ ok bytes
    → length bytes ≡ size
unfolding read
length-read image offset size e =
    ground (arith, length-take {0} size (drop offset image), length-drop {0} offset image)

-- A read returns a slice of the image.
read-slice :
    (image : Bytes) (offset size : ℕ) {bytes : Bytes}
    → read image offset size ≡ ok bytes
    → bytes ≡ slice offset size image
unfolding read
read-slice image offset size e = ground arith

-- A read inside of the image succeeds.
pub read_inside :
    (image : Bytes) (offset size : ℕ)
    → offset + size ≤ length image
    → read image offset size ≡ ok (slice offset size image)
unfolding read
read_inside image offset size h = ground arith

-- The partition lies in the image, after the GPT header's sector.
pub record IsInside (image : Bytes) (p : Partition) : Type 0 where
  pub start : 2 * p.sector_size ≤ p.offset
  pub size_pos : 0 < p.size
  pub end : p.offset + p.size ≤ length image

esps_of-sector : (n : ℕ) (entries : List Bytes) → All (λ p. p.sector_size ≡ n) (esps_of n entries)
unfolding esps_of
esps_of-sector n [] = tt
esps_of-sector n (entry ∷ entries) =
    elim (Bool-cases (text_eq (guid_text (slice 0 16 entry)) esp_type_guid)) [
      | inl esp ↦ rw esp (refl, esps_of-sector n entries)
      | inr other ↦ rw other (esps_of-sector n entries)
    ]

only_esp-All :
    (P : Partition → Type 0) (ps : List Partition) (p : Partition)
    → All P ps
    → only_esp ps ≡ ok p
    → P p
unfolding only_esp
only_esp-All P [] p h e = cc
only_esp-All P (q ∷ []) p h e = subst P (ground arith) h.0
only_esp-All P (q ∷ r ∷ ps) p h e = cc

inside_test :
    (n start size len : ℕ)
    → (leb (2 * n) start && ltb 0 size && leb (start + size) len) ≡ true
    → (2 * n ≤ start) × (0 < size) × (start + size ≤ len)
inside_test n start size len e = ground arith

pub find_esp-IsInside :
    (crc32 : Bytes → ℕ) (image : Bytes) (p : Partition)
    → find_esp crc32 image ≡ ok p
    → IsInside image p
unfolding find_esp
find_esp-IsInside crc32 image p e =
    let (n, _, e₁) = >>=-eq-ok (gpt_sector_size image) _ e in
    let (entries, _, e₂) = >>=-eq-ok (gpt_entries crc32 image n) _ e₁ in
    let (q, chosen, e₃) = >>=-eq-ok (only_esp (esps_of n entries)) _ e₂ in
    let (_, tested, e₄) = >>=-eq-ok (guard _ esp_outside) _ e₃ in
    let (start, size, end) =
      inside_test n q.offset q.size (length image) (guard-true _ esp_outside tested) in
    let same =
      only_esp-All (λ r. r.sector_size ≡ n) (esps_of n entries) q (esps_of-sector n entries)
        chosen in
    IfOk-ok (IsInside image) (ok q) e₄
      (record { start = omega (arith, start, same); size_pos = size; end = end })

-- What is known of an opened volume.
pub record IsVolume (v : Volume) : Type 0 where
  pub fat_read : v.fat ≡ slice v.geometry.fat_offset v.geometry.fat_size v.image
  pub fat_start : v.partition.offset + 512 ≤ v.geometry.fat_offset
  pub fat_pos : 0 < v.geometry.fat_size
  pub root_after :
      (n : ℕ) × (0 < n) × (v.geometry.root_offset ≡ v.geometry.fat_offset + n * v.geometry.fat_size)
  pub fat_length : length v.fat ≡ v.geometry.fat_size
  pub fat_holds : (v.geometry.clusters + 2) * width v.bits ≤ v.geometry.fat_size * 8
  pub cluster_pos : 0 < v.geometry.cluster_size
  pub root_start : v.partition.offset ≤ v.geometry.root_offset
  pub root_before : v.geometry.root_offset + v.geometry.root_size ≤ v.geometry.data_offset
  pub root_end :
      v.geometry.root_offset + v.geometry.root_size ≤ v.partition.offset + v.partition.size
  pub clusters_end :
      v.geometry.data_offset + v.geometry.clusters * v.geometry.cluster_size
      ≤ v.partition.offset + v.partition.size

pub open_volume-IsVolume :
    (image : Bytes) (p : Partition) (v : Volume)
    → open_volume image p ≡ ok v
    → IsVolume v × (v.image ≡ image) × (v.partition ≡ p)
unfolding open_volume geometry
open_volume-IsVolume image p v e =
    let (boot, _, e₁) = >>=-eq-ok (read image p.offset 512) _ e in
    let (g, described, e₂) = >>=-eq-ok (geometry_of (boot_sector boot) p) _ e₁ in
    let (_, holds, e₃) = >>=-eq-ok (guard _ fat_too_small) _ e₂ in
    let (fat, loaded, e₄) = >>=-eq-ok (read image g.fat_offset g.fat_size) _ e₃ in
    let placed = geometry_of-InPartition (boot_sector boot) p g described in
    IfOk-ok (λ (w : Volume). IsVolume w × (w.image ≡ image) × (w.partition ≡ p)) (ok _) e₄
      (
        record {
          fat_read = read-slice image g.fat_offset g.fat_size loaded;
          fat_start = placed.fat_start;
          fat_pos = placed.fat_pos;
          root_after = placed.root_after;
          fat_length = length-read image g.fat_offset g.fat_size loaded;
          fat_holds = leb-true _ _ (guard-true _ fat_too_small holds);
          cluster_pos = placed.cluster_pos;
          root_start = placed.root_start;
          root_before = placed.root_before;
          root_end = placed.root_end;
          clusters_end = placed.clusters_end;
        },
        refl,
        refl,
      )
