-- ===== src/Tests/Image.antt =====
-- A disk image with one partition: its headers, its table, its hash.
use rules_mkosi.Prelude.{
  ℕ, ◌+◌, ◌≡◌, ◌≤◌, refl, ap, ◌∙◌, [], ◌∷◌, ◌++◌, none, ok, length, All, length-append,
  length-replicate, arith,
}
use rules_mkosi.Prelude.Text.{Text, codes, text_eq}
use rules_mkosi.Prelude.Bytes.{Bytes, slice, zeros, slice-append_left, slice-append_right}
use rules_mkosi.Gpt.Header.{
  Header, Gpt, validated_gpt, header, find_sector_size, has_gpt, read_exact,
}
use rules_mkosi.Gpt.Partitions.{Partition, Metadata, project_image, root_x86_64}
use rules_mkosi.Gpt.Partitions.Layout.{IsPlaced, InOrder, project_image-InOrder}
use rules_mkosi.Gpt.Canonical.{canonical_image_sha256, canonical_patches}
use rules_mkosi.Gpt.Canonical.Hashing.{apply_patches, Fits}
use rules_mkosi.Gpt.Canonical.Total.{canonical_image_sha256-apply}

abbrev no_crc : Bytes → ℕ
no_crc bytes = 0

abbrev no_hash : Bytes → Text
no_hash bytes = []

abbrev primary_bytes : Bytes
primary_bytes =
    69
    ∷ 70
    ∷ 73
    ∷ 32
    ∷ 80
    ∷ 65
    ∷ 82
    ∷ 84
    ∷ 0
    ∷ 0
    ∷ 1
    ∷ 0
    ∷ 92
    ∷ (zeros 11
        ++ (1
            ∷ 0
            ∷ 0
            ∷ 0
            ∷ 0
            ∷ 0
            ∷ 0
            ∷ 0
            ∷ 2
            ∷ 8
            ∷ 0
            ∷ 0
            ∷ 0
            ∷ 0
            ∷ 0
            ∷ 0
            ∷ 3
            ∷ (zeros 8
                ++ (8 ∷ 0 ∷ 0 ∷ 0 ∷ 0 ∷ 0 ∷ 0 ∷ 1 ∷ 2 ∷ 3 ∷ 4 ∷ 5 ∷ 6 ∷ 7 ∷ 8 ∷ 9 ∷ 10 ∷ 11 ∷ 12
                    ∷ 13 ∷ 14 ∷ 15 ∷ 16 ∷ 2 ∷ 0 ∷ 0 ∷ 0 ∷ 0 ∷ 0 ∷ 0 ∷ 0 ∷ 1 ∷ 0 ∷ 0 ∷ 0 ∷ 128 ∷ 0
                    ∷ 0 ∷ 0 ∷ 0 ∷ 0 ∷ 0 ∷ 0 ∷ []))))

abbrev backup_bytes : Bytes
backup_bytes =
    69
    ∷ 70
    ∷ 73
    ∷ 32
    ∷ 80
    ∷ 65
    ∷ 82
    ∷ 84
    ∷ 0
    ∷ 0
    ∷ 1
    ∷ 0
    ∷ 92
    ∷ (zeros 11
        ++ (2
            ∷ 8
            ∷ 0
            ∷ 0
            ∷ 0
            ∷ 0
            ∷ 0
            ∷ 0
            ∷ 1
            ∷ 0
            ∷ 0
            ∷ 0
            ∷ 0
            ∷ 0
            ∷ 0
            ∷ 0
            ∷ 3
            ∷ (zeros 8
                ++ (8 ∷ 0 ∷ 0 ∷ 0 ∷ 0 ∷ 0 ∷ 0 ∷ 1 ∷ 2 ∷ 3 ∷ 4 ∷ 5 ∷ 6 ∷ 7 ∷ 8 ∷ 9 ∷ 10 ∷ 11 ∷ 12
                    ∷ 13 ∷ 14 ∷ 15 ∷ 16 ∷ 1 ∷ 8 ∷ 0 ∷ 0 ∷ 0 ∷ 0 ∷ 0 ∷ 0 ∷ 1 ∷ 0 ∷ 0 ∷ 0 ∷ 128 ∷ 0
                    ∷ 0 ∷ 0 ∷ 0 ∷ 0 ∷ 0 ∷ 0 ∷ []))))

abbrev entry_bytes : Bytes
entry_bytes =
    227
    ∷ 188
    ∷ 104
    ∷ 79
    ∷ 205
    ∷ 232
    ∷ 177
    ∷ 77
    ∷ 150
    ∷ 231
    ∷ 251
    ∷ 202
    ∷ 249
    ∷ 132
    ∷ 183
    ∷ 9
    ∷ 17
    ∷ 18
    ∷ 19
    ∷ 20
    ∷ 21
    ∷ 22
    ∷ 23
    ∷ 24
    ∷ 25
    ∷ 26
    ∷ 27
    ∷ 28
    ∷ 29
    ∷ 30
    ∷ 31
    ∷ 32
    ∷ 0
    ∷ 8
    ∷ 0
    ∷ 0
    ∷ 0
    ∷ 0
    ∷ 0
    ∷ 0
    ∷ 0
    ∷ 8
    ∷ (zeros 14
        ++ (114
            ∷ 0
            ∷ 111
            ∷ 0
            ∷ 111
            ∷ 0
            ∷ 116
            ∷ 0
            ∷ 45
            ∷ 0
            ∷ 120
            ∷ 0
            ∷ 56
            ∷ 0
            ∷ 54
            ∷ 0
            ∷ 45
            ∷ 0
            ∷ 54
            ∷ 0
            ∷ 52
            ∷ (zeros 51)))

abbrev front : Bytes
front = zeros 512 ++ (primary_bytes ++ (zeros 420 ++ (entry_bytes ++ zeros 384)))

abbrev back : Bytes
back = entry_bytes ++ (zeros 384 ++ (backup_bytes ++ zeros 420))

-- Not opened by any lemma but those on its parts: it has a megabyte.
unfoldable gap : Bytes
gap = zeros 1047552

length-gap : length gap ≡ 1047552
unfolding gap
length-gap = length-replicate {0} {A = ℕ} 1047552 0

unfoldable image : Bytes
image = front ++ (gap ++ back)

length-image : length image ≡ 1050112
unfolding image
length-image =
    omega (arith, length-append {0} front (gap ++ back), length-append {0} gap back, length-gap)

slice-front : (o n : ℕ) → o + n ≤ 1536 → slice o n image ≡ slice o n front
unfolding image
slice-front o n h = slice-append_left o n front (gap ++ back) h

slice-back : (o n : ℕ) → slice (1049088 + o) n image ≡ slice o n back
unfolding image
slice-back o n =
    ap (λ k. slice k n image) {x = 1049088 + o} {y = length front + (length gap + o)}
      (omega (arith, length-gap))
    ∙ slice-append_right (length gap + o) n front (gap ++ back)
    ∙ slice-append_right o n gap back

abbrev primary : Header
primary = record {
  array = entry_bytes;
  array_offset = 1024;
  count = 1;
  disk_guid = slice 56 16 primary_bytes;
  entry_size = 128;
  entries_lba = 2;
  first_usable = 3;
  header_offset = 512;
  header_size = 92;
  last_usable = 2048;
  raw_header = primary_bytes ++ zeros 420;
}

abbrev backup : Header
backup = record {
  array = entry_bytes;
  array_offset = 1049088;
  count = 1;
  disk_guid = slice 56 16 primary_bytes;
  entry_size = 128;
  entries_lba = 2049;
  first_usable = 3;
  header_offset = 1049600;
  header_size = 92;
  last_usable = 2048;
  raw_header = backup_bytes ++ zeros 420;
}

abbrev table : Gpt
table = record { image_size = 1050112; sector_size = 512; primary = primary; backup = backup }

sector_size_found : find_sector_size image 1050112 ≡ ok 512
unfolding find_sector_size has_gpt text_eq
sector_size_found = rw (slice-front 512 8 (omega arith)) refl

primary_accepted : header no_crc image 1050112 512 1 2050 ≡ ok primary
unfolding header read_exact
primary_accepted = rw (slice-front 512 512 (omega arith), slice-front 1024 128 (omega arith)) refl

backup_accepted : header no_crc image 1050112 512 2050 1 ≡ ok backup
unfolding header read_exact
backup_accepted = rw (slice-back 512 512, slice-back 0 128) refl

image_accepted : validated_gpt no_crc image ≡ ok table
unfolding validated_gpt
image_accepted = rw (length-image, sector_size_found, primary_accepted, backup_accepted) refl

abbrev root : Partition
root = record {
  label = codes "root-x86-64";
  number = 1;
  size_bytes = 512;
  start_bytes = 1048576;
  type_guid = root_x86_64;
  uuid = none;
}

abbrev projected : Metadata
projected = record { firmware = codes "uefi"; partitions = root ∷ []; sector_size = 512 }

project_image-image : project_image no_crc image (codes "uefi") none ≡ ok projected
unfolding project_image text_eq
project_image-image = rw image_accepted refl

project_image-InOrder_example :
    InOrder 0 0 (root ∷ [])
    × ((g : Gpt) × (validated_gpt no_crc image ≡ ok g)
        × (512 ≡ g.sector_size)
        × All (λ p. IsPlaced g p × (p.start_bytes + p.size_bytes ≤ length image)) (root ∷ []))
project_image-InOrder_example =
    project_image-InOrder no_crc image (codes "uefi") none projected project_image-image

canonical_image_sha256-apply_example :
    (canonical_image_sha256 no_crc no_hash image none
      ≡ ok (no_hash (apply_patches image (canonical_patches no_crc table))))
    × Fits (length image) 0 (canonical_patches no_crc table)
canonical_image_sha256-apply_example =
    canonical_image_sha256-apply no_crc no_hash image none projected table project_image-image
      image_accepted
