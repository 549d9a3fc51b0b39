-- ===== src/Tests/Verity.antt =====
-- A hash tree of two data blocks, with a sum of bytes as the hash function.
use rules_mkosi.Prelude.{
  ℕ, ◌+◌, ◌*◌, ◌%◌, ◌≡◌, ◌≤◌, ◌<◌, ◌/◌, refl, List, [], ◌∷◌, ◌++◌, Option, some, none, length, ok,
  arith,
}
use rules_mkosi.Prelude.Text.{Text, codes}
use rules_mkosi.Prelude.Bytes.{Bytes, zeros}
use rules_mkosi.Gpt.Partitions.{root_x86_64, root_x86_64_verity}
use rules_mkosi.Verity.Geometry.{Geometry, read_superblock, slot_size}
use rules_mkosi.Verity.Tree.{
  level_counts, level_offsets, count_levels, check_spool_budget, verify_tree, salted_digest,
}
use rules_mkosi.Verity.Match.{join, level_blocks}
use rules_mkosi.Verity.Levels.{TreeEmitted, top_digests, data_blocks_of}
use rules_mkosi.Verity.Verified.{leaves, verify_tree_complete}
use rules_mkosi.Verity.Counts.{count_levels-total}
use rules_mkosi.Verity.Slots.{IsPowerOfTwo, slot_size_sound}
use rules_mkosi.Verity.Project.{Listed, Metadata, project}
use rules_mkosi.Verity.Sound.{Projected, project_sound}

sum : Bytes → ℕ
sum [] = 0
sum (b ∷ bs) = b + sum bs

sum_hash : Text → Bytes → Bytes
sum_hash algorithm bytes = (sum bytes % 256) ∷ []

sum_hash-sized : (bytes : Bytes) → length (sum_hash (codes "sum") bytes) ≡ 1
unfolding sum_hash
sum_hash-sized bytes = refl

one_byte : Text → Option ℕ
one_byte algorithm = some 1

one_byte-sized :
    (algorithm : Text) (n : ℕ)
    → one_byte algorithm ≡ some n
    → (bytes : Bytes) → length (sum_hash algorithm bytes) ≡ n
unfolding sum_hash one_byte
one_byte-sized algorithm n e bytes = ground arith

no_sha256 : Bytes → Text
no_sha256 bytes = []

abbrev superblock : Bytes
superblock =
    codes "verity"
    ++ (0 ∷ 0 ∷ 1 ∷ 0 ∷ 0 ∷ 0 ∷ 1 ∷ 0 ∷ 0 ∷ 0 ∷ [])
    ++ zeros 16
    ++ codes "sum"
    ++ zeros 29
    ++ (0 ∷ 2 ∷ 0 ∷ 0 ∷ 0 ∷ 2 ∷ 0 ∷ 0 ∷ 2 ∷ 0 ∷ 0 ∷ 0 ∷ 0 ∷ 0 ∷ 0 ∷ 0 ∷ 1 ∷ 0 ∷ [])
    ++ zeros 6
    ++ (7 ∷ zeros 423)

abbrev root_image : Bytes
root_image = zeros 1023 ++ 5 ∷ []

abbrev hash_image : Bytes
hash_image = superblock ++ (7 ∷ 12 ∷ zeros 510)

abbrev geometry : Geometry
geometry = record {
  algorithm = codes "sum";
  data_block_size = 512;
  data_blocks = 2;
  digest_size = 1;
  hash_block_size = 512;
  slot_size = 1;
  salt = 7 ∷ [];
  superblock = superblock;
}

abbrev metadata : Metadata
metadata = record {
  root = record { sha256 = []; size = 1024 };
  root_hash_artifact = record { sha256 = []; size = 3 };
  verity = record { sha256 = []; size = 1024 };
  geometry = geometry;
  data_partition = 1;
  hash_levels = 1;
  hash_partition = 2;
  root_hash = codes "1a";
  tree_offset = 512;
  tree_size = 512;
}

abbrev listed : List Listed
listed =
    (record { label = none; number = 1; size_bytes = 1024; type_guid = root_x86_64 })
    ∷ (record { label = none; number = 2; size_bytes = 1024; type_guid = root_x86_64_verity })
    ∷ []

superblock_read : read_superblock one_byte hash_image ≡ ok geometry
unfolding read_superblock one_byte
superblock_read = refl

tree_verified : verify_tree sum_hash root_image hash_image geometry 512 ≡ ok (1 ∷ [], 26 ∷ [], 512)
unfolding verify_tree sum_hash sum
tree_verified = refl

projected :
    project one_byte sum_hash no_sha256 (codes "1A" ++ 10 ∷ []) listed root_image hash_image
    ≡ ok metadata
unfolding project sum_hash sum one_byte no_sha256
projected = refl

project_sound_example : Projected one_byte sum_hash root_image hash_image metadata
project_sound_example =
    project_sound one_byte sum_hash no_sha256 one_byte-sized (codes "1A" ++ 10 ∷ []) listed
      root_image hash_image metadata projected

levels_counted : level_counts 2 512 ≡ ok (1 ∷ [])
unfolding level_counts
levels_counted = refl

within_budget : check_spool_budget geometry (1 ∷ []) ≡ ok tt
unfolding check_spool_budget
within_budget = refl

tree_emitted :
    TreeEmitted sum_hash geometry hash_image
      (1 ∷ [])
      (level_offsets (1 ∷ []) 512 512).0
      (leaves sum_hash geometry root_image)
unfolding sum_hash sum level_offsets level_blocks salted_digest data_blocks_of
tree_emitted = ((refl, tt), tt)

verify_tree_complete_example :
    verify_tree sum_hash root_image hash_image geometry 512
    ≡ ok (
      1 ∷ [],
      join (top_digests sum_hash geometry (1 ∷ []) (leaves sum_hash geometry root_image)),
      (level_offsets (1 ∷ []) 512 512).1 * 512,
    )
verify_tree_complete_example =
    verify_tree_complete sum_hash geometry sum_hash-sized root_image hash_image 512 (1 ∷ [])
      (omega arith) (omega arith) (omega arith) levels_counted within_budget tree_emitted

slot_size_sound_example :
    IsPowerOfTwo 4096
    × IsPowerOfTwo 4096
    × IsPowerOfTwo 32
    × (20 ≤ 32)
    × (32 < 2 * 20)
    × (4096 % 32 ≡ 0)
    × (1 ≤ 4096 / 32)
unfolding slot_size
slot_size_sound_example = slot_size_sound 4096 4096 20 32 (omega arith) refl

count_levels-total_example :
    (counts : List ℕ) × (count_levels 64 1000000 128 ≡ ok counts) × (length counts ≤ 32)
count_levels-total_example =
    count_levels-total 64 32 1000000 128 (omega arith) (omega arith) (omega arith) (omega arith)
