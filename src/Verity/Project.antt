-- ===== src/Verity/Project.antt =====
-- `_root_partitions` to `project` of mkosi/private/verity_metadata.py. The partitions are those of
-- the parsed JSON; SHA-256 is a parameter; the root hash file is ASCII.
use rules_mkosi.Prelude.{
  ℕ, ◌+◌, ◌*◌, List, [], ◌∷◌, Option, none, some, length, take, drop, leb, ◌==◌, if◌then◌else◌,
  Outcome, ok, err, guard, ◌>>=◌, ◌>>◌, Bool, true, false, not, ◌&&◌, ◌||◌,
}
use rules_mkosi.Prelude.Text.{Text, strip_left, strip_right, text_eq}
use rules_mkosi.Prelude.Bytes.{Bytes}
use rules_mkosi.Gpt.Partitions.{
  root_x86_64, root_x86_64_verity, root_x86_64_verity_sig, empty_slot_label, hex,
}
use rules_mkosi.Verity.Error.{
  VerityError, partition_count, signature_partition, artifact_too_large, root_size_differs,
  hash_size_differs, data_exceeds_root, nonzero_padding, nonzero_trailer, root_hash_differs,
}
use rules_mkosi.Verity.Geometry.{Geometry, read_superblock, superblock_size}
use rules_mkosi.Verity.Tree.{verify_tree}

-- `text.lower()` of ASCII text.
unfoldable pub lower : Text → Text
lower [] = []
lower (c ∷ s) = (if leb b'A' c && leb c b'Z' then c + 32 else c) ∷ lower s

-- A partition of the metadata; its label may be missing.
pub record Listed : Type 0 where
  pub label : Option Text
  pub number : ℕ
  pub size_bytes : ℕ
  pub type_guid : Text

unfoldable pub is_slot_type : Text → Bool
unfolding text_eq
is_slot_type type_guid = text_eq type_guid root_x86_64 || text_eq type_guid root_x86_64_verity

-- The test for an inactive slot, which is ignored.
unfoldable pub is_inactive : Listed → Bool
unfolding is_slot_type text_eq
is_inactive p = elim p.label [
  | none ↦ false
  | some label ↦ text_eq label empty_slot_label && is_slot_type p.type_guid
]

-- `by_type.get(type_guid, [])`
unfoldable pub by_type : Text → List Listed → List Listed
unfolding is_inactive text_eq
by_type type_guid [] = []
by_type type_guid (p ∷ ps) =
    let rest = by_type type_guid ps in
    if not (is_inactive p) && text_eq p.type_guid type_guid then p ∷ rest else rest

unfoldable pub only : List Listed → Outcome VerityError Listed
only [] = err partition_count
only (p ∷ []) = ok p
only (p ∷ q ∷ ps) = err partition_count

-- `_root_partitions`
unfoldable pub root_partitions : List Listed → Outcome VerityError (Listed × Listed)
unfolding by_type only
root_partitions partitions = do
  root ← only (by_type root_x86_64 partitions)
  verity ← only (by_type root_x86_64_verity partitions)
  guard (length (by_type root_x86_64_verity_sig partitions) == 0) signature_partition
  ok (root, verity)

abbrev pub max_artifact_bytes : ℕ
max_artifact_bytes = 16 * (1024 * 1024 * 1024)

-- `_artifact_sizes`
unfoldable pub artifact_sizes : Bytes → Bytes → Listed → Listed → Outcome VerityError (ℕ × ℕ)
artifact_sizes root_image hash_image root verity = do
  let root_size = length root_image
  let hash_size = length hash_image
  guard (leb root_size max_artifact_bytes && leb hash_size max_artifact_bytes) artifact_too_large
  guard (root_size == root.size_bytes) root_size_differs
  guard (hash_size == verity.size_bytes) hash_size_differs
  ok (root_size, hash_size)

-- `_all_zero`
unfoldable pub all_zero : Bytes → Bool
all_zero [] = true
all_zero (b ∷ bs) = b == 0 && all_zero bs

-- `_check_superblock_padding`
unfoldable pub check_superblock_padding : Bytes → ℕ → Outcome VerityError (Unit {0})
unfolding all_zero
check_superblock_padding hash_image tree_offset =
    let header_block = take tree_offset hash_image in
    guard (length header_block == tree_offset && all_zero (drop superblock_size header_block))
      nonzero_padding

-- `_check_zero_trailer`
unfoldable pub check_zero_trailer : Bytes → ℕ → Outcome VerityError (Unit {0})
unfolding all_zero
check_zero_trailer image offset = guard (all_zero (drop offset image)) nonzero_trailer

-- `_artifact`
pub record Artifact : Type 0 where
  pub sha256 : Text
  pub size : ℕ

-- What `project` returns, without its constants.
pub record Metadata : Type 0 where
  pub root : Artifact
  pub root_hash_artifact : Artifact
  pub verity : Artifact
  pub geometry : Geometry
  pub data_partition : ℕ
  pub hash_levels : ℕ
  pub hash_partition : ℕ
  pub root_hash : Text
  pub tree_offset : ℕ
  pub tree_size : ℕ

module _ (digest_sizes : Text → Option ℕ) (hash : Text → Bytes → Bytes)
    (sha256 : Bytes → Text) where
  -- `project`
  unfoldable pub project : Bytes → List Listed → Bytes → Bytes → Outcome VerityError Metadata
  unfolding strip_left strip_right lower root_partitions artifact_sizes read_superblock
      check_zero_trailer check_superblock_padding verify_tree hex text_eq
  project root_hash_file partitions root_image hash_image = do
    let root_hash = lower (strip_right (strip_left root_hash_file))
    (root_partition, hash_partition) ← root_partitions partitions
    (root_size, hash_size) ← artifact_sizes root_image hash_image root_partition hash_partition
    g ← read_superblock digest_sizes hash_image
    let data_size = g.data_blocks * g.data_block_size
    guard (leb data_size root_size) data_exceeds_root
    check_zero_trailer root_image data_size
    let tree_offset = g.hash_block_size
    check_superblock_padding hash_image tree_offset
    (levels, verified_root, tree_size) ← verify_tree hash root_image hash_image g tree_offset
    check_zero_trailer hash_image (tree_offset + tree_size)
    guard (text_eq root_hash (hex verified_root)) root_hash_differs
    ok (record {
      root = record { sha256 = sha256 root_image; size = root_size };
      root_hash_artifact = record { sha256 = sha256 root_hash_file; size = length root_hash_file };
      verity = record { sha256 = sha256 hash_image; size = hash_size };
      geometry = g;
      data_partition = root_partition.number;
      hash_levels = length levels;
      hash_partition = hash_partition.number;
      root_hash = root_hash;
      tree_offset = tree_offset;
      tree_size = tree_size;
    })
