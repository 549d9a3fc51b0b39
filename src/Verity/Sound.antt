-- ===== src/Verity/Sound.antt =====
-- What the metadata of `project` says of the artifacts.
use rules_mkosi.Prelude.{
  ℕ, ◌+◌, ◌*◌, ◌≤◌, ◌≡◌, refl, List, [], ◌∷◌, ◌++◌, Option, none, some, length, take, drop, ltb,
  leb, ◌==◌, ok, guard, >>=-eq-ok, IfOk-ok, arith, Bool, true, false, ◌&&◌,
}
use rules_mkosi.Prelude.Text.{Text, strip_left, strip_right, codes, text_eq, text_eq_iff, every}
use rules_mkosi.Prelude.Bytes.{Bytes, slice, unpack}
use rules_mkosi.Gpt.Partitions.{hex, until_nul}
use rules_mkosi.Verity.Error.{
  no_superblock, algorithm_not_ascii, unsupported_format, invalid_data_blocks, invalid_salt_size,
  data_exceeds_root, nonzero_padding, nonzero_trailer, root_hash_differs,
}
use rules_mkosi.Verity.Geometry.{
  Geometry, max_blocks, superblock_size, slot_size, known_size, read_superblock,
}
use rules_mkosi.Verity.Tree.{verify_tree}
use rules_mkosi.Verity.Verified.{Verified, verify_tree_sound}
use rules_mkosi.Verity.Project.{
  Listed, root_partitions, artifact_sizes, all_zero, check_superblock_padding, check_zero_trailer,
  Metadata, project, lower,
}

guard-true : {E : Type 0} (b : Bool) (raised : E) → guard b raised ≡ ok tt → b ≡ true
guard-true true raised e = refl
guard-true false raised e = absurd (ground arith)

-- What a superblock that is read guarantees.
pub record IsGeometry (digest_sizes : Text → Option ℕ) (g : Geometry) : Type 0 where
  pub known : digest_sizes g.algorithm ≡ some g.digest_size
  pub slots : slot_size g.data_block_size g.hash_block_size g.digest_size ≡ ok g.slot_size
  pub some_data : 1 ≤ g.data_blocks
  pub bounded : g.data_blocks ≤ max_blocks

known_size-some : (found : Option ℕ) (n : ℕ) → known_size found ≡ ok n → found ≡ some n
unfolding known_size
known_size-some none n e = absurd (ground arith)
known_size-some (some k) n e = ground arith

range_true : (n : ℕ) → (ltb 0 n && leb n max_blocks) ≡ true → (1 ≤ n) × (n ≤ max_blocks)
range_true n e = ground arith

pub read_superblock-IsGeometry :
    (digest_sizes : Text → Option ℕ) (source : Bytes) (g : Geometry)
    → read_superblock digest_sizes source ≡ ok g
    → IsGeometry digest_sizes g
unfolding read_superblock
read_superblock-IsGeometry digest_sizes source g e =
    let value = take superblock_size source in
    let algorithm = until_nul (slice 32 32 value) in
    let (_, _, e₁) =
      >>=-eq-ok
        (guard
          (length value == superblock_size && text_eq (take 8 value) (codes "verity" ++ 0 ∷ 0 ∷ []))
          no_superblock)
        _ e in
    let (_, _, e₂) =
      >>=-eq-ok (guard (every (λ c. ltb c 128) algorithm) algorithm_not_ascii) _ e₁ in
    let (_, _, e₃) =
      >>=-eq-ok (guard (unpack 4 8 value == 1 && unpack 4 12 value == 1) unsupported_format) _ e₂ in
    let (size, known, e₄) = >>=-eq-ok (known_size (digest_sizes algorithm)) _ e₃ in
    let (slot, slots, e₅) =
      >>=-eq-ok (slot_size (unpack 4 64 value) (unpack 4 68 value) size) _ e₄ in
    let blocks = unpack 8 72 value in
    let (_, bounded, e₆) =
      >>=-eq-ok (guard (ltb 0 blocks && leb blocks max_blocks) invalid_data_blocks) _ e₅ in
    let (_, _, e₇) = >>=-eq-ok (guard (leb (unpack 2 80 value) 256) invalid_salt_size) _ e₆ in
    let (low, high) =
      range_true blocks
        (guard-true (ltb 0 blocks && leb blocks max_blocks) invalid_data_blocks bounded) in
    IfOk-ok (IsGeometry digest_sizes) (ok _) e₇ (record {
      known = known_size-some (digest_sizes algorithm) size known;
      slots = slots;
      some_data = low;
      bounded = high;
    })

-- The metadata describes the artifacts.
pub Projected : (Text → Option ℕ) → (Text → Bytes → Bytes) → Bytes → Bytes → Metadata → Type 0
Projected digest_sizes hash root_image hash_image m =
    (read_superblock digest_sizes hash_image ≡ ok m.geometry)
    × IsGeometry digest_sizes m.geometry
    × ((counts : List ℕ) × (root : Bytes) × Verified hash m.geometry root_image hash_image
          m.geometry.hash_block_size (counts, root, m.tree_size)
        × (m.root_hash ≡ hex root)
        × (m.hash_levels ≡ length counts))
    × (m.geometry.data_blocks * m.geometry.data_block_size ≤ length root_image)
    × (all_zero (drop superblock_size (take m.geometry.hash_block_size hash_image)) ≡ true)
    × (all_zero (drop (m.geometry.data_blocks * m.geometry.data_block_size) root_image) ≡ true)
    × (all_zero (drop (m.geometry.hash_block_size + m.tree_size) hash_image) ≡ true)

artifact_sizes-length :
    (root_image hash_image : Bytes) (p q : Listed) (a b : ℕ)
    → artifact_sizes root_image hash_image p q ≡ ok (a, b)
    → a ≡ length root_image
unfolding artifact_sizes
artifact_sizes-length root_image hash_image p q a b e = ground arith

zero_trailer-all_zero :
    (image : Bytes) (offset : ℕ)
    → check_zero_trailer image offset ≡ ok tt
    → all_zero (drop offset image) ≡ true
unfolding check_zero_trailer
zero_trailer-all_zero image offset e = guard-true (all_zero (drop offset image)) nonzero_trailer e

both-true : (a b : Bool) → (a && b) ≡ true → (a ≡ true) × (b ≡ true)
both-true a b h = ground arith

padding-all_zero :
    (hash_image : Bytes) (tree_offset : ℕ)
    → check_superblock_padding hash_image tree_offset ≡ ok tt
    → all_zero (drop superblock_size (take tree_offset hash_image)) ≡ true
unfolding check_superblock_padding
padding-all_zero hash_image tree_offset e = (both-true _ _ (guard-true _ nonzero_padding e)).1

fits_in : (a b c : ℕ) → leb a b ≡ true → b ≡ c → a ≤ c
fits_in a b c e f = ground arith

-- What `project` reports: the geometry is that of the superblock and within its bounds; every level
-- of the hash tree of the root artifact stands in the hash artifact after the superblock's block;
-- the root hash is the digest at the top of that tree; the root artifact is zero after the data
-- blocks; and the hash artifact is zero from the end of the superblock to the tree and after the
-- tree. The digests that the hash function gives have the sizes that are
-- declared for its algorithms.
pub project_sound :
    (digest_sizes : Text → Option ℕ) (hash : Text → Bytes → Bytes) (sha256 : Bytes → Text)
    → ((algorithm : Text) (n : ℕ)
        → digest_sizes algorithm ≡ some n
        → (bytes : Bytes) → length (hash algorithm bytes) ≡ n)
    → (root_hash_file : Bytes) (partitions : List Listed) (root_image hash_image : Bytes)
      (m : Metadata)
    → project digest_sizes hash sha256 root_hash_file partitions root_image hash_image ≡ ok m
    → Projected digest_sizes hash root_image hash_image m
unfolding project Projected
project_sound digest_sizes hash sha256 sized root_hash_file partitions root_image hash_image m e =
    let (chosen, _, e₁) = >>=-eq-ok (root_partitions partitions) _ e in
    let (sizes, measured, e₂) =
      >>=-eq-ok (artifact_sizes root_image hash_image chosen.0 chosen.1) _ e₁ in
    let (g, read, e₃) = >>=-eq-ok (read_superblock digest_sizes hash_image) _ e₂ in
    let good = read_superblock-IsGeometry digest_sizes hash_image g read in
    let data_size = g.data_blocks * g.data_block_size in
    let (_, enough, e₄) = >>=-eq-ok (guard (leb data_size sizes.0) data_exceeds_root) _ e₃ in
    let (_, root_zero, e₅) = >>=-eq-ok (check_zero_trailer root_image data_size) _ e₄ in
    let (_, padded, e₆) = >>=-eq-ok (check_superblock_padding hash_image g.hash_block_size) _ e₅ in
    let ((levels, verified_root, tree_size), verified, e₇) =
      >>=-eq-ok (verify_tree hash root_image hash_image g g.hash_block_size) _ e₆ in
    let (_, hash_zero, e₈) =
      >>=-eq-ok (check_zero_trailer hash_image (g.hash_block_size + tree_size)) _ e₇ in
    let (_, same, e₉) =
      >>=-eq-ok
        (guard (text_eq (lower (strip_right (strip_left root_hash_file))) (hex verified_root))
          root_hash_differs)
        _ e₈ in
    IfOk-ok (Projected digest_sizes hash root_image hash_image) (ok _) e₉ (
      read,
      good,
      (
        levels,
        verified_root,
        verify_tree_sound hash g (sized g.algorithm g.digest_size good.known) root_image hash_image
            g.hash_block_size (levels, verified_root, tree_size) verified,
        (text_eq_iff _ _).0 (guard-true _ _ same),
        refl,
      ),
      fits_in data_size sizes.0 (length root_image) (guard-true _ _ enough)
          (artifact_sizes-length root_image hash_image chosen.0 chosen.1 sizes.0 sizes.1 measured),
      padding-all_zero hash_image g.hash_block_size padded,
      zero_trailer-all_zero root_image data_size root_zero,
      zero_trailer-all_zero hash_image (g.hash_block_size + tree_size) hash_zero,
    )
