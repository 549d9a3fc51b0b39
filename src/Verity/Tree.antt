-- ===== src/Verity/Tree.antt =====
-- The hash tree: `_salted_digest` to `_verify_tree` of mkosi/private/verity_metadata.py. The hash
-- function is a parameter, by the algorithm's name. The temporary files of the spools and their
-- removal are left out.
use rules_mkosi.Prelude.{
  ℕ, zero, suc, ◌+◌, ◌-◌, ◌*◌, ◌/◌, List, [], ◌∷◌, ◌++◌, length, take, drop, ltb, leb, ◌==◌,
  if◌then◌else◌, Outcome, ok, err, guard, ◌>>=◌, ◌>>◌, min, ◌&&◌,
}
use rules_mkosi.Prelude.Text.{Text, text_eq}
use rules_mkosi.Prelude.Bytes.{Bytes, zeros}
use rules_mkosi.Verity.Error.{
  VerityError, root_truncated, too_many_levels, spools_too_large, spool_truncated, hash_mismatch,
  invalid_root_spool,
}
use rules_mkosi.Verity.Geometry.{Geometry}

abbrev pub max_levels : ℕ
max_levels = 64

abbrev pub max_spool_bytes : ℕ
max_spool_bytes = 2 * (1024 * 1024 * 1024)

-- The loop of `_level_counts`, with the levels that may still be appended.
unfoldable pub count_levels : ℕ → ℕ → ℕ → Outcome VerityError (List ℕ)
count_levels zero digests per_block = if ltb 1 digests then err too_many_levels else ok []
count_levels (suc left) digests per_block =
    let blocks = (digests + per_block - 1) / per_block in
    let above = (do counts ← count_levels left blocks per_block; ok (blocks ∷ counts)) in
    if ltb 1 digests then above else ok []

-- `_level_counts`
unfoldable pub level_counts : ℕ → ℕ → Outcome VerityError (List ℕ)
unfolding count_levels
level_counts data_blocks per_block = count_levels max_levels data_blocks per_block

unfoldable pub first_count : List ℕ → ℕ
first_count [] = 0
first_count (n ∷ counts) = n

-- `_check_spool_budget`
unfoldable pub check_spool_budget : Geometry → List ℕ → Outcome VerityError (Unit {0})
unfolding first_count
check_spool_budget g counts =
    guard (leb (g.data_blocks * g.digest_size + first_count counts * g.digest_size) max_spool_bytes)
      spools_too_large

-- `_level_offsets`: the offset of every level, and the blocks of all of them. The loop runs from
-- the top level, which is the last, so a level's offset counts the levels above it.
unfoldable pub level_offsets : List ℕ → ℕ → ℕ → List ℕ × ℕ
level_offsets [] tree_offset block_size = ([], 0)
level_offsets (n ∷ counts) tree_offset block_size =
    let (offsets, preceding) = level_offsets counts tree_offset block_size in
    ((tree_offset + preceding * block_size) ∷ offsets, preceding + n)

-- `_expected_block`: the digests that it packs, and what is left of the spool.
unfoldable pub pack_digests : ℕ → Geometry → Bytes → Outcome VerityError (Bytes × Bytes)
pack_digests zero g current = ok ([], current)
pack_digests (suc n) g current = do
  let digest = take g.digest_size current
  guard (length digest == g.digest_size) spool_truncated
  (block, rest) ← pack_digests n g (drop g.digest_size current)
  ok (digest ++ (zeros (g.slot_size - g.digest_size) ++ block), rest)

unfoldable pub expected_block : Bytes → ℕ → Geometry → Outcome VerityError (Bytes × Bytes)
unfolding pack_digests
expected_block current digests g = do
  (block, rest) ← pack_digests digests g current
  ok (block ++ zeros (g.hash_block_size - length block), rest)

-- `_read_root_digest`
unfoldable pub read_root_digest : Bytes → ℕ → Outcome VerityError Bytes
read_root_digest spool digest_size =
    let verified_root = take digest_size spool in
    if length verified_root == digest_size && length spool == digest_size
    then ok verified_root
    else err invalid_root_spool

module _ (hash : Text → Bytes → Bytes) where
  -- `_salted_digest`
  unfoldable pub salted_digest : Geometry → Bytes → Bytes
  salted_digest g bytes = hash g.algorithm (g.salt ++ bytes)

  -- `_leaf_digests`: the spool that it writes.
  unfoldable pub leaf_digests : ℕ → Geometry → Bytes → Outcome VerityError Bytes
  unfolding salted_digest
  leaf_digests zero g source = ok []
  leaf_digests (suc n) g source = do
    let block = take g.data_block_size source
    guard (length block == g.data_block_size) root_truncated
    spool ← leaf_digests n g (drop g.data_block_size source)
    ok (salted_digest g block ++ spool)

  -- `_verify_level` for the blocks that are left: `left` is `below.digest_count - consumed`.
  unfoldable pub verify_level : ℕ → Geometry → ℕ → Bytes → Bytes → Outcome VerityError Bytes
  unfolding expected_block text_eq salted_digest
  verify_level zero g left current emitted = ok []
  verify_level (suc n) g left current emitted = do
    let digests = min (g.hash_block_size / g.slot_size) left
    (block, current') ← expected_block current digests g
    guard (text_eq (take g.hash_block_size emitted) block) hash_mismatch
    spool ← verify_level n g (left - digests) current' (drop g.hash_block_size emitted)
    ok (salted_digest g block ++ spool)

  -- The loop of `_verify_tree`: the spool of the top level.
  unfoldable pub verify_levels :
      List ℕ → List ℕ → Geometry → Bytes → ℕ → Bytes → Outcome VerityError Bytes
  unfolding verify_level
  verify_levels (n ∷ counts) (offset ∷ offsets) g hash_image digest_count below = do
    spool ← verify_level n g digest_count below (drop offset hash_image)
    verify_levels counts offsets g hash_image n spool
  verify_levels counts offsets g hash_image digest_count below = ok below

  -- `_verify_tree`
  unfoldable pub verify_tree :
      Bytes → Bytes → Geometry → ℕ → Outcome VerityError (List ℕ × Bytes × ℕ)
  unfolding level_counts check_spool_budget level_offsets leaf_digests verify_levels
      read_root_digest
  verify_tree root_image hash_image g tree_offset = do
    counts ← level_counts g.data_blocks (g.hash_block_size / g.slot_size)
    check_spool_budget g counts
    let (offsets, blocks) = level_offsets counts tree_offset g.hash_block_size
    leaf ← leaf_digests g.data_blocks g root_image
    top ← verify_levels counts offsets g hash_image g.data_blocks leaf
    root ← read_root_digest top g.digest_size
    ok (counts, root, blocks * g.hash_block_size)
