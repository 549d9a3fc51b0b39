-- ===== src/Verity/Verified.antt =====
-- `_verify_tree` accepts the hash tree of the root artifact, and only that.
use rules_mkosi.Prelude.{
  ℕ, ◌*◌, ◌/◌, ◌≤◌, ◌≡◌, refl, sym, ap, ◌∙◌, subst, List, [], ◌∷◌, length, ◌==◌, ok, IfOk-ok,
  >>=-eq-ok, arith, length-append, take_all, true,
}
use rules_mkosi.Prelude.Text.{Text}
use rules_mkosi.Prelude.Bytes.{Bytes}
use rules_mkosi.Verity.Geometry.{Geometry}
use rules_mkosi.Verity.Tree.{
  level_counts, level_offsets, check_spool_budget, read_root_digest, leaf_digests, verify_levels,
  verify_tree, max_levels,
}
use rules_mkosi.Verity.Counts.{last_count, count_levels-last, length-level_offsets}
use rules_mkosi.Verity.Match.{join, Sized, level_blocks, digests_of, length-digests_of}
use rules_mkosi.Verity.Levels.{
  data_blocks_of, length-data_blocks_of, length-level_blocks, TreeEmitted, top_digests,
  leaf_digests_complete, leaf_digests_sound, digests_of-Sized, verify_levels_complete,
  verify_levels_sound,
}

-- The digests of the data blocks.
abbrev pub leaves : (Text → Bytes → Bytes) → Geometry → Bytes → List Bytes
leaves hash g root_image = digests_of hash g (data_blocks_of g.data_blocks g root_image)

abbrev pub per_block : Geometry → ℕ
per_block g = g.hash_block_size / g.slot_size

-- What a verified hash artifact is: every level of the hash tree of the data blocks stands at its
-- offset, the root is the digest at the top, and the size is that of all levels.
pub Verified : (Text → Bytes → Bytes) → Geometry → Bytes → Bytes → ℕ → List ℕ × Bytes × ℕ → Type 0
Verified hash g root_image hash_image tree_offset (counts, root, size) =
    (level_counts g.data_blocks (per_block g) ≡ ok counts)
    × TreeEmitted hash g hash_image counts (level_offsets counts tree_offset g.hash_block_size).0
        (leaves hash g root_image)
    × (root ≡ join (top_digests hash g counts (leaves hash g root_image)))
    × (size ≡ (level_offsets counts tree_offset g.hash_block_size).1 * g.hash_block_size)

read_root_digest_sound :
    (spool root : Bytes) (n : ℕ) → read_root_digest spool n ≡ ok root → root ≡ spool
unfolding read_root_digest
read_root_digest_sound spool root n e = ground (arith, take_all n spool)

read_root_digest_complete :
    (spool : Bytes) (n : ℕ) → length spool ≡ n → read_root_digest spool n ≡ ok spool
unfolding read_root_digest
read_root_digest_complete spool n e =
    let same : (length spool == n) ≡ true = ground arith in
    rw (take_all n spool (omega arith), same)

-- If `_verify_tree` succeeds, every level of the hash tree of the data blocks stands in the hash
-- artifact at the offset of `_level_offsets`, the returned root is the digest at the top of that
-- tree, and the returned size is that of all levels; the hash function's digests have the declared
-- size.
pub verify_tree_sound :
    (hash : Text → Bytes → Bytes) (g : Geometry)
    → ((bytes : Bytes) → length (hash g.algorithm bytes) ≡ g.digest_size)
    → (root_image hash_image : Bytes) (tree_offset : ℕ) (result : List ℕ × Bytes × ℕ)
    → verify_tree hash root_image hash_image g tree_offset ≡ ok result
    → Verified hash g root_image hash_image tree_offset result
unfolding verify_tree Verified
verify_tree_sound hash g sized root_image hash_image tree_offset result e =
    let (counts, counted, e₁) = >>=-eq-ok (level_counts g.data_blocks (per_block g)) _ e in
    let (_, _, e₂) = >>=-eq-ok (check_spool_budget g counts) _ e₁ in
    let (offsets, blocks) = level_offsets counts tree_offset g.hash_block_size in
    let blocks_read = data_blocks_of g.data_blocks g root_image in
    let (leaf, read, e₃) = >>=-eq-ok (leaf_digests hash g.data_blocks g root_image) _ e₂ in
    let (top, climbed, e₄) =
      >>=-eq-ok (verify_levels hash counts offsets g hash_image g.data_blocks leaf) _ e₃ in
    let (root, checked, e₅) = >>=-eq-ok (read_root_digest top g.digest_size) _ e₄ in
    let leaf_spool = leaf_digests_sound hash g g.data_blocks root_image leaf read in
    let (emitted, top_spool) =
      verify_levels_sound hash g sized hash_image counts offsets blocks_read top
        (sym (length-level_offsets counts tree_offset g.hash_block_size))
        (subst
          (λ n.
            verify_levels hash counts offsets g hash_image n (join (digests_of hash g blocks_read))
            ≡ ok top)
          (sym (length-data_blocks_of g.data_blocks g root_image)) (rw (← leaf_spool) climbed)) in
    IfOk-ok (Verified hash g root_image hash_image tree_offset)
      (ok (counts, root, blocks * g.hash_block_size)) e₅
      (counted, emitted, read_root_digest_sound top root g.digest_size checked ∙ top_spool, refl)

-- The length of a spool.
length-join :
    (g : Geometry) (ds : List Bytes) → Sized g ds → length (join ds) ≡ length ds * g.digest_size
unfolding join
length-join g [] h = omega arith
length-join g (d ∷ ds) (one, more) =
    omega (arith, length-append {0} d (join ds), one, length-join g ds more)

length-top_digests :
    (hash : Text → Bytes → Bytes) (g : Geometry) (counts : List ℕ) (bs : List Bytes)
    → length (top_digests hash g counts (digests_of hash g bs)) ≡ last_count (length bs) counts
unfolding top_digests
length-top_digests hash g [] bs = length-digests_of hash g bs
length-top_digests hash g (n ∷ counts) bs =
    length-top_digests hash g counts (level_blocks n g (digests_of hash g bs))
    ∙ ap (λ m. last_count m counts) (length-level_blocks n g (digests_of hash g bs))

top_digests-Sized :
    (hash : Text → Bytes → Bytes) (g : Geometry)
    → ((bytes : Bytes) → length (hash g.algorithm bytes) ≡ g.digest_size)
    → (counts : List ℕ) (bs : List Bytes)
    → Sized g (top_digests hash g counts (digests_of hash g bs))
unfolding top_digests
top_digests-Sized hash g sized [] bs = digests_of-Sized hash g sized bs
top_digests-Sized hash g sized (n ∷ counts) bs =
    top_digests-Sized hash g sized counts (level_blocks n g (digests_of hash g bs))

-- Conversely, a hash artifact in which every level stands at its offset is accepted, with the
-- digest at the top as the root: for a root artifact that holds the declared data blocks, at least
-- one, hash blocks that hold a digest, a count of levels that is in bounds and spools in their
-- budget.
pub verify_tree_complete :
    (hash : Text → Bytes → Bytes) (g : Geometry)
    → ((bytes : Bytes) → length (hash g.algorithm bytes) ≡ g.digest_size)
    → (root_image hash_image : Bytes) (tree_offset : ℕ) (counts : List ℕ) → 1 ≤ g.data_blocks
    → 1 ≤ per_block g
    → g.data_blocks * g.data_block_size ≤ length root_image
    → level_counts g.data_blocks (per_block g) ≡ ok counts
    → check_spool_budget g counts ≡ ok tt
    → TreeEmitted hash g hash_image counts
        (level_offsets counts tree_offset g.hash_block_size).0
        (leaves hash g root_image)
    → verify_tree hash root_image hash_image g tree_offset
      ≡ ok (
        counts,
        join (top_digests hash g counts (leaves hash g root_image)),
        (level_offsets counts tree_offset g.hash_block_size).1 * g.hash_block_size,
      )
unfolding verify_tree level_counts
verify_tree_complete hash g sized root_image hash_image tree_offset counts some_data some_slots fits
      counted budget emitted =
    let offsets = (level_offsets counts tree_offset g.hash_block_size).0 in
    let blocks_read = data_blocks_of g.data_blocks g root_image in
    let ds = digests_of hash g blocks_read in
    let count = length-data_blocks_of g.data_blocks g root_image in
    let climbed : verify_levels hash counts offsets g hash_image g.data_blocks (join ds)
        ≡ ok (join (top_digests hash g counts ds)) =
      subst
        (λ n.
          verify_levels hash counts offsets g hash_image n (join ds)
          ≡ ok (join (top_digests hash g counts ds)))
        count
        (verify_levels_complete hash g sized hash_image counts offsets blocks_read
          (sym (length-level_offsets counts tree_offset g.hash_block_size)) emitted) in
    let one : length (top_digests hash g counts ds) ≡ 1 =
      length-top_digests hash g counts blocks_read
      ∙ ap (λ n. last_count n counts) count
      ∙ count_levels-last max_levels g.data_blocks (per_block g) counts some_slots some_data
          counted in
    let size : length (join (top_digests hash g counts ds)) ≡ g.digest_size =
      length-join g (top_digests hash g counts ds)
        (top_digests-Sized hash g sized counts blocks_read)
      ∙ ap (λ n. n * g.digest_size) one
      ∙ omega arith in
    rw (
      counted,
      budget,
      leaf_digests_complete hash g g.data_blocks root_image fits,
      climbed,
      read_root_digest_complete (join (top_digests hash g counts ds)) g.digest_size size,
    )
