-- ===== src/Verity/Levels.antt =====
-- Which root artifacts and hash trees `_verify_tree` accepts, and the root digest that it returns.
use rules_mkosi.Prelude.{
  ℕ, zero, suc, ◌-◌, ◌*◌, ◌/◌, ◌≤◌, ◌≡◌, refl, sym, ap, subst, List, [], ◌∷◌, ◌++◌, length, take,
  drop, ◌==◌, ok, guard, >>=-eq-ok, arith, length-take, length-drop, true,
}
use rules_mkosi.Prelude.Text.{Text}
use rules_mkosi.Prelude.Bytes.{Bytes}
use rules_mkosi.Verity.Error.{root_truncated}
use rules_mkosi.Verity.Geometry.{Geometry}
use rules_mkosi.Verity.Tree.{salted_digest, leaf_digests, verify_level, verify_levels}
use rules_mkosi.Verity.Match.{
  join, Sized, level_blocks, Emitted, digests_of, length-digests_of, verify_level_complete,
  verify_level_sound,
}

-- The first `n` data blocks.
unfoldable pub data_blocks_of : ℕ → Geometry → Bytes → List Bytes
data_blocks_of zero g source = []
data_blocks_of (suc n) g source =
    take g.data_block_size source ∷ data_blocks_of n g (drop g.data_block_size source)

pub length-data_blocks_of :
    (n : ℕ) (g : Geometry) (source : Bytes) → length (data_blocks_of n g source) ≡ n
unfolding data_blocks_of
length-data_blocks_of zero g source = refl
length-data_blocks_of (suc n) g source =
    ap suc (length-data_blocks_of n g (drop g.data_block_size source))

pub length-level_blocks :
    (n : ℕ) (g : Geometry) (ds : List Bytes) → length (level_blocks n g ds) ≡ n
unfolding level_blocks
length-level_blocks zero g ds = refl
length-level_blocks (suc n) g ds =
    ap suc (length-level_blocks n g (drop (g.hash_block_size / g.slot_size) ds))

first_fits : (n d l : ℕ) → suc n * d ≤ l → d ≤ l
first_fits n d l h = grind arith

rest_fits : (n d l : ℕ) → suc n * d ≤ l → n * d ≤ l - d
rest_fits n d l h = grind arith

module _ (hash : Text → Bytes → Bytes) (g : Geometry) where
  -- Each level of the tree above `ds` stands at its offset.
  abbrev pub TreeEmitted : Bytes → List ℕ → List ℕ → List Bytes → Type 0
  TreeEmitted image (n ∷ counts) (offset ∷ offsets) ds =
      Emitted g (drop offset image) (level_blocks n g ds)
      × TreeEmitted image counts offsets (digests_of hash g (level_blocks n g ds))
  TreeEmitted image counts offsets ds = Unit

  -- The digests of the top level.
  unfoldable pub top_digests : List ℕ → List Bytes → List Bytes
  top_digests [] ds = ds
  top_digests (n ∷ counts) ds = top_digests counts (digests_of hash g (level_blocks n g ds))

  pub leaf_digests_complete :
      (n : ℕ) (source : Bytes)
      → n * g.data_block_size ≤ length source
      → leaf_digests hash n g source ≡ ok (join (digests_of hash g (data_blocks_of n g source)))
  unfolding leaf_digests data_blocks_of join
  leaf_digests_complete zero source h = refl
  leaf_digests_complete (suc n) source h =
      let first = first_fits n g.data_block_size (length source) h in
      let full : (length (take g.data_block_size source) == g.data_block_size) ≡ true =
        ground (arith, length-take {0} g.data_block_size source) in
      let more : n * g.data_block_size ≤ length (drop g.data_block_size source) = omega (
        arith,
        length-drop {0} g.data_block_size source,
        rest_fits n g.data_block_size (length source) h,
      ) in
      rw (full, leaf_digests_complete n (drop g.data_block_size source) more)

  pub leaf_digests_sound :
      (n : ℕ) (source spool : Bytes)
      → leaf_digests hash n g source ≡ ok spool
      → (spool ≡ join (digests_of hash g (data_blocks_of n g source)))
  unfolding leaf_digests data_blocks_of join
  leaf_digests_sound zero source spool h = ground arith
  leaf_digests_sound (suc n) source spool h =
      let (_, _, h₁) =
        >>=-eq-ok
          (guard (length (take g.data_block_size source) == g.data_block_size) root_truncated) _
          h in
      let (rest, read, h₂) =
        >>=-eq-ok (leaf_digests hash n g (drop g.data_block_size source)) _ h₁ in
      ground (arith, leaf_digests_sound n (drop g.data_block_size source) rest read)

  module _ (sized : (bytes : Bytes) → length (hash g.algorithm bytes) ≡ g.digest_size) where
    pub digests_of-Sized : (bs : List Bytes) → Sized g (digests_of hash g bs)
    unfolding salted_digest
    digests_of-Sized [] = tt
    digests_of-Sized (b ∷ bs) = (sized (g.salt ++ b), digests_of-Sized bs)

    pub verify_levels_complete :
        (image : Bytes) (counts offsets : List ℕ) (bs : List Bytes)
        → length counts ≡ length offsets
        → TreeEmitted image counts offsets (digests_of hash g bs)
        → verify_levels hash counts offsets g image (length bs) (join (digests_of hash g bs))
          ≡ ok (join (top_digests counts (digests_of hash g bs)))
    unfolding verify_levels top_digests
    verify_levels_complete image [] offsets bs same h = refl
    verify_levels_complete image (n ∷ counts) [] bs same h = absurd (omega arith)
    verify_levels_complete image (n ∷ counts) (o ∷ offsets) bs same (level, above) =
        let ds = digests_of hash g bs in
        rw
          (
            sym (length-digests_of hash g bs),
            verify_level_complete hash n g ds (drop o image) (digests_of-Sized bs) level,
          )
          (subst
            (λ m.
              verify_levels hash counts offsets g image m
                (join (digests_of hash g (level_blocks n g ds)))
              ≡ ok (join (top_digests counts (digests_of hash g (level_blocks n g ds)))))
            (length-level_blocks n g ds)
            (verify_levels_complete image counts offsets (level_blocks n g ds) (omega arith) above))

    pub verify_levels_sound :
        (image : Bytes) (counts offsets : List ℕ) (bs : List Bytes) (spool : Bytes)
        → length counts ≡ length offsets
        → verify_levels hash counts offsets g image (length bs) (join (digests_of hash g bs))
          ≡ ok spool
        → TreeEmitted image counts offsets (digests_of hash g bs)
          × (spool ≡ join (top_digests counts (digests_of hash g bs)))
    unfolding verify_levels top_digests
    verify_levels_sound image [] offsets bs spool same h = (tt, ground arith)
    verify_levels_sound image (n ∷ counts) [] bs spool same h = absurd (omega arith)
    verify_levels_sound image (n ∷ counts) (o ∷ offsets) bs spool same h =
        let ds = digests_of hash g bs in
        let (level_spool, read, h₁) =
          >>=-eq-ok (verify_level hash n g (length bs) (join ds) (drop o image)) _ h in
        let (level, spools) =
          verify_level_sound hash n g ds (drop o image) level_spool (digests_of-Sized bs)
            (rw (length-digests_of hash g bs) read) in
        let (above, top) =
          verify_levels_sound image counts offsets (level_blocks n g ds) spool (omega arith) (
            subst
              (λ m.
                verify_levels hash counts offsets g image m
                  (join (digests_of hash g (level_blocks n g ds)))
                ≡ ok spool)
              (sym (length-level_blocks n g ds)) (rw (← spools) h₁)) in
        ((level, above), top)
