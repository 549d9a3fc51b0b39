-- ===== src/Verity/Match.antt =====
-- The emitted hash tree against the tree that the root artifact has.
use rules_mkosi.Prelude.{
  ℕ, zero, suc, ◌+◌, ◌-◌, ◌/◌, ◌≤◌, ◌≡◌, refl, ap, ◌∙◌, List, [], ◌∷◌, ◌++◌, map, length, take,
  drop, ◌==◌, ok, ◌>>=◌, ◌>>◌, guard, >>=-eq-ok, min, All, arith, append-nil, length-drop,
  take-append_ge, drop-append_ge, true,
}
use rules_mkosi.Prelude.Text.{Text, text_eq, text_eq_iff, text_eq_refl}
use rules_mkosi.Prelude.Bytes.{Bytes, zeros}
use rules_mkosi.Verity.Error.{hash_mismatch}
use rules_mkosi.Verity.Geometry.{Geometry}
use rules_mkosi.Verity.Tree.{pack_digests, expected_block, salted_digest, verify_level}

-- A spool is the concatenation of its digests.
unfoldable pub join : List Bytes → Bytes
join [] = []
join (d ∷ ds) = d ++ join ds

-- Every digest has the size that the geometry declares.
abbrev pub Sized : Geometry → List Bytes → Type 0
Sized g ds = All (λ d. length d ≡ g.digest_size) ds

-- A hash block: digests, each padded to its slot, and zeros up to the block size.
unfoldable pub in_slots : Geometry → List Bytes → Bytes
in_slots g [] = []
in_slots g (d ∷ ds) = d ++ (zeros (g.slot_size - g.digest_size) ++ in_slots g ds)

unfoldable pub block_of : Geometry → List Bytes → Bytes
unfolding in_slots
block_of g ds = in_slots g ds ++ zeros (g.hash_block_size - length (in_slots g ds))

-- The first `n` blocks of the level above `ds`.
unfoldable pub level_blocks : ℕ → Geometry → List Bytes → List Bytes
unfolding block_of
level_blocks zero g ds = []
level_blocks (suc n) g ds =
    block_of g (take (g.hash_block_size / g.slot_size) ds)
    ∷ level_blocks n g (drop (g.hash_block_size / g.slot_size) ds)

-- The blocks stand one after the other in what was emitted.
abbrev pub Emitted : Geometry → Bytes → List Bytes → Type 0
Emitted g emitted [] = Unit
Emitted g emitted (b ∷ bs) =
    (take g.hash_block_size emitted ≡ b) × Emitted g (drop g.hash_block_size emitted) bs

take-append : (xs ys : Bytes) (n : ℕ) → length xs ≡ n → take n (xs ++ ys) ≡ xs
take-append xs ys n h =
    ap (λ k. take k (xs ++ ys)) {x = n} {y = length xs + 0} (omega arith)
    ∙ take-append_ge xs ys 0
    ∙ append-nil xs

drop-append : (xs ys : Bytes) (n : ℕ) → length xs ≡ n → drop n (xs ++ ys) ≡ ys
drop-append xs ys n h =
    ap (λ k. drop k (xs ++ ys)) {x = n} {y = length xs + 0} (omega arith) ∙ drop-append_ge xs ys 0

-- Packing reads the digests of the spool one by one.
pub pack_digests_lem :
    (n : ℕ) (g : Geometry) (ds : List Bytes)
    → Sized g ds
    → n ≤ length ds
    → pack_digests n g (join ds) ≡ ok (in_slots g (take n ds), join (drop n ds))
unfolding pack_digests join in_slots
pack_digests_lem zero g ds sized h = refl
pack_digests_lem (suc n) g [] sized h = absurd (omega arith)
pack_digests_lem (suc n) g (d ∷ ds) (one, more) h =
    let same : (length d == g.digest_size) ≡ true = ground arith in
    rw (
      take-append d (join ds) g.digest_size one,
      drop-append d (join ds) g.digest_size one,
      same,
      pack_digests_lem n g ds more (omega arith),
    )

take-min {ℓ} : {A : Type ℓ} (k : ℕ) (xs : List A) → take (min k (length xs)) xs ≡ take k xs
take-min zero xs = ap (λ m. take m xs) {y = 0} (omega arith)
take-min (suc k) [] = ap (λ m. take m []) {y = 0} (omega arith)
take-min (suc k) (x ∷ xs) =
    ap (λ m. take m (x ∷ xs)) {y = suc (min k (length xs))} (omega arith)
    ∙ ap (λ ys. x ∷ ys) (take-min k xs)

drop-min {ℓ} : {A : Type ℓ} (k : ℕ) (xs : List A) → drop (min k (length xs)) xs ≡ drop k xs
drop-min zero xs = ap (λ m. drop m xs) {y = 0} (omega arith)
drop-min (suc k) [] = ap (λ m. drop m []) {y = 0} (omega arith)
drop-min (suc k) (x ∷ xs) =
    ap (λ m. drop m (x ∷ xs)) {y = suc (min k (length xs))} (omega arith) ∙ drop-min k xs

pub drop-Sized : (k : ℕ) (g : Geometry) (ds : List Bytes) → Sized g ds → Sized g (drop k ds)
drop-Sized zero g ds h = h
drop-Sized (suc k) g [] h = h
drop-Sized (suc k) g (d ∷ ds) h = drop-Sized k g ds h.1

expected_block_lem :
    (k : ℕ) (g : Geometry) (ds : List Bytes)
    → Sized g ds
    → expected_block (join ds) (min k (length ds)) g ≡ ok (block_of g (take k ds), join (drop k ds))
unfolding expected_block block_of
expected_block_lem k g ds sized =
    rw (pack_digests_lem (min k (length ds)) g ds sized (omega arith), take-min k ds, drop-min k ds)

left_over : (k : ℕ) (ds : List Bytes) → length ds - min k (length ds) ≡ length (drop k ds)
left_over k ds = omega (arith, length-drop {0} k ds)

module _ (hash : Text → Bytes → Bytes) where
  -- The digests of blocks.
  abbrev pub digests_of : Geometry → List Bytes → List Bytes
  digests_of g blocks = map (salted_digest hash g) blocks

  pub length-digests_of : (g : Geometry) (bs : List Bytes) → length (digests_of g bs) ≡ length bs
  length-digests_of g [] = refl
  length-digests_of g (b ∷ bs) = ap suc (length-digests_of g bs)

  -- One level that is emitted as computed is accepted, with the digests of its blocks.
  pub verify_level_complete :
      (n : ℕ) (g : Geometry) (ds : List Bytes) (emitted : Bytes)
      → Sized g ds
      → Emitted g emitted (level_blocks n g ds)
      → verify_level hash n g (length ds) (join ds) emitted
        ≡ ok (join (digests_of g (level_blocks n g ds)))
  unfolding verify_level level_blocks join
  verify_level_complete zero g ds emitted sized h = refl
  verify_level_complete (suc n) g ds emitted sized (first, more) =
      let k = g.hash_block_size / g.slot_size in
      rw (
        expected_block_lem k g ds sized,
        first,
        text_eq_refl (block_of g (take k ds)),
        left_over k ds,
        verify_level_complete n g (drop k ds) (drop g.hash_block_size emitted)
            (drop-Sized k g ds sized) more,
      )

  -- A level that is accepted was emitted as computed.
  pub verify_level_sound :
      (n : ℕ) (g : Geometry) (ds : List Bytes) (emitted spool : Bytes)
      → Sized g ds
      → verify_level hash n g (length ds) (join ds) emitted ≡ ok spool
      → Emitted g emitted (level_blocks n g ds)
        × (spool ≡ join (digests_of g (level_blocks n g ds)))
  unfolding verify_level level_blocks join
  verify_level_sound zero g ds emitted spool sized h = (tt, ground arith)
  verify_level_sound (suc n) g ds emitted spool sized h =
      let k = g.hash_block_size / g.slot_size in
      let block = block_of g (take k ds) in
      let step = λ (left : ℕ) (found : Bytes × Bytes). (do
        guard (text_eq (take g.hash_block_size emitted) found.0) hash_mismatch
        spool ← verify_level hash n g left found.1 (drop g.hash_block_size emitted)
        ok (salted_digest hash g found.0 ++ spool)) in
      let h₁ : step (length (drop k ds)) (block, join (drop k ds)) ≡ ok spool =
        rw (expected_block_lem k g ds sized, left_over k ds) at h in
      let (_, same, h₂) =
        >>=-eq-ok (guard (text_eq (take g.hash_block_size emitted) block) hash_mismatch) _ h₁ in
      let (rest, rec, h₃) =
        >>=-eq-ok
          (verify_level hash n g (length (drop k ds)) (join (drop k ds))
            (drop g.hash_block_size emitted))
          _ h₂ in
      let (more, spools) =
        verify_level_sound n g (drop k ds) (drop g.hash_block_size emitted) rest
          (drop-Sized k g ds sized) rec in
      (
        (ground (arith, text_eq_iff (take g.hash_block_size emitted) block), more),
        ground (arith, spools),
      )
