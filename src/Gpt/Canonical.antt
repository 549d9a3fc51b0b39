-- ===== src/Gpt/Canonical.antt =====
-- The canonical hash of an image: `_canonical_header` to `canonical_image_sha256` of
-- mkosi/private/partition_metadata.py. CRC-32 and SHA-256 are parameters; a digest that is fed in
-- pieces is the list of the bytes fed so far.
pub mod Hashing
pub mod Total
use rules_mkosi.Prelude.{
  ℕ, zero, suc, ◌+◌, ◌-◌, ◌*◌, Bool, true, false, ◌&&◌, ◌||◌, List, [], ◌∷◌, ◌++◌, Option, none,
  some, length, take, drop, ltb, leb, ◌==◌, if◌then◌else◌, Outcome, ok, err, ◌>>=◌, min,
}
use rules_mkosi.Prelude.Text.{Text, codes, text_lt}
use rules_mkosi.Prelude.Bytes.{Bytes, slice, put, zeros, pack}
use rules_mkosi.Gpt.Error.{GptError, patches_overlap, truncated_while_hashing}
use rules_mkosi.Gpt.Header.{Header, Gpt, validated_gpt}
use rules_mkosi.Gpt.Partitions.{project_image}

-- `_canonical_header`
unfoldable pub canonical_header : (Bytes → ℕ) → Header → ℕ → Bytes
unfolding put pack
canonical_header crc32 h array_crc =
    let cleared = put 56 (zeros 16) (put 16 (zeros 4) h.raw_header) in
    let with_array = put 88 (pack 4 array_crc) cleared in
    put 16 (pack 4 (crc32 (take h.header_size with_array))) with_array

abbrev pub hash_chunk_bytes : ℕ
hash_chunk_bytes = 1024 * 1024

-- `_hash_bytes` on fuel: what is left of the image, and what the digest was fed.
unfoldable pub hash_bytes : ℕ → Bytes → Bytes → ℕ → Outcome GptError (Bytes × Bytes)
hash_bytes fuel rest fed zero = ok (rest, fed)
hash_bytes zero rest fed (suc size) = err truncated_while_hashing
hash_bytes (suc fuel) rest fed (suc size) =
    let chunk = take (min hash_chunk_bytes (suc size)) rest in
    let more =
      hash_bytes fuel (drop (length chunk) rest) (fed ++ chunk) (suc size - length chunk) in
    if length chunk == 0 then err truncated_while_hashing else more

-- An offset of the image with the bytes that replace what stands there.
abbrev pub Patch : Type 0
Patch = ℕ × Bytes

-- `sorted(patches)`, by the order of tuples.
unfoldable pub patch_lt : Patch → Patch → Bool
unfolding text_lt
patch_lt (o, v) (p, w) = ltb o p || (o == p && text_lt v w)

unfoldable pub insert_patch : Patch → List Patch → List Patch
unfolding patch_lt
insert_patch x [] = x ∷ []
insert_patch x (y ∷ ys) =
    let rest = insert_patch x ys in if patch_lt y x then y ∷ rest else x ∷ y ∷ ys

unfoldable pub sort_patches : List Patch → List Patch
unfolding insert_patch
sort_patches [] = []
sort_patches (x ∷ xs) = insert_patch x (sort_patches xs)

-- The loop of `_hash_with_patches`, from the cursor on. Every chunk that is hashed holds a byte,
-- so the size is fuel enough.
unfoldable pub hash_patches : ℕ → List Patch → ℕ → Bytes → Bytes → Outcome GptError Bytes
unfolding hash_bytes
hash_patches image_size [] cursor rest fed = do
  (rest', fed') ← hash_bytes (image_size - cursor) rest fed (image_size - cursor)
  ok fed'
hash_patches image_size ((offset, replacement) ∷ patches) cursor rest fed =
    let go_on = (do
      (rest', fed') ← hash_bytes (offset - cursor) rest fed (offset - cursor)
      hash_patches image_size patches (offset + length replacement)
          (drop (length replacement) rest') (fed' ++ replacement)) in
    if ltb offset cursor then err patches_overlap else go_on

-- `_hash_with_patches`
unfoldable pub hash_with_patches : (Bytes → Text) → Bytes → ℕ → List Patch → Outcome GptError Text
hash_with_patches sha256 image image_size patches = do
  fed ← hash_patches image_size (sort_patches patches) 0 image []
  ok (sha256 fed)

-- The loop of `canonical_image_sha256` that clears the unique GUIDs of the entries.
unfoldable pub clear_guids : ℕ → ℕ → ℕ → Bytes → Bytes
unfolding put
clear_guids zero slot entry_size array = array
clear_guids (suc left) slot entry_size array =
    clear_guids left (slot + 1) entry_size (put (slot * entry_size + 16) (zeros 16) array)

-- The patches of `canonical_image_sha256`.
unfoldable pub canonical_patches : (Bytes → ℕ) → Gpt → List Patch
unfolding canonical_header clear_guids
canonical_patches crc32 g =
    let array = clear_guids g.primary.count 0 g.primary.entry_size g.primary.array in
    let array_crc = crc32 array in
    (g.primary.header_offset, canonical_header crc32 g.primary array_crc)
    ∷ (g.primary.array_offset, array)
    ∷ (g.backup.array_offset, array)
    ∷ (g.backup.header_offset, canonical_header crc32 g.backup array_crc)
    ∷ []

-- `canonical_image_sha256`
unfoldable pub canonical_image_sha256 :
    (Bytes → ℕ) → (Bytes → Text) → Bytes → Option Text → Outcome GptError Text
canonical_image_sha256 crc32 sha256 image slot_label = do
  _ ← project_image crc32 image (codes "uefi") slot_label
  g ← validated_gpt crc32 image
  hash_with_patches sha256 image g.image_size (canonical_patches crc32 g)
