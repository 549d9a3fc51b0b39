-- ===== src/Verity/Geometry.antt =====
-- The geometry of a hash tree: `_slot_size` and `_read_superblock` of
-- mkosi/private/verity_metadata.py. The digest size that hashlib knows for an algorithm is a
-- parameter.
use rules_mkosi.Prelude.{
  ℕ, zero, suc, ◌+◌, ◌-◌, ◌*◌, ◌/◌, ◌%◌, ◌^◌, not, ◌&&◌, ◌||◌, [], ◌∷◌, ◌++◌, Option, none, some,
  length, take, ltb, leb, ◌==◌, if◌then◌else◌, Outcome, ok, err, guard, ◌>>=◌, ◌>>◌,
}
use rules_mkosi.Prelude.Text.{Text, codes, text_eq, every}
use rules_mkosi.Prelude.Bytes.{Bytes, slice, unpack}
use rules_mkosi.Gpt.Partitions.{until_nul}
use rules_mkosi.Verity.Error.{
  VerityError, no_superblock, algorithm_not_ascii, unsupported_format, unsupported_algorithm,
  invalid_data_block_size, invalid_hash_block_size, slots_do_not_divide, invalid_data_blocks,
  invalid_salt_size,
}

-- `x & y`, by the bits from the lowest on; `x` is fuel enough.
unfoldable pub bit_and : ℕ → ℕ → ℕ → ℕ
bit_and zero x y = 0
bit_and (suc fuel) x y = (x % 2) * (y % 2) + 2 * bit_and fuel (x / 2) (y / 2)

-- `x & (x - 1)`; for 0 it is `0 & -1`.
unfoldable pub below_bits : ℕ → ℕ
unfolding bit_and
below_bits x = bit_and x x (x - 1)

-- `x.bit_length()`, with fuel; `x` is enough.
unfoldable pub bit_length : ℕ → ℕ → ℕ
bit_length zero x = 0
bit_length (suc fuel) x = let rest = bit_length fuel (x / 2) in if x == 0 then 0 else suc rest

-- `1 << (size - 1).bit_length()`; `(-1).bit_length()` is 1.
unfoldable pub slot_of : ℕ → ℕ
unfolding bit_length
slot_of zero = 2
slot_of (suc n) = 2 ^ bit_length n n

-- `_slot_size`
unfoldable pub slot_size : ℕ → ℕ → ℕ → Outcome VerityError ℕ
unfolding below_bits slot_of
slot_size data_block_size hash_block_size digest_size =
    let slot = slot_of digest_size in
    if ltb data_block_size 512
      || ltb 1048576 data_block_size
      || not (below_bits data_block_size == 0)
    then err invalid_data_block_size
    else if ltb hash_block_size digest_size
        || ltb 1048576 hash_block_size
        || not (below_bits hash_block_size == 0)
    then err invalid_hash_block_size
    else if ltb hash_block_size slot || not (hash_block_size % slot == 0)
    then err slots_do_not_divide
    else ok slot

abbrev pub max_blocks : ℕ
max_blocks = 2 ^ 32

abbrev pub superblock_size : ℕ
superblock_size = 512

-- What `_read_superblock` returns.
pub record Geometry : Type 0 where
  pub algorithm : Text
  pub data_block_size : ℕ
  pub data_blocks : ℕ
  pub digest_size : ℕ
  pub hash_block_size : ℕ
  pub slot_size : ℕ
  pub salt : Bytes
  pub superblock : Bytes

-- `_digest_size`, of what hashlib answers; `none` is its `ValueError`.
unfoldable pub known_size : Option ℕ → Outcome VerityError ℕ
known_size none = err unsupported_algorithm
known_size (some n) = ok n

-- `_read_superblock`
unfoldable pub read_superblock : (Text → Option ℕ) → Bytes → Outcome VerityError Geometry
unfolding slot_size known_size unpack until_nul text_eq every
read_superblock digest_sizes source = do
  let value = take superblock_size source
  guard (length value == superblock_size && text_eq (take 8 value) (codes "verity" ++ 0 ∷ 0 ∷ []))
      no_superblock
  let algorithm = until_nul (slice 32 32 value)
  guard (every (λ c. ltb c 128) algorithm) algorithm_not_ascii
  let data_block_size = unpack 4 64 value
  let hash_block_size = unpack 4 68 value
  let data_blocks = unpack 8 72 value
  let salt_size = unpack 2 80 value
  guard (unpack 4 8 value == 1 && unpack 4 12 value == 1) unsupported_format
  digest_size ← known_size (digest_sizes algorithm)
  slot ← slot_size data_block_size hash_block_size digest_size
  guard (ltb 0 data_blocks && leb data_blocks max_blocks) invalid_data_blocks
  guard (leb salt_size 256) invalid_salt_size
  ok (record {
    algorithm = algorithm;
    data_block_size = data_block_size;
    data_blocks = data_blocks;
    digest_size = digest_size;
    hash_block_size = hash_block_size;
    slot_size = slot;
    salt = slice 88 salt_size value;
    superblock = value;
  })
