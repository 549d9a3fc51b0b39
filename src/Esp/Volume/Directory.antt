-- ===== src/Esp/Volume/Directory.antt =====
-- Directories: `_WalkLimits`, and `_FatVolume.directory` to `_FatVolume._entries`.
use rules_mkosi.Prelude.{
  ℕ, zero, suc, ◌+◌, ◌-◌, ◌*◌, ◌/◌, ◌%◌, Bool, false, not, ◌&&◌, ◌||◌, List, [], ◌∷◌, ◌++◌, Option,
  none, some, length, take, drop, ltb, leb, ◌==◌, if◌then◌else◌, Outcome, ok, err, guard, ◌>>=◌,
  ◌>>◌,
}
use rules_mkosi.Prelude.Text.{Text, codes, text_eq}
use rules_mkosi.Prelude.Bytes.{Bytes, unpack}
use rules_mkosi.Esp.Error.{EspError, cross_linked, directories_too_large, too_many_entries}
use rules_mkosi.Esp.Image.{read}
use rules_mkosi.Prelude.Text.{one_of}
use rules_mkosi.Esp.Geometry.{Volume}
use rules_mkosi.Esp.Names.{has_bit, max_long_name_slots, first_byte, long_name, short_name}
use rules_mkosi.Esp.Volume.Fat.{chain, read_chain}

-- `_Entry`
pub record Entry : Type 0 where
  pub name : Text
  pub short_name : Text
  pub attributes : ℕ
  pub cluster : ℕ
  pub size : ℕ

unfoldable pub is_directory : Entry → Bool
is_directory e = has_bit e.attributes 16

-- `_WalkLimits`
pub record WalkLimits : Type 0 where
  pub claimed : List ℕ
  pub remaining : ℕ

unfoldable pub shares : List ℕ → List ℕ → Bool
unfolding one_of
shares claimed [] = false
shares claimed (cluster ∷ clusters) = one_of cluster claimed || shares claimed clusters

-- `claimed.update(chain)`
unfoldable pub add_all : List ℕ → List ℕ → List ℕ
add_all [] claimed = claimed
add_all (cluster ∷ clusters) claimed = add_all clusters (cluster ∷ claimed)

-- `_WalkLimits.claim`
unfoldable pub claim : WalkLimits → List ℕ → ℕ → Outcome EspError WalkLimits
unfolding shares add_all
claim limits clusters size =
    if shares limits.claimed clusters
    then err cross_linked
    else if ltb limits.remaining size
    then err directories_too_large
    else ok
        (record { claimed = add_all clusters limits.claimed; remaining = limits.remaining - size })

unfoldable pub claim_if : Option WalkLimits → List ℕ → ℕ → Outcome EspError (Option WalkLimits)
unfolding claim
claim_if none clusters size = ok none
claim_if (some limits) clusters size = do l ← claim limits clusters size; ok (some l)

-- `_FatVolume._add_slot`
unfoldable pub add_slot : List Bytes → Bytes → List Bytes
unfolding first_byte
add_slot slots raw =
    if has_bit (first_byte raw) 64
    then raw ∷ []
    else if leb max_long_name_slots (length slots)
    then []
    else slots ++ raw ∷ []

abbrev pub max_directory_bytes : ℕ
max_directory_bytes = 65536 * 32

unfoldable pub or_short : Option Text → Text → Text
or_short none short = short
or_short (some long) short = long

-- The first cluster of a directory; `none` is the root of FAT12 and FAT16.
unfoldable pub directory_start : Volume → Option ℕ → Option ℕ
directory_start v none = if v.geometry.fat32 then some v.geometry.root_cluster else none
directory_start v (some cluster) = some cluster

module _ (cp437 : ℕ → ℕ) (lower : Text → Text) where
  unfoldable pub entry_of : Bool → List Bytes → Bytes → Entry
  unfolding long_name short_name or_short unpack
  entry_of fat32 slots raw = record {
    name = or_short (long_name slots raw) (short_name cp437 lower raw);
    short_name = short_name cp437 lower raw;
    attributes = unpack 1 11 raw;
    cluster = (if fat32 then unpack 2 20 raw else 0) * 65536 + unpack 2 26 raw;
    size = unpack 4 28 raw;
  }

  -- A short entry that `_entries` leaves out.
  unfoldable pub is_skipped : Bytes → Bool
  unfolding short_name text_eq unpack
  is_skipped raw =
      has_bit (unpack 1 11 raw) 8
      || text_eq (short_name cp437 lower raw) (codes ".")
      || text_eq (short_name cp437 lower raw) (codes "..")

  -- The loop of `_entries` over the 32-byte records that are left.
  unfoldable pub entries_from : ℕ → Bool → List Bytes → Bytes → List Entry
  unfolding first_byte add_slot entry_of is_skipped unpack
  entries_from zero fat32 slots bytes = []
  entries_from (suc rounds) fat32 slots bytes =
      let raw = take 32 bytes in
      let deleted = first_byte raw == 0xe5 in
      let long = not deleted && unpack 1 11 raw % 64 == 15 in
      let rest =
        entries_from rounds fat32 (if long then add_slot slots raw else []) (drop 32 bytes) in
      if first_byte raw == 0
      then []
      else if deleted || long || is_skipped raw
      then rest
      else entry_of fat32 slots raw ∷ rest

  -- `_FatVolume._entries`
  unfoldable pub entries : Bool → Bytes → List Entry
  unfolding entries_from
  entries fat32 bytes = entries_from (length bytes / 32) fat32 [] bytes

  unfoldable pub directory_at :
      Volume → Option ℕ → Option WalkLimits → Outcome EspError (Option WalkLimits × List Entry)
  unfolding claim_if entries chain read_chain read
  directory_at v none limits = do
    limits' ← claim_if limits [] v.geometry.root_size
    bytes ← read v.image v.geometry.root_offset v.geometry.root_size
    ok (limits', entries v.geometry.fat32 bytes)
  directory_at v (some first) limits = do
    clusters ← chain v first
    let size = length clusters * v.geometry.cluster_size
    guard (leb size max_directory_bytes) too_many_entries
    limits' ← claim_if limits clusters size
    bytes ← read_chain v clusters
    ok (limits', entries v.geometry.fat32 bytes)

  -- `_FatVolume.directory`
  unfoldable pub directory :
      Volume → Option ℕ → Option WalkLimits → Outcome EspError (Option WalkLimits × List Entry)
  unfolding directory_at directory_start
  directory v cluster limits = directory_at v (directory_start v cluster) limits
