-- ===== src/Esp/Volume/Fat.antt =====
-- Cluster chains and what they hold: `_FatVolume._next_cluster` to `_FatVolume.read_file`. A FAT
-- that is read outside of its bytes raises a `struct.error`.
use rules_mkosi.Prelude.{
  ℕ, zero, suc, ◌+◌, ◌-◌, ◌*◌, ◌/◌, ◌%◌, ◌^◌, not, ◌&&◌, List, [], ◌∷◌, ◌++◌, length, take, ltb,
  leb, ◌==◌, if◌then◌else◌, Outcome, ok, err, guard, ◌>>=◌, ◌>>◌,
}
use rules_mkosi.Prelude.Bytes.{Bytes, unpack}
use rules_mkosi.Esp.Error.{
  EspError, invalid_cluster, chain_loops, chain_length, outside_fat, out_of_fuel,
}
use rules_mkosi.Esp.Image.{read}
use rules_mkosi.Prelude.Text.{one_of}
use rules_mkosi.Esp.Geometry.{Volume, FatBits, bits12, bits16, bits32, last_cluster, ceil_div}

-- `struct.unpack_from(..., self.fat, offset)[0]` of an integer of so many bytes.
unfoldable pub fat_value : Volume → ℕ → ℕ → Outcome EspError ℕ
unfolding unpack
fat_value v size offset =
    if ltb (length v.fat) (offset + size) then err outside_fat else ok (unpack size offset v.fat)

-- `_FatVolume._next_cluster`
unfoldable pub next_in : FatBits → Volume → ℕ → Outcome EspError ℕ
unfolding fat_value
next_in bits12 v cluster = do
  value ← fat_value v 2 (cluster * 3 / 2)
  ok (if cluster % 2 == 1 then value / 16 else value % 4096)
next_in bits16 v cluster = fat_value v 2 (cluster * 2)
next_in bits32 v cluster = do value ← fat_value v 4 (cluster * 4); ok (value % 2 ^ 28)

unfoldable pub next_cluster : Volume → ℕ → Outcome EspError ℕ
unfolding next_in
next_cluster v cluster = next_in v.bits v cluster

-- `_END_OF_CHAIN`
unfoldable pub end_of_chain : FatBits → ℕ
end_of_chain bits12 = 0xff8
end_of_chain bits16 = 0xfff8
end_of_chain bits32 = 0xffffff8

-- The loop of `_FatVolume._chain` on fuel, from a cluster on, with the clusters that it has visited.
unfoldable pub chain_from : ℕ → Volume → List ℕ → ℕ → Outcome EspError (List ℕ)
unfolding next_cluster end_of_chain one_of
chain_from zero v visited cluster = err out_of_fuel
chain_from (suc fuel) v visited cluster =
    if not (leb 2 cluster && leb cluster (last_cluster v))
    then err invalid_cluster
    else if one_of cluster visited
    then err chain_loops
    else (do
      next ← next_cluster v cluster
      rest ←
          (let more = chain_from fuel v (cluster ∷ visited) next in
            if leb (end_of_chain v.bits) next then ok [] else more)
      ok (cluster ∷ rest))

-- `_FatVolume._chain`. Each round visits another cluster, so one more than their number is enough.
unfoldable pub chain : Volume → ℕ → Outcome EspError (List ℕ)
unfolding chain_from
chain v first = chain_from (v.geometry.clusters + 1) v [] first

-- `_FatVolume._read_chain`
unfoldable pub read_chain : Volume → List ℕ → Outcome EspError Bytes
unfolding read
read_chain v [] = ok []
read_chain v (cluster ∷ clusters) = do
  let g = v.geometry
  bytes ← read v.image (g.data_offset + (cluster - 2) * g.cluster_size) g.cluster_size
  rest ← read_chain v clusters
  ok (bytes ++ rest)

-- `_FatVolume.read_file` of a file that is not empty.
unfoldable pub read_contents : Volume → ℕ → ℕ → Outcome EspError Bytes
unfolding chain read_chain
read_contents v first size = do
  clusters ← chain v first
  guard (length clusters == ceil_div size v.geometry.cluster_size) chain_length
  bytes ← read_chain v clusters
  ok (take size bytes)

-- `_FatVolume.read_file` of an entry's first cluster and size.
unfoldable pub read_file : Volume → ℕ → ℕ → Outcome EspError Bytes
unfolding read_contents
read_file v first size = if size == 0 then ok [] else read_contents v first size
