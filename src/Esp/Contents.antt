-- ===== src/Esp/Contents.antt =====
-- The bytes of a chain of clusters of an opened volume.
use rules_mkosi.Prelude.{
  ℕ, suc, ◌+◌, ◌-◌, ◌*◌, ◌≤◌, ◌≡◌, refl, List, [], ◌∷◌, ◌++◌, length, ok, arith, All, length-append,
}
use rules_mkosi.Prelude.Bytes.{Bytes, slice}
use rules_mkosi.Esp.Geometry.{Volume}
use rules_mkosi.Esp.Volume.Fat.{read_chain}
use rules_mkosi.Esp.Bounds.{IsVolume, read_inside, length-read}
use rules_mkosi.Esp.Chains.{IsCluster}

-- The bytes of a cluster.
abbrev pub cluster_bytes : Volume → ℕ → Bytes
cluster_bytes v c =
    slice (v.geometry.data_offset + (c - 2) * v.geometry.cluster_size) v.geometry.cluster_size
      v.image

unfoldable pub chain_bytes : Volume → List ℕ → Bytes
chain_bytes v [] = []
chain_bytes v (c ∷ cs) = cluster_bytes v c ++ chain_bytes v cs

cluster_offset : (c n size : ℕ) → 2 ≤ c → c ≤ n + 1 → (c - 2) * size + size ≤ n * size
cluster_offset c n size h k = grind arith

cluster_inside :
    (v : Volume) (c : ℕ)
    → IsVolume v
    → v.partition.offset + v.partition.size ≤ length v.image
    → IsCluster v c
    → v.geometry.data_offset + (c - 2) * v.geometry.cluster_size + v.geometry.cluster_size
      ≤ length v.image
cluster_inside v c h inside k =
    omega
      (arith, h.clusters_end, cluster_offset c v.geometry.clusters v.geometry.cluster_size k.0 k.1)

pub read_chain_lem :
    (v : Volume) (cs : List ℕ)
    → IsVolume v
    → v.partition.offset + v.partition.size ≤ length v.image
    → All (IsCluster v) cs
    → read_chain v cs ≡ ok (chain_bytes v cs)
unfolding read_chain chain_bytes
read_chain_lem v [] h inside k = refl
read_chain_lem v (c ∷ cs) h inside (a, k) =
    let g = v.geometry in
    rw (
      read_inside v.image (g.data_offset + (c - 2) * g.cluster_size) g.cluster_size
          (cluster_inside v c h inside a),
      read_chain_lem v cs h inside k,
    )

length-cluster_bytes :
    (v : Volume) (c : ℕ)
    → IsVolume v
    → v.partition.offset + v.partition.size ≤ length v.image
    → IsCluster v c
    → length (cluster_bytes v c) ≡ v.geometry.cluster_size
length-cluster_bytes v c h inside k =
    let g = v.geometry in
    length-read v.image (g.data_offset + (c - 2) * g.cluster_size) g.cluster_size (
      read_inside v.image (g.data_offset + (c - 2) * g.cluster_size) g.cluster_size
        (cluster_inside v c h inside k))

one_more : (n s t : ℕ) → t ≡ n * s → s + t ≡ suc n * s
one_more n s t e = grind arith

pub length-chain_bytes :
    (v : Volume) (cs : List ℕ)
    → IsVolume v
    → v.partition.offset + v.partition.size ≤ length v.image
    → All (IsCluster v) cs
    → length (chain_bytes v cs) ≡ length cs * v.geometry.cluster_size
unfolding chain_bytes
length-chain_bytes v [] h inside k = omega arith
length-chain_bytes v (c ∷ cs) h inside (a, k) = omega (
  arith,
  length-append {0} (cluster_bytes v c) (chain_bytes v cs),
  length-cluster_bytes v c h inside a,
  one_more (length cs) v.geometry.cluster_size (length (chain_bytes v cs))
      (length-chain_bytes v cs h inside k),
)
