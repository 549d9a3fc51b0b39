-- ===== src/Esp/Chains.antt =====
-- The cluster chains of an opened volume.
use rules_mkosi.Prelude.{
  ℕ, zero, suc, ◌+◌, ◌*◌, ◌/◌, ◌%◌, ◌^◌, ◌≤◌, ◌<◌, ◌≡◌, refl, sym, subst, ◌⊎◌, inl, inr, ◌↔◌, true,
  false, leb, ◌==◌, List, [], ◌∷◌, length, Outcome, ok, err, ◌>>=◌, if◌then◌else◌, ◌&&◌, >>=-eq-ok,
  arith, All, Bool-cases, IfOk-ok,
}
use rules_mkosi.Prelude.Bytes.{unpack}
use rules_mkosi.Esp.Error.{EspError, invalid_cluster, chain_loops}
use rules_mkosi.Prelude.Text.{one_of}
use rules_mkosi.Esp.Geometry.{FatBits, bits12, bits16, bits32, width, Volume, last_cluster}
use rules_mkosi.Esp.Volume.Fat.{fat_value, next_in, next_cluster, end_of_chain, chain_from, chain}
use rules_mkosi.Esp.Pigeonhole.{Distinct, pigeonhole}
use rules_mkosi.Esp.Bounds.{IsVolume}

-- A cluster of the data region.
abbrev pub IsCluster : Volume → ℕ → Type 0
IsCluster v c = (2 ≤ c) × (c ≤ v.geometry.clusters + 1)

fat_value_inside :
    (v : Volume) (size offset : ℕ)
    → offset + size ≤ length v.fat
    → (n : ℕ) × (fat_value v size offset ≡ ok n)
unfolding fat_value
fat_value_inside v size offset h = (unpack size offset v.fat, ground arith)

-- The FAT has a value for every cluster.
next_in_inside :
    (bits : FatBits) (v : Volume) (c : ℕ)
    → (v.geometry.clusters + 2) * width bits ≤ length v.fat * 8
    → c ≤ v.geometry.clusters + 1
    → (n : ℕ) × (next_in bits v c ≡ ok n)
unfolding next_in width
next_in_inside bits12 v c h k =
    let (n, e) = fat_value_inside v 2 (c * 3 / 2) (omega arith) in
    (if c % 2 == 1 then n / 16 else n % 4096, rw e)
next_in_inside bits16 v c h k = fat_value_inside v 2 (c * 2) (omega arith)
next_in_inside bits32 v c h k =
    let (n, e) = fat_value_inside v 4 (c * 4) (omega arith) in (n % 2 ^ 28, rw e)

pub next_cluster_inside :
    (v : Volume) → IsVolume v → (c : ℕ) → IsCluster v c → (n : ℕ) × (next_cluster v c ≡ ok n)
unfolding next_cluster
next_cluster_inside v h c k =
    next_in_inside v.bits v c
      (subst (λ n. (v.geometry.clusters + 2) * width v.bits ≤ n * 8) (sym h.fat_length) h.fat_holds)
      k.1

-- The clusters follow one another in the FAT, and the last one ends the chain.
abbrev pub Linked : Volume → ℕ → List ℕ → Type 0
Linked v first [] = ⊥
Linked v first (c ∷ []) =
    (c ≡ first) × ((n : ℕ) × (next_cluster v c ≡ ok n) × (end_of_chain v.bits ≤ n))
Linked v first (c ∷ d ∷ cs) =
    (c ≡ first)
    × ((n : ℕ) × (next_cluster v c ≡ ok n) × (n < end_of_chain v.bits) × Linked v n (d ∷ cs))

-- No cluster twice, and none of the visited ones.
abbrev pub Fresh : List ℕ → List ℕ → Type 0
Fresh visited [] = Unit
Fresh visited (c ∷ cs) = (one_of c visited ≡ false) × Fresh (c ∷ visited) cs

-- A chain from a cluster on, after those that were visited.
abbrev pub IsChain : Volume → List ℕ → ℕ → List ℕ → Type 0
IsChain v visited c cs = Linked v c cs × All (IsCluster v) cs × Fresh visited cs

Linked-cons :
    (v : Volume) (c n : ℕ) (rest : List ℕ)
    → next_cluster v c ≡ ok n
    → n < end_of_chain v.bits
    → Linked v n rest
    → Linked v c (c ∷ rest)
Linked-cons v c n [] next more linked = absurd linked
Linked-cons v c n (d ∷ ds) next more linked = (refl, (n, next, more, linked))

IsCluster-test : (v : Volume) (c : ℕ) → (leb 2 c && leb c (last_cluster v)) ≡ true → IsCluster v c
IsCluster-test v c e = ground arith

last_link : (v : Volume) (n : ℕ) → leb (end_of_chain v.bits) n ≡ true → end_of_chain v.bits ≤ n
last_link v n e = ground arith

more_link : (v : Volume) (n : ℕ) → leb (end_of_chain v.bits) n ≡ false → n < end_of_chain v.bits
more_link v n e = ground arith

-- A chain that is read is linked from its first cluster on, stays in the data region and visits no
-- cluster twice.
clusters_below :
    (v : Volume) (cs : List ℕ)
    → All (IsCluster v) cs
    → All (λ c. (2 ≤ c) × (c < 2 + v.geometry.clusters)) cs
clusters_below v [] h = tt
clusters_below v (c ∷ cs) (a, h) = ((a.0, omega (arith, a.1)), clusters_below v cs h)

bind_raises :
    (m : Outcome EspError (List ℕ)) (c : ℕ) (e : EspError)
    → (m >>= λ rest. ok (c ∷ rest)) ≡ err e
    → m ≡ err e
bind_raises (ok cs) c e h = cc
bind_raises (err e') c e h = ground arith

chain_from_sound :
    (fuel : ℕ) (v : Volume) (visited : List ℕ) (c : ℕ) {cs : List ℕ}
    → chain_from fuel v visited c ≡ ok cs
    → IsChain v visited c cs
unfolding chain_from
chain_from_sound zero v visited c e = cc
chain_from_sound (suc fuel) v visited c {cs} e =
    elim (Bool-cases (leb 2 c && leb c (last_cluster v))) [
      | inr outside ↦ absurd (ground (arith, outside))
      | inl inside ↦ elim (Bool-cases (one_of c visited)) [
        | inl seen ↦ absurd (ground (arith, inside, seen))
        | inr fresh ↦
            let e₁ = rw (inside, fresh) at e in
            let (n, next, e₂) = >>=-eq-ok (next_cluster v c) _ e₁ in
            elim (Bool-cases (leb (end_of_chain v.bits) n)) [
              | inl last ↦ IfOk-ok (IsChain v visited c) (ok (c ∷ [])) (rw last at e₂) (
                (refl, (n, next, last_link v n last)),
                (IsCluster-test v c inside, tt),
                (fresh, tt),
              )
              | inr more ↦
                  let (rest, read, e₃) =
                    >>=-eq-ok (chain_from fuel v (c ∷ visited) n) _ (rw more at e₂) in
                  let (linked, clusters, others) = chain_from_sound fuel v (c ∷ visited) n read in
                  IfOk-ok (IsChain v visited c) (ok (c ∷ rest)) e₃ (
                    Linked-cons v c n rest next (more_link v n more) linked,
                    (IsCluster-test v c inside, clusters),
                    (fresh, others),
                  )
            ]
      ]
    ]

-- Distinct clusters are at most as many as the data region has.
pub clusters_bounded :
    (v : Volume) (cs : List ℕ)
    → Distinct cs
    → All (IsCluster v) cs
    → length cs ≤ v.geometry.clusters
clusters_bounded v cs d h = pigeonhole 2 v.geometry.clusters cs d (clusters_below v cs h)

chain_from_ends :
    (fuel : ℕ) (v : Volume)
    → IsVolume v
    → (visited : List ℕ) (c : ℕ) (e : EspError) → fuel + length visited ≡ v.geometry.clusters + 1
    → Distinct visited
    → All (IsCluster v) visited
    → chain_from fuel v visited c ≡ err e
    → (e ≡ invalid_cluster) ⊎ (e ≡ chain_loops)
unfolding chain_from
chain_from_ends zero v h visited c e count distinct inside raised =
    absurd (omega (arith, clusters_bounded v visited distinct inside))
chain_from_ends (suc fuel) v h visited c e count distinct inside raised =
    elim (Bool-cases (leb 2 c && leb c (last_cluster v))) [
      | inr outside ↦ ground (arith, outside)
      | inl here ↦ elim (Bool-cases (one_of c visited)) [
        | inl seen ↦ ground (arith, here, seen)
        | inr fresh ↦
            let k = IsCluster-test v c here in
            let (n, next) = next_cluster_inside v h c k in
            let e₁ = rw (here, fresh, next) at raised in
            elim (Bool-cases (leb (end_of_chain v.bits) n)) [
              | inl last ↦ absurd (let e₂ = rw last at e₁ in ground arith)
              | inr more ↦
                  let e₂ = rw more at e₁ in
                  chain_from_ends fuel v h (c ∷ visited) n e (omega arith) (fresh, distinct)
                    (k, inside) (bind_raises (chain_from fuel v (c ∷ visited) n) c e e₂)
            ]
      ]
    ]

Fresh-bounded :
    (v : Volume) (visited cs : List ℕ)
    → Distinct visited
    → All (IsCluster v) visited
    → All (IsCluster v) cs
    → Fresh visited cs
    → length visited + length cs ≤ v.geometry.clusters
Fresh-bounded v visited [] d h k f = omega (arith, clusters_bounded v visited d h)
Fresh-bounded v visited (c ∷ cs) d h (a, k) (b, f) =
    omega (arith, Fresh-bounded v (c ∷ visited) cs (b, d) (a, h) k f)

chain_from_complete :
    (fuel : ℕ) (v : Volume) (visited : List ℕ) (c : ℕ) (cs : List ℕ)
    → IsChain v visited c cs
    → length cs ≤ fuel
    → chain_from fuel v visited c ≡ ok cs
unfolding chain_from
chain_from_complete fuel v visited c [] (l, _, _) h = absurd l
chain_from_complete zero v visited c (d ∷ cs) k h = absurd (omega arith)
chain_from_complete (suc fuel) v visited c (d ∷ []) ((same, (n, next, last)), (k, _), (fresh, _))
      h =
    let here : (leb 2 d && leb d (last_cluster v)) ≡ true = ground arith in
    let ends : leb (end_of_chain v.bits) n ≡ true = ground arith in
    rw (sym same, here, fresh, next, ends)
chain_from_complete (suc fuel) v visited c (d ∷ d' ∷ cs)
      ((same, (n, next, more, linked)), (k, ks), (fresh, fs)) h =
    let here : (leb 2 d && leb d (last_cluster v)) ≡ true = ground arith in
    let goes_on : leb (end_of_chain v.bits) n ≡ false = ground arith in
    rw (
      sym same,
      here,
      fresh,
      next,
      goes_on,
      chain_from_complete fuel v (d ∷ visited) n (d' ∷ cs) (linked, ks, fs) (omega arith),
    )

-- On an opened volume `_chain` returns exactly the chains: clusters of the data region, none twice,
-- that follow one another in the FAT from the first one to an end mark. When there is none, it
-- raises one of its two errors; the FAT is never read outside of its bytes.
pub chain-IsChain :
    (v : Volume) (first : ℕ)
    → IsVolume v
    → ((cs : List ℕ) → (chain v first ≡ ok cs) ↔ IsChain v [] first cs)
      × ((e : EspError) → chain v first ≡ err e → (e ≡ invalid_cluster) ⊎ (e ≡ chain_loops))
unfolding chain
chain-IsChain v first h = (
  λ cs. (
    λ e. chain_from_sound (v.geometry.clusters + 1) v [] first e,
    λ k.
        chain_from_complete (v.geometry.clusters + 1) v [] first cs k
          (omega (arith, Fresh-bounded v [] cs tt tt k.1 k.2)),
  ),
  λ e raised. chain_from_ends (v.geometry.clusters + 1) v h [] first e (omega arith) tt tt raised,
)
