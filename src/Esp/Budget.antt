-- ===== src/Esp/Budget.antt =====
-- The clusters that a walk can still claim: `_WalkLimits` of
-- mkosi/private/esp_manifest/rules_mkosi_esp_manifest.py.
use native.Mathlib.Nat.{mul-le-mul, le_refl}
use rules_mkosi.Prelude.{
  ℕ, ◌+◌, ◌-◌, ◌*◌, ◌≤◌, ◌≡◌, refl, sym, subst, inl, inr, Bool, true, false, ltb, ◌||◌, List, [],
  ◌∷◌, ◌++◌, none, some, length, ok, err, if◌then◌else◌, arith, All, Bool-cases, IfOk-ok,
}
use rules_mkosi.Prelude.Text.{Text}
use rules_mkosi.Esp.Error.{EspError, cross_linked}
use rules_mkosi.Prelude.Text.{one_of}
use rules_mkosi.Esp.Geometry.{Volume}
use rules_mkosi.Esp.Volume.Directory.{Entry, is_directory, WalkLimits, shares, add_all, claim}
use rules_mkosi.Esp.Walk.{EspFile, Pending, sort_out}
use rules_mkosi.Esp.Pigeonhole.{Distinct}
use rules_mkosi.Esp.Chains.{IsCluster, IsChain, Fresh, clusters_bounded}

-- The claimed clusters are distinct clusters of the data region, and what remains of the budget
-- covers those that are not claimed.
pub record Budget (v : Volume) (limits : WalkLimits) : Type 0 where
  pub distinct : Distinct limits.claimed
  pub inside : All (IsCluster v) limits.claimed
  pub covers :
      v.geometry.clusters * v.geometry.cluster_size
      ≤ limits.remaining + length limits.claimed * v.geometry.cluster_size

one_of-append : (c : ℕ) (xs ys : List ℕ) → one_of c (xs ++ ys) ≡ (one_of c xs || one_of c ys)
unfolding one_of
one_of-append c [] ys = refl
one_of-append c (x ∷ xs) ys = ground (arith, one_of-append c xs ys)

shares-Fresh :
    (visited claimed cs : List ℕ)
    → shares claimed cs ≡ false
    → Fresh visited cs
    → Fresh (visited ++ claimed) cs
unfolding shares
shares-Fresh visited claimed [] h f = tt
shares-Fresh visited claimed (c ∷ cs) h (a, f) = (
  ground (arith, one_of-append c visited claimed),
  shares-Fresh (c ∷ visited) claimed cs (ground arith) f,
)

add_all-Distinct :
    (cs claimed : List ℕ) → Distinct claimed → Fresh claimed cs → Distinct (add_all cs claimed)
unfolding add_all
add_all-Distinct [] claimed d f = d
add_all-Distinct (c ∷ cs) claimed d (a, f) = add_all-Distinct cs (c ∷ claimed) (a, d) f

add_all-All :
    (P : ℕ → Type 0) (cs claimed : List ℕ) → All P cs → All P claimed → All P (add_all cs claimed)
unfolding add_all
add_all-All P [] claimed h k = k
add_all-All P (c ∷ cs) claimed (a, h) k = add_all-All P cs (c ∷ claimed) h (a, k)

length-add_all : (cs claimed : List ℕ) → length (add_all cs claimed) ≡ length cs + length claimed
unfolding add_all
length-add_all [] claimed = omega arith
length-add_all (c ∷ cs) claimed = omega (arith, length-add_all cs (c ∷ claimed))

-- What a chain costs is left in the budget.
affordable :
    (n m k s r : ℕ)
    → n + m ≤ k
    → k * s ≤ r + m * s
    → (n * s ≤ r) × (k * s ≤ (r - n * s) + (n + m) * s)
affordable n m k s r h b =
    let scaled : (n + m) * s ≤ k * s = mul-le-mul {n₂ = k} h (le_refl s) in
    let split : (n + m) * s ≡ n * s + m * s = grind arith in
    (omega (arith, scaled, split, b), omega (arith, scaled, split, b))

pub claim-Budget :
    (v : Volume) (limits : WalkLimits) (first : ℕ) (cs : List ℕ)
    → Budget v limits
    → IsChain v [] first cs
    → ((limits' : WalkLimits)
        → claim limits cs (length cs * v.geometry.cluster_size) ≡ ok limits'
        → Budget v limits' × (length limits'.claimed ≡ length cs + length limits.claimed))
      × ((e : EspError)
          → claim limits cs (length cs * v.geometry.cluster_size) ≡ err e
          → e ≡ cross_linked)
unfolding claim
claim-Budget v limits first cs b (linked, inside, fresh) =
    elim (Bool-cases (shares limits.claimed cs)) [
      | inl shared ↦
          (λ limits' e. absurd (ground (arith, shared)), λ e raised. ground (arith, shared))
      | inr apart ↦
          let s = v.geometry.cluster_size in
          let distinct =
            add_all-Distinct cs limits.claimed b.distinct
              (shares-Fresh [] limits.claimed cs apart fresh) in
          let within = add_all-All (IsCluster v) cs limits.claimed inside b.inside in
          let count = length-add_all cs limits.claimed in
          let (paid, covers) =
            affordable (length cs) (length limits.claimed) v.geometry.clusters s limits.remaining
              (omega (arith, count, clusters_bounded v (add_all cs limits.claimed) distinct within))
              b.covers in
          let enough : ltb limits.remaining (length cs * s) ≡ false = ground arith in
          (
            λ limits' e.
                IfOk-ok (λ l. Budget v l × (length l.claimed ≡ length cs + length limits.claimed))
                  (ok _) (rw (apart, enough) at e)
                  (
                    record {
                      distinct = distinct;
                      inside = within;
                      covers =
                          subst
                            (λ n.
                              v.geometry.clusters * s ≤ (limits.remaining - length cs * s) + n * s)
                            (sym count) covers;
                    },
                    count,
                  ),
            λ e raised. absurd (let e₁ = rw (apart, enough) at raised in ground arith),
          )
    ]

-- The directories that wait after the first round have a first cluster.
abbrev pub Started : List Pending → Type 0
Started [] = Unit
Started ((prefix, none) ∷ pending) = ⊥
Started ((prefix, some c) ∷ pending) = Started pending

Started-if : (b : Bool) (p q : List Pending) → Started p → Started q → Started (if b then p else q)
Started-if true p q h k = h
Started-if false p q h k = k

pub sort_out-Started :
    (prefix : Text) (es : List Entry) (pending : List Pending) (files : List EspFile)
    → Started pending
    → Started (sort_out prefix es pending files).0
unfolding sort_out
sort_out-Started prefix [] pending files h = h
sort_out-Started prefix (e ∷ es) pending files h =
    sort_out-Started prefix es
      (if is_directory e
        then (prefix ++ (e.name ++ b'/' ∷ []), some e.cluster) ∷ pending
        else pending)
      (if is_directory e
        then files
        else files ++ (record { path = prefix ++ e.name; size = e.size }) ∷ [])
      (Started-if (is_directory e) ((prefix ++ (e.name ++ b'/' ∷ []), some e.cluster) ∷ pending)
        pending h h)
