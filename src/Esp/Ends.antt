-- ===== src/Esp/Ends.antt =====
-- `walk` ends, and the byte budget of its directories is never exceeded.
use rules_mkosi.Prelude.{
  ℕ, zero, suc, ◌+◌, ◌-◌, ◌*◌, ◌≤◌, ◌<◌, ◌≡◌, ◌⊎◌, inl, inr, false, ltb, List, [], ◌∷◌, Option,
  none, some, length, Outcome, ok, err, ◌>>=◌, arith, Outcome-cases,
}
use rules_mkosi.Prelude.Text.{Text}
use rules_mkosi.Prelude.Bytes.{slice}
use rules_mkosi.Esp.Error.{EspError, invalid_cluster, chain_loops, too_many_entries, cross_linked}
use rules_mkosi.Esp.Geometry.{Volume}
use rules_mkosi.Esp.Volume.Fat.{chain}
use rules_mkosi.Esp.Volume.Directory.{
  Entry, WalkLimits, shares, add_all, claim, claim_if, directory_start, directory_at, directory,
  entries,
}
use rules_mkosi.Esp.Walk.{EspFile, Pending, sort_out, sort_files, some_limits, walk_from, walk}
use rules_mkosi.Esp.Bounds.{IsVolume, read_inside}
use rules_mkosi.Esp.Chains.{Linked, chain-IsChain, clusters_bounded}
use rules_mkosi.Esp.Contents.{read_chain_lem}
use rules_mkosi.Esp.Budget.{Budget, claim-Budget, Started, sort_out-Started}

-- What `walk` can raise for an opened volume.
abbrev pub IsWalkError : EspError → Type 0
IsWalkError e =
    (e ≡ invalid_cluster) ⊎ (e ≡ chain_loops) ⊎ (e ≡ too_many_entries) ⊎ (e ≡ cross_linked)

chain_nonempty : (v : Volume) (first : ℕ) (cs : List ℕ) → Linked v first cs → 1 ≤ length cs
chain_nonempty v first [] h = absurd h
chain_nonempty v first (c ∷ cs) h = omega arith

-- The limits that `walk` starts with.
abbrev start_limits : Volume → WalkLimits
start_limits v = record { claimed = []; remaining = v.partition.size }

start-Budget : (v : Volume) → IsVolume v → Budget v (start_limits v)
start-Budget v h = record {
  distinct = tt;
  inside = tt;
  covers = omega (arith, h.root_start, h.root_before, h.clusters_end);
}

fixed-Budget :
    (v : Volume)
    → IsVolume v
    → Budget v (record { claimed = []; remaining = v.partition.size - v.geometry.root_size })
fixed-Budget v h = record {
  distinct = tt;
  inside = tt;
  covers = omega (arith, h.root_start, h.root_before, h.clusters_end);
}

ltb-false : (a b : ℕ) → b ≤ a → ltb a b ≡ false
ltb-false a b h = ground arith

bind_error :
    (m : Outcome EspError (List EspFile)) (f : List EspFile → List EspFile) (e : EspError)
    → (m >>= λ x. ok (f x)) ≡ err e
    → m ≡ err e
bind_error (ok x) f e h = cc
bind_error (err e') f e h = ground arith

module _ (cp437 : ℕ → ℕ) (lower : Text → Text) where
  -- A directory with a first cluster claims at least one more cluster.
  directory_at-Budget :
      (v : Volume) (first : ℕ) (limits : WalkLimits)
      → IsVolume v
      → v.partition.offset + v.partition.size ≤ length v.image
      → Budget v limits
      → ((r : Option WalkLimits × List Entry)
          → directory_at cp437 lower v (some first) (some limits) ≡ ok r
          → (l : WalkLimits) × (r.0 ≡ some l)
            × Budget v l
            × (length limits.claimed < length l.claimed))
        × ((e : EspError)
            → directory_at cp437 lower v (some first) (some limits) ≡ err e
            → IsWalkError e)
  unfolding directory_at claim_if
  directory_at-Budget v first limits h inside b = elim (Outcome-cases (chain v first)) [
    | inr (e', failed) ↦ (
      λ r e. absurd (ground (arith, failed)),
      λ e raised. ground (arith, failed, (chain-IsChain v first h).1 e' failed),
    )
    | inl (cs, chained) ↦
        let k = ((chain-IsChain v first h).0 cs).0 chained in
        let size = length cs * v.geometry.cluster_size in
        let loaded = read_chain_lem v cs h inside k.1 in
        let (kept, raises) = claim-Budget v limits first cs b k in
        elim (Outcome-cases (claim limits cs size)) [
          | inr (e', failed) ↦ (
            λ r e. absurd (ground (arith, chained, failed)),
            λ e raised. ground (arith, chained, failed, raises e' failed),
          )
          | inl (l, claimed) ↦
              let (budget, count) = kept l claimed in
              (
                λ r e. (
                  l,
                  ground (arith, chained, claimed, loaded),
                  budget,
                  omega (arith, count, chain_nonempty v first cs k.0),
                ),
                λ e raised. ground (arith, chained, claimed, loaded),
              )
        ]
  ]

  fixed_root :
      (v : Volume)
      → IsVolume v
      → v.partition.offset + v.partition.size ≤ length v.image
      → directory_at cp437 lower v none (some (start_limits v))
        ≡ ok (
          some (record { claimed = []; remaining = v.partition.size - v.geometry.root_size }),
          entries cp437 lower v.geometry.fat32
              (slice v.geometry.root_offset v.geometry.root_size v.image),
        )
  unfolding directory_at claim_if claim shares add_all
  fixed_root v h inside =
      let room : ltb v.partition.size v.geometry.root_size ≡ false =
        ltb-false v.partition.size v.geometry.root_size (omega (arith, h.root_start, h.root_end)) in
      rw (
        room,
        read_inside v.image v.geometry.root_offset v.geometry.root_size
            (omega (arith, h.root_end, inside)),
      )

  module _ (upper : Text → Text) where
    -- The fuel left and the clusters that are claimed are more than the data region has.
    walk_from_raises :
        (fuel : ℕ) (v : Volume) (limits : WalkLimits) (pending : List Pending)
        (files : List EspFile) (e : EspError)
        → IsVolume v
        → v.partition.offset + v.partition.size ≤ length v.image
        → Budget v limits
        → Started pending
        → v.geometry.clusters < fuel + length limits.claimed
        → walk_from cp437 lower upper fuel v limits pending files ≡ err e
        → IsWalkError e
    unfolding walk_from directory directory_start some_limits
    walk_from_raises fuel v limits [] files e h inside b started left raised = absurd (ground arith)
    walk_from_raises zero v limits (p ∷ pending) files e h inside b started left raised =
        absurd (omega (arith, clusters_bounded v limits.claimed b.distinct b.inside))
    walk_from_raises (suc fuel) v limits ((prefix, none) ∷ pending) files e h inside b started left
          raised =
        absurd started
    walk_from_raises (suc fuel) v limits ((prefix, some first) ∷ pending) files e h inside b started
          left raised =
        let (kept, errors) = directory_at-Budget v first limits h inside b in
        elim (Outcome-cases (directory_at cp437 lower v (some first) (some limits))) [
          | inr (e', failed) ↦ ground (arith, failed, errors e' failed)
          | inl ((limits', found), listed) ↦
              let (l, same, budget, more) = kept (limits', found) listed in
              let e₁ = rw (listed, same) at raised in
              walk_from_raises fuel v l (sort_out prefix found pending files).0
                (sort_out prefix found pending files).1 e h inside budget
                (sort_out-Started prefix found pending files started) (omega arith) e₁
        ]

    -- The root directory: of FAT12 and FAT16 it takes its bytes from the budget and claims nothing.
    root_directory :
        (v : Volume) (start : Option ℕ)
        → IsVolume v
        → v.partition.offset + v.partition.size ≤ length v.image
        → ((r : Option WalkLimits × List Entry)
            → directory_at cp437 lower v start (some (start_limits v)) ≡ ok r
            → (l : WalkLimits) × (r.0 ≡ some l) × Budget v l)
          × ((e : EspError)
              → directory_at cp437 lower v start (some (start_limits v)) ≡ err e
              → IsWalkError e)
    root_directory v (some first) h inside =
        let (kept, errors) =
          directory_at-Budget v first (start_limits v) h inside (start-Budget v h) in
        (λ r e. let (l, same, b, _) = kept r e in (l, same, b), errors)
    root_directory v none h inside =
        let l : WalkLimits = record {
          claimed = [];
          remaining = v.partition.size - v.geometry.root_size;
        } in
        let listed = fixed_root v h inside in
        (
          λ r e. (l, ground (arith, listed), fixed-Budget v h),
          λ e raised. absurd (ground (arith, listed)),
        )

    -- On an opened volume inside of its image `walk` ends, and it raises only for a broken or looping
    -- chain, a directory of too many entries, or two directories that share a cluster. So the byte
    -- budget is never exceeded, and nothing is read outside of the image or the FAT.
    pub walk_raises :
        (v : Volume) (e : EspError)
        → IsVolume v
        → v.partition.offset + v.partition.size ≤ length v.image
        → walk cp437 lower upper v ≡ err e
        → IsWalkError e
    unfolding walk walk_from directory some_limits
    walk_raises v e h inside raised =
        let (kept, errors) = root_directory v (directory_start v none) h inside in
        elim (Outcome-cases
          (directory_at cp437 lower v (directory_start v none) (some (start_limits v)))) [
            | inr (e', failed) ↦ ground (arith, failed, errors e' failed)
            | inl ((limits', found), listed) ↦
                let (l, same, budget) = kept (limits', found) listed in
                let (pending, files) = sort_out [] found [] [] in
                walk_from_raises (v.geometry.clusters + 1) v l pending files e h inside budget
                  (sort_out-Started [] found [] [] tt) (omega arith)
                  (bind_error
                    (walk_from cp437 lower upper (v.geometry.clusters + 1) v l pending files)
                    sort_files e (rw (listed, same) at raised))
          ]
