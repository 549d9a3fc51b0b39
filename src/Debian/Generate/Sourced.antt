-- ===== src/Debian/Generate/Sourced.antt =====
-- What a generated lock is: `generate` of mkosi/debian/generate_lock.py.
use rules_mkosi.Prelude.{
  ◌≡◌, subst, inl, inr, List, Option, some, Outcome, ok, >>=-eq-ok, All, All-intro, All-Elem, Elem,
  Outcome-cases, Option-cases, IfOk-ok, map,
}
use mathlib.Core.Option.{some-injective}
use rules_mkosi.Prelude.Text.{Text}
use rules_mkosi.Prelude.Bytes.{Bytes}
use rules_mkosi.Prelude.Dict.{lookup}
use rules_mkosi.Debian.Error.{LockError}
use rules_mkosi.Debian.Package.{Relation, Package}
use rules_mkosi.Debian.Universe.{Universe, universe}
use rules_mkosi.Debian.Universe.Candidates.{Satisfies}
use rules_mkosi.Debian.Closure.{Closure, groups_of, bare, resolve}
use rules_mkosi.Debian.Closure.Resolve.{resolve-Served, resolve-answers}
use rules_mkosi.Debian.Release.{Checksums}
use rules_mkosi.Debian.Generate.{locked_package, locked_packages, fetch_all, lock_of, generate}
use rules_mkosi.Debian.Lock.{Specification, LockedPackage, Repository, Lock}
use rules_mkosi.Debian.Generate.Sorted.{IsAscending}
use rules_mkosi.Debian.Generate.Locked.{IsLockedAs, locked_packages-AreLocked}
use rules_mkosi.Debian.Generate.Indexes.{FromIndex, IsRelease, IsFetched, fetch_all-IsFetched}
use rules_mkosi.Prelude.Distinct.{Unrepeated}

-- A package is locked.
abbrev pub IsIn : Text → List LockedPackage → Package → Type 0
IsIn url locked p =
    (l : LockedPackage) × (dependencies : List Package) × Elem l locked
    × (l ≡ locked_package p dependencies url)

-- A locked package satisfies an alternative of a group.
abbrev pub IsAnswered : Text → List LockedPackage → List Relation → Type 0
IsAnswered url locked group =
    (r : Relation) × Elem r group × (q : Package) × Satisfies r q × IsIn url locked q

module _ (fetcher : Text → Outcome LockError Bytes) (sha256 : Bytes → Text)
    (decode : Bytes → Outcome LockError Text) (decompress : Bytes → Outcome LockError Bytes)
    (encode : Text → Bytes) (spec_sha256 : Specification → Text) where
  -- A locked package, with its source and its dependencies.
  abbrev pub IsSourced : Specification → List LockedPackage → Checksums → LockedPackage → Type 0
  IsSourced spec locked sums l =
      (p : Package) × (dependencies : List Package) × (l
        ≡ locked_package p dependencies spec.snapshot_url)
      × FromIndex fetcher sha256 decode decompress spec sums p
      × All (IsAnswered spec.snapshot_url locked) (groups_of p)
      × All (IsIn spec.snapshot_url locked) dependencies

  -- The packages of a lock.
  abbrev pub IsLock : Specification → List LockedPackage → Type 0
  IsLock spec locked =
      (sums : Checksums) × IsRelease fetcher sha256 decode decompress encode spec_sha256 spec sums
      × All (IsSourced spec locked sums) locked
      × All (λ name. (p : Package) × Satisfies (bare name) p × IsIn spec.snapshot_url locked p)
          spec.packages
      × IsAscending (map (λ (l : LockedPackage). l.key) locked)
      × Unrepeated (map (λ (l : LockedPackage). l.key) locked)

  resolved-IsLock :
      (spec : Specification) (packages : List Package) (u : Universe) (c : Closure)
      (locked : List LockedPackage)
      → IsFetched fetcher sha256 decode decompress encode spec_sha256 spec packages
      → universe packages ≡ ok u
      → resolve u spec.packages ≡ some (ok c)
      → locked_packages c.selected c.edges spec.snapshot_url ≡ ok locked
      → IsLock spec locked
  resolved-IsLock spec packages u c locked (sums, release, sources) built resolved e =
      let url = spec.snapshot_url in
      let (every, named, ascending, distinct) =
        locked_packages-AreLocked c.selected c.edges url e in
      let inside : (q : Package) (n : Text) → lookup n c.selected ≡ some q → IsIn url locked q =
        λ q n h. let (l, m, (deps, _, _, it)) = named n q h in (l, deps, m, it) in
      (
        sums,
        release,
        All-intro (IsSourced spec locked sums) locked (λ l m.
            let (name, p, (deps, h, given, it)) =
              All-Elem
                (λ k. (name : Text) × (p : Package) × IsLockedAs c.selected c.edges url k name p)
                locked every l m in
            let (_, source, served) =
              resolve-Served packages u spec.packages c built resolved name p h in
            (
              p,
              deps,
              it,
              All-Elem (FromIndex fetcher sha256 decode decompress spec sums) packages sources p
                  source,
              All-intro (IsAnswered url locked) (groups_of p) (λ g k.
                  let (r, n, (q, s, _, h')) = All-Elem _ (groups_of p) served g k in
                  (r, n, q, s, inside q q.name h')),
              All-intro (IsIn url locked) deps (λ q k.
                  let (n, h') =
                    All-Elem (λ (x : Package). (n : Text) × (lookup n c.selected ≡ some x)) deps
                      given q k in
                  inside q n h'),
            )),
        All-intro _ spec.packages (λ name m.
            let (p, s, h) =
              All-Elem _ spec.packages (resolve-answers packages u spec.packages c built resolved).0
                name m in
            (p, s, inside p p.name h)),
        ascending,
        distinct,
      )

  lock_of-packages :
      (spec : Specification) (repository : Repository) (resolved : Outcome LockError Closure)
      {lock : Lock}
      → lock_of fetcher sha256 decode decompress encode spec_sha256 spec repository resolved
        ≡ ok lock
      → (c : Closure) × (resolved ≡ ok c)
        × (locked_packages c.selected c.edges spec.snapshot_url ≡ ok lock.packages)
  unfolding lock_of
  lock_of-packages spec repository resolved e =
      let (c, it, e₁) = >>=-eq-ok resolved _ e in
      let (packages, made, e₂) =
        >>=-eq-ok (locked_packages c.selected c.edges spec.snapshot_url) _ e₁ in
      (
        c,
        it,
        IfOk-ok {E = LockError}
            (λ (l : Lock). locked_packages c.selected c.edges spec.snapshot_url ≡ ok l.packages)
            (ok (record {
              packages = packages;
              repository = repository;
              spec_sha256 = spec_sha256 spec;
              version = 1;
            }))
            e₂ made,
      )

  -- The packages of a generated lock: each one is from an index that was fetched for a component of
  -- the specification, and that has the digest and the size in the fetched Release file, which is
  -- the payload of the fetched InRelease. Each group of its Pre-Depends and Depends has an
  -- alternative that a locked package satisfies, and its recorded dependencies are locked. Each
  -- requested name has a locked package that satisfies it. And the keys of the packages are in
  -- ascending order and differ.
  pub generate-IsLock :
      (spec : Specification) (release : Option Text) {lock : Lock}
      → generate fetcher sha256 decode decompress encode spec_sha256 spec release ≡ some (ok lock)
      → IsLock spec lock.packages
  unfolding generate
  generate-IsLock spec release {lock} e =
      elim (Outcome-cases
        (fetch_all fetcher sha256 decode decompress encode spec_sha256 spec release)) [
          | inr (raised, failed) ↦ absurd (let e' = rw (failed, generate) at e in cc)
          | inl ((packages, repository), fetched) ↦ elim (Outcome-cases (universe packages)) [
            | inr (raised, failed) ↦ absurd (let e' = rw (fetched, failed, generate) at e in cc)
            | inl (u, built) ↦ elim (Option-cases (resolve u spec.packages)) [
              | inl stuck ↦ absurd (let e' = rw (fetched, built, stuck, generate) at e in cc)
              | inr (resolved, ends) ↦
                  let (c, it, made) =
                    lock_of-packages spec repository resolved
                      (some-injective _ _ (rw (fetched, built, ends, generate) at e)) in
                  resolved-IsLock spec packages u c lock.packages
                    (fetch_all-IsFetched fetcher sha256 decode decompress encode spec_sha256 spec
                      release fetched)
                    built (subst (λ r. resolve u spec.packages ≡ some r) it ends) made
            ]
          ]
        ]
