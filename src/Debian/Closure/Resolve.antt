-- ===== src/Debian/Closure/Resolve.antt =====
-- `resolve`: it ends, and what it selects is closed under the dependencies.
use rules_mkosi.Prelude.{
  ◌≡◌, ◌≢◌, refl, ◌∙◌, sym, ap, subst, inl, inr, true, List, [], ◌∷◌, ◌||◌, none, some,
  if◌then◌else◌, Outcome, ok, err, IfOk, IfOk-intro, IfOk-ok, length, Elem, All, All-Elem,
  All-intro, arith, Bool-cases, List-cases, Outcome-cases,
}
use mathlib.Core.Option.{none-ne-some, some-injective}
use rules_mkosi.Prelude.Text.{Text, codes, text_eq, text_eq_iff, text_lt}
use rules_mkosi.Prelude.Dict.{lookup, lookup_or, keys, Entries-lookup_or}
use rules_mkosi.Debian.Error.{LockError}
use rules_mkosi.Debian.Package.{Package}
use rules_mkosi.Debian.Universe.{universe, Universe, all_packages, newest}
use rules_mkosi.Debian.Universe.Order.{IsNewestFirst}
use rules_mkosi.Debian.Universe.Sound.{IsIndexed, universe-IsIndexed}
use rules_mkosi.Debian.Universe.Candidates.{
  Satisfies, all_packages-named, all_packages-listed, newest-named,
}
use rules_mkosi.Debian.Closure.{Closure, drain, bootstrap_names, insert_name, bare, start, resolve}
use rules_mkosi.Debian.Closure.Invariant.{Served, pending, missing-empty}
use rules_mkosi.Debian.Closure.Loop.{Drained, drain_total}
use rules_mkosi.Debian.Closure.Start.{Requested-Extends, IsStarted, start-IsStarted}

indexed : (packages : List Package) (u : Universe) → universe packages ≡ ok u → IsIndexed packages u
indexed packages u e =
    IfOk-ok (IsIndexed packages) (universe packages) e (universe-IsIndexed packages)

insert_name-Elem :
    (n : Text) (ms : List Text)
    → Elem n (insert_name n ms) × ((k : Text) → Elem k ms → Elem k (insert_name n ms))
unfolding insert_name
insert_name-Elem n [] = (inl refl, λ k m. absurd m)
insert_name-Elem n (m ∷ ms) = elim (Bool-cases (text_eq n m)) [
  | inl same ↦ rw same (inl ((text_eq_iff n m).0 same), λ k h. h)
  | inr differ ↦ elim (Bool-cases (text_lt n m)) [
    | inl before ↦ rw (differ, before) (inl refl, λ k h. inr h)
    | inr after ↦
        let (self, others) = insert_name-Elem n ms in
        rw (differ, after)
          (inr self, λ k h. elim h [ inl e ↦ inl e | inr later ↦ inr (others k later) ])
  ]
]

abbrev pub IsBootstrap : Package → Type 0
IsBootstrap p = (p.essential || text_eq p.priority (codes "required")) ≡ true

bootstrap_names-Elem :
    (ps : List Package) (p : Package) → Elem p ps → IsBootstrap p → Elem p.name (bootstrap_names ps)
unfolding bootstrap_names
bootstrap_names-Elem [] p m h = absurd m
bootstrap_names-Elem (q ∷ ps) p (inl e) h =
    subst
      (λ x. Elem p.name (if x then insert_name q.name (bootstrap_names ps) else bootstrap_names ps))
      {x = true} (sym (subst IsBootstrap e h))
      (subst (λ y. Elem y.name (insert_name q.name (bootstrap_names ps))) {x = q} {y = p} (sym e)
        (insert_name-Elem q.name (bootstrap_names ps)).0)
bootstrap_names-Elem (q ∷ ps) p (inr m) h =
    let rest = bootstrap_names-Elem ps p m h in
    elim (Bool-cases (q.essential || text_eq q.priority (codes "required"))) [
      | inl first ↦ rw first ((insert_name-Elem q.name (bootstrap_names ps)).1 p.name rest)
      | inr other ↦ rw other rest
    ]

module _ (packages : List Package) (u : Universe) (valid : IsIndexed packages u)
    (requested : List Text) where
  -- The result of `resolve`: its loop worked off the queue of a started closure.
  abbrev Resolved : Closure → Type 0
  Resolved c' = (c : Closure) × IsStarted packages u valid requested c × Drained u c c'

  resolve-step :
      (r : Outcome LockError Closure)
      → start u requested ≡ r
      → resolve u requested
        ≡ elim r [ err e ↦ some (err e) | ok c ↦ drain (length (keys u.packages_by_name)) u c ]
  unfolding resolve
  resolve-step r h = rw (← h)

  resolve_result :
      (r : Outcome LockError Closure) × (resolve u requested ≡ some r) × IfOk Resolved r
  resolve_result = elim (Outcome-cases (start u requested)) [
    | inr (e, failed) ↦ (err e, resolve-step (err e) failed, tt)
    | inl (c, began) ↦
        let started =
          IfOk-ok (IsStarted packages u valid requested) (start u requested) began
            (start-IsStarted packages u valid requested) in
        let (r, ends, good) =
          drain_total packages u valid (length (keys u.packages_by_name)) c started.sound (
            unfold pending in
            omega (arith, started.fits, missing-empty (keys u.packages_by_name))) in
        (
          r,
          resolve-step (ok c) began ∙ ends,
          IfOk-intro Resolved r (λ c' e. (c, started, IfOk-ok (Drained u c) r e good)),
        )
  ]

  resolve-Resolved : (c : Closure) → resolve u requested ≡ some (ok c) → Resolved c
  resolve-Resolved c e =
      let (r, ends, good) = resolve_result in
      IfOk-ok Resolved r {a = c} (some-injective _ _ (sym ends ∙ e)) good

-- The newest package of a name is the first in the name's list.
newest-first :
    (u : Universe) (name : Text) (q : Package)
    → newest u name ≡ some q
    → (older : List Package) × (lookup_or [] name u.packages_by_name ≡ q ∷ older)
unfolding newest
newest-first u name q e = elim (List-cases (lookup_or [] name u.packages_by_name)) [
  | inl empty ↦ absurd (let e' = rw (empty, newest) at e in cc)
  | inr (p, ps, listed) ↦
      let e' = rw (listed, newest) at e in (ps, listed ∙ ap (λ x. x ∷ ps) (some-injective p q e'))
]

-- `resolve` ends: within as many rounds as the universe has names the queue is empty, or an error
-- is raised.
pub resolve_total :
    (packages : List Package) (u : Universe) (requested : List Text)
    → universe packages ≡ ok u
    → resolve u requested ≢ none
resolve_total packages u requested e stuck =
    let (r, ends, _) = resolve_result packages u (indexed packages u e) requested in
    none-ne-some r (sym stuck ∙ ends)

-- If `resolve` succeeds, every selected package is selected under its own name and comes from the
-- indexed packages, and each group of its Pre-Depends and Depends has an alternative that a
-- selected package of the universe satisfies.
pub resolve-Served :
    (packages : List Package) (u : Universe) (requested : List Text) (c : Closure)
    → universe packages ≡ ok u
    → resolve u requested ≡ some (ok c)
    → (name : Text) (p : Package) → lookup name c.selected ≡ some p
    → (p.name ≡ name) × Elem p packages × Served u c.selected p
resolve-Served packages u requested c e success name p h =
    let valid = indexed packages u e in
    let (_, _, (adv, drained)) = resolve-Resolved packages u valid requested c success in
    let (same, inside) = adv.sound.named name p h in
    (
      same,
      (all_packages-named packages u valid p inside).0,
      elim (adv.sound.served name p h) [
        | inl never ↦ absurd (none-ne-some p never)
        | inr (inl waits) ↦ absurd (subst (Elem p) drained waits)
        | inr (inr done) ↦ done
      ],
    )

-- If `resolve` succeeds, each requested name has a selected package that satisfies it as a
-- relation. Each Essential or required package of the universe is in the list of the packages of
-- its name, which is sorted newest first, so that `compare_versions` calls none of them older than
-- the next one, and the first of that list is selected.
pub resolve-answers :
    (packages : List Package) (u : Universe) (requested : List Text) (c : Closure)
    → universe packages ≡ ok u
    → resolve u requested ≡ some (ok c)
    → All
        (λ name. (p : Package) × Satisfies (bare name) p × (lookup p.name c.selected ≡ some p))
        requested
      × ((p : Package)
          → Elem p (all_packages u)
          → (p.essential || text_eq p.priority (codes "required")) ≡ true
          → (q : Package) × (older : List Package) × (lookup_or [] p.name u.packages_by_name
              ≡ q ∷ older)
            × IsNewestFirst (q ∷ older)
            × Elem p (q ∷ older)
            × (lookup p.name c.selected ≡ some q))
resolve-answers packages u requested c e success =
    let valid = indexed packages u e in
    let (b, started, (adv, _)) = resolve-Resolved packages u valid requested c success in
    (
      All-intro _ requested (λ name m.
          Requested-Extends packages u valid b.selected c.selected adv.extends name
            (All-Elem _ requested started.answered name m)),
      λ p inside boot.
          let (q, new, has) =
            All-Elem _ _ started.bootstrap p.name
              (bootstrap_names-Elem (all_packages u) p inside boot) in
          let (older, listed) = newest-first u p.name q new in
          (
            q,
            older,
            listed,
            subst IsNewestFirst listed (
                Entries-lookup_or (λ name. IsNewestFirst) p.name [] u.packages_by_name tt
                  valid.ordered),
            subst (Elem p) listed (all_packages-listed packages u valid p inside),
            subst (λ n. lookup n c.selected ≡ some q) (newest-named packages u valid p.name q new)
                (adv.extends q.name q has),
          ),
    )
