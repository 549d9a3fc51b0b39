-- ===== src/Debian/Generate/Locked.antt =====
-- The packages of a lock: `_locked_packages` of mkosi/debian/generate_lock.py.
use rules_mkosi.Prelude.{
  ◌≡◌, refl, sym, ◌∙◌, ap, subst, inl, inr, Bool, true, false, not, List, [], ◌∷◌, some, map, guard,
  ◌>>◌, Outcome, ok, >>=-eq-ok, arith, All, Elem, Bool-cases, Option-cases, IfOk-ok,
}
use rules_mkosi.Prelude.Distinct.{Unrepeated}
use rules_mkosi.Prelude.Text.{Text, text_eq, text_eq_iff, contains}
use rules_mkosi.Prelude.Dict.{Dict, lookup, keys}
use rules_mkosi.Debian.Error.{LockError, colliding_keys}
use rules_mkosi.Debian.Package.{Package}
use rules_mkosi.Debian.Records.{package_key}
use rules_mkosi.Debian.Generate.{
  get, get_all, key_of, sort_by, locked_package, locked_named, has_repeat, locked_packages,
}
use rules_mkosi.Debian.Lock.{LockedPackage}
use rules_mkosi.Debian.Generate.Sorted.{IsAscending, sort_by-Elem, sort_by-IsAscending}

get_lem :
    {V : Type 0} (name : Text) (d : Dict V) {v : V} → get name d ≡ ok v → lookup name d ≡ some v
unfolding get
get_lem name d h = elim (Option-cases (lookup name d)) [
  | inl missing ↦ absurd (let h' = rw (missing, get) at h in cc)
  | inr (w, found) ↦
      IfOk-ok {E = LockError} (λ v. lookup name d ≡ some v) (ok w) (rw (found, get) at h) found
]

lookup-Elem-keys :
    {V : Type 0} (name : Text) (d : Dict V) {v : V} → lookup name d ≡ some v → Elem name (keys d)
unfolding lookup keys
lookup-Elem-keys name [] e = cc
lookup-Elem-keys name ((k, w) ∷ d) e = elim (Bool-cases (text_eq k name)) [
  | inl same ↦ inl (sym ((text_eq_iff k name).0 same))
  | inr differ ↦ inr (lookup-Elem-keys name d (rw (differ, lookup) at e))
]

pub contains-Elem : (t : Text) (ts : List Text) → Elem t ts → contains t ts ≡ true
unfolding contains
contains-Elem t [] m = absurd m
contains-Elem t (s ∷ ts) (inl e) = ground (arith, text_eq_iff t s)
contains-Elem t (s ∷ ts) (inr m) = ground (arith, contains-Elem t ts m)

has_repeat-Unrepeated : (ts : List Text) → has_repeat ts ≡ false → Unrepeated ts
unfolding has_repeat
has_repeat-Unrepeated [] h = tt
has_repeat-Unrepeated (t ∷ ts) h =
    ((λ m. let c = contains-Elem t ts m in ground arith), has_repeat-Unrepeated ts (ground arith))

some_inj : (p q : Package) → some p ≡ some q → p ≡ q
some_inj p q e = cc

module _ (selected : Dict Package) (edges : Dict (List Text)) (url : Text) where
  -- A selected package is locked, with the selected packages of some names as its dependencies.
  abbrev pub IsLockedAs : LockedPackage → Text → Package → Type 0
  IsLockedAs l name p =
      (dependencies : List Package) × (lookup name selected ≡ some p)
      × All (λ (q : Package). (n : Text) × (lookup n selected ≡ some q)) dependencies
      × (l ≡ locked_package p dependencies url)

  get_all-All :
      (names : List Text) {ps : List Package}
      → get_all names selected ≡ ok ps
      → All (λ (q : Package). (n : Text) × (lookup n selected ≡ some q)) ps
  unfolding get_all
  get_all-All [] e =
      IfOk-ok {E = LockError} (All (λ (q : Package). (n : Text) × (lookup n selected ≡ some q)))
        (ok []) e tt
  get_all-All (name ∷ names) e =
      let (p, found, e₁) = >>=-eq-ok (get name selected) _ e in
      let (ps, others, e₂) = >>=-eq-ok (get_all names selected) _ e₁ in
      IfOk-ok {E = LockError} (All (λ (q : Package). (n : Text) × (lookup n selected ≡ some q)))
        (ok (p ∷ ps)) e₂ ((name, get_lem name selected found), get_all-All names others)

  key_of_lem :
      (name : Text) (p : Package)
      → lookup name selected ≡ some p
      → package_key p ≡ key_of selected name
  unfolding key_of
  key_of_lem name p found = rw (found, key_of)

  -- What a run over some of the names leaves.
  abbrev AreNamed : List Text → List LockedPackage → Type 0
  AreNamed names locked =
      All (λ l. (name : Text) × (p : Package) × IsLockedAs l name p) locked
      × ((name : Text)
          → Elem name names
          → (l : LockedPackage) × (p : Package) × Elem l locked × IsLockedAs l name p)
      × (map (λ (l : LockedPackage). l.key) locked ≡ map (key_of selected) names)

  locked_named-AreNamed :
      (names : List Text) {locked : List LockedPackage}
      → locked_named names selected edges url ≡ ok locked
      → AreNamed names locked
  unfolding locked_named locked_package
  locked_named-AreNamed [] e =
      IfOk-ok {E = LockError} (AreNamed []) (ok []) e (tt, (λ name m. absurd m), refl)
  locked_named-AreNamed (name ∷ names) e =
      let (p, found, e₁) = >>=-eq-ok (get name selected) _ e in
      let (targets, _, e₂) = >>=-eq-ok (get name edges) _ e₁ in
      let (deps, given, e₃) = >>=-eq-ok (get_all targets selected) _ e₂ in
      let (rest, others, e₄) = >>=-eq-ok (locked_named names selected edges url) _ e₃ in
      let l = locked_package p deps url in
      let own : IsLockedAs l name p =
        (deps, get_lem name selected found, get_all-All targets given, refl) in
      let (every, named, same) = locked_named-AreNamed names others in
      IfOk-ok {E = LockError} (AreNamed (name ∷ names)) (ok (l ∷ rest)) e₄ (
        ((name, p, own), every),
        (λ n m. elim m [
          | inl e' ↦ (l, p, inl refl, subst (λ k. IsLockedAs l k p) (sym e') own)
          | inr k ↦ let (l', q, inside, other) = named n k in (l', q, inr inside, other)
        ]),
        (ap (λ k. k ∷ map (λ (x : LockedPackage). x.key) rest)
              (key_of_lem name p (get_lem name selected found))
            ∙ ap (λ ks. key_of selected name ∷ ks) same),
      )

  -- The locked packages are the selected ones, each once, with ascending keys that differ.
  abbrev pub AreLocked : List LockedPackage → Type 0
  AreLocked locked =
      All (λ l. (name : Text) × (p : Package) × IsLockedAs l name p) locked
      × ((name : Text) (p : Package)
          → lookup name selected ≡ some p
          → (l : LockedPackage) × Elem l locked × IsLockedAs l name p)
      × IsAscending (map (λ (l : LockedPackage). l.key) locked)
      × Unrepeated (map (λ (l : LockedPackage). l.key) locked)

  not-true :
      (b : Bool) (rest : Outcome LockError (List LockedPackage)) {r : List LockedPackage}
      → (guard (not b) colliding_keys >> rest) ≡ ok r
      → (b ≡ false) × (rest ≡ ok r)
  not-true true rest h = cc
  not-true false rest h = (refl, h)

  pub locked_packages-AreLocked :
      {locked : List LockedPackage}
      → locked_packages selected edges url ≡ ok locked
      → AreLocked locked
  unfolding locked_packages
  locked_packages-AreLocked e =
      let names = sort_by (key_of selected) (keys selected) in
      let (locked, read, e₁) = >>=-eq-ok (locked_named names selected edges url) _ e in
      let (fresh, e₂) =
        not-true (has_repeat (map (λ (p : LockedPackage). p.key) locked)) (ok locked) e₁ in
      let (every, named, same) = locked_named-AreNamed names read in
      IfOk-ok {E = LockError} AreLocked (ok locked) e₂ (
        every,
        (λ name p found.
            let inside =
              (sort_by-Elem (key_of selected) name (keys selected)).0
                (lookup-Elem-keys name selected found) in
            let (l, q, m, (deps, found', others, it)) = named name inside in
            let one : q ≡ p = some_inj q p (sym found' ∙ found) in
            (l, m, (deps, found, others, it ∙ ap (λ k. locked_package k deps url) one))),
        subst IsAscending (sym same) (sort_by-IsAscending (key_of selected) (keys selected)),
        has_repeat-Unrepeated (map (λ (p : LockedPackage). p.key) locked) fresh,
      )
