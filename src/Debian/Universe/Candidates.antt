-- ===== src/Debian/Universe/Candidates.antt =====
-- Every candidate of a relation is a package of the universe, and satisfies the relation.
use rules_mkosi.Prelude.{
  ◌≡◌, refl, ◌∙◌, sym, ap, subst, ◌⊎◌, inl, inr, Bool, true, false, not, ◌||◌, List, [], ◌∷◌, ◌++◌,
  Option, some, if◌then◌else◌, ok, IfOk, IfOk-bind, IfOk-if, IfOk-intro, IfOk-ok, Elem, All,
  All-Elem, All-intro, All-append, Elem-append, Elem-append_left, Elem-append_right, arith,
  Bool-cases, List-cases,
}
use rules_mkosi.Prelude.Text.{Text, text_eq}
use rules_mkosi.Prelude.Dict.{
  Dict, lookup, lookup_or, lookup_or-cons, lookup_or-Elem, values, keys, Entries, Entries-lookup_or,
}
use rules_mkosi.Debian.Package.{Relation, Package, operator_allows}
use rules_mkosi.Debian.Universe.{
  Universe, Provider, concat, all_packages, architecture_matches, provided_allows, newest,
  real_candidates, provided_candidates, candidates, listed,
}
use rules_mkosi.Debian.Universe.Sound.{IsIndexed}

-- What it means that a package satisfies a relation: its architecture fits the qualifier, and it
-- either has the name and an allowed version, or provides the name in an allowed version.
abbrev pub Satisfies : Relation → Package → Type 0
Satisfies r p =
    (architecture_matches p r.arch ≡ true)
    × (((p.name ≡ r.name) × (operator_allows p.version r.operator r.version ≡ ok true))
        ⊎ ((v : Option Text) × Elem (r.name, v) p.provides
            × (provided_allows v r.operator r.version ≡ ok true)))

real_candidates-All :
    (P : Package → Type 0) (r : Relation) (ps : List Package)
    → All P ps
    → IfOk
        (All (λ p.
          P p
          × (architecture_matches p r.arch ≡ true)
          × (operator_allows p.version r.operator r.version ≡ ok true)))
        (real_candidates r ps)
unfolding real_candidates
real_candidates-All P r [] h = tt
real_candidates-All P r (p ∷ ps) h = ground (arith, real_candidates-All P r ps h.1)

matches : (a b : Bool) → (not a || b) ≡ false → a ≡ true
matches a b h = ground arith

provided_candidates-All :
    (P : Package → Type 0) (r : Relation) (xs : List Provider) (result : List Package)
    → All P result
    → All
        (λ x.
          architecture_matches x.0 r.arch ≡ true
          → provided_allows x.1 r.operator r.version ≡ ok true
          → P x.0)
        xs
    → IfOk (All P) (provided_candidates r xs result)
unfolding provided_candidates
provided_candidates-All P r [] result h hx = h
provided_candidates-All P r ((p, v) ∷ xs) result h hx =
    let Fits = λ (holds : Bool). holds ≡ true → P p in
    IfOk-bind Fits (All P)
      (if not (architecture_matches p r.arch) || listed p result
        then ok false
        else provided_allows v r.operator r.version)
      (λ holds. provided_candidates r xs (if holds then result ++ p ∷ [] else result))
      (IfOk-if Fits (not (architecture_matches p r.arch) || listed p result) (ok false)
        (provided_allows v r.operator r.version) (λ skipped. λ e. cc)
        (λ considered.
          IfOk-intro Fits (provided_allows v r.operator r.version)
            (λ b e allowed. hx.0 (matches _ _ considered) (e ∙ ap ok allowed))))
      (λ holds fits. elim (Bool-cases holds) [
        | inl e ↦ rw e (
            provided_candidates-All P r xs (result ++ p ∷ [])
              (All-append P result (p ∷ []) h (fits e, tt)) hx.1)
        | inr e ↦ rw e (provided_candidates-All P r xs result h hx.1)
      ])

All-Elem-concat :
    (P : Text → Package → Type 0) (d : Dict (List Package))
    → Entries (λ name. All (P name)) d
    → (p : Package) → Elem p (concat (values d))
    → (name : Text) × Elem name (keys d) × P name p
unfolding concat values keys
All-Elem-concat P [] h p m = absurd m
All-Elem-concat P ((name, ps) ∷ d) h p m = elim (Elem-append p ps (concat (values d)) m) [
  | inl here ↦ (name, inl refl, All-Elem (P name) ps h.0 p here)
  | inr later ↦ let (n, k, q) = All-Elem-concat P d h.1 p later in (n, inr k, q)
]

concat-lookup :
    (name : Text) (d : Dict (List Package))
    → All (λ p. Elem p (concat (values d))) (lookup_or [] name d)
unfolding concat values
concat-lookup name [] = unfold lookup_or lookup in tt
concat-lookup name ((n, ps) ∷ d) = elim (Bool-cases (text_eq n name)) [
  | inl same ↦
      rw (lookup_or-cons, same)
        (All-intro _ ps (λ p m. Elem-append_left p ps (concat (values d)) m))
  | inr differ ↦
      rw (lookup_or-cons, differ)
        (All-intro _ _ (λ p m. Elem-append_right p ps (concat (values d)) (
          All-Elem (λ q. Elem q (concat (values d))) (lookup_or [] name d) (concat-lookup name d) p
            m)))
]

module _ (input : List Package) (u : Universe) (valid : IsIndexed input u) where
  -- The packages of a universe come from its input, and their names are those that it files.
  pub all_packages-named :
      (p : Package) → Elem p (all_packages u) → Elem p input × Elem p.name (keys u.packages_by_name)
  unfolding all_packages
  all_packages-named p m =
      let (name, k, (e, i)) =
        All-Elem-concat (λ name q. (q.name ≡ name) × Elem q input) u.packages_by_name valid.filed p
          m in
      (i, subst (λ n. Elem n (keys u.packages_by_name)) (sym e) k)

  -- A package of the universe is listed under its name.
  pub all_packages-listed :
      (p : Package) → Elem p (all_packages u) → Elem p (lookup_or [] p.name u.packages_by_name)
  unfolding all_packages
  all_packages-listed p m =
      let d = u.packages_by_name in
      let Listed = λ (name : Text) (q : Package). (q.name ≡ name) × Elem q (lookup_or [] name d) in
      let entries : Entries (λ name. All (Listed name)) d = All-intro _ d (λ (name, ps) k.
        All-intro (Listed name) ps (λ q l. (
          (All-Elem _ ps
              (All-Elem (λ e. All (λ x. (x.name ≡ e.0) × Elem x input) e.1) d valid.filed (name, ps)
                k)
              q l).0,
          subst (Elem q) (sym (lookup_or-Elem [] d valid.distinct name ps k)) l,
        ))) in
      let (name, _, (same, here)) = All-Elem-concat Listed d entries p m in
      subst (λ n. Elem p (lookup_or [] n d)) (sym same) here

  -- Every candidate of a relation is a package of the universe that satisfies the relation.
  pub candidates-Satisfies :
      (r : Relation) (found : List Package)
      → candidates u r ≡ ok found
      → (p : Package) → Elem p found
      → Elem p (all_packages u) × Satisfies r p
  unfolding candidates all_packages
  candidates-Satisfies r found e p m =
      let Good = λ (q : Package). Elem q (all_packages u) × Satisfies r q in
      let bucket = lookup_or [] r.name u.packages_by_name in
      let Real = λ (q : Package). (q.name ≡ r.name) × Elem q (all_packages u) in
      let named : All Real bucket = All-intro Real bucket (λ q k. (
        (All-Elem _ bucket
            (Entries-lookup_or (λ name. All (λ x. (x.name ≡ name) × Elem x input)) r.name []
              u.packages_by_name tt valid.filed)
            q k).0,
        All-Elem _ bucket (concat-lookup r.name u.packages_by_name) q k,
      )) in
      let reals : IfOk (All Good) (real_candidates r bucket) =
        IfOk-intro (All Good) (real_candidates r bucket) (λ ps h. All-intro Good ps (λ q k.
          let ((n, i), a, o) =
            All-Elem _ ps
              (IfOk-ok _ (real_candidates r bucket) h (real_candidates-All Real r bucket named)) q
              k in
          (i, (a, inl (n, o))))) in
      let xs = lookup_or [] r.name u.providers in
      let provided = Entries-lookup_or _ r.name [] u.providers tt valid.provided in
      All-Elem Good found
        (IfOk-ok (All Good) (candidates u r) e (
          IfOk-bind (All Good) (All Good) (real_candidates r bucket) _ reals (λ real h.
            provided_candidates-All Good r xs real h (
              All-intro _ xs (λ x k a o.
                let (i, v) = All-Elem _ xs provided x k in (i, (a, inr (x.1, v, o))))))))
        p m

-- The newest package of a name is one of the universe.
pub newest-Elem :
    (u : Universe) (name : Text) (p : Package) → newest u name ≡ some p → Elem p (all_packages u)
unfolding newest all_packages
newest-Elem u name p e = elim (List-cases (lookup_or [] name u.packages_by_name)) [
  | inl empty ↦ ground arith
  | inr (q, qs, found) ↦
      let (first, _) =
        subst (All (λ x. Elem x (concat (values u.packages_by_name)))) found
          (concat-lookup name u.packages_by_name) in
      subst (λ x. Elem x (concat (values u.packages_by_name))) (ground arith) first
]

-- The newest package of a name has that name.
pub newest-named :
    (input : List Package) (u : Universe)
    → IsIndexed input u
    → (name : Text) (p : Package) → newest u name ≡ some p
    → p.name ≡ name
unfolding newest
newest-named input u valid name p e = elim (List-cases (lookup_or [] name u.packages_by_name)) [
  | inl empty ↦ ground arith
  | inr (q, qs, found) ↦
      let Named = λ (n : Text). All (λ x. (x.name ≡ n) × Elem x input) in
      let ((same, _), _) =
        subst (Named name) found
          (Entries-lookup_or Named name [] u.packages_by_name tt valid.filed) in
      subst (λ x. x.name ≡ name) {x = q} {y = p} (ground arith) same
]
