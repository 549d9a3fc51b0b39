-- ===== src/Snapshot/Pairs.antt =====
-- What the indexes of a snapshot are: `_component_indexes` of mkosi/private/debian_snapshot.py.
use rules_mkosi.Prelude.{
  ◌==◌, ◌≡◌, refl, ap, subst, inl, inr, ◌⊎◌, true, not, ◌&&◌, &&-eq-true, List, [], ◌∷◌, ◌++◌, map,
  length, ok, >>=-eq-ok, guard-eq-ok, arith, All, Elem, IfOk-ok, Bool-cases,
}
use rules_mkosi.Prelude.Distinct.{Unrepeated}
use rules_mkosi.Prelude.Text.{Text, codes, text_eq, text_eq_iff}
use rules_mkosi.Snapshot.Error.{
  SnapshotError, invalid_component, unsupported_architecture, wrong_index_path, duplicate_index,
  counts_differ, incomplete_indexes,
}
use rules_mkosi.Snapshot.Indexes.{
  Arguments, Index, is_identifier, is_staged_architecture, index_path, is_seen, check_indexes,
  all_complete, component_records, main_indexes, component_indexes,
}
use rules_mkosi.Snapshot.Files.{HavePaths, check_indexes-HavePaths}

abbrev pub pair_of : Index → Text × Text
pair_of i = (i.component, i.architecture)

abbrev pub pairs_of : List Index → List (Text × Text)
pairs_of is = map pair_of is

is_seen-Elem : (c a : Text) (seen : List (Text × Text)) → is_seen c a seen ≡ true → Elem (c, a) seen
unfolding is_seen
is_seen-Elem c a [] h = cc
is_seen-Elem c a ((d, b) ∷ seen) h = elim (Bool-cases (text_eq c d && text_eq a b)) [
  | inl same ↦
      let (e, f) = &&-eq-true (text_eq c d) (text_eq a b) same in
      let e' = (text_eq_iff c d).0 e in let f' = (text_eq_iff a b).0 f in inl (rw (e', f'))
  | inr differ ↦ inr (is_seen-Elem c a seen (ground arith))
]

Elem-is_seen : (c a : Text) (seen : List (Text × Text)) → Elem (c, a) seen → is_seen c a seen ≡ true
unfolding is_seen
Elem-is_seen c a [] m = absurd m
Elem-is_seen c a ((d, b) ∷ seen) (inl e) =
    let e' = (text_eq_iff c d).1 (ap (λ (x : Text × Text). x.0) e) in
    let f' = (text_eq_iff a b).1 (ap (λ (x : Text × Text). x.1) e) in ground arith
Elem-is_seen c a ((d, b) ∷ seen) (inr m) = ground (arith, Elem-is_seen c a seen m)

-- A component and an architecture that can be staged.
abbrev pub IsStageable : Index → Type 0
IsStageable i = (is_identifier i.component ≡ true) × (is_staged_architecture i.architecture ≡ true)

-- What the loop over the indexes leaves, with the pairs before and after it.
abbrev Checked : List Index → List (Text × Text) → List (Text × Text) → Type 0
Checked is seen seen' =
    All IsStageable is
    × Unrepeated (pairs_of is)
    × ((x : Text × Text) → Elem x (pairs_of is) → Elem x seen → ⊥)
    × ((x : Text × Text) → Elem x seen' → Elem x seen ⊎ Elem x (pairs_of is))

check_indexes-Checked :
    (codename : Text) (is : List Index) (seen : List (Text × Text)) {seen' : List (Text × Text)}
    → check_indexes codename is seen ≡ ok seen'
    → Checked is seen seen'
unfolding check_indexes
check_indexes-Checked codename [] seen e =
    IfOk-ok {E = SnapshotError} (Checked [] seen) (ok seen) e
      (tt, tt, (λ x m. absurd m), (λ x m. inl m))
check_indexes-Checked codename (i ∷ is) seen e =
    let (a, e₁) = guard-eq-ok (is_identifier i.component) invalid_component _ e in
    let (b, e₂) =
      guard-eq-ok (is_staged_architecture i.architecture) unsupported_architecture _ e₁ in
    let path = index_path codename i.component i.architecture in
    let (_, e₃) = guard-eq-ok (text_eq i.relative path) wrong_index_path _ e₂ in
    let (c, e₄) =
      guard-eq-ok (not (is_seen i.component i.architecture seen)) duplicate_index _ e₃ in
    let (valid, distinct, new, found) = check_indexes-Checked codename is (pair_of i ∷ seen) e₄ in
    (
      ((a, b), valid),
      ((λ m. new (pair_of i) m (inl refl)), distinct),
      (λ x m k. elim m [
        | inl same ↦
            let old =
              Elem-is_seen i.component i.architecture seen (subst (λ y. Elem y seen) same k) in
            cc
        | inr later ↦ new x later (inr k)
      ]),
      (λ x m. elim (found x m) [
        | inl (inl same) ↦ inr (inl same)
        | inl (inr before) ↦ inl before
        | inr later ↦ inr (inr later)
      ]),
    )

-- The component has an index of each architecture.
abbrev pub IsComplete : List (Text × Text) → Index → Type 0
IsComplete pairs i = Elem (i.component, codes "amd64") pairs × Elem (i.component, codes "all") pairs

all_complete-Complete :
    (is : List Index) (seen pairs : List (Text × Text))
    → ((x : Text × Text) → Elem x seen → Elem x pairs)
    → all_complete is seen ≡ true
    → All (IsComplete pairs) is
unfolding all_complete
all_complete-Complete [] seen pairs sub h = tt
all_complete-Complete (i ∷ is) seen pairs sub h =
    let (both, rest) =
      &&-eq-true
        (is_seen i.component (codes "amd64") seen && is_seen i.component (codes "all") seen)
        (all_complete is seen) h in
    let (native, every) =
      &&-eq-true (is_seen i.component (codes "amd64") seen) (is_seen i.component (codes "all") seen)
        both in
    (
      (
        sub (i.component, codes "amd64") (is_seen-Elem i.component (codes "amd64") seen native),
        sub (i.component, codes "all") (is_seen-Elem i.component (codes "all") seen every),
      ),
      all_complete-Complete is seen pairs sub rest,
    )

-- Indexes that can be staged together.
abbrev pub AreIndexes : Text → List Index → Type 0
AreIndexes codename is =
    All IsStageable is
    × HavePaths codename is
    × Unrepeated (pairs_of is)
    × All (IsComplete (pairs_of is)) is

-- The indexes of the arguments, when they are accepted, have component names and architectures that
-- are allowed, each at the path that these give below the suite; no two have both the same component
-- and the same architecture; and every component has an index of amd64 and one of all.
pub component_indexes-AreIndexes :
    (args : Arguments) {indexes : List Index}
    → component_indexes args ≡ ok indexes
    → AreIndexes args.codename indexes
unfolding component_indexes
component_indexes-AreIndexes args e =
    let (_, e₁) =
      guard-eq-ok (length args.component_indexes == length args.component_index_files) counts_differ
        _ e in
    let (more, _, e₂) =
      >>=-eq-ok (component_records args.component_indexes args.component_index_files) _ e₁ in
    let is = main_indexes args ++ more in
    let (seen, checked, e₃) = >>=-eq-ok (check_indexes args.codename is []) _ e₂ in
    let (whole, e₄) = guard-eq-ok (all_complete is seen) incomplete_indexes (ok is) e₃ in
    let (valid, distinct, _, found) = check_indexes-Checked args.codename is [] checked in
    let sub : (x : Text × Text) → Elem x seen → Elem x (pairs_of is) =
      λ x m. elim (found x m) [ inl none_of ↦ absurd none_of | inr k ↦ k ] in
    IfOk-ok {E = SnapshotError} (AreIndexes args.codename) (ok is) e₄ (
      valid,
      check_indexes-HavePaths args.codename is [] checked,
      distinct,
      all_complete-Complete is seen (pairs_of is) sub whole,
    )
