-- ===== src/Debian/Closure/Rounds.antt =====
-- The loop of `resolve`: each round serves one package, and the loop ends within its fuel.
use rules_mkosi.Prelude.{
  ◌≡◌, refl, subst, inl, inr, Bool, List, [], ◌∷◌, Option, some, ok, IfOk, IfOk-bind, IfOk-intro,
  IfOk-ok, Elem, All, arith, Option-cases, Bool-cases,
}
use rules_mkosi.Prelude.Text.{Text, text_eq}
use rules_mkosi.Prelude.Dict.{Dict}
use rules_mkosi.Debian.Package.{Relation, Package}
use rules_mkosi.Debian.Universe.{Universe, all_packages, candidates}
use rules_mkosi.Debian.Universe.Sound.{IsIndexed}
use rules_mkosi.Debian.Universe.Candidates.{Satisfies, candidates-Satisfies}
use rules_mkosi.Debian.Closure.{
  Closure, select, first_match, first_in_group, satisfying_candidate, is_selected, is_unselected,
  add_edge, satisfy, satisfy_all,
}
use rules_mkosi.Debian.Closure.Invariant.{
  Satisfied, Satisfied-Extends, IsSound, Advances, Advances-refl, Advances-trans, select-Advances,
  pending,
}

first_match-Elem :
    (test : Package → Bool) (ps : List Package) (q : Package)
    → first_match test ps ≡ some q
    → Elem q ps
unfolding first_match
first_match-Elem test [] q e = cc
first_match-Elem test (p ∷ ps) q e = elim (Bool-cases (test p)) [
  | inl hit ↦ inl (ground arith)
  | inr miss ↦ inr (first_match-Elem test ps q (ground arith))
]

-- `q` is a package of the universe that satisfies an alternative of the group.
abbrev Candidate : Universe → List Relation → Package → Type 0
Candidate u group q = (r : Relation) × Elem r group × Satisfies r q × Elem q (all_packages u)

abbrev Found : Universe → List Relation → Option Package → Type 0
Found u group o = (q : Package) → o ≡ some q → Candidate u group q

module _ (input : List Package) (u : Universe) (valid : IsIndexed input u) where
  first_in_group-Found :
      (test : Package → Bool) (group : List Relation)
      → IfOk (Found u group) (first_in_group u test group)
  unfolding first_in_group
  first_in_group-Found test [] = λ q e. cc
  first_in_group-Found test (r ∷ group) =
      IfOk-bind (λ found. candidates u r ≡ ok found) (Found u (r ∷ group)) (candidates u r) _
        (IfOk-intro _ (candidates u r) (λ found e. e))
        (λ found e. elim (Option-cases (first_match test found)) [
          | inl no_match ↦ rw no_match (
              IfOk-intro (Found u (r ∷ group)) (first_in_group u test group) (λ o h q is_q.
                let (s, m, a, b) =
                  IfOk-ok (Found u group) (first_in_group u test group) h
                    (first_in_group-Found test group) q is_q in
                (s, inr m, a, b)))
          | inr (p, hit) ↦ rw hit (λ q is_q.
              let (inside, fits) =
                candidates-Satisfies input u valid r found e p
                  (first_match-Elem test found p hit) in
              subst (Candidate u (r ∷ group)) (ground arith) (r, inl refl, fits, inside))
        ])

  satisfying_candidate-Found :
      (s : Dict Package) (group : List Relation)
      → IfOk (Found u group) (satisfying_candidate u s group)
  unfolding satisfying_candidate
  satisfying_candidate-Found s group =
      IfOk-bind (Found u group) (Found u group) (first_in_group u (is_selected s) group) _
        (first_in_group-Found (is_selected s) group)
        (λ o h. elim (Option-cases o) [
          | inl absent ↦ rw absent (first_in_group-Found (is_unselected s) group)
          | inr (p, present) ↦ rw present (subst (Found u group) present h)
        ])

  add_edge-Advances :
      (x : Option Package) (c : Closure) (n m : Text)
      → IsSound u x c
      → Advances u x c (add_edge n m c)
  unfolding add_edge pending
  add_edge-Advances x c n m s = record {
    sound = record { named = s.named; queued = s.queued; served = s.served };
    extends = λ k p h. h;
    fewer = omega arith;
  }

  -- After a round for one group, the group is satisfied by what is selected.
  abbrev Serves : Option Package → Closure → List Relation → Closure → Type 0
  Serves x c group c' = Advances u x c c' × Satisfied u c'.selected group

  satisfy-Serves :
      (x : Option Package) (p : Package) (group : List Relation) (c : Closure)
      → IsSound u x c
      → IfOk (Serves x c group) (satisfy u p group c)
  unfolding satisfy
  satisfy-Serves x p group c s =
      IfOk-bind (Found u group) (Serves x c group) (satisfying_candidate u c.selected group) _
        (satisfying_candidate-Found c.selected group)
        (λ o found. elim (Option-cases o) [
          | inl absent ↦ rw absent tt
          | inr (q, present) ↦ rw present (
              let (r, m, fits, inside) = found q present in
              IfOk-bind (λ c'. select c q ≡ ok c') (Serves x c group) (select c q) _
                (IfOk-intro _ (select c q) (λ c' e. e))
                (λ c' e.
                  let (adv, has) = select-Advances input u valid x c c' q inside s e in
                  elim (Bool-cases (text_eq q.name p.name)) [
                    | inl self ↦ rw self (adv, (r, m, (q, fits, inside, has)))
                    | inr other ↦ rw other (
                      Advances-trans u x c c' _ adv
                          (add_edge-Advances x c' p.name q.name adv.sound),
                      unfold add_edge in (r, m, (q, fits, inside, has)),
                    )
                  ]))
        ])

  abbrev pub ServesAll : Option Package → Closure → List (List Relation) → Closure → Type 0
  ServesAll x c groups c' = Advances u x c c' × All (Satisfied u c'.selected) groups

  pub satisfy_all-ServesAll :
      (x : Option Package) (p : Package) (groups : List (List Relation)) (c : Closure)
      → IsSound u x c
      → IfOk (ServesAll x c groups) (satisfy_all u p groups c)
  unfolding satisfy_all
  satisfy_all-ServesAll x p [] c s = (Advances-refl u x c s, tt)
  satisfy_all-ServesAll x p (group ∷ groups) c s =
      IfOk-bind (Serves x c group) (ServesAll x c (group ∷ groups)) (satisfy u p group c) _
        (satisfy-Serves x p group c s)
        (λ c' (adv, done). IfOk-intro _ (satisfy_all u p groups c') (λ d e.
          let (more, rest) =
            IfOk-ok (ServesAll x c' groups) (satisfy_all u p groups c') e
              (satisfy_all-ServesAll x p groups c' adv.sound) in
          (
            Advances-trans u x c c' d adv more,
            (Satisfied-Extends u c'.selected d.selected more.extends group done, rest),
          )))
