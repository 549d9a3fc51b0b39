-- ===== src/Debian/Closure/Invariant.antt =====
-- The invariant of `resolve`: what is selected comes from the universe, waits in the queue or has
-- all its dependencies selected. A selection keeps it and leaves no more work than before.
use rules_mkosi.Prelude.{
  ℕ, ◌+◌, ◌≤◌, ◌<◌, ◌≡◌, sym, subst, ◌⊎◌, inl, inr, List, [], ◌∷◌, ◌++◌, Option, none, some,
  if◌then◌else◌, ok, length, length-append, Elem, All, All-Elem, All-intro, arith, Elem-append,
  Elem-append_left, Elem-append_right,
}
use rules_mkosi.Prelude.Text.{Text, text_eq, text_eq_iff}
use rules_mkosi.Prelude.Dict.{Dict, lookup, insert, keys, lookup-insert}
use rules_mkosi.Debian.Package.{Relation, Package}
use rules_mkosi.Debian.Universe.{Universe, all_packages}
use rules_mkosi.Debian.Universe.Sound.{IsIndexed}
use rules_mkosi.Debian.Universe.Candidates.{Satisfies, all_packages-named}
use rules_mkosi.Debian.Closure.{Closure, select, groups_of}
use rules_mkosi.Debian.Closure.Select.{
  Extends, insert-Extends, select_lem, lookup-insert_cases, lookup-insert_self,
}

-- The names of the list that are not selected.
pub absent : Text → Dict Package → ℕ
absent n s = elim (lookup n s) [ none ↦ 1 | some p ↦ 0 ]

pub missing : List Text → Dict Package → ℕ
missing [] s = 0
missing (n ∷ ns) s = absent n s + missing ns s

absent-insert :
    (n : Text) (p : Package) (s : Dict Package)
    → absent n (insert p.name p s) ≡ (if text_eq p.name n then 0 else absent n s)
unfolding absent
absent-insert n p s = ground (arith, lookup-insert p.name n p s)

missing-insert_le :
    (ns : List Text) (p : Package) (s : Dict Package)
    → missing ns (insert p.name p s) ≤ missing ns s
unfolding missing
missing-insert_le [] p s = omega arith
missing-insert_le (n ∷ ns) p s = ground (arith, absent-insert n p s, missing-insert_le ns p s)

missing-insert_lt :
    (ns : List Text) (p : Package) (s : Dict Package)
    → Elem p.name ns
    → lookup p.name s ≡ none
    → missing ns (insert p.name p s) < missing ns s
unfolding missing
missing-insert_lt [] p s m h = absurd m
missing-insert_lt (n ∷ ns) p s (inl e) h =
    unfold absent in
    ground (arith, lookup-insert p.name n p s, text_eq_iff p.name n, missing-insert_le ns p s)
missing-insert_lt (n ∷ ns) p s (inr m) h =
    ground (arith, absent-insert n p s, missing-insert_lt ns p s m h)

pub missing-empty : (ns : List Text) → missing ns [] ≤ length ns
unfolding missing absent lookup
missing-empty [] = omega arith
missing-empty (n ∷ ns) = omega (arith, missing-empty ns)

-- The rounds that `drain` still needs at most.
unfoldable pub pending : Universe → Closure → ℕ
pending u c = length c.queue + missing (keys u.packages_by_name) c.selected

-- One alternative of the group is satisfied by a selected package of the universe.
abbrev pub Satisfied : Universe → Dict Package → List Relation → Type 0
Satisfied u s group =
    (r : Relation) × Elem r group
    × ((q : Package) × Satisfies r q × Elem q (all_packages u) × (lookup q.name s ≡ some q))

abbrev pub Served : Universe → Dict Package → Package → Type 0
Served u s p = All (Satisfied u s) (groups_of p)

pub Satisfied-Extends :
    (u : Universe) (s t : Dict Package)
    → Extends s t
    → (group : List Relation) → Satisfied u s group
    → Satisfied u t group
Satisfied-Extends u s t e group (r, m, (q, a, b, h)) = (r, m, (q, a, b, e q.name q h))

pub Served-Extends :
    (u : Universe) (s t : Dict Package) → Extends s t → (p : Package) → Served u s p → Served u t p
Served-Extends u s t e p h =
    All-intro (Satisfied u t) (groups_of p)
      (λ g m. Satisfied-Extends u s t e g (All-Elem (Satisfied u s) (groups_of p) h g m))

-- `exempt` is the package whose dependencies are being selected.
pub record IsSound (u : Universe) (exempt : Option Package) (c : Closure) : Type 0 where
  pub named :
      (n : Text) (p : Package)
      → lookup n c.selected ≡ some p
      → (p.name ≡ n) × Elem p (all_packages u)
  pub queued : (p : Package) → Elem p c.queue → lookup p.name c.selected ≡ some p
  pub served :
      (n : Text) (p : Package)
      → lookup n c.selected ≡ some p
      → (exempt ≡ some p) ⊎ (Elem p c.queue ⊎ Served u c.selected p)

-- What a step of `resolve` leaves: a sound closure that extends the old one, with no more work.
pub record Advances (u : Universe) (exempt : Option Package) (c c' : Closure) : Type 0 where
  pub sound : IsSound u exempt c'
  pub extends : Extends c.selected c'.selected
  pub fewer : pending u c' ≤ pending u c

pub Advances-refl :
    (u : Universe) (x : Option Package) (c : Closure) → IsSound u x c → Advances u x c c
Advances-refl u x c s = record { sound = s; extends = λ n p h. h; fewer = omega arith }

pub Advances-trans :
    (u : Universe) (x : Option Package) (a b c : Closure)
    → Advances u x a b
    → Advances u x b c
    → Advances u x a c
Advances-trans u x a b c h k = record {
  sound = k.sound;
  extends = λ n p e. k.extends n p (h.extends n p e);
  fewer = omega (arith, h.fewer, k.fewer);
}

module _ (input : List Package) (u : Universe) (valid : IsIndexed input u) where
  select_new :
      (x : Option Package) (c : Closure) (p : Package)
      → Elem p (all_packages u)
      → IsSound u x c
      → lookup p.name c.selected ≡ none
      → Advances u x c (record {
        selected = insert p.name p c.selected;
        edges = insert p.name [] c.edges;
        queue = c.queue ++ p ∷ [];
      })
  select_new x c p m s fresh =
      let extends = insert-Extends p c.selected fresh in
      record {
        sound = record {
          named = λ n q h. elim (lookup-insert_cases p c.selected n q h) [
            | inl (e, same) ↦ subst (λ y. (y.name ≡ n) × Elem y (all_packages u)) same (e, m)
            | inr old ↦ s.named n q old
          ];
          queued = λ q h. elim (Elem-append q c.queue (p ∷ []) h) [
            | inl old ↦ extends q.name q (s.queued q old)
            | inr (inl e) ↦
                subst (λ y. lookup y.name (insert p.name p c.selected) ≡ some y) (sym e)
                  (lookup-insert_self p c.selected)
            | inr (inr never) ↦ absurd never
          ];
          served = λ n q h. elim (lookup-insert_cases p c.selected n q h) [
            | inl (e, same) ↦ inr (inl (Elem-append_right q c.queue (p ∷ []) (inl (sym same))))
            | inr old ↦ elim (s.served n q old) [
              | inl now ↦ inl now
              | inr (inl waits) ↦ inr (inl (Elem-append_left q c.queue (p ∷ []) waits))
              | inr (inr done) ↦ inr (inr (Served-Extends u c.selected _ extends q done))
            ]
          ];
        };
        extends = extends;
        fewer =
            unfold pending in
            omega (
              arith,
              length-append c.queue (p ∷ []),
              missing-insert_lt (keys u.packages_by_name) p c.selected
                  (all_packages-named input u valid p m).1 fresh,
            );
      }

  -- A successful selection of a package of the universe advances, and selects the package.
  pub select-Advances :
      (x : Option Package) (c c' : Closure) (p : Package)
      → Elem p (all_packages u)
      → IsSound u x c
      → select c p ≡ ok c'
      → Advances u x c c' × (lookup p.name c'.selected ≡ some p)
  select-Advances x c c' p m s e = elim (select_lem c c' p e) [
    | inl (old, same) ↦ (
      subst (Advances u x c) (sym same) (Advances-refl u x c s),
      subst (λ d. lookup p.name d.selected ≡ some p) (sym same) old,
    )
    | inr (fresh, made) ↦ (
      subst (Advances u x c) (sym made) (select_new x c p m s fresh),
      subst (λ d. lookup p.name d.selected ≡ some p) (sym made) (lookup-insert_self p c.selected),
    )
  ]
