-- ===== src/Debian/Closure/Select.antt =====
-- Selecting a package, and the invariant of the closure that every step of `resolve` keeps.
use rules_mkosi.Prelude.{
  ◌≡◌, ◌⊎◌, inl, inr, [], ◌∷◌, ◌++◌, none, some, ok, arith, Option-cases, Bool-cases,
}
use rules_mkosi.Prelude.Text.{Text, text_eq, text_eq_iff, text_eq_refl}
use rules_mkosi.Prelude.Dict.{Dict, lookup, insert, lookup-insert}
use rules_mkosi.Debian.Package.{Package, package_eq, package_eq_iff}
use rules_mkosi.Debian.Closure.{Closure, select}

-- No selection is undone.
abbrev pub Extends : Dict Package → Dict Package → Type 0
Extends s t = (n : Text) (p : Package) → lookup n s ≡ some p → lookup n t ≡ some p

pub insert-Extends :
    (p : Package) (s : Dict Package) → lookup p.name s ≡ none → Extends s (insert p.name p s)
insert-Extends p s fresh n q h = rw lookup-insert (ground (arith, text_eq_iff p.name n))

-- A successful selection: the package is selected then, under its name, and was either selected
-- before, with no change, or is new and waits in the queue.
pub select_lem :
    (c c' : Closure) (p : Package)
    → select c p ≡ ok c'
    → (lookup p.name c.selected ≡ some p) × (c' ≡ c)
      ⊎ (lookup p.name c.selected ≡ none)
        × (c' ≡ record {
          selected = insert p.name p c.selected;
          edges = insert p.name [] c.edges;
          queue = c.queue ++ p ∷ [];
        })
unfolding select
select_lem c c' p h = elim (Option-cases (lookup p.name c.selected)) [
  | inl fresh ↦ inr (fresh, ground arith)
  | inr (q, old) ↦ elim (Bool-cases (package_eq q p)) [
    | inl same ↦ inl (ground (arith, package_eq_iff q p), ground arith)
    | inr differ ↦ ground arith
  ]
]

-- What is selected after a new selection: the package itself, or what was selected before.
pub lookup-insert_cases :
    (p : Package) (s : Dict Package) (n : Text) (q : Package)
    → lookup n (insert p.name p s) ≡ some q
    → ((p.name ≡ n) × (p ≡ q)) ⊎ (lookup n s ≡ some q)
lookup-insert_cases p s n q h = elim (Bool-cases (text_eq p.name n)) [
  | inl same ↦ inl ((text_eq_iff p.name n).0 same, ground (arith, lookup-insert p.name n p s))
  | inr differ ↦ inr (ground (arith, lookup-insert p.name n p s))
]

pub lookup-insert_self :
    (p : Package) (s : Dict Package) → lookup p.name (insert p.name p s) ≡ some p
lookup-insert_self p s = rw (lookup-insert, text_eq_refl)
