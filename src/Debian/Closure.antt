-- ===== src/Debian/Closure.antt =====
-- `_Closure` and `resolve` of mkosi/debian/generate_lock.py: the install closure of the requested
-- packages.
pub mod Select
pub mod Invariant
pub mod Rounds
pub mod Loop
pub mod Start
pub mod Resolve
use rules_mkosi.Prelude.{
  ℕ, zero, suc, ◌+◌, Bool, true, false, not, ◌&&◌, ◌||◌, ◌==◌, List, [], ◌∷◌, ◌++◌, Option, none,
  some, if◌then◌else◌, Outcome, ok, err, ◌>>=◌, length,
}
use rules_mkosi.Prelude.Text.{Text, codes, text_eq, text_lt, contains}
use rules_mkosi.Prelude.Dict.{Dict, lookup, lookup_or, insert, keys}
use rules_mkosi.Debian.Error.{
  LockError, conflicting_selection, virtual_package, missing_packages, unsatisfiable,
  no_such_package,
}
use rules_mkosi.Debian.Package.{Relation, Package, package_eq}
use rules_mkosi.Debian.Universe.{Universe, all_packages, newest, candidates}

-- The edges of a package are a set: a list without repetitions.
pub record Closure : Type 0 where
  pub selected : Dict Package
  pub edges : Dict (List Text)
  pub queue : List Package

abbrev pub empty : Closure
empty = record { selected = []; edges = []; queue = [] }

-- `_Closure.select`
unfoldable pub select : Closure → Package → Outcome LockError Closure
unfolding lookup insert package_eq
select c p = elim (lookup p.name c.selected) [
  | some current ↦ if package_eq current p then ok c else err conflicting_selection
  | none ↦ ok (record {
    selected = insert p.name p c.selected;
    edges = insert p.name [] c.edges;
    queue = c.queue ++ p ∷ [];
  })
]

-- `sorted({...})` of texts: an insertion that drops repetitions.
unfoldable pub insert_name : Text → List Text → List Text
unfolding text_lt text_eq
insert_name n [] = n ∷ []
insert_name n (m ∷ ms) =
    let rest = insert_name n ms in
    if text_eq n m then m ∷ ms else if text_lt n m then n ∷ m ∷ ms else m ∷ rest

unfoldable pub bootstrap_names : List Package → List Text
unfolding insert_name text_eq
bootstrap_names [] = []
bootstrap_names (p ∷ ps) =
    let rest = bootstrap_names ps in
    if p.essential || text_eq p.priority (codes "required") then insert_name p.name rest else rest

-- `closure.select(universe.newest(name), ...)`; Python fails on `None.name`.
unfoldable pub select_newest : Universe → Text → Closure → Outcome LockError Closure
unfolding newest select
select_newest u name c = elim (newest u name) [ none ↦ err no_such_package | some p ↦ select c p ]

unfoldable pub select_names : Universe → List Text → Closure → Outcome LockError Closure
unfolding select_newest
select_names u [] c = ok c
select_names u (name ∷ names) c = do c' ← select_newest u name c; select_names u names c'

-- `_select_bootstrap`
unfoldable pub select_bootstrap : Universe → Closure → Outcome LockError Closure
unfolding select_names bootstrap_names all_packages
select_bootstrap u c = select_names u (bootstrap_names (all_packages u)) c

-- `[package for package in candidates if package.name == name]`
unfoldable pub with_name : Text → List Package → List Package
unfolding text_eq
with_name name [] = []
with_name name (p ∷ ps) =
    let rest = with_name name ps in if text_eq p.name name then p ∷ rest else rest

abbrev pub bare : Text → Relation
bare name = record { name = name; arch = none; operator = none; version = none }

-- What `_select_requested` does for one name, by its candidates; `none` is a missing package.
unfoldable pub pick : List Package → List Package → Outcome LockError (Option Package)
pick (p ∷ real) all = ok (some p)
pick [] [] = ok none
pick [] (p ∷ []) = ok (some p)
pick [] (p ∷ q ∷ more) = err virtual_package

-- One round of the loop of `_select_requested`: the closure, and the names missing so far.
unfoldable pub request :
    Universe → Text → Closure × List Text → Outcome LockError (Closure × List Text)
unfolding candidates with_name pick select
request u name (c, missing) = do
  found ← candidates u (bare name)
  choice ← pick (with_name name found) found
  elim choice [
    | none ↦ ok (c, missing ++ name ∷ [])
    | some p ↦ do c' ← select c p; ok (c', missing)
  ]

unfoldable pub request_all :
    Universe → List Text → Closure × List Text → Outcome LockError (Closure × List Text)
unfolding request
request_all u [] s = ok s
request_all u (name ∷ names) s = do s' ← request u name s; request_all u names s'

-- `_select_requested`
unfoldable pub select_requested : Universe → List Text → Closure → Outcome LockError Closure
unfolding request_all
select_requested u names c = do
  (c', missing) ← request_all u names (c, [])
  elim missing [ [] ↦ ok c' | name ∷ more ↦ err missing_packages ]

-- `selected.get(candidate.name) == candidate`
unfoldable pub is_selected : Dict Package → Package → Bool
unfolding lookup package_eq
is_selected selected p = elim (lookup p.name selected) [ none ↦ false | some q ↦ package_eq q p ]

-- `candidate.name not in selected`
unfoldable pub is_unselected : Dict Package → Package → Bool
unfolding lookup
is_unselected selected p = elim (lookup p.name selected) [ none ↦ true | some q ↦ false ]

unfoldable pub first_match : (Package → Bool) → List Package → Option Package
first_match test [] = none
first_match test (p ∷ ps) = let rest = first_match test ps in if test p then some p else rest

-- One of the two loops of `_satisfying_candidate`.
unfoldable pub first_in_group :
    Universe → (Package → Bool) → List Relation → Outcome LockError (Option Package)
unfolding candidates first_match
first_in_group u test [] = ok none
first_in_group u test (r ∷ group) = do
  found ← candidates u r
  let rest = first_in_group u test group
  elim (first_match test found) [ some p ↦ ok (some p) | none ↦ rest ]

-- `_satisfying_candidate`
unfoldable pub satisfying_candidate :
    Universe → Dict Package → List Relation → Outcome LockError (Option Package)
unfolding first_in_group is_selected is_unselected
satisfying_candidate u selected group = do
  present ← first_in_group u (is_selected selected) group
  elim present [ some p ↦ ok (some p) | none ↦ first_in_group u (is_unselected selected) group ]

-- `closure.edges[name].add(target)`
unfoldable pub add_edge : Text → Text → Closure → Closure
unfolding lookup_or insert contains
add_edge name target c =
    let targets = lookup_or [] name c.edges in
    record c {
      edges =
          insert name (if contains target targets then targets else targets ++ target ∷ []) c.edges;
    }

-- The body of the inner loop of `resolve`.
unfoldable pub satisfy : Universe → Package → List Relation → Closure → Outcome LockError Closure
unfolding satisfying_candidate select add_edge text_eq
satisfy u p group c = do
  found ← satisfying_candidate u c.selected group
  elim found [
    | none ↦ err unsatisfiable
    | some q ↦ do
      c' ← select c q
      ok (if text_eq q.name p.name then c' else add_edge p.name q.name c')
  ]

unfoldable pub satisfy_all :
    Universe → Package → List (List Relation) → Closure → Outcome LockError Closure
unfolding satisfy
satisfy_all u p [] c = ok c
satisfy_all u p (group ∷ groups) c = do c' ← satisfy u p group c; satisfy_all u p groups c'

abbrev pub groups_of : Package → List (List Relation)
groups_of p = p.pre_depends ++ p.depends

-- The `while` loop of `resolve` on fuel; `none` means that the fuel ran out.
unfoldable pub drain : ℕ → Universe → Closure → Option (Outcome LockError Closure)
unfolding satisfy_all
drain zero u c = elim c.queue [ [] ↦ some (ok c) | p ∷ ps ↦ none ]
drain (suc fuel) u c = elim c.queue [
  | [] ↦ some (ok c)
  | p ∷ ps ↦ elim (satisfy_all u p (groups_of p) (record c { queue = ps })) [
    | ok c' ↦ drain fuel u c'
    | err e ↦ some (err e)
  ]
]

-- The first part of `resolve`.
unfoldable pub start : Universe → List Text → Outcome LockError Closure
unfolding select_bootstrap select_requested
start u requested = do c ← select_bootstrap u empty; select_requested u requested c

-- `resolve`. A package name is queued once, so there are at most as many rounds as names.
unfoldable pub resolve : Universe → List Text → Option (Outcome LockError Closure)
unfolding drain start
resolve u requested = elim (start u requested) [
  | err e ↦ some (err e)
  | ok c ↦ drain (length (keys u.packages_by_name)) u c
]
