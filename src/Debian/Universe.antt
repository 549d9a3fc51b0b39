-- ===== src/Debian/Universe.antt =====
-- `Universe` of mkosi/debian/generate_lock.py: the packages of the indexes by name, newest first,
-- and the providers of each name in apt's order of preference.
pub mod Order
pub mod Sound
pub mod Candidates
use rules_mkosi.Prelude.{
  ℕ, Bool, true, false, not, ◌&&◌, ◌||◌, ◌==◌, ltb, List, [], ◌∷◌, ◌++◌, Option, none, some,
  if◌then◌else◌, Outcome, ok, err, ◌>>=◌, map,
}
use rules_mkosi.Prelude.Int.{is_neg}
use rules_mkosi.Prelude.Text.{Text, codes, text_eq, text_lt}
use rules_mkosi.Prelude.Dict.{Dict, lookup, lookup_or, insert, values}
use rules_mkosi.Debian.Error.{LockError, conflicting_duplicate}
use rules_mkosi.Debian.Version.{compare_versions}
use rules_mkosi.Debian.Package.{Relation, Package, package_eq, operator_allows, version_satisfies}

-- A package that provides a name, and the version in which it does.
abbrev pub Provider : Type 0
Provider = Package × Option Text

pub record Universe : Type 0 where
  pub packages_by_name : Dict (List Package)
  pub providers : Dict (List Provider)

-- `by_name[package.name][identity]`, where the identity is the version and the architecture. A
-- package that another component lists too is kept once.
unfoldable pub add_candidate : Package → List Package → Outcome LockError (List Package)
unfolding text_eq package_eq
add_candidate p [] = ok (p ∷ [])
add_candidate p (q ∷ qs) =
    let rest = (do more ← add_candidate p qs; ok (q ∷ more)) in
    if text_eq q.version p.version && text_eq q.architecture p.architecture
    then (if package_eq q (record p { component = q.component })
        then ok (q ∷ qs)
        else err conflicting_duplicate)
    else rest

-- The first loop of `__init__`.
unfoldable pub group_packages :
    List Package → Dict (List Package) → Outcome LockError (Dict (List Package))
unfolding add_candidate lookup_or insert
group_packages [] by_name = ok by_name
group_packages (p ∷ ps) by_name = do
  candidates ← add_candidate p (lookup_or [] p.name by_name)
  group_packages ps (insert p.name candidates by_name)

-- `sorted(candidates, key=newest_first)`: stable, and a comparison may raise.
unfoldable pub insert_newest : Package → List Package → Outcome LockError (List Package)
unfolding compare_versions is_neg
insert_newest p [] = ok (p ∷ [])
insert_newest p (q ∷ qs) = do
  difference ← compare_versions p.version q.version
  let rest = (do more ← insert_newest p qs; ok (q ∷ more))
  if is_neg difference then rest else ok (p ∷ q ∷ qs)

unfoldable pub newest_first : List Package → Outcome LockError (List Package)
unfolding insert_newest
newest_first [] = ok []
newest_first (p ∷ ps) = do sorted ← newest_first ps; insert_newest p sorted

unfoldable pub order_candidates : Dict (List Package) → Outcome LockError (Dict (List Package))
unfolding newest_first
order_candidates [] = ok []
order_candidates ((name, candidates) ∷ by_name) = do
  ordered ← newest_first candidates
  rest ← order_candidates by_name
  ok ((name, ordered) ∷ rest)

-- `self._providers[provided].append((package, version))` for what one package provides.
unfoldable pub add_provides :
    Package → List (Text × Option Text) → Dict (List Provider) → Dict (List Provider)
unfolding lookup_or insert
add_provides p [] providers = providers
add_provides p ((provided, version) ∷ more) providers =
    add_provides p more
      (insert provided (lookup_or [] provided providers ++ (p, version) ∷ []) providers)

unfoldable pub add_providers : List Package → Dict (List Provider) → Dict (List Provider)
unfolding add_provides
add_providers [] providers = providers
add_providers (p ∷ ps) providers = add_providers ps (add_provides p p.provides providers)

-- `_PRIORITY_RANK.get(priority, len(_PRIORITY_RANK))`
unfoldable pub priority_rank : Text → ℕ
unfolding text_eq
priority_rank priority =
    if text_eq priority (codes "required")
    then 0
    else if text_eq priority (codes "important")
    then 1
    else if text_eq priority (codes "standard")
    then 2
    else if text_eq priority (codes "optional")
    then 3
    else if text_eq priority (codes "extra")
    then 4
    else 5

-- `key(left) < key(right)` of the providers' sort.
unfoldable pub preferred : Provider → Provider → Bool
unfolding priority_rank text_lt
preferred (p, _) (q, _) =
    ltb (priority_rank p.priority) (priority_rank q.priority)
    || (priority_rank p.priority == priority_rank q.priority && text_lt p.name q.name)

unfoldable pub insert_provider : Provider → List Provider → List Provider
unfolding preferred
insert_provider x [] = x ∷ []
insert_provider x (y ∷ ys) =
    let rest = insert_provider x ys in if preferred y x then y ∷ rest else x ∷ y ∷ ys

unfoldable pub sort_providers : List Provider → List Provider
unfolding insert_provider
sort_providers [] = []
sort_providers (x ∷ xs) = insert_provider x (sort_providers xs)

unfoldable pub sort_all : Dict (List Provider) → Dict (List Provider)
unfolding sort_providers
sort_all [] = []
sort_all ((name, xs) ∷ providers) = (name, sort_providers xs) ∷ sort_all providers

unfoldable pub concat : List (List Package) → List Package
concat [] = []
concat (ps ∷ pss) = ps ++ concat pss

-- `Universe.__init__`
unfoldable pub universe : List Package → Outcome LockError Universe
unfolding group_packages order_candidates add_providers sort_all concat values
universe packages = do
  by_name ← group_packages packages []
  ordered ← order_candidates by_name
  ok (record {
    packages_by_name = ordered;
    providers = sort_all (add_providers (concat (values ordered)) []);
  })

-- `Universe.packages`
unfoldable pub all_packages : Universe → List Package
unfolding concat values
all_packages u = concat (values u.packages_by_name)

-- `Universe.newest`
unfoldable pub newest : Universe → Text → Option Package
unfolding lookup_or
newest u name = elim (lookup_or [] name u.packages_by_name) [ [] ↦ none | p ∷ ps ↦ some p ]

-- `qualifier in (None, "any", "native", ARCHITECTURE)`
unfoldable pub is_native : Option Text → Bool
unfolding text_eq
is_native none = true
is_native (some q) =
    text_eq q (codes "any") || text_eq q (codes "native") || text_eq q (codes "amd64")

-- `_architecture_matches`
unfoldable pub architecture_matches : Package → Option Text → Bool
unfolding is_native text_eq
architecture_matches p qualifier =
    if is_native qualifier
    then text_eq p.architecture (codes "amd64") || text_eq p.architecture (codes "all")
    else text_eq p.multi_arch (codes "foreign")

-- The first loop of `candidates`: the packages of the relation's own name.
unfoldable pub real_candidates : Relation → List Package → Outcome LockError (List Package)
unfolding architecture_matches operator_allows
real_candidates r [] = ok []
real_candidates r (p ∷ ps) = do
  holds ←
      (if architecture_matches p r.arch
        then operator_allows p.version r.operator r.version
        else ok false)
  rest ← real_candidates r ps
  ok (if holds then p ∷ rest else rest)

-- `relation.operator and (provided_version is None or not version_satisfies(...))`, negated.
unfoldable pub provided_allows : Option Text → Option Text → Option Text → Outcome LockError Bool
unfolding operator_allows
provided_allows provided none required = ok true
provided_allows provided (some []) required = ok true
provided_allows none (some (c ∷ operator)) required = ok false
provided_allows (some version) (some (c ∷ operator)) required =
    operator_allows version (some (c ∷ operator)) required

-- `package in result`
unfoldable pub listed : Package → List Package → Bool
unfolding package_eq
listed p [] = false
listed p (q ∷ qs) = package_eq p q || listed p qs

-- The second loop of `candidates`, which extends `result`.
unfoldable pub provided_candidates :
    Relation → List Provider → List Package → Outcome LockError (List Package)
unfolding architecture_matches listed provided_allows
provided_candidates r [] result = ok result
provided_candidates r ((p, version) ∷ providers) result = do
  holds ←
      (if not (architecture_matches p r.arch) || listed p result
        then ok false
        else provided_allows version r.operator r.version)
  provided_candidates r providers (if holds then result ++ p ∷ [] else result)

-- `Universe.candidates`
unfoldable pub candidates : Universe → Relation → Outcome LockError (List Package)
unfolding real_candidates provided_candidates lookup_or
candidates u r = do
  real ← real_candidates r (lookup_or [] r.name u.packages_by_name)
  provided_candidates r (lookup_or [] r.name u.providers) real
