-- ===== src/Debian/Package.antt =====
-- Relations and package records of mkosi/debian/generate_lock.py, and the version test.
use rules_mkosi.Prelude.{
  ℕ, Bool, true, false, ◌≡◌, List, [], ◌∷◌, Option, none, some, if◌then◌else◌, ◌||◌, ◌↔◌, arith,
  ℕ_discrete, Outcome, ok, err, ◌>>=◌,
}
use rules_mkosi.Prelude.Int.{ℤ, is_zero, is_neg, is_pos}
use rules_mkosi.Prelude.Text.{Text, codes, text_eq}
use rules_mkosi.Debian.Error.{LockError, unsupported_operator, version_is_none}
use rules_mkosi.Debian.Version.{compare_versions}

-- `Relation`: one alternative of a dependency field.
pub record Relation : Type 0 where
  pub name : Text
  pub arch : Option Text
  pub operator : Option Text
  pub version : Option Text

-- `Package`
pub record Package : Type 0 where
  pub name : Text
  pub version : Text
  pub architecture : Text
  pub component : Text
  pub filename : Text
  pub size : ℕ
  pub sha256 : Text
  pub multi_arch : Text
  pub essential : Bool
  pub priority : Text
  pub pre_depends : List (List Relation)
  pub depends : List (List Relation)
  pub provides : List (Text × Option Text)

unfoldable pub Package-discrete : Discrete Package
unfolding ℕ_discrete
Package-discrete = hlevel ℕ_discrete

-- `left == right` of two packages.
unfoldable pub package_eq : Package → Package → Bool
unfolding Package-discrete
package_eq p q = elim (Package-discrete p q) [ yes _ ↦ true | no _ ↦ false ]

-- `_RELATION_OPERATORS`, as a function of the operator; `none` is a missing key.
unfoldable pub relation_operator : Text → ℤ → Option Bool
unfolding text_eq is_neg is_zero is_pos
relation_operator operator result =
    if text_eq operator (codes "<<")
    then some (is_neg result)
    else if text_eq operator (codes "<=") || text_eq operator (codes "<")
    then some (is_neg result || is_zero result)
    else if text_eq operator (codes "=")
    then some (is_zero result)
    else if text_eq operator (codes ">=") || text_eq operator (codes ">")
    then some (is_pos result || is_zero result)
    else if text_eq operator (codes ">>")
    then some (is_pos result)
    else none

-- `version_satisfies`
unfoldable pub version_satisfies : Text → Text → Text → Outcome LockError Bool
unfolding compare_versions relation_operator
version_satisfies version operator required = do
  result ← compare_versions version required
  elim (relation_operator operator result) [
    | none ↦ err unsupported_operator
    | some holds ↦ ok holds
  ]

-- `not relation.operator or version_satisfies(version, relation.operator, relation.version)`
unfoldable pub operator_allows : Text → Option Text → Option Text → Outcome LockError Bool
unfolding version_satisfies
operator_allows version none required = ok true
operator_allows version (some []) required = ok true
operator_allows version (some (c ∷ operator)) none = err version_is_none
operator_allows version (some (c ∷ operator)) (some required) =
    version_satisfies version (c ∷ operator) required

pub package_eq_iff : (p q : Package) → (package_eq p q ≡ true) ↔ (p ≡ q)
unfolding package_eq
package_eq_iff p q = ground arith
