-- ===== src/Debian/Specification/Valid.antt =====
-- What a validated specification is: `load_specification` of mkosi/debian/generate_lock.py.
use rules_mkosi.Prelude.{
  guard-eq-ok, ◌≡◌, refl, inl, inr, true, false, not, &&-eq-true, List, [], ◌∷◌, Option, none, some,
  ok, >>=-eq-ok, All, Option-cases, IfOk-ok,
}
use rules_mkosi.Prelude.Distinct.{Unrepeated}
use rules_mkosi.Prelude.Paths.{split, strip_slashes}
use rules_mkosi.Prelude.Text.{Text, codes, contains, starts_with}
use rules_mkosi.Debian.Error.{
  LockError, unknown_fields, wrong_version, not_https, no_timestamp, invalid_name,
  repeated_component, no_main, wrong_archs, invalid_package,
}
use rules_mkosi.Debian.Release.{words}
use rules_mkosi.Debian.Generate.{has_repeat}
use rules_mkosi.Debian.Lock.{Specification}
use rules_mkosi.Debian.Specification.{
  Json, json_text, json_integer, json_flag, json_other, json_array, json_object, Items, no_items,
  item, Members, field, all_known, is_one, only_source, text_value, is_timestamp, last_of,
  snapshot_url, snapshot_source, is_suite_name, is_package_name, all_suite_names, channel_words,
  channel, package_names, distinct_names, requested_packages, is_amd64_only, other_components,
  specification_of, load_specification,
}
use rules_mkosi.Debian.Specification.Names.{
  IsIncreasing, IsOther, other_components_lem, distinct_names_lem,
}

package_names-All :
    (items : Items) {names : List Text}
    → package_names items ≡ ok names
    → All (λ n. is_package_name n ≡ true) names
unfolding package_names
package_names-All no_items e =
    IfOk-ok {E = LockError} (All (λ n. is_package_name n ≡ true)) (ok []) e tt
package_names-All (item (json_text name) items) e =
    let (good, e₁) = guard-eq-ok (is_package_name name) invalid_package _ e in
    let (names, rest, e₂) = >>=-eq-ok (package_names items) _ e₁ in
    IfOk-ok {E = LockError} (All (λ n. is_package_name n ≡ true)) (ok (name ∷ names)) e₂
      (good, package_names-All items rest)
package_names-All (item (json_integer n) items) e = cc
package_names-All (item (json_flag b) items) e = cc
package_names-All (item json_other items) e = cc
package_names-All (item (json_array nested) items) e = cc
package_names-All (item (json_object entries) items) e = cc

-- The URL ends with the timestamp. The suite and the components have valid names; main is the first
-- component, and the others follow in increasing order. The packages have valid names that differ.
abbrev pub IsValid : Specification → Type 0
IsValid spec =
    (is_timestamp spec.snapshot ≡ true)
    × (last_of (split b'/' spec.snapshot_url) ≡ spec.snapshot)
    × (is_suite_name spec.suite ≡ true)
    × ((others : List Text) × (spec.components ≡ codes "main" ∷ others)
        × IsIncreasing others
        × All IsOther others)
    × Unrepeated spec.packages
    × All (λ n. is_package_name n ≡ true) spec.packages

snapshot_url_lem :
    (source : Members) {found : Text × Text}
    → snapshot_url source ≡ ok found
    → (is_timestamp found.1 ≡ true) × (last_of (split b'/' found.0) ≡ found.1)
unfolding snapshot_url
snapshot_url_lem source e = elim (Option-cases (text_value (field (codes "url") source))) [
  | inl missing ↦ absurd (let e' = rw (missing, snapshot_url) at e in cc)
  | inr (raw, given) ↦
      let url = strip_slashes raw in
      let snapshot = last_of (split b'/' url) in
      let (_, e₁) =
        guard-eq-ok (starts_with raw (codes "https://")) not_https _
          (rw (given, snapshot_url) at e) in
      let (timestamp, e₂) =
        guard-eq-ok (is_timestamp snapshot) no_timestamp (ok (url, snapshot)) e₁ in
      IfOk-ok {E = LockError}
        (λ (x : Text × Text). (is_timestamp x.1 ≡ true) × (last_of (split b'/' x.0) ≡ x.1))
        (ok (url, snapshot)) e₂ (timestamp, refl)
]

snapshot_source_lem :
    (data_of : Members) {found : Members × Text × Text}
    → snapshot_source data_of ≡ ok found
    → (is_timestamp found.2 ≡ true) × (last_of (split b'/' found.1) ≡ found.2)
unfolding snapshot_source
snapshot_source_lem data_of e =
    elim (Option-cases (only_source (field (codes "sources") data_of))) [
      | inl missing ↦ absurd (let e' = rw (missing, snapshot_source) at e in cc)
      | inr (source, given) ↦
          let (found, h, e₁) =
            >>=-eq-ok (snapshot_url source) _ (rw (given, snapshot_source) at e) in
          IfOk-ok {E = LockError}
            (λ (x : Members × Text × Text).
              (is_timestamp x.2 ≡ true) × (last_of (split b'/' x.1) ≡ x.2))
            (ok (source, found.0, found.1)) e₁ (snapshot_url_lem source h)
    ]

-- The words of a channel have valid names.
AreNames : Text × List Text → Type 0
AreNames x = (is_suite_name x.0 ≡ true) × (all_suite_names x.1 ≡ true)

channel_words-Names :
    (ws : List Text) {found : Text × List Text} → channel_words ws ≡ ok found → AreNames found
unfolding channel_words all_suite_names AreNames
channel_words-Names [] e = cc
channel_words-Names (suite ∷ []) e = cc
channel_words-Names (suite ∷ component ∷ components) e =
    let rest = component ∷ components in
    let (good, e₁) = guard-eq-ok (all_suite_names (suite ∷ rest)) invalid_name _ e in
    let (_, e₂) = guard-eq-ok (not (has_repeat rest)) repeated_component _ e₁ in
    let (_, e₃) = guard-eq-ok (contains (codes "main") rest) no_main (ok (suite, rest)) e₂ in
    IfOk-ok {E = LockError} AreNames (ok (suite, rest)) e₃
      (&&-eq-true (is_suite_name suite) (all_suite_names rest) good)

channel-Names :
    (source : Members) {found : Text × List Text} → channel source ≡ ok found → AreNames found
unfolding channel
channel-Names source e = elim (Option-cases (text_value (field (codes "channel") source))) [
  | inl missing ↦ absurd (let e' = rw (missing, channel) at e in cc)
  | inr (t, given) ↦ channel_words-Names (words t) (rw (given, channel) at e)
]

ArePackages : List Text → Type 0
ArePackages names = Unrepeated names × All (λ n. is_package_name n ≡ true) names

All-first :
    (names : List Text)
    → All (λ n. (is_package_name n ≡ true) × (contains n [] ≡ false)) names
    → All (λ n. is_package_name n ≡ true) names
All-first [] h = tt
All-first (n ∷ names) ((p, _), h) = (p, All-first names h)

requested_packages-Packages :
    (value : Option Json) {names : List Text}
    → requested_packages value ≡ ok names
    → ArePackages names
unfolding requested_packages ArePackages
requested_packages-Packages (some (json_array (item first items))) e =
    let (names, given, e₁) = >>=-eq-ok (package_names (item first items)) _ e in
    let (all, distinct) =
      distinct_names_lem (λ n. is_package_name n ≡ true) [] names
        (package_names-All (item first items) given) in
    IfOk-ok {E = LockError} ArePackages (ok (distinct_names [] names)) e₁
      (distinct, All-first (distinct_names [] names) all)
requested_packages-Packages none e = cc
requested_packages-Packages (some (json_text t)) e = cc
requested_packages-Packages (some (json_integer n)) e = cc
requested_packages-Packages (some (json_flag b)) e = cc
requested_packages-Packages (some json_other) e = cc
requested_packages-Packages (some (json_array no_items)) e = cc
requested_packages-Packages (some (json_object entries)) e = cc

-- A specification that is loaded has an URL that ends with its timestamp, a suite and components with
-- valid names, main first and the others in increasing order, and packages with valid names that
-- differ.
pub load_specification-IsValid :
    (value : Json) {spec : Specification} → load_specification value ≡ ok spec → IsValid spec
unfolding load_specification specification_of AreNames ArePackages
load_specification-IsValid (json_object data_of) e =
    let (_, e₁) = guard-eq-ok (all_known data_of) unknown_fields _ e in
    let (_, e₂) = guard-eq-ok (is_one (field (codes "version") data_of)) wrong_version _ e₁ in
    let (source, found, e₃) = >>=-eq-ok (snapshot_source data_of) _ e₂ in
    let (names, given, e₄) = >>=-eq-ok (channel source.0) _ e₃ in
    let (_, e₅) = guard-eq-ok (is_amd64_only (field (codes "archs") data_of)) wrong_archs _ e₄ in
    let (packages, requested, e₆) =
      >>=-eq-ok (requested_packages (field (codes "packages") data_of)) _ e₅ in
    let (timestamp, last) = snapshot_source_lem data_of found in
    let (suite, components) = channel-Names source.0 given in
    let (increasing, others) = other_components_lem names.1 components in
    let (distinct, valid) =
      requested_packages-Packages (field (codes "packages") data_of) requested in
    IfOk-ok {E = LockError} IsValid
      (ok (record {
        snapshot_url = source.1;
        snapshot = source.2;
        suite = names.0;
        components = codes "main" ∷ other_components names.1;
        packages = packages;
      }))
      e₆
      (
        timestamp,
        last,
        suite,
        (other_components names.1, refl, increasing, others),
        distinct,
        valid,
      )
load_specification-IsValid (json_text t) e = cc
load_specification-IsValid (json_integer n) e = cc
load_specification-IsValid (json_flag b) e = cc
load_specification-IsValid json_other e = cc
load_specification-IsValid (json_array items) e = cc
