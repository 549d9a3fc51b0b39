-- ===== src/Debian/Specification.antt =====
-- The validation of a specification: `Specification` and `_snapshot_source` to `load_specification`
-- of mkosi/debian/generate_lock.py. The specification is decoded JSON.
pub mod Names
pub mod Normal
pub mod Valid
use rules_mkosi.Prelude.{
  ℕ, zero, suc, ◌==◌, Bool, true, false, not, ◌&&◌, ◌||◌, List, [], ◌∷◌, ◌++◌, Option, none, some,
  length, take, drop, if◌then◌else◌, Outcome, ok, err, guard, ◌>>=◌, ◌>>◌,
}
use rules_mkosi.Prelude.Int.{ℤ, pos, int_eq}
use rules_mkosi.Prelude.Text.{Text, codes, text_eq, contains, every, is_digit, starts_with}
use rules_mkosi.Prelude.Paths.{split, strip_slashes}
use rules_mkosi.Debian.Error.{
  LockError, not_an_object, unknown_fields, wrong_version, wrong_sources, not_https, no_timestamp,
  short_channel, invalid_name, repeated_component, no_main, wrong_archs, no_packages,
  invalid_package,
}
use rules_mkosi.Debian.Relations.{is_name_start, is_name, is_arch}
use rules_mkosi.Debian.Release.{words}
use rules_mkosi.Debian.Closure.{insert_name}
use rules_mkosi.Debian.Generate.{has_repeat}
use rules_mkosi.Debian.Lock.{Specification}

-- A decoded JSON value. A number with an integral value is a `json_integer`; the other numbers and
-- `null` are `json_other`. The members of an object have different names.
mutual
  pub data Json : Type 0 where
    json_text : Text → Json
    json_integer : ℤ → Json
    json_flag : Bool → Json
    json_other : Json
    json_array : Items → Json
    json_object : Members → Json

  pub data Items : Type 0 where
    no_items : Items
    item : Json → Items → Items

  pub data Members : Type 0 where
    no_members : Members
    member : Text → Json → Members → Members

-- `data.get(name)`
unfoldable pub field : Text → Members → Option Json
unfolding text_eq
field name no_members = none
field name (member n value members) = if text_eq n name then some value else field name members

-- `set(data) - {...}` is empty.
unfoldable pub all_known : Members → Bool
unfolding contains
all_known no_members = true
all_known (member n value members) =
    contains n (codes "version" ∷ codes "sources" ∷ codes "archs" ∷ codes "packages" ∷ [])
    && all_known members

-- `value == 1`: in Python `True` is equal to 1, too.
unfoldable pub is_one : Option Json → Bool
unfolding int_eq
is_one (some (json_integer n)) = int_eq n (pos 1)
is_one (some (json_flag b)) = b
is_one none = false
is_one (some (json_text t)) = false
is_one (some json_other) = false
is_one (some (json_array items)) = false
is_one (some (json_object entries)) = false

-- The only source, if there is just one and it is an object.
unfoldable pub only_source : Option Json → Option Members
only_source (some (json_array (item (json_object source) no_items))) = some source
only_source other_value = none

-- A value that is a text.
unfoldable pub text_value : Option Json → Option Text
text_value (some (json_text t)) = some t
text_value other_value = none

-- `re.fullmatch(r"[0-9]{8}T[0-9]{6}Z", snapshot)`
unfoldable pub is_timestamp : Text → Bool
unfolding every is_digit text_eq
is_timestamp s =
    every is_digit (take 8 s)
    && text_eq (take 1 (drop 8 s)) (codes "T")
    && every is_digit (take 6 (drop 9 s))
    && text_eq (drop 15 s) (codes "Z")
    && length s == 16

-- `parts[-1]`
unfoldable pub last_of : List Text → Text
last_of [] = []
last_of (part ∷ []) = part
last_of (part ∷ part' ∷ parts) = last_of (part' ∷ parts)

-- The URL of a source without its last slashes, and its timestamp.
unfoldable pub snapshot_url : Members → Outcome LockError (Text × Text)
unfolding field text_value starts_with strip_slashes split last_of is_timestamp
snapshot_url source = elim (text_value (field (codes "url") source)) [
  | none ↦ err not_https
  | some raw ↦
      let url = strip_slashes raw in
      let snapshot = last_of (split b'/' url) in
      do
        guard (starts_with raw (codes "https://")) not_https
        guard (is_timestamp snapshot) no_timestamp
        ok (url, snapshot)
]

-- `_snapshot_source`
unfoldable pub snapshot_source : Members → Outcome LockError (Members × Text × Text)
unfolding field only_source snapshot_url
snapshot_source data_of = elim (only_source (field (codes "sources") data_of)) [
  | none ↦ err wrong_sources
  | some source ↦ do found ← snapshot_url source; ok (source, found.0, found.1)
]

-- `_IDENTIFIER` and `_PACKAGE_NAME`
unfoldable pub is_suite_name : Text → Bool
unfolding is_name_start is_arch every
is_suite_name [] = false
is_suite_name (c ∷ s) = is_name_start c && every is_arch s

unfoldable pub is_package_name : Text → Bool
unfolding is_name_start is_name every
is_package_name [] = false
is_package_name (c ∷ []) = false
is_package_name (c ∷ d ∷ s) = is_name_start c && every is_name (d ∷ s)

unfoldable pub all_suite_names : List Text → Bool
unfolding is_suite_name
all_suite_names [] = true
all_suite_names (name ∷ names) = is_suite_name name && all_suite_names names

-- The words of a channel, checked.
unfoldable pub channel_words : List Text → Outcome LockError (Text × List Text)
unfolding all_suite_names has_repeat contains
channel_words [] = err short_channel
channel_words (suite ∷ []) = err short_channel
channel_words (suite ∷ component ∷ components) = do
  guard (all_suite_names (suite ∷ component ∷ components)) invalid_name
  guard (not (has_repeat (component ∷ components))) repeated_component
  guard (contains (codes "main") (component ∷ components)) no_main
  ok (suite, component ∷ components)

-- `_channel`; a channel that is no text has no words.
unfoldable pub channel : Members → Outcome LockError (Text × List Text)
unfolding field text_value words channel_words
channel source = elim (text_value (field (codes "channel") source)) [
  | none ↦ err short_channel
  | some t ↦ channel_words (words t)
]

-- The names of the packages.
unfoldable pub package_names : Items → Outcome LockError (List Text)
unfolding is_package_name
package_names no_items = ok []
package_names (item (json_text name) items) = do
  guard (is_package_name name) invalid_package
  names ← package_names items
  ok (name ∷ names)
package_names (item (json_integer n) items) = err invalid_package
package_names (item (json_flag b) items) = err invalid_package
package_names (item json_other items) = err invalid_package
package_names (item (json_array nested) items) = err invalid_package
package_names (item (json_object entries) items) = err invalid_package

-- `dict.fromkeys(names)`, after the names that were seen.
unfoldable pub distinct_names : List Text → List Text → List Text
unfolding contains
distinct_names seen [] = []
distinct_names seen (name ∷ names) =
    let skipped = distinct_names seen names in
    let kept = distinct_names (name ∷ seen) names in
    if contains name seen then skipped else name ∷ kept

-- `_requested_packages`
unfoldable pub requested_packages : Option Json → Outcome LockError (List Text)
unfolding package_names distinct_names
requested_packages (some (json_array (item first items))) = do
  names ← package_names (item first items)
  ok (distinct_names [] names)
requested_packages other_value = err no_packages

-- `data.get("archs") == ["amd64"]`
unfoldable pub is_amd64_only : Option Json → Bool
unfolding text_eq
is_amd64_only (some (json_array (item (json_text arch) no_items))) = text_eq arch (codes "amd64")
is_amd64_only other_value = false

-- `sorted(set(components) - {"main"})`
unfoldable pub other_components : List Text → List Text
unfolding insert_name text_eq
other_components [] = []
other_components (component ∷ components) =
    let rest = other_components components in
    if text_eq component (codes "main") then rest else insert_name component rest

-- The checks of an object.
unfoldable pub specification_of : Members → Outcome LockError Specification
unfolding all_known is_one snapshot_source channel is_amd64_only requested_packages other_components
    field
specification_of data_of = do
  guard (all_known data_of) unknown_fields
  guard (is_one (field (codes "version") data_of)) wrong_version
  source ← snapshot_source data_of
  names ← channel source.0
  guard (is_amd64_only (field (codes "archs") data_of)) wrong_archs
  packages ← requested_packages (field (codes "packages") data_of)
  ok (record {
    snapshot_url = source.1;
    snapshot = source.2;
    suite = names.0;
    components = codes "main" ∷ other_components names.1;
    packages = packages;
  })

-- `load_specification`
unfoldable pub load_specification : Json → Outcome LockError Specification
unfolding specification_of
load_specification (json_object data_of) = specification_of data_of
load_specification other_value = err not_an_object
