-- ===== src/Tests/Specification.antt =====
-- A specification that is normalized, and some that are refused.
use rules_mkosi.Prelude.{List, inl, inr, ◌≡◌, refl, true, [], ◌∷◌, ok, err}
use rules_mkosi.Prelude.Int.{pos}
use rules_mkosi.Prelude.Text.{Text, codes}
use rules_mkosi.Debian.Error.{wrong_version, no_main, no_timestamp, unknown_fields, not_an_object}
use rules_mkosi.Debian.Lock.{Specification}
use rules_mkosi.Debian.Specification.{
  Json, json_text, json_integer, json_flag, json_other, json_array, json_object, no_items, item,
  no_members, member, load_specification, all_suite_names, other_components, distinct_names,
}
use rules_mkosi.Debian.Specification.Normal.{SameNames, normalized_same}
use rules_mkosi.Debian.Specification.Valid.{IsValid, load_specification-IsValid}

abbrev string : Text → Json
string t = json_text t

abbrev value_of : Json → Text → Text → Json
value_of version url channel = json_object (
    member (codes "version") version (
      member (codes "sources")
        (json_array (
          item
            (json_object (
              member (codes "url") (string url)
                (member (codes "channel") (string channel) no_members)))
            no_items))
        (member (codes "archs") (json_array (item (string (codes "amd64")) no_items)) (
          member (codes "packages")
            (json_array (
              item (string (codes "vim"))
                (item (string (codes "apt")) (item (string (codes "vim")) no_items))))
            no_members))))

abbrev stamped : Text
stamped = codes "https://s/debian/20250101T000000Z//"

abbrev good_value : Json
good_value = value_of (json_integer (pos 1)) stamped (codes "trixie non-free main contrib")

abbrev good_spec : Specification
good_spec = record {
  snapshot_url = codes "https://s/debian/20250101T000000Z";
  snapshot = codes "20250101T000000Z";
  suite = codes "trixie";
  components = codes "main" ∷ codes "contrib" ∷ codes "non-free" ∷ [];
  packages = codes "vim" ∷ codes "apt" ∷ [];
}

loaded : load_specification good_value ≡ ok good_spec
unfolding load_specification
loaded = refl

-- In Python `True == 1`.
true_is_one :
    load_specification (value_of (json_flag true) stamped (codes "trixie non-free main contrib"))
    ≡ ok good_spec
unfolding load_specification
true_is_one = refl

other_version :
    load_specification (value_of (json_integer (pos 2)) stamped (codes "trixie main"))
    ≡ err wrong_version
unfolding load_specification
other_version = refl

only_contrib :
    load_specification (value_of (json_integer (pos 1)) stamped (codes "trixie contrib"))
    ≡ err no_main
unfolding load_specification
only_contrib = refl

no_stamp :
    load_specification
      (value_of (json_integer (pos 1)) (codes "https://s/debian") (codes "trixie main"))
    ≡ err no_timestamp
unfolding load_specification
no_stamp = refl

more_fields :
    load_specification (json_object (member (codes "name") json_other no_members))
    ≡ err unknown_fields
unfolding load_specification
more_fields = refl

a_list : load_specification (json_array no_items) ≡ err not_an_object
unfolding load_specification
a_list = refl

load_specification-IsValid_example : IsValid good_spec
load_specification-IsValid_example = load_specification-IsValid good_value loaded

abbrev as_given : List Text
as_given = codes "non-free" ∷ codes "main" ∷ codes "contrib" ∷ []

abbrev in_order : List Text
in_order = codes "main" ∷ codes "contrib" ∷ codes "non-free" ∷ []

given_valid : all_suite_names as_given ≡ true
unfolding all_suite_names
given_valid = refl

ordered_valid : all_suite_names in_order ≡ true
unfolding all_suite_names
ordered_valid = refl

same_components : SameNames as_given in_order
same_components name = (
  (λ m. elim m [
    | inl a ↦ inr (inr (inl a))
    | inr (inl b) ↦ inl b
    | inr (inr (inl c)) ↦ inr (inl c)
    | inr (inr (inr d)) ↦ absurd d
  ]),
  (λ m. elim m [
    | inl b ↦ inr (inl b)
    | inr (inl c) ↦ inr (inr (inl c))
    | inr (inr (inl a)) ↦ inl a
    | inr (inr (inr d)) ↦ absurd d
  ]),
)

normalized_same_example :
    (other_components as_given ≡ other_components in_order)
    × (distinct_names [] (codes "vim" ∷ codes "apt" ∷ codes "vim" ∷ codes "bash" ∷ [])
        ≡ distinct_names [] (codes "vim" ∷ codes "apt" ∷ codes "bash" ∷ []))
normalized_same_example =
    normalized_same as_given in_order (codes "vim" ∷ codes "apt" ∷ []) (codes "bash" ∷ [])
      (codes "vim") given_valid ordered_valid same_components (inl refl)
