-- ===== src/Control/Fields.antt =====
-- The fields of the paragraphs that `paragraphs` returns.
use rules_mkosi.Prelude.{
  ◌==◌, ◌≡◌, ◌≢◌, true, false, not, List, [], ◌∷◌, ◌++◌, Option, none, some, All,
}
use rules_mkosi.Prelude.Text.{Text, every, contains}
use rules_mkosi.Prelude.Dict.{keys, Entries}
use rules_mkosi.Control.Names.{field_names}
use rules_mkosi.Control.{Paragraph, Parser, starts_with_space}

-- A field's name has no colon and does not start with whitespace.
abbrev pub IsField : Text → Type 0
IsField name = (every (λ c. not (c == b':')) name ≡ true) × (starts_with_space name ≡ false)

-- No name occurs twice.
abbrev pub Distinct : List Text → Type 0
Distinct [] = Unit
Distinct (name ∷ names) = (contains name names ≡ false) × Distinct names

abbrev pub Sound : Paragraph → Type 0
Sound p = Distinct (keys p) × Entries (λ name value. IsField name) p

-- The current field is one of the current paragraph, so a continuation finds its value.
abbrev FieldIn : Paragraph → Option Text → Type 0
FieldIn p none = Unit
FieldIn p (some field) = IsField field × (contains field (keys p) ≡ true)

-- The parser after lines with the fields `seen`.
record Valid (seen : List Text) (s : Parser) : Type 0 where
  done : All (λ p. (p ≢ []) × Sound p) s.result
  sound : Sound s.current
  inside : FieldIn s.current s.field
  named : field_names s.result ++ keys s.current ≡ seen
