-- ===== src/Debian/Relations.antt =====
-- Dependency fields: `Relation.__str__` to `parse_provides` of mkosi/debian/generate_lock.py. The
-- pattern `_RELATION` is written out; only its operators can match in more than one way.
pub mod Forms
pub mod RoundTrip
pub mod Grammar
use rules_mkosi.Prelude.{
  ℕ, ◌==◌, leb, Bool, true, false, not, ◌&&◌, ◌||◌, List, [], ◌∷◌, ◌++◌, Option, none, some, length,
  drop, map, if◌then◌else◌, Outcome, ok, err, ◌>>=◌, ◌>>◌, guard,
}
use rules_mkosi.Prelude.Text.{
  Text, codes, text_eq, is_digit, is_space, starts_with, strip, strip_left, one_of,
}
use rules_mkosi.Prelude.Paths.{split}
use rules_mkosi.Debian.Error.{
  LockError, malformed_relation, provides_alternatives, provides_inexact,
}
use rules_mkosi.Debian.Package.{Relation}

unfoldable pub is_lower : ℕ → Bool
is_lower c = leb b'a' c && leb c b'z'

-- `[a-z0-9]`, `[a-z0-9+.-]`, `[a-z0-9-]` and `[^\s)]`
unfoldable pub is_name_start : ℕ → Bool
unfolding is_lower is_digit
is_name_start c = is_lower c || is_digit c

unfoldable pub is_name : ℕ → Bool
unfolding is_name_start one_of
is_name c = is_name_start c || one_of c (b'+' ∷ b'.' ∷ b'-' ∷ [])

unfoldable pub is_arch : ℕ → Bool
unfolding is_name_start
is_arch c = is_name_start c || c == b'-'

unfoldable pub is_version : ℕ → Bool
unfolding is_space
is_version c = not (is_space c || c == b')')

-- The characters of a class that a text starts with, and the rest.
unfoldable pub span : (ℕ → Bool) → Text → Text × Text
span p [] = ([], [])
span p (c ∷ s) = let (run, rest) = span p s in if p c then (c ∷ run, rest) else ([], c ∷ s)

unfoldable pub parse_name : Text → Option (Text × Text)
unfolding is_name_start is_name span
parse_name [] = none
parse_name (c ∷ s) = elim (span is_name s).0 [
  | [] ↦ none
  | d ∷ run ↦ if is_name_start c then some (c ∷ d ∷ run, (span is_name s).1) else none
]

unfoldable pub parse_arch : Text → Option (Option Text × Text)
unfolding is_arch span
parse_arch [] = some (none, [])
parse_arch (c ∷ s) =
    if c == b':'
    then elim (span is_arch s).0 [ [] ↦ none | d ∷ run ↦ some (some (d ∷ run), (span is_arch s).1) ]
    else some (none, c ∷ s)

-- `\s*\)`
unfoldable pub close_paren : Text → Option Text
unfolding strip_left
close_paren s = elim (strip_left s) [ [] ↦ none | c ∷ rest ↦ if c == b')' then some rest else none ]

-- An operator, a version and the closing parenthesis.
unfoldable pub parse_operator : Text → Text → Option (Text × Text × Text)
unfolding starts_with strip_left span is_version close_paren
parse_operator operator s =
    let after = span is_version (strip_left (drop (length operator) s)) in
    if not (starts_with s operator) then none else elim after.0 [
      | [] ↦ none
      | c ∷ run ↦ elim (close_paren after.1) [
        | none ↦ none
        | some rest ↦ some (operator, c ∷ run, rest)
      ]
    ]

-- `(<<|<=|=|>=|>>|<|>)`, in this order.
abbrev pub operators : List Text
operators =
    codes "<<" ∷ codes "<=" ∷ codes "=" ∷ codes ">=" ∷ codes ">>" ∷ codes "<" ∷ codes ">" ∷ []

unfoldable pub first_operator : List Text → Text → Option (Text × Text × Text)
unfolding parse_operator
first_operator [] s = none
first_operator (operator ∷ rest) s = elim (parse_operator operator s) [
  | none ↦ first_operator rest s
  | some found ↦ some found
]

-- `\s*(?:\(...\))?`
unfoldable pub parse_requirement : Text → Option (Option (Text × Text) × Text)
unfolding strip_left first_operator
parse_requirement s = elim (strip_left s) [
  | [] ↦ some (none, [])
  | c ∷ rest ↦
      if c == b'('
      then elim (first_operator operators (strip_left rest)) [
        | none ↦ none
        | some (operator, version, after) ↦ some (some (operator, version), after)
      ]
      else some (none, c ∷ rest)
]

unfoldable pub skip_bracket : Text → Option Text
skip_bracket [] = none
skip_bracket (c ∷ s) = let rest = skip_bracket s in if c == b']' then some s else rest

-- `\s*(?:\[[^\]]*\])?`
unfoldable pub skip_architectures : Text → Option Text
unfolding strip_left skip_bracket
skip_architectures s = elim (strip_left s) [
  | [] ↦ some []
  | c ∷ rest ↦ if c == b'[' then skip_bracket rest else some (c ∷ rest)
]

-- `\s*(?:<[^>]*>\s*)*` to the end, inside of angle brackets or not.
unfoldable pub only_profiles : Bool → Text → Bool
unfolding is_space
only_profiles inside [] = not inside
only_profiles inside (c ∷ s) =
    let rest = only_profiles (if inside then not (c == b'>') else c == b'<') s in
    (inside || c == b'<' || is_space c) && rest

unfoldable pub finish : Option (Text × Text) → Text → Option Text → Text → Option Relation
unfolding skip_architectures only_profiles
finish requirement name arch s = elim (skip_architectures s) [
  | none ↦ none
  | some rest ↦
      if only_profiles false rest
      then some (record {
        name = name;
        arch = arch;
        operator = elim requirement [ none ↦ none | some (operator, version) ↦ some operator ];
        version = elim requirement [ none ↦ none | some (operator, version) ↦ some version ];
      })
      else none
]

-- `_RELATION.fullmatch`
unfoldable pub parse_relation : Text → Option Relation
unfolding parse_name parse_arch parse_requirement finish
parse_relation text = elim (parse_name text) [
  | none ↦ none
  | some (name, s) ↦ elim (parse_arch s) [
    | none ↦ none
    | some (arch, s') ↦ elim (parse_requirement s') [
      | none ↦ none
      | some (requirement, s'') ↦ finish requirement name arch s''
    ]
  ]
]

-- `if self.arch`, `if self.operator`; a missing version is written as Python writes `None`.
unfoldable pub arch_text : Option Text → Text
arch_text none = []
arch_text (some []) = []
arch_text (some (c ∷ s)) = b':' ∷ c ∷ s

unfoldable pub requirement_text : Option Text → Option Text → Text
requirement_text none version = []
requirement_text (some []) version = []
requirement_text (some (c ∷ s)) none = codes " (" ++ ((c ∷ s) ++ codes " None)")
requirement_text (some (c ∷ s)) (some version) =
    codes " (" ++ ((c ∷ s) ++ (b' ' ∷ (version ++ codes ")")))

-- `Relation.__str__`
unfoldable pub relation_text : Relation → Text
unfolding arch_text requirement_text
relation_text r = r.name ++ (arch_text r.arch ++ requirement_text r.operator r.version)

unfoldable pub parse_group : List Text → Outcome LockError (List Relation)
unfolding parse_relation strip
parse_group [] = ok []
parse_group (alternative ∷ alternatives) = do
  relation ← elim (parse_relation (strip alternative)) [
    | none ↦ err malformed_relation
    | some r ↦ ok r
  ]
  rest ← parse_group alternatives
  ok (relation ∷ rest)

unfoldable pub parse_groups : List Text → Outcome LockError (List (List Relation))
unfolding parse_group strip split
parse_groups [] = ok []
parse_groups (group_text ∷ groups) =
    let rest = parse_groups groups in
    elim (strip group_text) [
      | [] ↦ rest
      | c ∷ s ↦ do group ← parse_group (split b'|' group_text); others ← rest; ok (group ∷ others)
    ]

-- `value or ""`
unfoldable pub or_empty : Option Text → Text
or_empty none = []
or_empty (some s) = s

-- `parse_relations`
unfoldable pub parse_relations : Option Text → Outcome LockError (List (List Relation))
unfolding parse_groups split or_empty
parse_relations value =
    parse_groups (split b',' (map (λ c. if c == 10 then 32 else c) (or_empty value)))

unfoldable pub is_exact : Option Text → Bool
unfolding text_eq
is_exact none = true
is_exact (some operator) = text_eq operator (codes "=")

unfoldable pub provides_of : List (List Relation) → Outcome LockError (List (Text × Option Text))
unfolding is_exact
provides_of [] = ok []
provides_of ([] ∷ groups) = err provides_alternatives
provides_of ((relation ∷ []) ∷ groups) = do
  guard (is_exact relation.operator) provides_inexact
  rest ← provides_of groups
  ok ((relation.name, relation.version) ∷ rest)
provides_of ((relation ∷ relation' ∷ group) ∷ groups) = err provides_alternatives

-- `parse_provides`
unfoldable pub parse_provides : Option Text → Outcome LockError (List (Text × Option Text))
unfolding parse_relations provides_of
parse_provides value = do groups ← parse_relations value; provides_of groups
