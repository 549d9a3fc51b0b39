-- ===== src/Control/Names.antt =====
-- The names of the fields that `paragraphs` reads, and those of the lines that it reads them from.
use rules_mkosi.Prelude.{
  ◌≡◌, refl, sym, ◌∙◌, ap, append-nil, append_assoc, if◌then◌else◌, Bool, true, false, ◌||◌, List,
  [], ◌∷◌, ◌++◌, Option, none, some, arith, Bool-cases, inl, inr,
}
use rules_mkosi.Prelude.Text.{Text, is_space, every, text_eq, text_eq_iff, contains}
use rules_mkosi.Prelude.Dict.{lookup, keys}
use rules_mkosi.Debian.Version.{split_first}
use rules_mkosi.Control.{Paragraph, starts_with_space, is_missing}

-- The fields of the paragraphs, in their order.
unfoldable pub field_names : List Paragraph → List Text
unfolding keys
field_names [] = []
field_names (p ∷ ps) = keys p ++ field_names ps

-- The name before a line's first colon.
unfoldable pub found_names : Option (Text × Text) → List Text
found_names none = []
found_names (some (name, value)) = name ∷ []

-- The names of the lines that start a field: those that are not blank and do not start with
-- whitespace.
unfoldable pub line_names : List Text → List Text
unfolding every is_space starts_with_space found_names split_first
line_names [] = []
line_names (line ∷ lines) =
    let rest = line_names lines in
    if every is_space line || starts_with_space line
    then rest
    else found_names (split_first b':' line) ++ rest

pub field_names-append :
    (ps : List Paragraph) (p : Paragraph) → field_names (ps ++ p ∷ []) ≡ field_names ps ++ keys p
unfolding field_names
field_names-append [] p = append-nil (keys p)
field_names-append (q ∷ ps) p =
    ap (λ names. keys q ++ names) (field_names-append ps p)
    ∙ sym (append_assoc (keys q) (field_names ps) (keys p))

pub missing_none : (o : Option Text) → is_missing o ≡ true → o ≡ none
unfolding is_missing
missing_none none h = refl
missing_none (some v) h = cc

pub contains-lookup :
    (k : Text) (p : Paragraph) → contains k (keys p) ≡ true → (v : Text) × (lookup k p ≡ some v)
unfolding contains keys lookup
contains-lookup k [] h = cc
contains-lookup k ((j, v) ∷ p) h = elim (Bool-cases (text_eq j k)) [
  | inl same ↦ (v, rw same refl)
  | inr differ ↦
      let (w, found) = contains-lookup k p (ground (arith, text_eq_iff k j, text_eq_iff j k)) in
      (w, rw differ found)
]

pub line_names-skip :
    (seen : List Text) (line : Text)
    → (every is_space line || starts_with_space line) ≡ true
    → seen ++ line_names (line ∷ []) ≡ seen
unfolding line_names
line_names-skip seen line h = rw h (append-nil seen)

pub line_names-one :
    (line : Text)
    → (every is_space line || starts_with_space line) ≡ false
    → line_names (line ∷ []) ≡ found_names (split_first b':' line)
unfolding line_names
line_names-one line h = rw h (append-nil (found_names (split_first b':' line)))

pub line_names-cons :
    (line : Text) (lines : List Text)
    → line_names (line ∷ []) ++ line_names lines ≡ line_names (line ∷ lines)
unfolding line_names
line_names-cons line lines = elim (Bool-cases (every is_space line || starts_with_space line)) [
  | inl skipped ↦ rw skipped refl
  | inr field ↦ rw (field, append-nil (found_names (split_first b':' line))) refl
]

pub either_true : (a b : Bool) → b ≡ true → (a || b) ≡ true
either_true a b h = ground arith

pub neither : (a b : Bool) → a ≡ false → b ≡ false → (a || b) ≡ false
neither a b h k = ground arith

pub first_true : (a b : Bool) → a ≡ true → (a || b) ≡ true
first_true a b h = ground arith
