-- ===== src/Runner/Attached.antt =====
-- The values that stand in the argument of an option: `_parse_option` of
-- mkosi/private/mkosi_runner/mkosi_options.py.
use rules_mkosi.Prelude.{
  ℕ, ◌==◌, ◌≡◌, refl, sym, subst, ◌∙◌, Bool, true, false, not, ◌||◌, [], ◌∷◌, ◌++◌, Option, none,
  some, length, take, drop, if◌then◌else◌, append-nil, append_assoc, take-append-drop, arith, inl,
  inr, Bool-cases, Option-cases,
}
use rules_mkosi.Prelude.Text.{Text, codes, starts_with}
use rules_mkosi.Debian.Version.{split_first}
use rules_mkosi.Runner.Options.{
  Table, Parsed, parse_short, parse_option, in_table, is_flag, stops, read_flags, read_parsed,
}

-- The characters of an attached value.
abbrev pub text_of : Option Text → Text
text_of none = []
text_of (some value) = value

-- The argument is the prefix and the attached value.
abbrev Attached : Text → Option Parsed → Type 0
Attached argument none = Unit
Attached argument (some (spelling, prefix, value)) = argument ≡ prefix ++ text_of value

pub split_first_sound :
    (sep : ℕ) (s : Text) {a b : Text} → split_first sep s ≡ some (a, b) → s ≡ a ++ sep ∷ b
unfolding split_first
split_first_sound sep [] e = cc
split_first_sound sep (c ∷ s) {a} {b} e = elim (Option-cases (split_first sep s)) [
  | inl missing ↦ ground (arith, missing)
  | inr ((a', b'), found) ↦ ground (arith, found, split_first_sound sep s found)
]

Attached-if :
    (argument : Text) (b : Bool) (m n : Option Parsed)
    → Attached argument m
    → (b ≡ false → Attached argument n)
    → Attached argument (if b then m else n)
Attached-if argument true m n h k = h
Attached-if argument false m n h k = k refl

parse_short-Attached :
    (table : Table) (argument : Text) → Attached argument (parse_short table argument)
unfolding parse_short
parse_short-Attached table argument =
    Attached-if argument _ (some (take 2 argument, take 2 argument, some (drop 2 argument))) none
      (sym (take-append-drop 2 argument)) (λ _. tt)

named-Attached :
    (table : Table) (argument name value : Text)
    → argument ≡ name ++ b'=' ∷ value
    → Attached argument (
        if in_table table name
        then some (name, name ++ b'=' ∷ [], some value)
        else parse_short table argument)
named-Attached table argument name value e =
    Attached-if argument (in_table table name) (some (name, name ++ b'=' ∷ [], some value))
      (parse_short table argument) (e ∙ sym (append_assoc name (b'=' ∷ []) value))
      (λ _. parse_short-Attached table argument)

pub parse_option-Attached :
    (table : Table) (argument : Text) → Attached argument (parse_option table argument)
unfolding parse_option
parse_option-Attached table argument =
    Attached-if argument (in_table table argument) (some (argument, argument, none)) _
      (sym (append-nil argument))
      (λ _.
        Attached-if argument (not (starts_with argument (codes "-")) || length argument == 1) none
          (elim (split_first b'=' argument) [
            | none ↦ parse_short table argument
            | some (name, value) ↦
                if in_table table name
                then some (name, name ++ b'=' ∷ [], some value)
                else parse_short table argument
          ])
          tt
          (λ _. elim (Option-cases (split_first b'=' argument)) [
            | inl missing ↦ rw missing (parse_short-Attached table argument)
            | inr ((name, value), found) ↦
                rw found
                  (named-Attached table argument name value (split_first_sound b'=' argument found))
          ]))

Attached-append :
    (prefix middle rest : Text) (m : Option Parsed)
    → Attached ((prefix ++ middle) ++ rest) m
    → Attached (prefix ++ (middle ++ rest)) m
Attached-append prefix middle rest m h =
    subst (λ s. Attached s m) (append_assoc prefix middle rest) h

read_flags-Attached :
    (table : Table) (spelling prefix explicit : Text)
    → Attached (prefix ++ explicit) (read_flags table spelling prefix explicit)
unfolding read_flags
read_flags-Attached table spelling prefix [] = refl
read_flags-Attached table spelling prefix (c ∷ []) =
    Attached-if _ (not (is_flag table spelling)) (some (spelling, prefix, some (c ∷ [])))
      (if stops table prefix c then none else some (b'-' ∷ c ∷ [], prefix ++ c ∷ [], none)) refl
      (λ _.
        Attached-if _ (stops table prefix c) none (some (b'-' ∷ c ∷ [], prefix ++ c ∷ [], none)) tt
          (λ _. sym (append-nil (prefix ++ c ∷ []))))
read_flags-Attached table spelling prefix (c ∷ d ∷ explicit) =
    let attached = read_flags table (b'-' ∷ c ∷ []) (prefix ++ c ∷ b'=' ∷ []) explicit in
    let further = read_flags table (b'-' ∷ c ∷ []) (prefix ++ c ∷ []) (d ∷ explicit) in
    let rest = if d == b'=' then attached else further in
    Attached-if _ (not (is_flag table spelling)) (some (spelling, prefix, some (c ∷ d ∷ explicit)))
      (if stops table prefix c then none else rest) refl
      (λ _. Attached-if _ (stops table prefix c) none rest tt (λ _. elim (Bool-cases (d == b'=')) [
        | inl equals ↦
            let same : d ≡ b'=' = ground arith in
            rw same (
              Attached-append prefix (c ∷ b'=' ∷ []) explicit _
                (read_flags-Attached table (b'-' ∷ c ∷ []) (prefix ++ c ∷ b'=' ∷ []) explicit))
        | inr other ↦ rw other (
            Attached-append prefix (c ∷ []) (d ∷ explicit) _
              (read_flags-Attached table (b'-' ∷ c ∷ []) (prefix ++ c ∷ []) (d ∷ explicit)))
      ]))

pub read_parsed-Attached :
    (table : Table) (argument : Text) (m : Option Parsed)
    → Attached argument m
    → Attached argument (read_parsed table m)
unfolding read_parsed
read_parsed-Attached table argument none h = tt
read_parsed-Attached table argument (some (spelling, prefix, none)) h = h
read_parsed-Attached table argument (some (spelling, prefix, some explicit)) h =
    subst (λ s. Attached s (read_flags table spelling prefix explicit)) (sym h)
      (read_flags-Attached table spelling prefix explicit)
