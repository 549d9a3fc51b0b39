-- ===== src/Debian/Relations/Grammar.antt =====
-- What the relations that mkosi/debian/generate_lock.py parses have in them.
use rules_mkosi.Prelude.{
  ℕ, ◌==◌, ◌≡◌, refl, subst, inl, inr, Bool, true, false, not, List, [], ◌∷◌, Option, none, some,
  length, drop, if◌then◌else◌, Elem, Bool-cases, Option-cases, List-cases,
}
use rules_mkosi.Prelude.Text.{Text, starts_with, strip_left, every}
use rules_mkosi.Debian.Package.{Relation}
use rules_mkosi.Debian.Relations.{
  is_name_start, is_name, is_arch, is_version, span, parse_name, parse_arch, close_paren,
  parse_operator, operators, first_operator, parse_requirement, skip_architectures, only_profiles,
  finish, parse_relation, relation_text,
}
use rules_mkosi.Debian.Relations.RoundTrip.{parse_relation-relation_text}
use rules_mkosi.Debian.Relations.Forms.{IsName, IsArch, IsRequirement, IsRelation, span-every}

-- A property of the result, if there is one.
abbrev IfSome : {A : Type 0} → (A → Type 0) → Option A → Type 0
IfSome P none = Unit
IfSome P (some a) = P a

IfSome-if :
    {A : Type 0} (P : A → Type 0) (b : Bool) (m n : Option A)
    → (b ≡ true → IfSome P m)
    → (b ≡ false → IfSome P n)
    → IfSome P (if b then m else n)
IfSome-if P true m n h k = h refl
IfSome-if P false m n h k = k refl

after_start :
    (c : ℕ) (first last : Text)
    → every is_name first ≡ true
    → IfSome
        (λ (x : Text × Text). IsName x.0)
        (elim first [
          | [] ↦ none
          | d ∷ run ↦ if is_name_start c then some (c ∷ d ∷ run, last) else none
        ])
after_start c [] last h = tt
after_start c (d ∷ run) last h =
    IfSome-if (λ (x : Text × Text). IsName x.0) (is_name_start c) (some (c ∷ d ∷ run, last)) none
      (λ start. (start, h)) (λ _. tt)

parse_name-Name : (s : Text) → IfSome (λ (x : Text × Text). IsName x.0) (parse_name s)
unfolding parse_name
parse_name-Name [] = tt
parse_name-Name (c ∷ s) = after_start c (span is_name s).0 (span is_name s).1 (span-every is_name s)

parse_arch-Arch : (s : Text) → IfSome (λ (x : Option Text × Text). IsArch x.0) (parse_arch s)
unfolding parse_arch
parse_arch-Arch [] = tt
parse_arch-Arch (c ∷ s) = elim (Bool-cases (c == b':')) [
  | inr other ↦ rw other tt
  | inl colon ↦ rw colon (elim (List-cases (span is_arch s).0) [
    | inl nothing ↦ rw nothing tt
    | inr (d, run, e) ↦ rw e (subst (λ r. every is_arch r ≡ true) e (span-every is_arch s))
  ])
]

-- An operator that was found, and its version.
abbrev IsFoundIn : List Text → Text × Text × Text → Type 0
IsFoundIn ops (operator, [], rest) = ⊥
IsFoundIn ops (operator, c ∷ s, rest) = Elem operator ops × (every is_version (c ∷ s) ≡ true)

operator_found :
    (operator first last : Text)
    → every is_version first ≡ true
    → IfSome (IsFoundIn (operator ∷ [])) (elim first [
      | [] ↦ none
      | c ∷ run ↦ elim (close_paren last) [
        | none ↦ none
        | some rest ↦ some (operator, c ∷ run, rest)
      ]
    ])
operator_found operator [] last h = tt
operator_found operator (c ∷ run) last h = elim (Option-cases (close_paren last)) [
  | inl missing ↦ rw missing tt
  | inr (rest, found) ↦ rw found (inl refl, h)
]

parse_operator-Found :
    (operator s : Text) → IfSome (IsFoundIn (operator ∷ [])) (parse_operator operator s)
unfolding parse_operator
parse_operator-Found operator s =
    let after = span is_version (strip_left (drop (length operator) s)) in
    IfSome-if (IsFoundIn (operator ∷ [])) (not (starts_with s operator)) none
      (elim after.0 [
        | [] ↦ none
        | c ∷ run ↦ elim (close_paren after.1) [
          | none ↦ none
          | some rest ↦ some (operator, c ∷ run, rest)
        ]
      ])
      (λ _. tt)
      (λ _.
        operator_found operator after.0 after.1
          (span-every is_version (strip_left (drop (length operator) s))))

FoundIn-more :
    (operator : Text) (ops : List Text) (x : Text × Text × Text)
    → IsFoundIn (operator ∷ []) x
    → IsFoundIn (operator ∷ ops) x
FoundIn-more operator ops (o, [], rest) h = h
FoundIn-more operator ops (o, c ∷ s, rest) (inl e, h) = (inl e, h)
FoundIn-more operator ops (o, c ∷ s, rest) (inr m, h) = absurd m

FoundIn-later :
    (operator : Text) (ops : List Text) (x : Text × Text × Text)
    → IsFoundIn ops x
    → IsFoundIn (operator ∷ ops) x
FoundIn-later operator ops (o, [], rest) h = h
FoundIn-later operator ops (o, c ∷ s, rest) (m, h) = (inr m, h)

first_operator-Found : (ops : List Text) (s : Text) → IfSome (IsFoundIn ops) (first_operator ops s)
unfolding first_operator
first_operator-Found [] s = tt
first_operator-Found (operator ∷ ops) s = elim (Option-cases (parse_operator operator s)) [
  | inr (x, found) ↦
      rw (found, first_operator)
        (FoundIn-more operator ops x
          (subst (IfSome (IsFoundIn (operator ∷ []))) found (parse_operator-Found operator s)))
  | inl missing ↦ elim (Option-cases (first_operator ops s)) [
    | inl nothing ↦ rw (missing, first_operator) (rw nothing tt)
    | inr (x, found) ↦
        rw (missing, first_operator)
          (rw found (
            FoundIn-later operator ops x
              (subst (IfSome (IsFoundIn ops)) found (first_operator-Found ops s))))
  ]
]

-- The operator and the version of a requirement, or none.
abbrev IsPair : Option (Text × Text) → Type 0
IsPair none = Unit
IsPair (some (operator, version)) = IsRequirement (some operator) (some version)

IsPair-Found : (x : Text × Text × Text) → IsFoundIn operators x → IsPair (some (x.0, x.1))
IsPair-Found (o, [], rest) h = h
IsPair-Found (o, c ∷ s, rest) h = h

after_operator :
    (found : Option (Text × Text × Text))
    → IfSome (IsFoundIn operators) found
    → IfSome
        (λ (x : Option (Text × Text) × Text). IsPair x.0)
        (elim found [ none ↦ none | some (o, v, after) ↦ some (some (o, v), after) ])
after_operator none h = tt
after_operator (some x) h = IsPair-Found x h

parse_requirement-Pair :
    (s : Text) → IfSome (λ (x : Option (Text × Text) × Text). IsPair x.0) (parse_requirement s)
unfolding parse_requirement
parse_requirement-Pair s = elim (List-cases (strip_left s)) [
  | inl empty ↦ rw (empty, parse_requirement) tt
  | inr (c, rest, e) ↦ elim (Bool-cases (c == b'(')) [
    | inr other ↦ rw (e, parse_requirement) (rw other tt)
    | inl paren ↦
        rw (e, parse_requirement)
          (rw paren (
            after_operator (first_operator operators (strip_left rest))
              (first_operator-Found operators (strip_left rest))))
  ]
]

pair_parts :
    (requirement : Option (Text × Text))
    → IsPair requirement
    → IsRequirement
        (elim requirement [ none ↦ none | some (o, v) ↦ some o ])
        (elim requirement [ none ↦ none | some (o, v) ↦ some v ])
pair_parts none h = tt
pair_parts (some (o, v)) h = h

finish-Relation :
    (requirement : Option (Text × Text)) (name : Text) (arch : Option Text) (s : Text)
    → IsName name
    → IsArch arch
    → IsPair requirement
    → IfSome IsRelation (finish requirement name arch s)
unfolding finish
finish-Relation requirement name arch s h k l = elim (Option-cases (skip_architectures s)) [
  | inl missing ↦ rw (missing, finish) tt
  | inr (rest, e) ↦
      rw (e, finish)
        (IfSome-if IsRelation (only_profiles false rest) _ none
          (λ _. (h, k, pair_parts requirement l)) (λ _. tt))
]

parse_relation-Relation : (text : Text) → IfSome IsRelation (parse_relation text)
unfolding parse_relation
parse_relation-Relation text = elim (Option-cases (parse_name text)) [
  | inl missing ↦ rw (missing, parse_relation) tt
  | inr ((name, s), e) ↦ elim (Option-cases (parse_arch s)) [
    | inl missing ↦ rw (e, parse_relation) (rw missing tt)
    | inr ((arch, s'), e') ↦ elim (Option-cases (parse_requirement s')) [
      | inl missing ↦ rw (e, parse_relation) (rw e' (rw missing tt))
      | inr ((requirement, s''), e'') ↦
          rw (e, parse_relation)
            (rw e' (
              rw e'' (
                finish-Relation requirement name arch s''
                  (subst (IfSome (λ (x : Text × Text). IsName x.0)) e (parse_name-Name text))
                  (subst (IfSome (λ (x : Option Text × Text). IsArch x.0)) e' (parse_arch-Arch s))
                  (subst (IfSome (λ (x : Option (Text × Text) × Text). IsPair x.0)) e''
                    (parse_requirement-Pair s')))))
    ]
  ]
]

-- A relation that is parsed has a name, an architecture and a requirement as the pattern allows
-- them, so an operator always has a version; and it is parsed again from the text that it is written
-- as.
pub parse_relation-IsRelation :
    (text : Text) {r : Relation}
    → parse_relation text ≡ some r
    → IsRelation r × (parse_relation (relation_text r) ≡ some r)
parse_relation-IsRelation text {r} e =
    let h : IsRelation r = subst (IfSome IsRelation) e (parse_relation-Relation text) in
    (h, parse_relation-relation_text r h)
