-- ===== src/Debian/Relations/Forms.antt =====
-- The texts of the parts of a relation, and what the pattern of mkosi/debian/generate_lock.py does on
-- the first of them: names, architectures and operators.
use rules_mkosi.Prelude.{
  ℕ, ◌==◌, ◌≡◌, refl, ap, inl, inr, Bool, true, false, List, [], ◌∷◌, ◌++◌, Option, none, some,
  length, drop, if◌then◌else◌, arith, Elem, Bool-cases,
}
use rules_mkosi.Prelude.Text.{Text, codes, is_space, starts_with, strip_left, every}
use rules_mkosi.Debian.Package.{Relation}
use rules_mkosi.Debian.Relations.{
  is_name_start, is_name, is_arch, is_version, span, parse_name, parse_arch, close_paren,
  parse_operator, operators, first_operator, arch_text,
}

-- What the pattern allows for the parts of a relation.
abbrev pub IsName : Text → Type 0
IsName [] = ⊥
IsName (c ∷ []) = ⊥
IsName (c ∷ d ∷ s) = (is_name_start c ≡ true) × (every is_name (d ∷ s) ≡ true)

abbrev pub IsArch : Option Text → Type 0
IsArch none = Unit
IsArch (some []) = ⊥
IsArch (some (c ∷ s)) = every is_arch (c ∷ s) ≡ true

abbrev pub IsRequirement : Option Text → Option Text → Type 0
IsRequirement none none = Unit
IsRequirement none (some version) = ⊥
IsRequirement (some operator) none = ⊥
IsRequirement (some operator) (some []) = ⊥
IsRequirement (some operator) (some (c ∷ s)) =
    Elem operator operators × (every is_version (c ∷ s) ≡ true)

abbrev pub IsRelation : Relation → Type 0
IsRelation r = IsName r.name × IsArch r.arch × IsRequirement r.operator r.version

-- The text does not go on with a character of the class.
unfoldable pub Stops : (ℕ → Bool) → Text → Type 0
Stops p [] = Unit
Stops p (c ∷ s) = p c ≡ false

span-append :
    (p : ℕ → Bool) (run rest : Text)
    → every p run ≡ true
    → Stops p rest
    → span p (run ++ rest) ≡ (run, rest)
unfolding span every Stops
span-append p [] [] h k = refl
span-append p [] (c ∷ s) h k = rw k
span-append p (c ∷ run) rest h k = elim (Bool-cases (p c)) [
  | inr other ↦ absurd (ground (arith, other))
  | inl here ↦ rw (here, span-append p run rest (ground (arith, here)) k)
]

pub span-every : (p : ℕ → Bool) (s : Text) → every p (span p s).0 ≡ true
unfolding span every
span-every p [] = refl
span-every p (c ∷ s) = elim (Bool-cases (p c)) [
  | inl here ↦ ground (arith, here, span-every p s)
  | inr other ↦ rw other
]

closes : Stops is_version (codes ")")
unfolding Stops is_version is_space
closes = refl

named :
    (c d : ℕ) (run rest first last : Text)
    → first ≡ d ∷ run
    → last ≡ rest
    → is_name_start c ≡ true
    → ◌≡◌ {A = Option (Text × Text)}
        (elim first [
          | [] ↦ none
          | d' ∷ run' ↦ if is_name_start c then some (c ∷ d' ∷ run', last) else none
        ])
        (some (c ∷ d ∷ run, rest))
named c d run rest first last e e' start = rw (e, e', start)

pub parse_name_text :
    (name rest : Text)
    → IsName name
    → Stops is_name rest
    → parse_name (name ++ rest) ≡ some (name, rest)
unfolding parse_name
parse_name_text [] rest h k = absurd h
parse_name_text (c ∷ []) rest h k = absurd h
parse_name_text (c ∷ d ∷ s) rest (start, h) k =
    let e = span-append is_name (d ∷ s) rest h k in
    named c d s rest _ _ (ap (λ (x : Text × Text). x.0) e) (ap (λ (x : Text × Text). x.1) e) start

arch_found :
    (c : ℕ) (s rest first last : Text)
    → first ≡ c ∷ s
    → last ≡ rest
    → ◌≡◌ {A = Option (Option Text × Text)}
        (elim first [ [] ↦ none | d ∷ run ↦ some (some (d ∷ run), last) ])
        (some (some (c ∷ s), rest))
arch_found c s rest first last e e' = rw (e, e')

pub parse_arch_text :
    (arch : Option Text) (rest : Text)
    → IsArch arch
    → Stops (λ c. c == b':') rest
    → Stops is_arch rest
    → parse_arch (arch_text arch ++ rest) ≡ some (arch, rest)
unfolding parse_arch arch_text Stops
parse_arch_text none [] h k l = refl
parse_arch_text none (c ∷ rest) h k l = rw k
parse_arch_text (some []) rest h k l = absurd h
parse_arch_text (some (c ∷ s)) rest h k l =
    let e = span-append is_arch (c ∷ s) rest h l in
    arch_found c s rest _ _ (ap (λ (x : Text × Text). x.0) e) (ap (λ (x : Text × Text). x.1) e)

not_space : (c : ℕ) (s : Text) → every is_version (c ∷ s) ≡ true → is_space c ≡ false
unfolding every is_version
not_space c s h = ground arith

pub version_text :
    (c : ℕ) (s : Text)
    → every is_version (c ∷ s) ≡ true
    → (span is_version (strip_left (b' ' ∷ ((c ∷ s) ++ codes ")"))) ≡ (c ∷ s, codes ")"))
unfolding strip_left is_version
version_text c s h = rw (not_space c s h) (span-append is_version (c ∷ s) (codes ")") h closes)

operator_ends :
    (operator : Text) (c : ℕ) (version first last : Text)
    → first ≡ c ∷ version
    → last ≡ codes ")"
    → ◌≡◌ {A = Option (Text × Text × Text)}
        (elim first [
          | [] ↦ none
          | d ∷ run ↦ elim (close_paren last) [
            | none ↦ none
            | some rest ↦ some (operator, d ∷ run, rest)
          ]
        ])
        (some (operator, c ∷ version, []))
unfolding close_paren strip_left is_space
operator_ends operator c version first last e e' = rw (e, e')

pub operator_of :
    (operator s : Text) (c : ℕ) (version : Text)
    → starts_with s operator ≡ true
    → span is_version (strip_left (drop (length operator) s)) ≡ (c ∷ version, codes ")")
    → parse_operator operator s ≡ some (operator, c ∷ version, [])
unfolding parse_operator
operator_of operator s c version started e = rw started (
    operator_ends operator c version _ _ (ap (λ (x : Text × Text). x.0) e)
      (ap (λ (x : Text × Text). x.1) e))

pub first_found :
    (operator : Text) (rest : List Text) (s : Text) {x : Text × Text × Text}
    → parse_operator operator s ≡ some x
    → first_operator (operator ∷ rest) s ≡ some x
unfolding first_operator
first_found operator rest s e = rw (e, first_operator)

operator_skipped :
    (operator s : Text) → starts_with s operator ≡ false → parse_operator operator s ≡ none
unfolding parse_operator
operator_skipped operator s e = rw e

pub first_skip :
    (operator : Text) (rest : List Text) (s : Text)
    → starts_with s operator ≡ false
    → first_operator (operator ∷ rest) s ≡ first_operator rest s
unfolding first_operator
first_skip operator rest s e = rw (operator_skipped operator s e, first_operator)
