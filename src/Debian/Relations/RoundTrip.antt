-- ===== src/Debian/Relations/RoundTrip.antt =====
-- Parsed relations are written and parsed again: `parse_relations` and `Relation.__str__` of
-- mkosi/debian/generate_lock.py.
use rules_mkosi.Prelude.{
  ℕ, ◌==◌, ◌≡◌, refl, ap, ◌∙◌, inl, inr, true, [], ◌∷◌, ◌++◌, Option, none, some, arith, Elem,
}
use rules_mkosi.Prelude.Text.{
  Text, codes, is_digit, is_space, starts_with, strip_left, every, one_of,
}
use rules_mkosi.Debian.Package.{Relation}
use rules_mkosi.Debian.Relations.{
  is_lower, is_name_start, is_name, is_arch, is_version, parse_name, parse_arch, operators,
  first_operator, parse_requirement, skip_architectures, only_profiles, finish, parse_relation,
  arch_text, requirement_text, relation_text,
}
use rules_mkosi.Debian.Relations.Forms.{
  IsRequirement, IsRelation, Stops, parse_name_text, parse_arch_text, version_text, operator_of,
  first_found, first_skip,
}

-- The operators before that do not match, and the rest that matches.
written_operator : Text → ℕ → Text → Text
written_operator operator c version = operator ++ (b' ' ∷ ((c ∷ version) ++ codes ")"))

first_operator_text :
    (operator : Text) (c : ℕ) (version : Text)
    → Elem operator operators
    → every is_version (c ∷ version) ≡ true
    → first_operator operators (written_operator operator c version)
      ≡ some (operator, c ∷ version, [])
unfolding written_operator starts_with
first_operator_text operator c version (inl e) h = rw e (
    first_found (codes "<<") _ _
      (operator_of (codes "<<") _ c version refl (version_text c version h)))
first_operator_text operator c version (inr (inl e)) h = rw e (
    first_skip (codes "<<") _ _ refl
    ∙ first_found (codes "<=") _ _
        (operator_of (codes "<=") _ c version refl (version_text c version h)))
first_operator_text operator c version (inr (inr (inl e))) h = rw e (
    first_skip (codes "<<") _ _ refl
    ∙ first_skip (codes "<=") _ _ refl
    ∙ first_found (codes "=") _ _
        (operator_of (codes "=") _ c version refl (version_text c version h)))
first_operator_text operator c version (inr (inr (inr (inl e)))) h = rw e (
    first_skip (codes "<<") _ _ refl
    ∙ first_skip (codes "<=") _ _ refl
    ∙ first_skip (codes "=") _ _ refl
    ∙ first_found (codes ">=") _ _
        (operator_of (codes ">=") _ c version refl (version_text c version h)))
first_operator_text operator c version (inr (inr (inr (inr (inl e))))) h = rw e (
    first_skip (codes "<<") _ _ refl
    ∙ first_skip (codes "<=") _ _ refl
    ∙ first_skip (codes "=") _ _ refl
    ∙ first_skip (codes ">=") _ _ refl
    ∙ first_found (codes ">>") _ _
        (operator_of (codes ">>") _ c version refl (version_text c version h)))
first_operator_text operator c version (inr (inr (inr (inr (inr (inl e)))))) h = rw e (
    first_skip (codes "<<") _ _ refl
    ∙ first_skip (codes "<=") _ _ refl
    ∙ first_skip (codes "=") _ _ refl
    ∙ first_skip (codes ">=") _ _ refl
    ∙ first_skip (codes ">>") _ _ refl
    ∙ first_found (codes "<") _ _
        (operator_of (codes "<") _ c version refl (version_text c version h)))
first_operator_text operator c version (inr (inr (inr (inr (inr (inr (inl e))))))) h = rw e (
    first_skip (codes "<<") _ _ refl
    ∙ first_skip (codes "<=") _ _ refl
    ∙ first_skip (codes "=") _ _ refl
    ∙ first_skip (codes ">=") _ _ refl
    ∙ first_skip (codes ">>") _ _ refl
    ∙ first_skip (codes "<") _ _ refl
    ∙ first_found (codes ">") _ _
        (operator_of (codes ">") _ c version refl (version_text c version h)))
first_operator_text operator c version (inr (inr (inr (inr (inr (inr (inr m))))))) h = absurd m

operator_start :
    (operator s : Text) → Elem operator operators → strip_left (operator ++ s) ≡ operator ++ s
unfolding strip_left is_space
operator_start operator s (inl e) = rw e
operator_start operator s (inr (inl e)) = rw e
operator_start operator s (inr (inr (inl e))) = rw e
operator_start operator s (inr (inr (inr (inl e)))) = rw e
operator_start operator s (inr (inr (inr (inr (inl e))))) = rw e
operator_start operator s (inr (inr (inr (inr (inr (inl e)))))) = rw e
operator_start operator s (inr (inr (inr (inr (inr (inr (inl e))))))) = rw e
operator_start operator s (inr (inr (inr (inr (inr (inr (inr m))))))) = absurd m

empty_operator : Elem [] operators → ⊥
empty_operator m = ground arith

requirement_found :
    (found : Option (Text × Text × Text)) (operator version : Text)
    → found ≡ some (operator, version, [])
    → ◌≡◌ {A = Option (Option (Text × Text) × Text)}
        (elim found [ none ↦ none | some (o, v, after) ↦ some (some (o, v), after) ])
        (some (some (operator, version), []))
requirement_found found operator version e =
    ap
      (λ (m : Option (Text × Text × Text)). elim m as (λ m. Option (Option (Text × Text) × Text)) [
        | none ↦ none
        | some (o, v, after) ↦ some (some (o, v), after)
      ])
      e

requirement_of :
    (t operator version : Text)
    → strip_left t ≡ t
    → first_operator operators t ≡ some (operator, version, [])
    → parse_requirement (codes " (" ++ t) ≡ some (some (operator, version), [])
unfolding parse_requirement
requirement_of t operator version e e' =
    requirement_found (first_operator operators (strip_left t)) operator version
      (ap (first_operator operators) e ∙ e')

-- The operator and the version of a written requirement.
abbrev pair_of : Option Text → Option Text → Option (Text × Text)
pair_of (some operator) (some version) = some (operator, version)
pair_of (some operator) none = none
pair_of none version = none

parse_requirement_text :
    (operator version : Option Text)
    → IsRequirement operator version
    → parse_requirement (requirement_text operator version) ≡ some (pair_of operator version, [])
unfolding parse_requirement requirement_text strip_left written_operator
parse_requirement_text none none h = refl
parse_requirement_text none (some v) h = absurd h
parse_requirement_text (some o) none h = absurd h
parse_requirement_text (some o) (some []) h = absurd h
parse_requirement_text (some []) (some (c ∷ s)) (m, k) = absurd (empty_operator m)
parse_requirement_text (some (d ∷ o)) (some (c ∷ s)) (m, k) =
    requirement_of (written_operator (d ∷ o) c s) (d ∷ o) (c ∷ s)
      (operator_start (d ∷ o) (b' ' ∷ ((c ∷ s) ++ codes ")")) m)
      (first_operator_text (d ∷ o) c s m k)

-- What follows a name, and an architecture.
arch_text-Stops :
    (arch operator version : Option Text)
    → Stops is_name (arch_text arch ++ requirement_text operator version)
unfolding arch_text requirement_text Stops is_name is_name_start is_lower is_digit one_of
arch_text-Stops none none version = tt
arch_text-Stops none (some []) version = tt
arch_text-Stops none (some (c ∷ s)) none = refl
arch_text-Stops none (some (c ∷ s)) (some v) = refl
arch_text-Stops (some []) none version = tt
arch_text-Stops (some []) (some []) version = tt
arch_text-Stops (some []) (some (c ∷ s)) none = refl
arch_text-Stops (some []) (some (c ∷ s)) (some v) = refl
arch_text-Stops (some (c ∷ s)) operator version = refl

requirement_text-Stops :
    (operator version : Option Text)
    → Stops (λ c. c == b':') (requirement_text operator version)
      × Stops is_arch (requirement_text operator version)
unfolding requirement_text Stops is_arch is_name_start is_lower is_digit
requirement_text-Stops none version = (tt, tt)
requirement_text-Stops (some []) version = (tt, tt)
requirement_text-Stops (some (c ∷ s)) none = (refl, refl)
requirement_text-Stops (some (c ∷ s)) (some v) = (refl, refl)

finish_text :
    (name : Text) (arch operator version : Option Text)
    → IsRequirement operator version
    → finish (pair_of operator version) name arch []
      ≡ some (record { name = name; arch = arch; operator = operator; version = version })
unfolding finish skip_architectures strip_left only_profiles
finish_text name arch none none h = refl
finish_text name arch none (some v) h = absurd h
finish_text name arch (some o) none h = absurd h
finish_text name arch (some o) (some v) h = refl

parsed :
    (text name s s' s'' : Text) (arch : Option Text) (requirement : Option (Text × Text))
    → parse_name text ≡ some (name, s)
    → parse_arch s ≡ some (arch, s')
    → parse_requirement s' ≡ some (requirement, s'')
    → parse_relation text ≡ finish requirement name arch s''
unfolding parse_relation
parsed text name s s' s'' arch requirement e e' e'' = rw (e, parse_relation) (rw e' (rw e''))

pub parse_relation-relation_text :
    (r : Relation) → IsRelation r → parse_relation (relation_text r) ≡ some r
unfolding relation_text
parse_relation-relation_text r (name, arch, requirement) =
    let text = requirement_text r.operator r.version in
    let (colon, stops) = requirement_text-Stops r.operator r.version in
    parsed (relation_text r) r.name (arch_text r.arch ++ text) text [] r.arch
      (pair_of r.operator r.version)
      (parse_name_text r.name (arch_text r.arch ++ text) name
        (arch_text-Stops r.arch r.operator r.version))
      (parse_arch_text r.arch text arch colon stops)
      (parse_requirement_text r.operator r.version requirement)
    ∙ finish_text r.name r.arch r.operator r.version requirement
