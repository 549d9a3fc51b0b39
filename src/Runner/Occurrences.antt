-- ===== src/Runner/Occurrences.antt =====
-- Where `occurrences` of mkosi/private/mkosi_runner/mkosi_options.py finds options and their values.
use rules_mkosi.Prelude.{
  ℕ, zero, suc, ◌+◌, ◌≤◌, ◌<◌, ◌≡◌, refl, sym, subst, ap, ◌∙◌, Bool, List, [], ◌∷◌, ◌++◌, Option,
  none, some, length, get_elem?, arith, inl, inr, Bool-cases, Option-cases,
}
use rules_mkosi.Prelude.Text.{Text, codes, text_eq}
use rules_mkosi.Prelude.Dict.{lookup}
use rules_mkosi.Runner.Options.{
  MkosiOption, Occurrence, Table, parse_option, read_parsed, is_flag_arity, value_follows,
  scan_option, scan, occurrences_from, occurrences,
}
use rules_mkosi.Runner.Attached.{text_of, parse_option-Attached, read_parsed-Attached}

-- An occurrence of a known option: its argument is the prefix and the value.
abbrev pub IsFound : Table → List Text → Occurrence → Type 0
IsFound table arguments o =
    (lookup o.spelling table ≡ some o.option)
    × (get_elem? arguments o.index ≡ some (o.prefix ++ text_of o.value))

-- Occurrences at increasing places from an index on.
abbrev pub Ordered : Table → List Text → ℕ → List Occurrence → Type 0
Ordered table arguments index [] = Unit
Ordered table arguments index (o ∷ os) =
    (index ≤ o.index) × IsFound table arguments o × Ordered table arguments (o.index + 1) os

Ordered-le :
    (table : Table) (arguments : List Text) (i j : ℕ) (os : List Occurrence)
    → i ≤ j
    → Ordered table arguments j os
    → Ordered table arguments i os
Ordered-le table arguments i j [] h k = tt
Ordered-le table arguments i j (o ∷ os) h (k, found, rest) = (omega arith, found, rest)

value_follows_lem :
    (negative : Text → Bool) (table : Table) (m : Option Text) {argument : Text}
    → value_follows negative table m ≡ some argument
    → m ≡ some argument
unfolding value_follows
value_follows_lem negative table none e = cc
value_follows_lem negative table (some a) e = ground arith

scan_option-Ordered :
    (negative : Text → Bool) (table : Table) (arguments : List Text) (o : MkosiOption)
    (spelling prefix : Text) (explicit : Option Text) (index : ℕ) (following : Option Text)
    → lookup spelling table ≡ some o
    → get_elem? arguments index ≡ some (prefix ++ text_of explicit)
    → ((argument : Text)
        → following ≡ some argument
        → get_elem? arguments (index + 1) ≡ some argument)
    → let (next, found) = scan_option negative o spelling prefix explicit index following in
      (index ≤ found.index) × (next ≡ found.index + 1) × IsFound table arguments found
unfolding scan_option
scan_option-Ordered negative table arguments o spelling prefix (some explicit) index following h k
      l =
    (omega arith, refl, (h, k))
scan_option-Ordered negative table arguments o spelling prefix none index none h k l =
    (omega arith, refl, (h, k))
scan_option-Ordered negative table arguments o spelling prefix none index (some argument) h k l =
    elim (Bool-cases (is_flag_arity o.arguments)) [
      | inl flag ↦ rw flag (omega arith, refl, (h, k))
      | inr other ↦ rw other (omega arith, omega arith, (h, l argument refl))
    ]

value_follows-next :
    (negative : Text → Bool) (table : Table) (arguments : List Text) (index : ℕ) (argument : Text)
    → value_follows negative table (get_elem? arguments (index + 1)) ≡ some argument
    → get_elem? arguments (index + 1) ≡ some argument
value_follows-next negative table arguments index argument e =
    value_follows_lem negative table (get_elem? arguments (index + 1)) e

-- What a round of the loop finds, and the rounds after it.
IsRound : Table → List Text → ℕ → ℕ × List Occurrence → Type 0
IsRound table arguments index (next, found) =
    (index < next)
    × ((os : List Occurrence)
        → Ordered table arguments next os
        → Ordered table arguments index (found ++ os))

scan-IsRound :
    (negative : Text → Bool) (table : Table) (arguments : List Text) (index : ℕ) {argument : Text}
    → get_elem? arguments index ≡ some argument
    → IsRound table arguments index (scan negative table arguments index argument)
unfolding IsRound scan
scan-IsRound negative table arguments index {argument} here =
    let attached =
      read_parsed-Attached table argument (parse_option table argument)
        (parse_option-Attached table argument) in
    let nothing : IsRound table arguments index (index + 1, []) =
      (omega arith, λ os k. Ordered-le table arguments index (index + 1) os (omega arith) k) in
    elim (Option-cases (read_parsed table (parse_option table argument))) [
      | inl unknown ↦ rw (unknown, scan) nothing
      | inr ((spelling, prefix, explicit), read) ↦ elim (Option-cases (lookup spelling table)) [
        | inl missing ↦ rw (read, missing, scan) nothing
        | inr (o, known) ↦
            let e = rw read at attached in
            let (after, ends, found) =
              scan_option-Ordered negative table arguments o spelling prefix explicit index
                (value_follows negative table (get_elem? arguments (index + 1))) known
                (here ∙ ap some e) (λ a. value_follows-next negative table arguments index a) in
            rw (read, known, scan)
              (
                omega arith,
                λ os k. (after, found, subst (λ i. Ordered table arguments i os) ends k),
              )
      ]
    ]

occurrences_from-Ordered :
    (negative : Text → Bool) (fuel : ℕ) (table : Table) (arguments : List Text) (index : ℕ)
    → Ordered table arguments index (occurrences_from negative fuel table arguments index)
unfolding occurrences_from IsRound
occurrences_from-Ordered negative zero table arguments index = tt
occurrences_from-Ordered negative (suc fuel) table arguments index =
    elim (Option-cases (get_elem? arguments index)) [
      | inl past ↦ rw (past, Ordered) tt
      | inr (argument, here) ↦ elim (Bool-cases (text_eq argument (codes "--"))) [
        | inl dashes ↦ rw (here, dashes, Ordered) tt
        | inr other ↦
            let (_, found) = scan-IsRound negative table arguments index here in
            rw (here, other, Ordered)
              (found _ (
                occurrences_from-Ordered negative fuel table arguments
                  (scan negative table arguments index argument).0))
      ]
    ]

get_elem?_past :
    (arguments : List Text) (i : ℕ) → length arguments ≤ i → get_elem? arguments i ≡ none
get_elem?_past [] i h = refl
get_elem?_past (a ∷ arguments) zero h = absurd (omega arith)
get_elem?_past (a ∷ arguments) (suc i) h = get_elem?_past arguments i (omega arith)

nothing_past :
    (negative : Text → Bool) (fuel : ℕ) (table : Table) (arguments : List Text) (index : ℕ)
    → length arguments ≤ index
    → occurrences_from negative fuel table arguments index ≡ []
unfolding occurrences_from
nothing_past negative zero table arguments index h = refl
nothing_past negative (suc fuel) table arguments index h =
    rw (get_elem?_past arguments index h, occurrences_from)

-- Enough rounds: more of them find nothing more.
occurrences_from_total :
    (negative : Text → Bool) (fuel fuel' : ℕ) (table : Table) (arguments : List Text) (index : ℕ)
    → length arguments ≤ fuel + index
    → length arguments ≤ fuel' + index
    → occurrences_from negative fuel table arguments index
      ≡ occurrences_from negative fuel' table arguments index
unfolding occurrences_from IsRound
occurrences_from_total negative zero fuel' table arguments index h k =
    sym (nothing_past negative fuel' table arguments index (omega arith))
occurrences_from_total negative (suc fuel) zero table arguments index h k =
    nothing_past negative (suc fuel) table arguments index (omega arith)
occurrences_from_total negative (suc fuel) (suc fuel') table arguments index h k =
    elim (Option-cases (get_elem? arguments index)) [
      | inl past ↦ rw (past, occurrences_from)
      | inr (argument, here) ↦
          let (further, _) = scan-IsRound negative table arguments index here in
          rw (
            here,
            occurrences_from,
            occurrences_from_total negative fuel fuel' table arguments
                (scan negative table arguments index argument).0 (omega arith) (omega arith),
          )
    ]

-- The options are found with their table entries, at increasing places, and the argument at each
-- place is the occurrence's prefix followed by its value. The rounds suffice: more of them find
-- the same.
pub occurrences-Ordered :
    (negative : Text → Bool) (table : Table) (arguments : List Text)
    → Ordered table arguments 0 (occurrences negative table arguments)
      × ((more : ℕ)
          → occurrences_from negative (length arguments + more) table arguments 0
            ≡ occurrences negative table arguments)
unfolding occurrences
occurrences-Ordered negative table arguments = (
  occurrences_from-Ordered negative (length arguments) table arguments 0,
  λ more.
      occurrences_from_total negative (length arguments + more) (length arguments) table arguments 0
        (omega arith) (omega arith),
)
