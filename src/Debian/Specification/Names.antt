-- ===== src/Debian/Specification/Names.antt =====
-- The names of a specification, sorted or without repetitions, in `load_specification` of mkosi/debian/generate_lock.py.
use rules_mkosi.Prelude.{
  ◌≡◌, refl, inl, inr, true, false, &&-eq-true, List, [], ◌∷◌, arith, All, Elem, Bool-cases,
}
use rules_mkosi.Prelude.Distinct.{Unrepeated}
use rules_mkosi.Prelude.Text.{Text, codes, text_eq, text_eq_iff, text_lt, contains}
use rules_mkosi.Debian.Closure.{insert_name}
use rules_mkosi.Debian.Specification.{
  is_suite_name, all_suite_names, distinct_names, other_components,
}

-- Each text is less than the next one.
abbrev pub IsIncreasing : List Text → Type 0
IsIncreasing [] = Unit
IsIncreasing (x ∷ []) = Unit
IsIncreasing (x ∷ y ∷ ys) = (text_lt x y ≡ true) × IsIncreasing (y ∷ ys)

text_lt_total : (s t : Text) → text_eq s t ≡ false → text_lt s t ≡ false → text_lt t s ≡ true
unfolding text_eq text_lt
text_lt_total [] [] h k = cc
text_lt_total [] (b ∷ t) h k = cc
text_lt_total (a ∷ s) [] h k = refl
text_lt_total (a ∷ s) (b ∷ t) h k = ground (arith, text_lt_total s t)

insert_name-IsIncreasing :
    (n : Text) (ms : List Text) → IsIncreasing ms → IsIncreasing (insert_name n ms)
unfolding insert_name
insert_name-IsIncreasing n [] h = tt
insert_name-IsIncreasing n (m ∷ []) h = elim (Bool-cases (text_eq n m)) [
  | inl same ↦ rw same tt
  | inr differ ↦ elim (Bool-cases (text_lt n m)) [
    | inl before ↦ rw (differ, before) (before, tt)
    | inr after ↦ rw (differ, after) (text_lt_total n m differ after, tt)
  ]
]
insert_name-IsIncreasing n (m ∷ i ∷ is) (a, h) =
    let rest = insert_name-IsIncreasing n (i ∷ is) h in
    elim (Bool-cases (text_eq n m)) [
      | inl same ↦ rw same (a, h)
      | inr differ ↦ elim (Bool-cases (text_lt n m)) [
        | inl before ↦ rw (differ, before) (before, (a, h))
        | inr after ↦ elim (Bool-cases (text_eq n i)) [
          | inl same ↦ rw (differ, after, same) (a, h)
          | inr differ' ↦ elim (Bool-cases (text_lt n i)) [
            | inl before ↦
                rw (differ, after, differ', before) (text_lt_total n m differ after, (before, h))
            | inr after' ↦
                let rest' : IsIncreasing (i ∷ insert_name n is) =
                  rw (insert_name, differ', after') at rest in
                rw (differ, after, differ', after') (a, rest')
          ]
        ]
      ]
    ]

insert_name-All :
    (P : Text → Type 0) (n : Text) (ms : List Text) → P n → All P ms → All P (insert_name n ms)
unfolding insert_name
insert_name-All P n [] p h = (p, tt)
insert_name-All P n (m ∷ ms) p h = elim (Bool-cases (text_eq n m)) [
  | inl same ↦ rw same h
  | inr differ ↦ elim (Bool-cases (text_lt n m)) [
    | inl before ↦ rw (differ, before) (p, h)
    | inr after ↦ rw (differ, after) (h.0, insert_name-All P n ms p h.1)
  ]
]

-- A component that is not "main".
abbrev pub IsOther : Text → Type 0
IsOther name = (is_suite_name name ≡ true) × (text_eq name (codes "main") ≡ false)

pub other_components_lem :
    (names : List Text)
    → all_suite_names names ≡ true
    → IsIncreasing (other_components names) × All IsOther (other_components names)
unfolding all_suite_names other_components
other_components_lem [] h = (tt, tt)
other_components_lem (name ∷ names) h =
    let (good, rest) = &&-eq-true (is_suite_name name) (all_suite_names names) h in
    let (increasing, others) = other_components_lem names rest in
    elim (Bool-cases (text_eq name (codes "main"))) [
      | inl main ↦ rw main (increasing, others)
      | inr other ↦ rw other (
        insert_name-IsIncreasing name (other_components names) increasing,
        insert_name-All IsOther name (other_components names) (good, other) others,
      )
    ]

unseen :
    (P : Text → Type 0) (name : Text) (seen ns : List Text)
    → All (λ n. P n × (contains n (name ∷ seen) ≡ false)) ns
    → All (λ n. P n × (contains n seen ≡ false)) ns
unfolding contains
unseen P name seen [] h = tt
unseen P name seen (n ∷ ns) ((p, new), h) = ((p, ground arith), unseen P name seen ns h)

absent :
    (P : Text → Type 0) (name : Text) (seen ns : List Text)
    → All (λ n. P n × (contains n (name ∷ seen) ≡ false)) ns
    → Elem name ns
    → ⊥
unfolding contains
absent P name seen [] h m = m
absent P name seen (n ∷ ns) ((p, new), h) (inl e) = ground (arith, text_eq_iff n name)
absent P name seen (n ∷ ns) ((p, new), h) (inr m) = absent P name seen ns h m

-- The names that are kept differ from each other and from those that were seen.
pub distinct_names_lem :
    (P : Text → Type 0) (seen names : List Text)
    → All P names
    → All (λ n. P n × (contains n seen ≡ false)) (distinct_names seen names)
      × Unrepeated (distinct_names seen names)
unfolding distinct_names
distinct_names_lem P seen [] h = (tt, tt)
distinct_names_lem P seen (name ∷ names) (p, h) = elim (Bool-cases (contains name seen)) [
  | inl old ↦ rw old (distinct_names_lem P seen names h)
  | inr new ↦
      let (fresh, distinct) = distinct_names_lem P (name ∷ seen) names h in
      rw new (
        ((p, new), unseen P name seen (distinct_names (name ∷ seen) names) fresh),
        (λ m. absent P name seen (distinct_names (name ∷ seen) names) fresh m, distinct),
      )
]
