-- ===== src/Debian/Specification/Normal.antt =====
-- What a specification leaves out of its input: `load_specification` of
-- mkosi/debian/generate_lock.py, which sorts the components and drops repeated packages.
use rules_mkosi.Prelude.{
  ◌≡◌, refl, sym, ◌∙◌, ap, subst, inl, inr, ◌⊎◌, ◌↔◌, true, false, List, [], ◌∷◌, ◌++◌, arith, Elem,
  Bool-cases,
}
use rules_mkosi.Prelude.Text.{Text, codes, text_eq, text_eq_iff, text_lt, contains}
use rules_mkosi.Debian.Closure.{insert_name}
use rules_mkosi.Debian.Generate.Locked.{contains-Elem}
use rules_mkosi.Debian.Generate.Sorted.{text_lt_asym}
use rules_mkosi.Debian.Specification.{all_suite_names, distinct_names, other_components}
use rules_mkosi.Debian.Specification.Names.{IsIncreasing, other_components_lem}

text_lt_irrefl : (s : Text) → text_lt s s ≡ false
unfolding text_lt
text_lt_irrefl [] = refl
text_lt_irrefl (a ∷ s) = ground (arith, text_lt_irrefl s)

text_lt_trans : (s t u : Text) → text_lt s t ≡ true → text_lt t u ≡ true → text_lt s u ≡ true
unfolding text_lt
text_lt_trans [] [] u h k = cc
text_lt_trans [] (b ∷ t) [] h k = cc
text_lt_trans [] (b ∷ t) (c ∷ u) h k = refl
text_lt_trans (a ∷ s) [] u h k = cc
text_lt_trans (a ∷ s) (b ∷ t) [] h k = cc
text_lt_trans (a ∷ s) (b ∷ t) (c ∷ u) h k = ground (arith, text_lt_trans s t u)

-- The first of the names is less than every other one.
head_less :
    (x : Text) (xs : List Text)
    → IsIncreasing (x ∷ xs)
    → (y : Text) → Elem y xs
    → text_lt x y ≡ true
head_less x [] h y m = absurd m
head_less x (z ∷ zs) (a, h) y (inl e) = subst (λ t. text_lt x t ≡ true) (sym e) a
head_less x (z ∷ zs) (a, h) y (inr m) = text_lt_trans x z y a (head_less z zs h y m)

tail_IsIncreasing : (x : Text) (xs : List Text) → IsIncreasing (x ∷ xs) → IsIncreasing xs
tail_IsIncreasing x [] h = tt
tail_IsIncreasing x (y ∷ ys) (a, h) = h

-- The names of one list are those of the other.
abbrev pub SameNames : List Text → List Text → Type 0
SameNames xs ys = (name : Text) → Elem name xs ↔ Elem name ys

same_head :
    (x y : Text) (xs ys : List Text)
    → IsIncreasing (x ∷ xs)
    → IsIncreasing (y ∷ ys)
    → SameNames (x ∷ xs) (y ∷ ys)
    → x ≡ y
same_head x y xs ys h k same = elim ((same x).0 (inl refl)) [
  | inl e ↦ e
  | inr m ↦ elim ((same y).1 (inl refl)) [
    | inl e ↦ sym e
    | inr n ↦
        let less = head_less y ys k x m in let more = text_lt_asym x y (head_less x xs h y n) in cc
  ]
]

in_tail :
    (x y z : Text) (xs ys : List Text)
    → IsIncreasing (x ∷ xs)
    → x ≡ y
    → (Elem z (x ∷ xs) → Elem z (y ∷ ys))
    → Elem z xs
    → Elem z ys
in_tail x y z xs ys h same to m = elim (to (inr m)) [
  | inr n ↦ n
  | inl e ↦ absurd (
      let less = subst (λ t. text_lt x t ≡ true) (e ∙ sym same) (head_less x xs h z m) in
      let never = text_lt_irrefl x in cc)
]

increasing_unique :
    (xs ys : List Text) → IsIncreasing xs → IsIncreasing ys → SameNames xs ys → xs ≡ ys
increasing_unique [] [] h k same = refl
increasing_unique [] (y ∷ ys) h k same = absurd ((same y).1 (inl refl))
increasing_unique (x ∷ xs) [] h k same = absurd ((same x).0 (inl refl))
increasing_unique (x ∷ xs) (y ∷ ys) h k same =
    let equal = same_head x y xs ys h k same in
    let rest = increasing_unique xs ys (tail_IsIncreasing x xs h) (tail_IsIncreasing y ys k) (λ z.
      (in_tail x y z xs ys h equal (same z).0, in_tail y x z ys xs k (sym equal) (same z).1)) in
    ap (λ t. t ∷ xs) equal ∙ ap (λ ts. y ∷ ts) rest

insert_name_iff : (n k : Text) (ms : List Text) → Elem k (insert_name n ms) ↔ ((k ≡ n) ⊎ Elem k ms)
unfolding insert_name
insert_name_iff n k [] = ((λ m. m), (λ m. m))
insert_name_iff n k (m ∷ ms) = elim (Bool-cases (text_eq n m)) [
  | inl same ↦
      let e = (text_eq_iff n m).0 same in
      rw same ((λ i. inr i), (λ i. elim i [ inl a ↦ inl (a ∙ e) | inr b ↦ b ]))
  | inr differ ↦ elim (Bool-cases (text_lt n m)) [
    | inl before ↦ rw (differ, before) ((λ i. i), (λ i. i))
    | inr after ↦
        let (to, from) = insert_name_iff n k ms in
        rw (differ, after)
          (
            (λ i. elim i [
              | inl a ↦ inr (inl a)
              | inr b ↦ elim (to b) [ inl c ↦ inl c | inr d ↦ inr (inr d) ]
            ]),
            (λ i. elim i [
              | inl a ↦ inr (from (inl a))
              | inr (inl b) ↦ inl b
              | inr (inr c) ↦ inr (from (inr c))
            ]),
          )
  ]
]

abbrev IsNotMain : Text → Type 0
IsNotMain name = text_eq name (codes "main") ≡ false

other_components_iff :
    (k : Text) (names : List Text) → Elem k (other_components names) ↔ (Elem k names × IsNotMain k)
unfolding other_components
other_components_iff k [] = ((λ m. absurd m), (λ x. absurd x.0))
other_components_iff k (n ∷ names) =
    let (to, from) = other_components_iff k names in
    elim (Bool-cases (text_eq n (codes "main"))) [
      | inl main ↦ rw main (
        (λ m. let (a, b) = to m in (inr a, b)),
        (λ x. elim x.0 [
          | inr a ↦ from (a, x.1)
          | inl e ↦ absurd (
              let e' = subst (λ t. text_eq t (codes "main") ≡ true) (sym e) main in
              let f = x.1 in cc)
        ]),
      )
      | inr other ↦
          let (in_to, in_from) = insert_name_iff n k (other_components names) in
          rw other (
            (λ m. elim (in_to m) [
              | inl e ↦ (inl e, subst IsNotMain (sym e) other)
              | inr r ↦ let (a, b) = to r in (inr a, b)
            ]),
            (λ x. elim x.0 [ inl e ↦ in_from (inl e) | inr a ↦ in_from (inr (from (a, x.1))) ]),
          )
    ]

-- A name that was seen, or stands before, is dropped.
distinct_names-append :
    (seen names more : List Text) (n : Text)
    → (contains n seen ≡ true) ⊎ Elem n names
    → distinct_names seen (names ++ n ∷ more) ≡ distinct_names seen (names ++ more)
unfolding distinct_names contains
distinct_names-append seen [] more n (inl old) = rw old
distinct_names-append seen [] more n (inr m) = absurd m
distinct_names-append seen (k ∷ names) more n h = elim (Bool-cases (contains k seen)) [
  | inl old ↦ rw old (
      distinct_names-append seen names more n (elim h [
        | inl a ↦ inl a
        | inr (inl e) ↦ inl (subst (λ t. contains t seen ≡ true) (sym e) old)
        | inr (inr m) ↦ inr m
      ]))
  | inr new ↦ rw new (
      ap (λ ns. k ∷ ns)
        (distinct_names-append (k ∷ seen) names more n (elim h [
          | inl a ↦ inl (ground arith)
          | inr (inl e) ↦ inl (contains-Elem n (k ∷ seen) (inl e))
          | inr (inr m) ↦ inr m
        ])))
]

-- Two lists of valid components with the same names, in any order, are normalized to the same list,
-- and a package that is requested again, at any later place, is dropped.
pub normalized_same :
    (xs ys names more : List Text) (n : Text)
    → all_suite_names xs ≡ true
    → all_suite_names ys ≡ true
    → SameNames xs ys
    → Elem n names
    → (other_components xs ≡ other_components ys)
      × (distinct_names [] (names ++ n ∷ more) ≡ distinct_names [] (names ++ more))
normalized_same xs ys names more n h k same m = (
  increasing_unique (other_components xs) (other_components ys) (other_components_lem xs h).0
      (other_components_lem ys k).0
      (λ z.
        let (a, b) = other_components_iff z xs in
        let (c, d) = other_components_iff z ys in
        (
          (λ i. let (e, f) = a i in d ((same z).0 e, f)),
          (λ i. let (e, f) = c i in b ((same z).1 e, f)),
        )),
  distinct_names-append [] names more n (inr m),
)
