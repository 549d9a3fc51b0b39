-- ===== src/Debian/Generate/Sorted.antt =====
-- Python's `sorted` with a key, as mkosi/debian/generate_lock.py calls it.
use rules_mkosi.Prelude.{
  ◌≡◌, refl, inl, inr, true, false, List, [], ◌∷◌, map, arith, Elem, Bool-cases,
}
use rules_mkosi.Prelude.Text.{Text, text_lt}
use rules_mkosi.Debian.Generate.{insert_by, sort_by}

-- No text is greater than the next one.
abbrev pub IsAscending : List Text → Type 0
IsAscending [] = Unit
IsAscending (x ∷ []) = Unit
IsAscending (x ∷ y ∷ ys) = (text_lt y x ≡ false) × IsAscending (y ∷ ys)

pub text_lt_asym : (s t : Text) → text_lt s t ≡ true → text_lt t s ≡ false
unfolding text_lt
text_lt_asym [] [] h = refl
text_lt_asym [] (b ∷ t) h = refl
text_lt_asym (a ∷ s) [] h = cc
text_lt_asym (a ∷ s) (b ∷ t) h = ground (arith, text_lt_asym s t)

module _ {A : Type 0} (key : A → Text) where
  insert_by-Elem :
      (x y : A) (xs : List A)
      → (Elem y (x ∷ xs) → Elem y (insert_by key x xs))
        × (Elem y (insert_by key x xs) → Elem y (x ∷ xs))
  unfolding insert_by
  insert_by-Elem x y [] = ((λ m. m), (λ m. m))
  insert_by-Elem x y (z ∷ zs) =
      let (to, from) = insert_by-Elem x y zs in
      elim (Bool-cases (text_lt (key z) (key x))) [
        | inr stop ↦ rw stop ((λ m. m), (λ m. m))
        | inl go ↦ rw go (
          (λ m. elim m [
            | inl e ↦ inr (to (inl e))
            | inr (inl e) ↦ inl e
            | inr (inr k) ↦ inr (to (inr k))
          ]),
          (λ m. elim m [
            | inl e ↦ inr (inl e)
            | inr k ↦ elim (from k) [ inl e ↦ inl e | inr r ↦ inr (inr r) ]
          ]),
        )
      ]

  -- A sorted list has the members of the list.
  pub sort_by-Elem :
      (y : A) (xs : List A)
      → (Elem y xs → Elem y (sort_by key xs)) × (Elem y (sort_by key xs) → Elem y xs)
  unfolding sort_by
  sort_by-Elem y [] = ((λ m. m), (λ m. m))
  sort_by-Elem y (x ∷ xs) =
      let (to, from) = sort_by-Elem y xs in
      let (in_to, in_from) = insert_by-Elem x y (sort_by key xs) in
      (
        (λ m. in_to (elim m [ inl e ↦ inl e | inr k ↦ inr (to k) ])),
        (λ m. elim (in_from m) [ inl e ↦ inl e | inr k ↦ inr (from k) ]),
      )

  insert_by-IsAscending :
      (x : A) (xs : List A) → IsAscending (map key xs) → IsAscending (map key (insert_by key x xs))
  unfolding insert_by
  insert_by-IsAscending x [] h = tt
  insert_by-IsAscending x (y ∷ []) h = elim (Bool-cases (text_lt (key y) (key x))) [
    | inr stop ↦ rw stop (stop, tt)
    | inl go ↦ rw go (text_lt_asym (key y) (key x) go, tt)
  ]
  insert_by-IsAscending x (y ∷ z ∷ zs) (a, h) =
      let rest = insert_by-IsAscending x (z ∷ zs) h in
      elim (Bool-cases (text_lt (key y) (key x))) [
        | inr stop ↦ rw stop (stop, (a, h))
        | inl go ↦ elim (Bool-cases (text_lt (key z) (key x))) [
          | inr here ↦ rw (go, here) (text_lt_asym (key y) (key x) go, (here, h))
          | inl later ↦
              let rest' : IsAscending (key z ∷ map key (insert_by key x zs)) =
                rw (insert_by, later) at rest in
              rw (go, later) (a, rest')
        ]
      ]

  -- A sorted list has ascending keys.
  pub sort_by-IsAscending : (xs : List A) → IsAscending (map key (sort_by key xs))
  unfolding sort_by
  sort_by-IsAscending [] = tt
  sort_by-IsAscending (x ∷ xs) = insert_by-IsAscending x (sort_by key xs) (sort_by-IsAscending xs)
