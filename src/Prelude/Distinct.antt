-- ===== src/Prelude/Distinct.antt =====
-- Lists without repetition.
use Prim.Native.Nat.{suc, ◌≤◌}
use mathlib.Core.Path.{◌≡◌, refl, sym, ap, ◌∙◌}
use mathlib.Core.Logic.{◌⊎◌, inl, inr}
use mathlib.Core.List.{List, [], ◌∷◌, ◌++◌}
use native.Mathlib.Omega.{arith}
use rules_mkosi.Prelude.Lists.{length}
use rules_mkosi.Prelude.Logic.{All, Elem, Elem-append}

module _ {A : Type 0} where
  abbrev pub Unrepeated : List A → Type 0
  Unrepeated [] = Unit
  Unrepeated (x ∷ xs) = (Elem x xs → ⊥) × Unrepeated xs

  pub Unrepeated-append :
      (xs : List A) (y : A) → Unrepeated xs → (Elem y xs → ⊥) → Unrepeated (xs ++ y ∷ [])
  Unrepeated-append [] y h n = ((λ m. m), tt)
  Unrepeated-append (x ∷ xs) y (a, h) n = (
    λ m. elim (Elem-append x xs (y ∷ []) m) [
      | inl l ↦ a l
      | inr (inl e) ↦ n (inl (sym e))
      | inr (inr r) ↦ r
    ],
    Unrepeated-append xs y h (λ m. n (inr m)),
  )

  -- A list without one of its members.
  without :
      (x : A) (ys : List A)
      → Elem x ys
      → (zs : List A) × (length ys ≡ suc (length zs)) × ((y : A) → Elem y ys → (y ≡ x) ⊎ Elem y zs)
  without x [] m = absurd m
  without x (y ∷ ys) (inl e) = (ys, refl, λ z m. elim m [ inl s ↦ inl (s ∙ sym e) | inr r ↦ inr r ])
  without x (y ∷ ys) (inr m) =
      let (zs, shorter, others) = without x ys m in
      (
        y ∷ zs,
        ap suc shorter,
        λ z k. elim k [
          | inl s ↦ inr (inl s)
          | inr r ↦ elim (others z r) [ inl same ↦ inl same | inr l ↦ inr (inr l) ]
        ],
      )

  other_members :
      (x : A) (xs zs ys : List A)
      → (Elem x xs → ⊥)
      → ((y : A) → Elem y ys → (y ≡ x) ⊎ Elem y zs)
      → All (λ y. Elem y ys) xs
      → All (λ y. Elem y zs) xs
  other_members x [] zs ys n h k = tt
  other_members x (y ∷ xs) zs ys n h (m, k) = (
    elim (h y m) [ inl same ↦ absurd (n (inl (sym same))) | inr l ↦ l ],
    other_members x xs zs ys (λ m'. n (inr m')) h k,
  )

  pub length-Unrepeated :
      (xs ys : List A) → Unrepeated xs → All (λ x. Elem x ys) xs → length xs ≤ length ys
  length-Unrepeated [] ys h k = omega arith
  length-Unrepeated (x ∷ xs) ys (a, h) (m, k) =
      let (zs, shorter, others) = without x ys m in
      omega (arith, shorter, length-Unrepeated xs zs h (other_members x xs zs ys a others k))
