-- ===== src/Esp/Pigeonhole.antt =====
-- Distinct numbers of a range are at most as many as the range has.
use rules_mkosi.Prelude.{
  ℕ, zero, suc, ◌+◌, ◌≤◌, ◌<◌, ◌≡◌, refl, false, ◌==◌, if◌then◌else◌, List, [], ◌∷◌, length, All,
  Bool-cases, inl, inr, arith,
}
use rules_mkosi.Prelude.Text.{one_of}

abbrev pub Distinct : List ℕ → Type 0
Distinct [] = Unit
Distinct (c ∷ cs) = (one_of c cs ≡ false) × Distinct cs

remove : ℕ → List ℕ → List ℕ
remove n [] = []
remove n (c ∷ cs) = let rest = remove n cs in if c == n then rest else c ∷ rest

remove-absent : (n : ℕ) (cs : List ℕ) → one_of n cs ≡ false → remove n cs ≡ cs
unfolding remove one_of
remove-absent n [] h = refl
remove-absent n (c ∷ cs) h = ground (arith, remove-absent n cs)

length-remove : (n : ℕ) (cs : List ℕ) → Distinct cs → length cs ≤ suc (length (remove n cs))
unfolding remove one_of
length-remove n [] h = omega arith
length-remove n (c ∷ cs) (a, h) = ground (arith, remove-absent n cs, length-remove n cs h)

one_of-remove : (c n : ℕ) (cs : List ℕ) → one_of c cs ≡ false → one_of c (remove n cs) ≡ false
unfolding remove one_of
one_of-remove c n [] h = refl
one_of-remove c n (d ∷ cs) h = ground (arith, one_of-remove c n cs)

remove-Distinct : (n : ℕ) (cs : List ℕ) → Distinct cs → Distinct (remove n cs)
unfolding remove one_of
remove-Distinct n [] h = tt
remove-Distinct n (c ∷ cs) (a, h) = elim (Bool-cases (c == n)) [
  | inl same ↦ rw same (remove-Distinct n cs h)
  | inr differ ↦ rw differ (one_of-remove c n cs a, remove-Distinct n cs h)
]

remove-below :
    (lo n : ℕ) (cs : List ℕ)
    → All (λ c. (lo ≤ c) × (c < lo + suc n)) cs
    → All (λ c. (lo ≤ c) × (c < lo + n)) (remove (lo + n) cs)
unfolding remove
remove-below lo n [] h = tt
remove-below lo n (c ∷ cs) (a, h) = elim (Bool-cases (c == lo + n)) [
  | inl same ↦ rw same (remove-below lo n cs h)
  | inr differ ↦ rw differ ((omega (arith, a.0), ground arith), remove-below lo n cs h)
]

pub pigeonhole :
    (lo n : ℕ) (cs : List ℕ) → Distinct cs → All (λ c. (lo ≤ c) × (c < lo + n)) cs → length cs ≤ n
pigeonhole lo zero [] d h = omega arith
pigeonhole lo zero (c ∷ cs) d h = absurd (omega arith)
pigeonhole lo (suc n) cs d h = omega (
  arith,
  length-remove (lo + n) cs d,
  pigeonhole lo n (remove (lo + n) cs) (remove-Distinct (lo + n) cs d) (remove-below lo n cs h),
)
