-- ===== src/Prelude/Errors.antt =====
-- A function that may raise returns an `Outcome`: its result, or the exception as a value.
use mathlib.Core.Path.{◌≡◌, refl, subst}
use rules_mkosi.Prelude.Tests.{if◌then◌else◌}
use mathlib.Core.Bool.{Bool, true, false}
use mathlib.Core.Logic.{◌⊎◌, inl, inr}

pub data Outcome {ℓ} (E : Type 0) (A : Type ℓ) : Type ℓ where
  ok : A → Outcome E A
  err : E → Outcome E A

-- The rest of a `do` block runs only if nothing was raised.
infixl 5 ◌>>=◌ ◌>>◌
abbrev pub ◌>>=◌ {ℓ κ} :
    {E : Type 0} {A : Type ℓ} {B : Type κ} → Outcome E A → (A → Outcome E B) → Outcome E B
err raised >>= rest = err raised
ok x >>= rest = rest x

abbrev pub ◌>>◌ {ℓ} : {E : Type 0} {B : Type ℓ} → Outcome E (Unit {0}) → Outcome E B → Outcome E B
first >> rest = first >>= λ _. rest

-- `if not b: raise e`
abbrev pub guard : {E : Type 0} → Bool → E → Outcome E (Unit {0})
guard passed raised = if passed then ok tt else err raised

pub Outcome-cases {ℓ} :
    {E : Type 0} {A : Type ℓ} (m : Outcome E A) → ((a : A) × (m ≡ ok a)) ⊎ ((e : E) × (m ≡ err e))
Outcome-cases (ok a) = inl (a, refl)
Outcome-cases (err e) = inr (e, refl)

-- A bind that succeeds: its first part did, and so did the rest on that result.
module _ {ℓ κ} {E : Type 0} {A : Type ℓ} {B : Type κ} where
  pub >>=-eq-ok :
      (first : Outcome E A) (rest : A → Outcome E B) {result : B}
      → (first >>= rest) ≡ ok result
      → (x : A) × (first ≡ ok x) × (rest x ≡ ok result)
  >>=-eq-ok (err raised) rest succeeded = cc
  >>=-eq-ok (ok x) rest succeeded = (x, refl, succeeded)

-- A guard that passes, and the rest.
module _ {E : Type 0} where
  pub guard-eq-ok {ℓ} :
      {A : Type ℓ} (b : Bool) (e : E) (rest : Outcome E A) {result : A}
      → (guard b e >> rest) ≡ ok result
      → (b ≡ true) × (rest ≡ ok result)
  guard-eq-ok true e rest h = (refl, h)
  guard-eq-ok false e rest h = cc

  pub guard-true : (b : Bool) (e : E) {u : Unit {0}} → guard b e ≡ ok u → b ≡ true
  guard-true true e h = refl
  guard-true false e h = cc

-- A property of the result, if there is one.
abbrev pub IfOk : {E A : Type 0} → (A → Type 0) → Outcome E A → Type 0
IfOk P (ok a) = P a
IfOk P (err e) = Unit

module _ {E A B : Type 0} where
  pub IfOk-bind :
      (Q : A → Type 0) (P : B → Type 0) (m : Outcome E A) (f : A → Outcome E B)
      → IfOk Q m
      → ((a : A) → Q a → IfOk P (f a))
      → IfOk P (m >>= f)
  IfOk-bind Q P (ok a) f h k = k a h
  IfOk-bind Q P (err e) f h k = tt

module _ {E A : Type 0} where
  pub IfOk-ok : (P : A → Type 0) (m : Outcome E A) {a : A} → m ≡ ok a → IfOk P m → P a
  IfOk-ok P m e h = subst (IfOk P) e h

  pub IfOk-intro : (P : A → Type 0) (m : Outcome E A) → ((a : A) → m ≡ ok a → P a) → IfOk P m
  IfOk-intro P (ok a) h = h a refl
  IfOk-intro P (err e) h = tt

  -- Both branches of a test, each with the test's value.
  pub IfOk-if :
      (P : A → Type 0) (b : Bool) (m n : Outcome E A)
      → (b ≡ true → IfOk P m)
      → (b ≡ false → IfOk P n)
      → IfOk P (if b then m else n)
  IfOk-if P true m n h k = h refl
  IfOk-if P false m n h k = k refl
