-- ===== src/Prelude/Dict.antt =====
-- Python's dictionaries: association lists in insertion order, keyed by texts.
use mathlib.Core.Path.{◌≡◌, refl, sym, ap, subst, subst₂}
use mathlib.Core.Logic.{inl, inr}
use mathlib.Core.Option.{Option, none, some}
use mathlib.Core.List.{List, [], ◌∷◌, ◌++◌}
use native.Mathlib.Omega.{arith}
use rules_mkosi.Prelude.Tests.{if◌then◌else◌, Bool-cases, Option-cases}
use rules_mkosi.Prelude.Logic.{All, All-append, Elem}
use rules_mkosi.Prelude.Distinct.{Unrepeated, Unrepeated-append}
use rules_mkosi.Prelude.Text.{Text, text_eq, text_eq_iff}

abbrev pub Dict {ℓ} : Type ℓ → Type ℓ
Dict V = List (Text × V)

module _ {ℓ} {V : Type ℓ} where
  -- `d.get(k)`
  unfoldable pub lookup : Text → Dict V → Option V
  lookup k [] = none
  lookup k ((j, v) ∷ d) = if text_eq j k then some v else lookup k d

  -- `d[k] = v`: an existing key keeps its place.
  unfoldable pub insert : Text → V → Dict V → Dict V
  insert k v [] = (k, v) ∷ []
  insert k v ((j, w) ∷ d) = if text_eq j k then (j, v) ∷ d else (j, w) ∷ insert k v d

  pub lookup-insert :
      (k j : Text) (v : V) (d : Dict V)
      → lookup j (insert k v d) ≡ (if text_eq k j then some v else lookup j d)
  unfolding lookup insert
  lookup-insert k j v [] = refl
  lookup-insert k j v ((i, w) ∷ d) =
      ground (arith, text_eq_iff k j, text_eq_iff i k, text_eq_iff i j, lookup-insert k j v d)

  -- `d.get(k, v)`
  unfoldable pub lookup_or : V → Text → Dict V → V
  unfolding lookup
  lookup_or v k d = elim (lookup k d) [ none ↦ v | some w ↦ w ]

  pub lookup_or-cons :
      (w : V) (k j : Text) (v : V) (d : Dict V)
      → lookup_or w k ((j, v) ∷ d) ≡ (if text_eq j k then v else lookup_or w k d)
  unfolding lookup_or lookup
  lookup_or-cons w k j v d = ground arith

  -- `d.keys()`, `d.values()`
  unfoldable pub keys : Dict V → List Text
  keys [] = []
  keys ((k, v) ∷ d) = k ∷ keys d

  unfoldable pub values : Dict V → List V
  values [] = []
  values ((k, v) ∷ d) = v ∷ values d

module _ {V : Type 0} where
  -- A property of every key with its value.
  abbrev pub Entries : (Text → V → Type 0) → Dict V → Type 0
  Entries P d = All (λ e. P e.0 e.1) d

  pub Entries-insert :
      (P : Text → V → Type 0) (k : Text) (v : V) (d : Dict V)
      → P k v
      → Entries P d
      → Entries P (insert k v d)
  unfolding insert
  Entries-insert P k v [] p h = (p, tt)
  Entries-insert P k v ((j, w) ∷ d) p h = elim (Bool-cases (text_eq j k)) [
    | inl same ↦ rw same (subst (λ i. P i v) (sym ((text_eq_iff j k).0 same)) p, h.1)
    | inr differ ↦ rw differ (h.0, Entries-insert P k v d p h.1)
  ]

  pub Entries-lookup :
      (P : Text → V → Type 0) (k : Text) (d : Dict V) {v : V}
      → Entries P d
      → lookup k d ≡ some v
      → P k v
  unfolding lookup
  Entries-lookup P k [] h e = cc
  Entries-lookup P k ((j, w) ∷ d) {v} h e = elim (Bool-cases (text_eq j k)) [
    | inl same ↦
        let at_value : w ≡ v = ground arith in subst₂ P ((text_eq_iff j k).0 same) at_value h.0
    | inr differ ↦ Entries-lookup P k d h.1 (ground arith)
  ]

  pub Entries-lookup_or :
      (P : Text → V → Type 0) (k : Text) (w : V) (d : Dict V)
      → P k w
      → Entries P d
      → P k (lookup_or w k d)
  unfolding lookup_or
  Entries-lookup_or P k w d p h = elim (Option-cases (lookup k d)) [
    | inl missing ↦ rw (missing, lookup_or) p
    | inr (v, found) ↦ rw (found, lookup_or) (Entries-lookup P k d h found)
  ]

  pub not_in_keys : (k : Text) (d : Dict V) → lookup k d ≡ none → Elem k (keys d) → ⊥
  unfolding lookup keys
  not_in_keys k [] e m = m
  not_in_keys k ((j, v) ∷ d) e (inl same) =
      let equal = (text_eq_iff j k).1 (sym same) in let e' = rw equal at e in cc
  not_in_keys k ((j, v) ∷ d) e (inr m) = elim (Bool-cases (text_eq j k)) [
    | inl equal ↦ let e' = rw equal at e in cc
    | inr differ ↦ not_in_keys k d (rw differ at e) m
  ]

  -- A new key comes last, and an old one keeps its place.
  pub keys-insert_new :
      (k : Text) (v : V) (d : Dict V) → lookup k d ≡ none → keys (insert k v d) ≡ keys d ++ k ∷ []
  unfolding lookup keys insert
  keys-insert_new k v [] e = refl
  keys-insert_new k v ((j, w) ∷ d) e = elim (Bool-cases (text_eq j k)) [
    | inl equal ↦ absurd (let e' = rw equal at e in cc)
    | inr differ ↦ rw differ (ap (λ ks. j ∷ ks) (keys-insert_new k v d (rw differ at e)))
  ]

  pub keys-insert_old :
      (k : Text) (v w : V) (d : Dict V) → lookup k d ≡ some w → keys (insert k v d) ≡ keys d
  unfolding lookup keys insert
  keys-insert_old k v w [] e = cc
  keys-insert_old k v w ((j, u) ∷ d) e = elim (Bool-cases (text_eq j k)) [
    | inl equal ↦ rw equal refl
    | inr differ ↦ rw differ (ap (λ ks. j ∷ ks) (keys-insert_old k v w d (rw differ at e)))
  ]

  pub keys-insert_keeps :
      (P : Text → Type 0) (k : Text) (v : V) (d : Dict V)
      → P k
      → All P (keys d) × Unrepeated (keys d)
      → All P (keys (insert k v d)) × Unrepeated (keys (insert k v d))
  keys-insert_keeps P k v d p (h, l) = elim (Option-cases (lookup k d)) [
    | inl new ↦ rw (keys-insert_new k v d new) (
      All-append P (keys d) (k ∷ []) h (p, tt),
      Unrepeated-append (keys d) k l (not_in_keys k d new),
    )
    | inr (w, old) ↦ rw (keys-insert_old k v w d old) (h, l)
  ]

  key-Elem : (d : Dict V) (k : Text) (v : V) → Elem (k, v) d → Elem k (keys d)
  unfolding keys
  key-Elem [] k v m = absurd m
  key-Elem ((j, u) ∷ d) k v (inl e) = inl (ap (λ (x : Text × V). x.0) e)
  key-Elem ((j, u) ∷ d) k v (inr m) = inr (key-Elem d k v m)

  -- The entry of a key that occurs once is found under it.
  pub lookup_or-Elem :
      (w : V) (d : Dict V)
      → Unrepeated (keys d)
      → (k : Text) (v : V) → Elem (k, v) d
      → lookup_or w k d ≡ v
  unfolding keys
  lookup_or-Elem w [] h k v m = absurd m
  lookup_or-Elem w ((j, u) ∷ d) (new, h) k v (inl e) =
      let same : j ≡ k = sym (ap (λ (x : Text × V). x.0) e) in
      rw (lookup_or-cons, (text_eq_iff j k).1 same) (sym (ap (λ (x : Text × V). x.1) e))
  lookup_or-Elem w ((j, u) ∷ d) (new, h) k v (inr m) = elim (Bool-cases (text_eq j k)) [
    | inl same ↦
        absurd
          (new (subst (λ i. Elem i (keys d)) (sym ((text_eq_iff j k).0 same)) (key-Elem d k v m)))
    | inr differ ↦ rw (lookup_or-cons, differ) (lookup_or-Elem w d h k v m)
  ]
