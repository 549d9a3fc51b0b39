-- ===== src/Runner/Rewriting.antt =====
-- What `absolute_paths` of mkosi/private/mkosi_runner/command_line.py changes in the arguments.
use rules_mkosi.Prelude.{
  ℕ, zero, suc, ◌+◌, ◌≤◌, ◌<◌, ◌≡◌, ◌≢◌, refl, sym, subst, ap, ◌∙◌, Bool, true, false, List, [],
  ◌∷◌, ◌++◌, Option, none, some, length, get_elem?, ok, arith, inl, inr, Bool-cases, Elem, IfOk-ok,
}
use rules_mkosi.Prelude.Text.{Text}
use rules_mkosi.Prelude.Paths.{abspath}
use rules_mkosi.Runner.Options.{Occurrence, Table, map_paths, occurrences}
use rules_mkosi.Runner.CommandLine.{
  replace_at, is_path, of_paths, all_values, path_occurrences, replace_paths, absolute_paths,
}
use rules_mkosi.Runner.Occurrences.{Ordered, occurrences-Ordered}
use rules_mkosi.Runner.Attached.{text_of}

length-replace_at :
    (i : ℕ) (v : Text) (arguments : List Text)
    → length (replace_at i v arguments) ≡ length arguments
unfolding replace_at
length-replace_at i v [] = refl
length-replace_at zero v (a ∷ arguments) = refl
length-replace_at (suc i) v (a ∷ arguments) = ap suc (length-replace_at i v arguments)

get-replace_at_same :
    (i : ℕ) (v : Text) (arguments : List Text) {a : Text}
    → get_elem? arguments i ≡ some a
    → get_elem? (replace_at i v arguments) i ≡ some v
unfolding replace_at
get-replace_at_same i v [] e = cc
get-replace_at_same zero v (a ∷ arguments) e = refl
get-replace_at_same (suc i) v (a ∷ arguments) e = get-replace_at_same i v arguments e

get-replace_at_other :
    (i j : ℕ) (v : Text) (arguments : List Text)
    → i ≢ j
    → get_elem? (replace_at i v arguments) j ≡ get_elem? arguments j
unfolding replace_at
get-replace_at_other i j v [] h = refl
get-replace_at_other zero zero v (a ∷ arguments) h = absurd (h refl)
get-replace_at_other zero (suc j) v (a ∷ arguments) h = refl
get-replace_at_other (suc i) zero v (a ∷ arguments) h = refl
get-replace_at_other (suc i) (suc j) v (a ∷ arguments) h =
    get-replace_at_other i j v arguments (λ e. h (ap suc e))

-- The argument of an occurrence with absolute paths.
abbrev pub absolute : Text → Occurrence → Text
absolute cwd o = o.prefix ++ map_paths o.option (abspath cwd) (text_of o.value)

-- The occurrences' places increase, and an argument stands at each.
abbrev Placed : List Text → ℕ → List Occurrence → Type 0
Placed arguments i [] = Unit
Placed arguments i (o ∷ os) =
    (i ≤ o.index)
    × ((a : Text) × (get_elem? arguments o.index ≡ some a))
    × Placed arguments (o.index + 1) os

Placed-le :
    (arguments : List Text) (i j : ℕ) (os : List Occurrence)
    → i ≤ j
    → Placed arguments j os
    → Placed arguments i os
Placed-le arguments i j [] h k = tt
Placed-le arguments i j (o ∷ os) h (k, here, rest) = (omega arith, here, rest)

Placed-of_paths :
    (table : Table) (arguments : List Text) (i : ℕ) (os : List Occurrence)
    → Ordered table arguments i os
    → Placed arguments i (of_paths os)
unfolding of_paths
Placed-of_paths table arguments i [] h = tt
Placed-of_paths table arguments i (o ∷ os) (h, (_, found), rest) =
    let k = Placed-of_paths table arguments (o.index + 1) os rest in
    elim (Bool-cases (is_path o.option)) [
      | inl path ↦ rw (path, Placed) (h, (_, found), k)
      | inr other ↦
          rw (other, Placed) (Placed-le arguments i (o.index + 1) (of_paths os) (omega arith) k)
    ]

-- The occurrences all stand after a place.
Placed-after :
    (arguments : List Text) (i : ℕ) (os : List Occurrence)
    → Placed arguments i os
    → (o : Occurrence) → Elem o os
    → i ≤ o.index
Placed-after arguments i [] h o m = absurd m
Placed-after arguments i (o' ∷ os) (h, _, rest) o (inl e) = subst (λ x. i ≤ x.index) (sym e) h
Placed-after arguments i (o' ∷ os) (h, _, rest) o (inr m) =
    omega (arith, Placed-after arguments (o'.index + 1) os rest o m)

-- A replacement leaves the places after it as they are.
Placed-replace_at :
    (arguments : List Text) (j i : ℕ) (v : Text) (os : List Occurrence)
    → j < i
    → Placed arguments i os
    → Placed (replace_at j v arguments) i os
Placed-replace_at arguments j i v [] h k = tt
Placed-replace_at arguments j i v (o ∷ os) h (k, (a, here), rest) = (
  k,
  (a, get-replace_at_other j o.index v arguments (λ e. absurd (omega arith)) ∙ here),
  Placed-replace_at arguments j (o.index + 1) v os (omega arith) rest,
)

-- Every occurrence's argument is made absolute, and no other is changed.
abbrev pub IsRewritten : Text → List Occurrence → List Text → List Text → Type 0
IsRewritten cwd os arguments result =
    (length result ≡ length arguments)
    × ((o : Occurrence) → Elem o os → get_elem? result o.index ≡ some (absolute cwd o))
    × ((j : ℕ)
        → ((o : Occurrence) → Elem o os → o.index ≢ j)
        → get_elem? result j ≡ get_elem? arguments j)

replaced :
    (m : Option Text) (rest : Bool) (cwd : Text) (o : Occurrence) (arguments : List Text)
    → elim m [ none ↦ false | some value ↦ rest ] ≡ true
    → (elim m [
      | none ↦ arguments
      | some value ↦
          replace_at o.index (o.prefix ++ map_paths o.option (abspath cwd) value) arguments
    ]
        ≡ replace_at o.index (o.prefix ++ map_paths o.option (abspath cwd) (text_of m)) arguments)
      × (rest ≡ true)
replaced none rest cwd o arguments h = cc
replaced (some value) rest cwd o arguments h = (refl, h)

-- One more occurrence before others that are rewritten.
IsRewritten-cons :
    (cwd : Text) (o : Occurrence) (os : List Occurrence) (arguments result : List Text)
    → ((a : Text) × (get_elem? arguments o.index ≡ some a))
    → Placed arguments (o.index + 1) os
    → IsRewritten cwd os (replace_at o.index (absolute cwd o) arguments) result
    → IsRewritten cwd (o ∷ os) arguments result
IsRewritten-cons cwd o os arguments result (_, here) rest (lengths, changed, kept) = (
  lengths ∙ length-replace_at o.index (absolute cwd o) arguments,
  λ o' m. elim m [
    | inl e ↦
        subst (λ x. get_elem? result x.index ≡ some (absolute cwd x)) (sym e)
          (kept o.index
              (λ x l e'. absurd (omega (arith, Placed-after arguments (o.index + 1) os rest x l)))
            ∙ get-replace_at_same o.index (absolute cwd o) arguments here)
    | inr l ↦ changed o' l
  ],
  λ j others.
      kept j (λ x l. others x (inr l))
      ∙ get-replace_at_other o.index j (absolute cwd o) arguments (others o (inl refl)),
)

replace_paths-IsRewritten :
    (cwd : Text) (arguments : List Text) (i : ℕ) (os : List Occurrence)
    → Placed arguments i os
    → all_values os ≡ true
    → IsRewritten cwd os arguments (replace_paths cwd os arguments)
unfolding replace_paths all_values
replace_paths-IsRewritten cwd arguments i [] h k = (refl, (λ o m. absurd m), λ j others. refl)
replace_paths-IsRewritten cwd arguments i (o ∷ os) (h, here, rest) k =
    let (step, values) = replaced o.value (all_values os) cwd o arguments k in
    IsRewritten-cons cwd o os arguments _ here rest (
      subst
        (λ x.
          IsRewritten cwd os (replace_at o.index (absolute cwd o) arguments)
            (replace_paths cwd os x))
        (sym step)
        (replace_paths-IsRewritten cwd (replace_at o.index (absolute cwd o) arguments) (o.index + 1)
          os (Placed-replace_at arguments o.index (o.index + 1) _ os (omega arith) rest) values))

-- When `absolute_paths` succeeds, the occurrences of path options have values, the argument of each
-- is its prefix and its value with `os.path.abspath` mapped over the paths, every other argument is
-- unchanged, and so is their number.
pub absolute_paths-IsRewritten :
    (negative : Text → Bool) (table : Table) (cwd : Text) (arguments : List Text)
    {result : List Text}
    → absolute_paths negative table cwd arguments ≡ ok result
    → (all_values (of_paths (occurrences negative table arguments)) ≡ true)
      × IsRewritten cwd (of_paths (occurrences negative table arguments)) arguments result
unfolding absolute_paths path_occurrences
absolute_paths-IsRewritten negative table cwd arguments {result} e =
    let found = of_paths (occurrences negative table arguments) in
    elim (Bool-cases (all_values found)) [
      | inr missing ↦ absurd (let e' = rw missing at e in cc)
      | inl values ↦
          let placed =
            Placed-of_paths table arguments 0 (occurrences negative table arguments)
              (occurrences-Ordered negative table arguments).0 in
          (
            values,
            IfOk-ok (IsRewritten cwd found arguments) (ok (replace_paths cwd found arguments))
                (rw values at e) (replace_paths-IsRewritten cwd arguments 0 found placed values),
          )
    ]
