-- ===== src/Runner/Insertion.antt =====
-- Where `with_image_version` of mkosi/private/mkosi_runner/command_line.py inserts the version.
use rules_mkosi.Prelude.{
  ℕ, ◌+◌, ◌≡◌, refl, sym, ap, ◌∙◌, ◌↔◌, Bool, true, false, List, [], ◌∷◌, ◌++◌, length,
  append_assoc, take, drop, take-append_ge, drop-append_ge, ok, >>=-eq-ok, arith, inl, inr,
  Bool-cases, All, IfOk-ok,
}
use rules_mkosi.Prelude.Text.{Text, codes, starts_with}
use rules_mkosi.Runner.CommandLine.Error.{ExitError}
use rules_mkosi.Runner.CommandLine.{image_ids, only_index, with_image_version}

-- The argument that names the image.
abbrev pub is_image_id : Text → Bool
is_image_id argument = starts_with argument (codes "--image-id=")

abbrev pub Others : List Text → Type 0
Others arguments = All (λ argument. is_image_id argument ≡ false) arguments

abbrev pub Inserted : Text → List Text → List Text → Type 0
Inserted image_version arguments result =
    (before : List Text) × (image_id : Text) × (after : List Text) × (arguments
      ≡ before ++ (image_id ∷ after))
    × (is_image_id image_id ≡ true)
    × Others before
    × Others after
    × (result ≡ before ++ (image_id ∷ (codes "--image-version=" ++ image_version) ∷ after))

image_ids_none :
    (index : ℕ) (arguments : List Text) → image_ids index arguments ≡ [] → Others arguments
unfolding image_ids
image_ids_none index [] e = tt
image_ids_none index (a ∷ arguments) e = elim (Bool-cases (is_image_id a)) [
  | inl image_id ↦ absurd (let e' = rw image_id at e in cc)
  | inr other ↦ (other, image_ids_none (index + 1) arguments (rw other at e))
]

image_ids_one :
    (index : ℕ) (arguments : List Text) {i : ℕ}
    → image_ids index arguments ≡ i ∷ []
    → (before : List Text) × (image_id : Text) × (after : List Text) × (arguments
        ≡ before ++ (image_id ∷ after))
      × (is_image_id image_id ≡ true)
      × Others before
      × Others after
      × (i ≡ index + length before)
unfolding image_ids
image_ids_one index [] e = cc
image_ids_one index (a ∷ arguments) {i} e = elim (Bool-cases (is_image_id a)) [
  | inl image_id ↦
      let e' : index ∷ image_ids (index + 1) arguments ≡ i ∷ [] = rw image_id at e in
      (
        [],
        a,
        arguments,
        refl,
        image_id,
        tt,
        image_ids_none (index + 1) arguments cc,
        let same : index ≡ i = cc in omega arith,
      )
  | inr other ↦
      let (before, image_id, after, parts, found, others, rest, place) =
        image_ids_one (index + 1) arguments (rw other at e) in
      (
        a ∷ before,
        image_id,
        after,
        ap (λ s. a ∷ s) parts,
        found,
        (other, others),
        rest,
        omega (arith, place),
      )
]

image_ids-Others :
    (index : ℕ) (arguments : List Text) → Others arguments → image_ids index arguments ≡ []
unfolding image_ids
image_ids-Others index [] h = refl
image_ids-Others index (a ∷ arguments) (other, h) =
    rw (other, image_ids-Others (index + 1) arguments h)

image_ids-append :
    (index : ℕ) (before arguments : List Text)
    → Others before
    → image_ids index (before ++ arguments) ≡ image_ids (index + length before) arguments
unfolding image_ids
image_ids-append index [] arguments h = ap (λ i. image_ids i arguments) (omega arith)
image_ids-append index (a ∷ before) arguments (other, h) = rw other (
    image_ids-append (index + 1) before arguments h ∙ ap (λ i. image_ids i arguments) (omega arith))

only_index_lem : (is : List ℕ) {i : ℕ} → only_index is ≡ ok i → is ≡ i ∷ []
unfolding only_index
only_index_lem [] e = cc
only_index_lem (i ∷ []) e = ground arith
only_index_lem (i ∷ j ∷ is) e = cc

take-middle :
    (before : List Text) (x : Text) (after : List Text)
    → (take (length before + 1) (before ++ (x ∷ after)) ≡ before ++ (x ∷ []))
      × (drop (length before + 1) (before ++ (x ∷ after)) ≡ after)
take-middle before x after =
    (take-append_ge before (x ∷ after) 1, drop-append_ge before (x ∷ after) 1)

image_ids_found :
    (before : List Text) (image_id : Text) (after : List Text)
    → is_image_id image_id ≡ true
    → Others before
    → Others after
    → image_ids 0 (before ++ (image_id ∷ after)) ≡ length before ∷ []
unfolding image_ids
image_ids_found before image_id after found others rest =
    let start : 0 + length before ≡ length before = omega arith in
    image_ids-append 0 before (image_id ∷ after) others
    ∙ rw (found, start, image_ids-Others (length before + 1) after rest)

inserted_at :
    (arguments before : List Text) (image_id : Text) (after : List Text) (version : Text) (i : ℕ)
    → arguments ≡ before ++ (image_id ∷ after)
    → i ≡ length before
    → take (i + 1) arguments ++ (version ∷ drop (i + 1) arguments)
      ≡ before ++ (image_id ∷ version ∷ after)
inserted_at arguments before image_id after version i parts place =
    let (first, last) = take-middle before image_id after in
    rw (parts, place, first, last) (append_assoc before (image_id ∷ []) (version ∷ after))

-- The version stands right after the only argument that names the image, and nothing else is
-- changed; without exactly one such argument there is no result.
pub with_image_version-Inserted :
    (arguments : List Text) (image_version : Text) (result : List Text)
    → (with_image_version arguments image_version ≡ ok result)
      ↔ Inserted image_version arguments result
unfolding with_image_version
with_image_version-Inserted arguments image_version result = (
  λ e.
      let (i, only, e') = >>=-eq-ok (only_index (image_ids 0 arguments)) _ e in
      let (before, image_id, after, parts, found, others, rest, place) =
        image_ids_one 0 arguments (only_index_lem _ only) in
      (
        before,
        image_id,
        after,
        parts,
        found,
        others,
        rest,
        IfOk-ok {E = ExitError}
            (λ r. r ≡ before ++ (image_id ∷ (codes "--image-version=" ++ image_version) ∷ after))
            (ok _) e'
            (inserted_at arguments before image_id after _ i parts (omega (arith, place))),
      ),
  λ (before, image_id, after, parts, found, others, rest, inserted).
      let only : image_ids 0 arguments ≡ length before ∷ [] =
        rw parts (image_ids_found before image_id after found others rest) in
      rw only (
        ap ok (inserted_at arguments before image_id after _ (length before) parts refl)
        ∙ ap ok (sym inserted)),
)
