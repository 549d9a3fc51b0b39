-- ===== src/ImageVersion/Labels.antt =====
-- The slot labels of an accepted version fit a GPT entry and are read back from it.
use rules_mkosi.Prelude.{
  ℕ, zero, suc, ◌-◌, ◌*◌, ◌≤◌, ◌<◌, ◌≡◌, refl, ap, subst, ◌∙◌, true, [], ◌∷◌, ◌++◌, Option, none,
  some, length, ok, >>=-eq-ok, All, All-append, arith, length-append, length-replicate,
}
use rules_mkosi.Prelude.Text.{Text, codes, is_alpha, is_digit, every}
use rules_mkosi.Prelude.Bytes.{Bytes, zeros}
use rules_mkosi.Gpt.Partitions.{decode_utf16, until_nul}
use rules_mkosi.ImageVersion.{
  is_version_character, validate_image_version, gpt_partition_name_max, root_label, verity_label,
  validate_slot_labels, remove_newline, check_labels, read_image_version,
}

-- `label.encode("utf-16-le")` of ASCII text.
unfoldable pub encode_utf16 : Text → Bytes
encode_utf16 [] = []
encode_utf16 (c ∷ s) = c ∷ 0 ∷ encode_utf16 s

-- The name field of a GPT entry: 36 code units, padded with zeros.
unfoldable pub name_field : Text → Bytes
unfolding encode_utf16
name_field label = encode_utf16 (label ++ zeros (gpt_partition_name_max - length label))

-- The name that `_project_entry` reads from a name field.
unfoldable pub first_part : Option Text → Option Text
unfolding until_nul
first_part none = none
first_part (some t) = some (until_nul t)

unfoldable pub read_name : Bytes → Option Text
unfolding decode_utf16 first_part
read_name bytes = first_part (decode_utf16 bytes)

abbrev pub IsAscii : Text → Type 0
IsAscii s = All (λ c. (0 < c) × (c < 128)) s

prepend : ℕ → Option Text → Option Text
prepend c none = none
prepend c (some t) = some (c ∷ t)

decode_unit :
    (c : ℕ) (rest : Bytes) → c < 128 → decode_utf16 (c ∷ 0 ∷ rest) ≡ prepend c (decode_utf16 rest)
unfolding decode_utf16 prepend
decode_unit c [] h = ground arith
decode_unit c (x ∷ []) h = ground arith
decode_unit c (x ∷ y ∷ rest) h = ground arith

decode_utf16-encode_utf16 :
    (s : Text) → All (λ c. c < 128) s → decode_utf16 (encode_utf16 s) ≡ some s
unfolding encode_utf16 prepend decode_utf16
decode_utf16-encode_utf16 [] h = refl
decode_utf16-encode_utf16 (c ∷ s) (a, h) =
    decode_unit c (encode_utf16 s) a ∙ ap (prepend c) (decode_utf16-encode_utf16 s h)

until_nul-zeros : (k : ℕ) → until_nul (zeros k) ≡ []
unfolding until_nul
until_nul-zeros zero = refl
until_nul-zeros (suc k) = refl

until_nul-append : (s : Text) (k : ℕ) → IsAscii s → until_nul (s ++ zeros k) ≡ s
unfolding until_nul
until_nul-append [] k h = until_nul-zeros k
until_nul-append (c ∷ s) k (a, h) = ground (arith, until_nul-append s k h)

zeros_small : (k : ℕ) → All (λ c. c < 128) (zeros k)
zeros_small zero = tt
zeros_small (suc k) = (omega arith, zeros_small k)

small : (s : Text) → IsAscii s → All (λ c. c < 128) s
small [] h = tt
small (c ∷ s) (a, h) = (a.1, small s h)

version_IsAscii : (s : Text) → every is_version_character s ≡ true → IsAscii s
unfolding every is_version_character is_alpha is_digit
version_IsAscii [] h = tt
version_IsAscii (c ∷ s) h = ((ground arith, ground arith), version_IsAscii s (ground arith))

read_name-name_field : (label : Text) → IsAscii label → read_name (name_field label) ≡ some label
unfolding name_field read_name first_part
read_name-name_field label h =
    let k = gpt_partition_name_max - length label in
    ap first_part (
      decode_utf16-encode_utf16 (label ++ zeros k)
        (All-append _ label (zeros k) (small label h) (zeros_small k)))
    ∙ ap some (until_nul-append label k h)

length-encode_utf16 : (s : Text) → length (encode_utf16 s) ≡ 2 * length s
unfolding encode_utf16
length-encode_utf16 [] = refl
length-encode_utf16 (c ∷ s) = omega (arith, length-encode_utf16 s)

-- A label of at most 36 characters fills a name field of 72 bytes.
length-name_field : (label : Text) → length label ≤ 36 → length (name_field label) ≡ 72
unfolding name_field
length-name_field label h = omega (
  arith,
  length-encode_utf16 (label ++ zeros (36 - length label)),
  length-append {0} label (zeros (36 - length label)),
  length-replicate {0} {A = ℕ} (36 - length label) 0,
)

-- A label that a name field holds whole, and that is read back from it.
abbrev pub Stored : Text → Type 0
Stored label = (length (name_field label) ≡ 72) × (read_name (name_field label) ≡ some label)

validated : (s v : Text) → validate_image_version s ≡ ok v → every is_version_character v ≡ true
unfolding validate_image_version
validated s v e = ground arith

label_fits :
    (image_id v : Text)
    → validate_slot_labels image_id v ≡ ok tt
    → length (verity_label image_id v) ≤ 36
unfolding validate_slot_labels
label_fits image_id v e = ground arith

root_label-IsAscii :
    (image_id v : Text) → IsAscii image_id → IsAscii v → IsAscii (root_label image_id v)
root_label-IsAscii image_id v h k =
    All-append _ image_id (b'_' ∷ v) h ((omega arith, omega arith), k)

suffix_IsAscii : IsAscii (codes "_verity")
suffix_IsAscii = (
  (omega arith, omega arith),
  (
    (omega arith, omega arith),
    (
      (omega arith, omega arith),
      (
        (omega arith, omega arith),
        (
          (omega arith, omega arith),
          ((omega arith, omega arith), ((omega arith, omega arith), tt)),
        ),
      ),
    ),
  ),
)

-- If a version file is accepted for the slots of an ASCII image id without NUL, the labels of the root
-- and of the verity slot fill the name field of a GPT entry whole, and the partition table's reader
-- gets them back.
pub read_image_version-Stored :
    (content image_id v : Text)
    → IsAscii image_id
    → read_image_version content (some image_id) ≡ ok v
    → Stored (root_label image_id v) × Stored (verity_label image_id v)
unfolding read_image_version check_labels
read_image_version-Stored content image_id v h e =
    let (v', read, e₁) = >>=-eq-ok (validate_image_version (remove_newline content)) _ e in
    let (_, checked, e₂) = >>=-eq-ok (validate_slot_labels image_id v') _ e₁ in
    let same : v' ≡ v = ground arith in
    let fits =
      subst (λ t. length (verity_label image_id t) ≤ 36) same (label_fits image_id v' checked) in
    let ascii = version_IsAscii v (
      subst (λ t. every is_version_character t ≡ true) same
        (validated (remove_newline content) v' read)) in
    let root = root_label-IsAscii image_id v h ascii in
    let verity = All-append _ (root_label image_id v) (codes "_verity") root suffix_IsAscii in
    (
      (
        length-name_field (root_label image_id v)
            (omega (arith, fits, length-append {0} (root_label image_id v) (codes "_verity"))),
        read_name-name_field (root_label image_id v) root,
      ),
      (
        length-name_field (verity_label image_id v) fits,
        read_name-name_field (verity_label image_id v) verity,
      ),
    )
