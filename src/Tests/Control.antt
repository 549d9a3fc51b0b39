-- ===== src/Tests/Control.antt =====
-- Control data with two paragraphs and a continuation line.
use rules_mkosi.Prelude.{◌≡◌, refl, List, [], ◌∷◌, ◌++◌, err}
use rules_mkosi.Prelude.Text.{Text, codes, text_eq}
use rules_mkosi.Control.{Paragraph, paragraphs, duplicate_field, continuation_without_field}

abbrev control_text : Text
control_text =
    codes "Package: a "
    ++ (13 ∷ 10 ∷ codes "Version:1")
    ++ (10 ∷ codes "  ")
    ++ (10 ∷ codes "SHA256:")
    ++ (10 ∷ codes " x: y")
    ++ (10 ∷ [])

abbrev control_data : List Paragraph
control_data =
    ((codes "Package", codes "a") ∷ (codes "Version", codes "1") ∷ [])
    ∷ ((codes "SHA256", 10 ∷ codes "x: y") ∷ [])
    ∷ []

paragraphs_raises :
    (paragraphs (codes "A:1" ++ (10 ∷ codes "A:2")) ≡ err duplicate_field)
    × (paragraphs (codes " A:1") ≡ err continuation_without_field)
unfolding paragraphs text_eq
paragraphs_raises = (refl, refl)
