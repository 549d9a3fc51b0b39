-- ===== src/ImageVersion.antt =====
-- Image versions that are read from files: mkosi/private/image_version.py. Texts are ASCII.
pub mod Labels
use rules_mkosi.Prelude.{
  ℕ, ◌==◌, ltb, Bool, true, false, not, ◌&&◌, ◌||◌, List, [], ◌∷◌, ◌++◌, Option, none, some, length,
  if◌then◌else◌, Outcome, ok, err, guard, ◌>>=◌, ◌>>◌,
}
use rules_mkosi.Prelude.Text.{Text, codes, is_alpha, is_digit, every}
use rules_mkosi.Debian.Version.{is_empty}

pub data ImageVersionError : Type 0 where
  invalid_image_version label_too_long : ImageVersionError

unfoldable pub is_version_character : ℕ → Bool
unfolding is_alpha is_digit
is_version_character c = is_alpha c || is_digit c || c == b'.'

-- `validate_image_version`
unfoldable pub validate_image_version : Text → Outcome ImageVersionError Text
unfolding is_version_character every is_empty
validate_image_version image_version =
    if is_empty image_version || not (every is_version_character image_version)
    then err invalid_image_version
    else ok image_version

abbrev pub gpt_partition_name_max : ℕ
gpt_partition_name_max = 36

-- The labels of the two populated slots.
abbrev pub root_label : Text → Text → Text
root_label image_id image_version = image_id ++ (b'_' ∷ image_version)

abbrev pub verity_label : Text → Text → Text
verity_label image_id image_version = root_label image_id image_version ++ codes "_verity"

-- `validate_slot_labels`
unfoldable pub validate_slot_labels : Text → Text → Outcome ImageVersionError (Unit {0})
validate_slot_labels image_id image_version =
    if ltb gpt_partition_name_max (length (verity_label image_id image_version))
    then err label_too_long
    else ok tt

-- `content.removesuffix("\n")`
unfoldable pub remove_newline : Text → Text
remove_newline [] = []
remove_newline (c ∷ []) = if c == 10 then [] else c ∷ []
remove_newline (c ∷ d ∷ text) = c ∷ remove_newline (d ∷ text)

unfoldable pub check_labels : Option Text → Text → Outcome ImageVersionError (Unit {0})
unfolding validate_slot_labels
check_labels none image_version = ok tt
check_labels (some image_id) image_version = validate_slot_labels image_id image_version

-- `read_image_version`, of the file's text.
unfoldable pub read_image_version : Text → Option Text → Outcome ImageVersionError Text
unfolding validate_image_version remove_newline check_labels
read_image_version content slot_label_image_id = do
  image_version ← validate_image_version (remove_newline content)
  check_labels slot_label_image_id image_version
  ok image_version
