-- ===== src/Runner/CommandLine/Preamble.antt =====
-- The preamble of the runner's arguments: `Preamble` to `preamble_value` of
-- mkosi/private/mkosi_runner/command_line.py.
use rules_mkosi.Prelude.{
  ℕ, ◌+◌, ◌*◌, ◌-◌, ◌==◌, Bool, false, not, ◌&&◌, ◌||◌, List, [], ◌∷◌, ◌++◌, Option, none, some,
  if◌then◌else◌, Outcome, ok, err, guard, ◌>>=◌, ◌>>◌,
}
use rules_mkosi.Prelude.Int.{ℤ, pos, neg}
use rules_mkosi.Prelude.Text.{Text, codes, text_eq, contains, is_digit, strip}
use rules_mkosi.Prelude.Paths.{abspath, split}
use rules_mkosi.Runner.CommandLine.Error.{
  ExitError, bad_epoch, bad_components, missing_dashes, missing_preflight, bad_preamble,
}

pub record Preamble : Type 0 where
  pub executable_paths : List Text
  pub staging_manifest : Option Text
  pub debian_tools_archive : Option Text
  pub debian_tools_extractor : Option Text
  pub debian_tools_sha256 : Option Text
  pub kernel_preflight : Option Text
  pub debian_snapshot_repository : Option Text
  pub release_seed : Option Text
  pub release_source_date_epoch : Option ℤ
  pub release_distribution : Option Text
  pub release_codename : Option Text
  pub release_snapshot : Option Text
  pub release_firmware : Option Text
  pub debian_snapshot_components : Option (List Text)
  pub image_version_file : Option Text
  pub slot_label_image_id : Option Text
  pub release_base_tree : Option Text
  pub release_initrd : Option Text
  pub release_base_initrd_output : Option Text

-- `Preamble()`
abbrev pub no_preamble : Preamble
no_preamble = record {
  executable_paths = [];
  staging_manifest = none;
  debian_tools_archive = none;
  debian_tools_extractor = none;
  debian_tools_sha256 = none;
  kernel_preflight = none;
  debian_snapshot_repository = none;
  release_seed = none;
  release_source_date_epoch = none;
  release_distribution = none;
  release_codename = none;
  release_snapshot = none;
  release_firmware = none;
  debian_snapshot_components = none;
  image_version_file = none;
  slot_label_image_id = none;
  release_base_tree = none;
  release_initrd = none;
  release_base_initrd_output = none;
}

-- The digits of `int(text)`: underscores stand between digits only.
unfoldable pub int_digits : Bool → ℕ → Text → Option ℕ
unfolding is_digit
int_digits after_digit acc [] = if after_digit then some acc else none
int_digits after_digit acc (c ∷ s) =
    let rest = int_digits (is_digit c) (if is_digit c then acc * 10 + (c - b'0') else acc) s in
    if is_digit c || (after_digit && c == b'_') then rest else none

unfoldable pub int_signed : Text → Option ℤ
unfolding int_digits neg
int_signed [] = none
int_signed (c ∷ s) =
    if c == b'-'
    then elim (int_digits false 0 s) [ none ↦ none | some n ↦ some (neg (pos n)) ]
    else elim (int_digits false 0 (if c == b'+' then s else c ∷ s)) [
      | none ↦ none
      | some n ↦ some (pos n)
    ]

-- `_source_date_epoch`
unfoldable pub source_date_epoch : Text → Outcome ExitError ℤ
unfolding int_signed strip
source_date_epoch value = elim (int_signed (strip value)) [ none ↦ err bad_epoch | some n ↦ ok n ]

-- `_snapshot_components`
unfoldable pub snapshot_components : Text → Outcome ExitError (List Text)
unfolding split contains text_eq
snapshot_components value =
    let components = split b',' value in
    if not (contains (codes "main") components) || contains [] components
    then err bad_components
    else ok components

-- The options of `_PREAMBLE_OPTIONS` whose values are paths, and those that are taken as they are.
pub data PathField : Type 0 where
  staging_manifest debian_tools_archive debian_tools_extractor kernel_preflight : PathField
  debian_snapshot_repository image_version_file release_base_tree release_initrd : PathField
  release_base_initrd_output : PathField

pub data VerbatimField : Type 0 where
  debian_tools_sha256 release_seed release_distribution release_codename : VerbatimField
  release_snapshot release_firmware slot_label_image_id : VerbatimField

pub data Setting : Type 0 where
  path_setting : PathField → Setting
  verbatim_setting : VerbatimField → Setting
  epoch_setting components_setting : Setting

-- `_PREAMBLE_OPTIONS`
abbrev pub preamble_options : List (Text × Setting)
preamble_options =
    (codes "--staging-manifest", path_setting PathField.staging_manifest)
    ∷ (codes "--debian-tools-archive", path_setting PathField.debian_tools_archive)
    ∷ (codes "--debian-tools-extractor", path_setting PathField.debian_tools_extractor)
    ∷ (codes "--debian-tools-sha256", verbatim_setting VerbatimField.debian_tools_sha256)
    ∷ (codes "--kernel-preflight", path_setting PathField.kernel_preflight)
    ∷ (codes "--debian-snapshot-repository", path_setting PathField.debian_snapshot_repository)
    ∷ (codes "--release-seed", verbatim_setting VerbatimField.release_seed)
    ∷ (codes "--release-source-date-epoch", epoch_setting)
    ∷ (codes "--release-distribution", verbatim_setting VerbatimField.release_distribution)
    ∷ (codes "--release-codename", verbatim_setting VerbatimField.release_codename)
    ∷ (codes "--release-snapshot", verbatim_setting VerbatimField.release_snapshot)
    ∷ (codes "--release-firmware", verbatim_setting VerbatimField.release_firmware)
    ∷ (codes "--image-version-file", path_setting PathField.image_version_file)
    ∷ (codes "--slot-label-image-id", verbatim_setting VerbatimField.slot_label_image_id)
    ∷ (codes "--release-base-tree", path_setting PathField.release_base_tree)
    ∷ (codes "--release-initrd", path_setting PathField.release_initrd)
    ∷ (codes "--release-base-initrd-output", path_setting PathField.release_base_initrd_output)
    ∷ (codes "--debian-snapshot-components", components_setting)
    ∷ []

unfoldable pub setting_of : Text → List (Text × Setting) → Option Setting
unfolding text_eq
setting_of spelling [] = none
setting_of spelling ((known, setting) ∷ rest) =
    if text_eq known spelling then some setting else setting_of spelling rest

unfoldable pub set_path : PathField → Text → Preamble → Preamble
set_path PathField.staging_manifest v p = record p { staging_manifest = some v }
set_path PathField.debian_tools_archive v p = record p { debian_tools_archive = some v }
set_path PathField.debian_tools_extractor v p = record p { debian_tools_extractor = some v }
set_path PathField.kernel_preflight v p = record p { kernel_preflight = some v }
set_path PathField.debian_snapshot_repository v p = record p { debian_snapshot_repository = some v }
set_path PathField.image_version_file v p = record p { image_version_file = some v }
set_path PathField.release_base_tree v p = record p { release_base_tree = some v }
set_path PathField.release_initrd v p = record p { release_initrd = some v }
set_path PathField.release_base_initrd_output v p = record p { release_base_initrd_output = some v }

unfoldable pub set_verbatim : VerbatimField → Text → Preamble → Preamble
set_verbatim VerbatimField.debian_tools_sha256 v p = record p { debian_tools_sha256 = some v }
set_verbatim VerbatimField.release_seed v p = record p { release_seed = some v }
set_verbatim VerbatimField.release_distribution v p = record p { release_distribution = some v }
set_verbatim VerbatimField.release_codename v p = record p { release_codename = some v }
set_verbatim VerbatimField.release_snapshot v p = record p { release_snapshot = some v }
set_verbatim VerbatimField.release_firmware v p = record p { release_firmware = some v }
set_verbatim VerbatimField.slot_label_image_id v p = record p { slot_label_image_id = some v }

-- `setattr(preamble, name, convert(value))`
unfoldable pub apply_setting : Text → Setting → Text → Preamble → Outcome ExitError Preamble
unfolding set_path set_verbatim source_date_epoch snapshot_components abspath
apply_setting cwd (path_setting f) value p = ok (set_path f (abspath cwd value) p)
apply_setting cwd (verbatim_setting f) value p = ok (set_verbatim f value p)
apply_setting cwd epoch_setting value p = do
  epoch ← source_date_epoch value
  ok (record p { release_source_date_epoch = some epoch })
apply_setting cwd components_setting value p = do
  components ← snapshot_components value
  ok (record p { debian_snapshot_components = some components })

-- `_apply_preamble_option`, of an option and its value.
unfoldable pub apply_preamble_option : Text → Text → Text → Preamble → Outcome ExitError Preamble
unfolding setting_of apply_setting text_eq
apply_preamble_option cwd spelling value p =
    if text_eq spelling (codes "--executable-path")
    then ok (record p { executable_paths = p.executable_paths ++ value ∷ [] })
    else elim (setting_of spelling preamble_options) [
      | none ↦ err bad_preamble
      | some setting ↦ apply_setting cwd setting value p
    ]

-- The loop of `parse_preamble`.
unfoldable pub preamble_from :
    Text → List Text → Preamble → Outcome ExitError (Preamble × List Text)
unfolding apply_preamble_option text_eq
preamble_from cwd [] p = err missing_dashes
preamble_from cwd (spelling ∷ []) p =
    if text_eq spelling (codes "--") then ok (p, []) else err bad_preamble
preamble_from cwd (spelling ∷ value ∷ argv) p =
    let next = (do p' ← apply_preamble_option cwd spelling value p; preamble_from cwd argv p') in
    if text_eq spelling (codes "--") then ok (p, value ∷ argv) else next

unfoldable pub is_set : Option Text → Bool
unfolding text_eq
is_set none = false
is_set (some value) = not (text_eq value [])

-- `parse_preamble`
unfoldable pub parse_preamble : Text → List Text → Outcome ExitError (Preamble × List Text)
unfolding preamble_from is_set
parse_preamble cwd argv = do
  (p, arguments) ← preamble_from cwd argv no_preamble
  guard (is_set p.kernel_preflight) missing_preflight
  ok (p, arguments)

-- `preamble_value`
unfoldable pub preamble_value : Text → List Text → Option Text
unfolding text_eq
preamble_value spelling [] = none
preamble_value spelling (argument ∷ []) = none
preamble_value spelling (argument ∷ value ∷ argv) =
    let rest = preamble_value spelling argv in
    if text_eq argument (codes "--")
    then none
    else if text_eq argument spelling
    then some value
    else rest
