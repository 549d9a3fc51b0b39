-- ===== src/Runner/CommandLine.antt =====
-- The command line of the runner: mkosi/private/mkosi_runner/command_line.py. The working directory
-- of `os.path.abspath` and what `Options` takes are parameters.
pub mod Error
pub mod Preamble
use rules_mkosi.Prelude.{
  ℕ, zero, suc, ◌+◌, ◌==◌, Bool, true, false, not, ◌&&◌, ◌||◌, List, [], ◌∷◌, ◌++◌, Option, none,
  some, length, take, drop, if◌then◌else◌, Outcome, ok, err, guard, ◌>>=◌, ◌>>◌,
}
use rules_mkosi.Prelude.Text.{Text, codes, text_eq, starts_with}
use rules_mkosi.Prelude.Dict.{lookup}
use rules_mkosi.Prelude.Paths.{abspath}
use rules_mkosi.Runner.Options.{MkosiOption, Occurrence, Table, occurrences, map_paths, declared_in}
use rules_mkosi.Runner.CommandLine.Error.{
  ExitError, missing_dashes, unknown_option, not_exactly_one, missing_argument, missing_path_value,
  image_id_count, incomplete_release, finalize_needs_both, finalize_is_alone, base_needs_repository,
}

-- `Occurrence.replace`: `arguments[index] = value`
unfoldable pub replace_at : ℕ → Text → List Text → List Text
replace_at i value [] = []
replace_at zero value (argument ∷ arguments) = value ∷ arguments
replace_at (suc i) value (argument ∷ arguments) = argument ∷ replace_at i value arguments

-- The occurrences of the options with a destination.
unfoldable pub of_dest : Text → List Occurrence → List Occurrence
unfolding text_eq
of_dest dest [] = []
of_dest dest (o ∷ os) =
    let rest = of_dest dest os in if text_eq o.option.dest dest then o ∷ rest else rest

unfoldable pub is_path : MkosiOption → Bool
is_path o = elim o.path [ none ↦ false | some kind ↦ true ]

unfoldable pub of_paths : List Occurrence → List Occurrence
unfolding is_path
of_paths [] = []
of_paths (o ∷ os) = let rest = of_paths os in if is_path o.option then o ∷ rest else rest

-- Whether every occurrence has a value.
unfoldable pub all_values : List Occurrence → Bool
all_values [] = true
all_values (o ∷ os) = elim o.value [ none ↦ false | some value ↦ all_values os ]

unfoldable pub last_of : List Occurrence → Option Occurrence
last_of [] = none
last_of (o ∷ []) = some o
last_of (o ∷ o' ∷ os) = last_of (o' ∷ os)

unfoldable pub directory_dest : Text
directory_dest = codes "directory"

-- `argv[argv.index("--") + 1 :]`; Python raises a `ValueError` where there is no "--".
unfoldable pub after_dashes : List Text → Option (List Text)
unfolding text_eq
after_dashes [] = none
after_dashes (argument ∷ arguments) =
    let rest = after_dashes arguments in
    if text_eq argument (codes "--") then some arguments else rest

unfoldable pub only_value : List Occurrence → Outcome ExitError Text
only_value [] = err not_exactly_one
only_value (o ∷ []) = elim o.value [ none ↦ err not_exactly_one | some value ↦ ok value ]
only_value (o ∷ o' ∷ os) = err not_exactly_one

unfoldable pub value_of : Option Occurrence → Outcome ExitError Text
value_of none = err missing_argument
value_of (some o) = elim o.value [ none ↦ err missing_argument | some value ↦ ok value ]

-- The loop of `absolute_paths`.
unfoldable pub replace_paths : Text → List Occurrence → List Text → List Text
unfolding replace_at map_paths abspath
replace_paths cwd [] arguments = arguments
replace_paths cwd (o ∷ os) arguments = replace_paths cwd os (elim o.value [
  | none ↦ arguments
  | some value ↦ replace_at o.index (o.prefix ++ map_paths o.option (abspath cwd) value) arguments
])

unfoldable pub declared_of : List Occurrence → List Text
unfolding declared_in
declared_of [] = []
declared_of (o ∷ os) =
    elim o.value [ none ↦ [] | some value ↦ declared_in o.option value ] ++ declared_of os

module _ (negative : Text → Bool) (table : Table) where
  -- `_occurrences_of`
  unfoldable pub occurrences_of : List Text → Text → Outcome ExitError (List Occurrence)
  unfolding lookup occurrences of_dest
  occurrences_of arguments spelling = elim (lookup spelling table) [
    | none ↦ err unknown_option
    | some o ↦ ok (of_dest o.dest (occurrences negative table arguments))
  ]

  -- `mkosi_option_value`
  unfoldable pub mkosi_option_value : List Text → Text → Outcome ExitError Text
  unfolding after_dashes occurrences_of only_value
  mkosi_option_value argv spelling = elim (after_dashes argv) [
    | none ↦ err missing_dashes
    | some arguments ↦ do found ← occurrences_of arguments spelling; only_value found
  ]

  -- `value_after`
  unfoldable pub value_after : List Text → Text → Outcome ExitError Text
  unfolding occurrences_of last_of value_of
  value_after arguments spelling = do
    found ← occurrences_of arguments spelling
    value_of (last_of found)

  -- `configuration_directory`
  unfoldable pub configuration_directory : List Text → Outcome ExitError (Option Occurrence)
  unfolding occurrences of_dest last_of directory_dest
  configuration_directory arguments =
      elim (last_of (of_dest directory_dest (occurrences negative table arguments))) [
        | none ↦ ok none
        | some o ↦ elim o.value [ none ↦ err missing_path_value | some value ↦ ok (some o) ]
      ]

  -- `path_occurrences`
  unfoldable pub path_occurrences : List Text → Outcome ExitError (List Occurrence)
  unfolding occurrences of_paths all_values
  path_occurrences arguments =
      let found = of_paths (occurrences negative table arguments) in
      if all_values found then ok found else err missing_path_value

  -- `absolute_paths`
  unfoldable pub absolute_paths : Text → List Text → Outcome ExitError (List Text)
  unfolding path_occurrences replace_paths
  absolute_paths cwd arguments = do
    found ← path_occurrences arguments
    ok (replace_paths cwd found arguments)

  -- `declared_paths`
  unfoldable pub declared_paths : List Text → Outcome ExitError (List Text)
  unfolding path_occurrences declared_of
  declared_paths arguments = do found ← path_occurrences arguments; ok (declared_of found)

-- The indices of the arguments that start with "--image-id=", from an index on.
unfoldable pub image_ids : ℕ → List Text → List ℕ
unfolding starts_with
image_ids index [] = []
image_ids index (argument ∷ arguments) =
    let rest = image_ids (index + 1) arguments in
    if starts_with argument (codes "--image-id=") then index ∷ rest else rest

unfoldable pub only_index : List ℕ → Outcome ExitError ℕ
only_index [] = err image_id_count
only_index (i ∷ []) = ok i
only_index (i ∷ j ∷ is) = err image_id_count

-- `with_image_version`
unfoldable pub with_image_version : List Text → Text → Outcome ExitError (List Text)
unfolding image_ids only_index
with_image_version arguments image_version = do
  index ← only_index (image_ids 0 arguments)
  let insert_at = index + 1
  ok (
      take insert_at arguments
      ++ ((codes "--image-version=" ++ image_version) ∷ drop insert_at arguments))

pub data Stage : Type 0 where
  image base finalize : Stage

-- `_requested_release_stage` of the options that are set.
unfoldable pub requested_release_stage :
    Bool → Bool → Bool → Bool → Outcome ExitError (Option Stage)
requested_release_stage repository base_tree initrd base_initrd_output =
    if base_tree || initrd
    then (if not base_tree || not initrd
        then err finalize_needs_both
        else if repository || base_initrd_output
        then err finalize_is_alone
        else ok (some finalize))
    else if repository
    then ok (some (if base_initrd_output then base else image))
    else if base_initrd_output
    then err base_needs_repository
    else ok none

unfoldable pub is_stage : Option Stage → Bool
is_stage none = false
is_stage (some stage) = true

unfoldable pub is_image : Option Stage → Bool
is_image none = false
is_image (some image) = true
is_image (some base) = false
is_image (some finalize) = false

-- `(stage is not None) != release`
unfoldable pub differs : Bool → Bool → Bool
differs true release = not release
differs false release = release

-- `release_stage`
unfoldable pub release_stage : Bool → Bool → Bool → Bool → Bool → Outcome ExitError (Option Stage)
unfolding requested_release_stage is_stage is_image differs
release_stage release repository base_tree initrd base_initrd_output = do
  stage ← requested_release_stage repository base_tree initrd base_initrd_output
  guard (not (differs (is_stage stage) release && not (is_image stage))) incomplete_release
  ok (if release then stage else none)
