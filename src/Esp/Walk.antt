-- ===== src/Esp/Walk.antt =====
-- Paths on the volume: `_FatVolume.lookup` to `read_esp_file`.
use rules_mkosi.Prelude.{
  ℕ, zero, suc, ◌+◌, Bool, not, ◌&&◌, ◌||◌, ltb, List, [], ◌∷◌, ◌++◌, Option, none, some,
  if◌then◌else◌, Outcome, ok, err, guard, ◌>>=◌, ◌>>◌,
}
use rules_mkosi.Prelude.Text.{Text, text_eq, text_lt}
use rules_mkosi.Prelude.Bytes.{Bytes}
use rules_mkosi.Prelude.Paths.{split}
use rules_mkosi.Esp.Error.{
  EspError, names_no_file, parent_is_file, no_such_file, is_a_directory, out_of_fuel,
}
use rules_mkosi.Esp.Image.{find_esp}
use rules_mkosi.Esp.Geometry.{Volume, open_volume}
use rules_mkosi.Esp.Volume.Fat.{read_file}
use rules_mkosi.Esp.Volume.Directory.{Entry, is_directory, WalkLimits, directory}

-- `[component for component in ... if component]`
unfoldable pub nonempty_parts : List Text → List Text
nonempty_parts [] = []
nonempty_parts ([] ∷ parts) = nonempty_parts parts
nonempty_parts ((c ∷ s) ∷ parts) = (c ∷ s) ∷ nonempty_parts parts

-- `EspFile`
pub record EspFile : Type 0 where
  pub path : Text
  pub size : ℕ

-- The order of the tuples.
unfoldable pub file_lt : EspFile → EspFile → Bool
unfolding text_lt text_eq
file_lt f g = text_lt f.path g.path || (text_eq f.path g.path && ltb f.size g.size)

unfoldable pub insert_file : EspFile → List EspFile → List EspFile
unfolding file_lt
insert_file f [] = f ∷ []
insert_file f (g ∷ gs) = let rest = insert_file f gs in if file_lt g f then g ∷ rest else f ∷ g ∷ gs

-- `sorted(files)`
unfoldable pub sort_files : List EspFile → List EspFile
unfolding insert_file
sort_files [] = []
sort_files (f ∷ fs) = insert_file f (sort_files fs)

-- A directory that waits: its prefix and first cluster.
abbrev pub Pending : Type 0
Pending = Text × Option ℕ

-- What `walk` does with the entries of one directory: the directories, the last of them first, on
-- top of those that wait, and the files.
unfoldable pub sort_out :
    Text → List Entry → List Pending → List EspFile → List Pending × List EspFile
unfolding is_directory
sort_out prefix [] pending files = (pending, files)
sort_out prefix (e ∷ es) pending files =
    sort_out prefix es
      (if is_directory e
        then (prefix ++ (e.name ++ b'/' ∷ []), some e.cluster) ∷ pending
        else pending)
      (if is_directory e
        then files
        else files ++ (record { path = prefix ++ e.name; size = e.size }) ∷ [])

unfoldable pub some_limits : Option WalkLimits → WalkLimits → WalkLimits
some_limits none limits = limits
some_limits (some limits') limits = limits'

module _ (cp437 : ℕ → ℕ) (lower upper : Text → Text) where
  -- The test of `lookup` for one entry; `upper` is `_fold`.
  unfoldable pub is_named : Text → Entry → Bool
  unfolding text_eq
  is_named component e =
      text_eq (upper component) (upper e.name) || text_eq (upper component) (upper e.short_name)

  -- `matches[0]`
  unfoldable pub first_named : Text → List Entry → Option Entry
  unfolding is_named
  first_named component [] = none
  first_named component (e ∷ es) =
      let rest = first_named component es in if is_named component e then some e else rest

  unfoldable pub found_or_err : Option Entry → Outcome EspError Entry
  found_or_err none = err no_such_file
  found_or_err (some e) = ok e

  -- The directory that a component is looked up in, by the entry so far.
  unfoldable pub parent_of : Option Entry → Outcome EspError (Option ℕ)
  unfolding is_directory
  parent_of none = ok none
  parent_of (some e) = if is_directory e then ok (some e.cluster) else err parent_is_file

  -- The loop of `lookup`.
  unfoldable pub lookup_from : Volume → Option Entry → List Text → Outcome EspError Entry
  unfolding parent_of directory first_named found_or_err
  lookup_from v none [] = err names_no_file
  lookup_from v (some e) [] = ok e
  lookup_from v entry (component ∷ components) = do
    parent ← parent_of entry
    (limits, found) ← directory cp437 lower v parent none
    e ← found_or_err (first_named component found)
    lookup_from v (some e) components

  -- `_FatVolume.lookup`
  unfoldable pub lookup : Volume → Text → Outcome EspError Entry
  unfolding lookup_from split nonempty_parts
  lookup v esp_path = lookup_from v none (nonempty_parts (split b'/' esp_path))

  -- The loop of `walk` on fuel.
  unfoldable pub walk_from :
      ℕ → Volume → WalkLimits → List Pending → List EspFile → Outcome EspError (List EspFile)
  unfolding directory sort_out some_limits
  walk_from fuel v limits [] files = ok files
  walk_from zero v limits (p ∷ pending) files = err out_of_fuel
  walk_from (suc fuel) v limits ((prefix, cluster) ∷ pending) files = do
    (limits', found) ← directory cp437 lower v cluster (some limits)
    let (pending', files') = sort_out prefix found pending files
    walk_from fuel v (some_limits limits' limits) pending' files'

  -- `_FatVolume.walk`. Every directory but the root of FAT12 and FAT16 claims a cluster.
  unfoldable pub walk : Volume → Outcome EspError (List EspFile)
  unfolding walk_from sort_files
  walk v = do
    let limits : WalkLimits = record { claimed = []; remaining = v.partition.size }
    files ← walk_from (suc (v.geometry.clusters + 1)) v limits (([], none) ∷ []) []
    ok (sort_files files)

  module _ (crc32 : Bytes → ℕ) where
    -- `list_esp_files`
    unfoldable pub list_esp_files : Bytes → Outcome EspError (List EspFile)
    unfolding find_esp open_volume walk
    list_esp_files image = do esp ← find_esp crc32 image; v ← open_volume image esp; walk v

    -- `read_esp_file`
    unfoldable pub read_esp_file : Bytes → Text → Outcome EspError Bytes
    unfolding find_esp open_volume lookup is_directory read_file
    read_esp_file image esp_path = do
      esp ← find_esp crc32 image
      v ← open_volume image esp
      e ← lookup v esp_path
      guard (not (is_directory e)) is_a_directory
      read_file v e.cluster e.size
