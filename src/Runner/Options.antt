-- ===== src/Runner/Options.antt =====
-- Options of mkosi in its arguments: mkosi/private/mkosi_runner/mkosi_options.py. The table of
-- options, which is read from mkosi, and the test for negative numbers of its parser are parameters.
use rules_mkosi.Prelude.{
  ℕ, zero, suc, ◌+◌, ◌==◌, Bool, true, false, not, ◌&&◌, ◌||◌, List, [], ◌∷◌, ◌++◌, Option, none,
  some, length, take, drop, get_elem?, map, if◌then◌else◌,
}
use rules_mkosi.Prelude.Text.{Text, codes, text_eq, starts_with, contains, is_space, one_of}
use rules_mkosi.Prelude.Dict.{Dict, lookup}
use rules_mkosi.Debian.Version.{split_first}

-- "none", "one" or "optional"
pub data Arity : Type 0 where
  takes_none takes_one takes_optional : Arity

-- "path" or "tree"
pub data PathKind : Type 0 where
  path tree : PathKind

-- `Option`
pub record MkosiOption : Type 0 where
  pub dest : Text
  pub arguments : Arity
  pub path : Option PathKind
  pub path_list : Bool
  pub constants : List Text

-- `Occurrence`
pub record Occurrence : Type 0 where
  pub option : MkosiOption
  pub spelling : Text
  pub index : ℕ
  pub prefix : Text
  pub value : Option Text

-- `value.replace(",", " ").split()`, after the characters of the item so far.
unfoldable pub split_items : Text → Text → List Text
unfolding is_space
split_items [] [] = []
split_items (c ∷ item) [] = (c ∷ item) ∷ []
split_items item (c ∷ s) =
    let after = split_items [] s in
    let longer = split_items (item ++ c ∷ []) s in
    if c == b',' || is_space c
    then elim item [ [] ↦ after | d ∷ item' ↦ (d ∷ item') ∷ after ]
    else longer

-- `Option._items`
unfoldable pub items : MkosiOption → Text → List Text
unfolding split_items text_eq
items o value =
    if o.path_list then split_items [] value else if text_eq value [] then [] else value ∷ []

unfoldable pub is_tree : Option PathKind → Bool
is_tree none = false
is_tree (some path) = false
is_tree (some tree) = true

-- `item.partition(":")`, with the separator in the last part.
unfoldable pub partition_source : Text → Text × Text
unfolding split_first
partition_source item = elim (split_first b':' item) [
  | none ↦ (item, [])
  | some (source, target) ↦ (source, b':' ∷ target)
]

-- `Option._source`
unfoldable pub source_of : MkosiOption → Text → Text × Text
unfolding is_tree partition_source
source_of o item = if is_tree o.path then partition_source item else (item, [])

-- The sources of the items that are no constants.
unfoldable pub sources_of : MkosiOption → List Text → List Text
unfolding source_of contains
sources_of o [] = []
sources_of o (item ∷ rest) =
    let more = sources_of o rest in
    if contains item o.constants then more else (source_of o item).0 ∷ more

-- `Option.declared_paths`
unfoldable pub declared_in : MkosiOption → Text → List Text
unfolding sources_of items
declared_in o value = sources_of o (items o value)

-- `Option._map_item`
unfoldable pub map_item : MkosiOption → (Text → Text) → Text → Text
unfolding source_of contains
map_item o function item =
    if contains item o.constants
    then item
    else function (source_of o item).0 ++ (source_of o item).1

-- `",".join(...)` or `"".join(...)`
unfoldable pub join_items : Bool → List Text → Text
join_items path_list [] = []
join_items path_list (item ∷ []) = item
join_items path_list (item ∷ item' ∷ rest) =
    item ++ ((if path_list then b',' ∷ [] else []) ++ join_items path_list (item' ∷ rest))

-- `Option.map_paths`
unfoldable pub map_paths : MkosiOption → (Text → Text) → Text → Text
unfolding map_item items join_items
map_paths o function value = join_items o.path_list (map (map_item o function) (items o value))

-- The options by their spellings.
abbrev pub Table : Type 0
Table = Dict MkosiOption

unfoldable pub in_table : Table → Text → Bool
unfolding lookup
in_table table spelling = elim (lookup spelling table) [ none ↦ false | some o ↦ true ]

unfoldable pub is_flag_arity : Arity → Bool
is_flag_arity takes_none = true
is_flag_arity takes_one = false
is_flag_arity takes_optional = false

-- `table[spelling].arguments == "none"`
unfoldable pub is_flag : Table → Text → Bool
unfolding lookup is_flag_arity
is_flag table spelling = elim (lookup spelling table) [
  | none ↦ false
  | some o ↦ is_flag_arity o.arguments
]

-- A spelling, the prefix of an attached value, and the attached value.
abbrev pub Parsed : Type 0
Parsed = Text × Text × Option Text

-- `argument[:2]`, where it is a known option with one dash.
unfoldable pub parse_short : Table → Text → Option Parsed
unfolding in_table
parse_short table argument =
    let spelling = take 2 argument in
    if not (starts_with argument (codes "--")) && in_table table spelling
    then some (spelling, spelling, some (drop 2 argument))
    else none

-- `_parse_option`
unfoldable pub parse_option : Table → Text → Option Parsed
unfolding parse_short in_table split_first text_eq starts_with
parse_option table argument =
    if in_table table argument
    then some (argument, argument, none)
    else if not (starts_with argument (codes "-")) || length argument == 1
    then none
    else elim (split_first b'=' argument) [
      | none ↦ parse_short table argument
      | some (name, value) ↦
          if in_table table name
          then some (name, name ++ b'=' ∷ [], some value)
          else parse_short table argument
    ]

unfoldable pub ends_with_equals : Text → Bool
ends_with_equals [] = false
ends_with_equals (c ∷ []) = c == b'='
ends_with_equals (c ∷ d ∷ s) = ends_with_equals (d ∷ s)

-- The test that stops the reading of single-letter flags.
unfoldable pub stops : Table → Text → ℕ → Bool
unfolding ends_with_equals in_table
stops table prefix c = ends_with_equals prefix || not (in_table table (b'-' ∷ c ∷ []))

-- The `while` loop of `_scan`; `none` means that nothing is found.
unfoldable pub read_flags : Table → Text → Text → Text → Option Parsed
unfolding is_flag stops
read_flags table spelling prefix [] = some (spelling, prefix, some [])
read_flags table spelling prefix (c ∷ []) =
    if not (is_flag table spelling)
    then some (spelling, prefix, some (c ∷ []))
    else if stops table prefix c
    then none
    else some (b'-' ∷ c ∷ [], prefix ++ c ∷ [], none)
read_flags table spelling prefix (c ∷ d ∷ explicit) =
    let attached = read_flags table (b'-' ∷ c ∷ []) (prefix ++ c ∷ b'=' ∷ []) explicit in
    let further = read_flags table (b'-' ∷ c ∷ []) (prefix ++ c ∷ []) (d ∷ explicit) in
    if not (is_flag table spelling)
    then some (spelling, prefix, some (c ∷ d ∷ explicit))
    else if stops table prefix c
    then none
    else if d == b'='
    then attached
    else further

unfoldable pub read_parsed : Table → Option Parsed → Option Parsed
unfolding read_flags
read_parsed table none = none
read_parsed table (some (spelling, prefix, none)) = some (spelling, prefix, none)
read_parsed table (some (spelling, prefix, some explicit)) =
    read_flags table spelling prefix explicit

module _ (negative : Text → Bool) where
  -- `_is_option`
  unfoldable pub is_option : Table → Text → Bool
  unfolding parse_option starts_with one_of
  is_option table argument =
      if not (starts_with argument (codes "-")) || length argument == 1
      then false
      else elim (parse_option table argument) [
        | some parsed ↦ true
        | none ↦ not (negative argument) && not (one_of 32 argument)
      ]

  -- Whether the next argument is the value of an option.
  unfoldable pub value_follows : Table → Option Text → Option Text
  unfolding is_option text_eq
  value_follows table none = none
  value_follows table (some argument) =
      if text_eq argument (codes "--") || is_option table argument then none else some argument

  -- `_scan` for a known option: the next index and the occurrence.
  unfoldable pub scan_option :
      MkosiOption → Text → Text → Option Text → ℕ → Option Text → ℕ × Occurrence
  unfolding is_flag_arity
  scan_option o spelling prefix (some explicit) index following = (
    index + 1,
    record {
      option = o;
      spelling = spelling;
      index = index;
      prefix = prefix;
      value = some explicit;
    },
  )
  scan_option o spelling prefix none index none = (
    index + 1,
    record { option = o; spelling = spelling; index = index; prefix = prefix; value = none },
  )
  scan_option o spelling prefix none index (some argument) =
      if is_flag_arity o.arguments
      then (
        index + 1,
        record { option = o; spelling = spelling; index = index; prefix = prefix; value = none },
      )
      else (
        index + 2,
        record {
          option = o;
          spelling = spelling;
          index = index + 1;
          prefix = [];
          value = some argument;
        },
      )

  -- `_scan`: the next index and what is found.
  unfoldable pub scan : Table → List Text → ℕ → Text → ℕ × List Occurrence
  unfolding read_parsed parse_option lookup value_follows scan_option
  scan table arguments index argument = elim (read_parsed table (parse_option table argument)) [
    | none ↦ (index + 1, [])
    | some (spelling, prefix, explicit) ↦ elim (lookup spelling table) [
      | none ↦ (index + 1, [])
      | some o ↦
          let (next, found) =
            scan_option o spelling prefix explicit index
              (value_follows table (get_elem? arguments (index + 1))) in
          (next, found ∷ [])
    ]
  ]

  -- The loop of `occurrences` on fuel, from an index on.
  unfoldable pub occurrences_from : ℕ → Table → List Text → ℕ → List Occurrence
  unfolding scan text_eq
  occurrences_from zero table arguments index = []
  occurrences_from (suc fuel) table arguments index = elim (get_elem? arguments index) [
    | none ↦ []
    | some argument ↦
        let (next, found) = scan table arguments index argument in
        let rest = occurrences_from fuel table arguments next in
        if text_eq argument (codes "--") then [] else found ++ rest
  ]

  -- `occurrences`. Every round takes an argument, so their number is enough.
  unfoldable pub occurrences : Table → List Text → List Occurrence
  unfolding occurrences_from
  occurrences table arguments = occurrences_from (length arguments) table arguments 0
