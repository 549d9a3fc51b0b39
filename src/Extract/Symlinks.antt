-- ===== src/Extract/Symlinks.antt =====
-- Symbolic links of an archive: `_raw_link_components` to `_validate_symlink_graph` of
-- mkosi/debian/extract_tree.py.
use rules_mkosi.Prelude.{
  ℕ, zero, suc, ◌+◌, ltb, ◌||◌, List, [], ◌∷◌, ◌++◌, Option, none, some, length, if◌then◌else◌,
  Outcome, ok, err,
}
use rules_mkosi.Prelude.Text.{Text, codes, text_eq, contains, starts_with}
use rules_mkosi.Prelude.Dict.{Dict, lookup}
use rules_mkosi.Prelude.Paths.{split, join_parts, reversed_list, dirname}
use rules_mkosi.Extract.Error.{ExtractError, symlink_escapes, symlink_cycle, bound_exceeded}
use rules_mkosi.Extract.Member.{Member, is_symlink, of_kind}

-- `_raw_link_components`
unfoldable pub raw_link_components : Text → Text → List Text
unfolding split dirname starts_with text_eq
raw_link_components relative linkname =
    if starts_with linkname (codes "/")
    then split b'/' linkname
    else (if text_eq (dirname relative) [] then [] else split b'/' (dirname relative))
      ++ split b'/' linkname

-- `os.path.join(*components) if components else ""`
unfoldable pub path_of : List Text → Text
unfolding join_parts
path_of [] = []
path_of (part ∷ parts) = join_parts part parts

-- The link of a member that is a symbolic link.
unfoldable pub link_of : Dict Member → Text → Option Text
unfolding lookup is_symlink
link_of members path = elim (lookup path members) [
  | none ↦ none
  | some member ↦ if is_symlink member.kind then some member.linkname else none
]

-- What a component does: it moves on from the resolved ones, raises, or is a link.
pub data Turn : Type 0 where
  move : List Text → Turn
  fail : ExtractError → Turn
  follow : Text → Text → Turn

-- The resolved components stand in reverse. The set `seen` has the members of `dependencies`.
unfoldable pub turn : Dict Member → List Text → List Text → Text → Turn
unfolding path_of link_of reversed_list contains text_eq
turn members resolved dependencies component =
    if text_eq component [] || text_eq component (codes ".")
    then move resolved
    else if text_eq component (codes "..")
    then elim resolved [ [] ↦ fail symlink_escapes | last ∷ rest ↦ move rest ]
    else let current = path_of (reversed_list (component ∷ resolved)) in
      elim (link_of members current) [
        | none ↦ move (component ∷ resolved)
        | some linkname ↦
            if contains current dependencies then fail symlink_cycle else follow current linkname
      ]

-- The target and the symbolic links on the way.
abbrev pub Target : Type 0
Target = Text × List Text

-- The loop of `_resolve_link_path` up to the next link, which goes on with the given continuation.
unfoldable pub descend :
    Dict Member
    → (List Text → List Text → ℕ → Outcome ExtractError Target)
    → List Text
    → List Text
    → List Text
    → ℕ
    → Outcome ExtractError Target
unfolding turn raw_link_components path_of reversed_list
descend members go_on [] resolved dependencies resolutions =
    ok (path_of (reversed_list resolved), dependencies)
descend members go_on (component ∷ components) resolved dependencies resolutions =
    elim (turn members resolved dependencies component) [
      | fail e ↦ err e
      | move resolved' ↦ descend members go_on components resolved' dependencies resolutions
      | follow current linkname ↦
          let components' = raw_link_components current linkname ++ components in
          if ltb (length (of_kind is_symlink members) + length components' + 1) (resolutions + 1)
          then err bound_exceeded
          else go_on components' (dependencies ++ current ∷ []) (resolutions + 1)
    ]

-- The whole loop, on fuel for the links.
unfoldable pub resolve_components :
    ℕ → Dict Member → List Text → List Text → ℕ → Outcome ExtractError Target
unfolding descend
resolve_components zero members components dependencies resolutions = err bound_exceeded
resolve_components (suc fuel) members components dependencies resolutions =
    descend members (resolve_components fuel members) components [] dependencies resolutions

-- `_resolve_link_path` of a symbolic link and its link name. No link is followed twice, so one more
-- round than there are links is enough.
unfoldable pub resolve_link_path : Dict Member → Text → Text → Outcome ExtractError Target
unfolding resolve_components raw_link_components of_kind
resolve_link_path members relative linkname =
    resolve_components (length (of_kind is_symlink members) + 1) members
      (raw_link_components relative linkname) [] 0
