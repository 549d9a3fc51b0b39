-- ===== src/Extract/Member.antt =====
-- The members of an archive and their names: `member_path` to `_index_members` of
-- mkosi/debian/extract_tree.py. What `tarfile` tells of a member is a record.
use rules_mkosi.Prelude.{
  ◌==◌, ◌&&◌, ◌||◌, Bool, true, false, List, [], ◌∷◌, ◌++◌, none, some, drop, if◌then◌else◌,
  Outcome, ok, err, ◌>>=◌,
}
use rules_mkosi.Prelude.Text.{Text, codes, text_eq, starts_with}
use rules_mkosi.Prelude.Dict.{Dict, lookup}
use rules_mkosi.Prelude.Paths.{split, join_path, join_parts, dirname, normpath}
use rules_mkosi.Extract.Error.{
  ExtractError, absolute_member, unsafe_member, duplicate_member, symlink_escapes,
  absolute_hardlink,
}

-- `isdir()`, `isfile()`, `issym()`, `islnk()`, or none of them.
pub data Kind : Type 0 where
  directory file symlink hardlink other : Kind

pub record Member : Type 0 where
  pub name : Text
  pub linkname : Text
  pub kind : Kind

-- `while name.startswith("./"): name = name[2:]`
unfoldable pub strip_dots : Text → Text
strip_dots [] = []
strip_dots (c ∷ []) = c ∷ []
strip_dots (c ∷ d ∷ s) =
    let rest = strip_dots s in if c == b'.' && d == b'/' then rest else c ∷ d ∷ s

-- `if parts and parts[-1] == "": parts.pop()`
unfoldable pub pop_empty : List Text → List Text
unfolding text_eq
pop_empty [] = []
pop_empty (part ∷ []) = if text_eq part [] then [] else part ∷ []
pop_empty (part ∷ part' ∷ parts) = part ∷ pop_empty (part' ∷ parts)

-- `part in ("", ".", "..")`
unfoldable pub is_unsafe : Text → Bool
unfolding text_eq
is_unsafe part = text_eq part [] || text_eq part (codes ".") || text_eq part (codes "..")

unfoldable pub any_unsafe : List Text → Bool
unfolding is_unsafe
any_unsafe [] = false
any_unsafe (part ∷ parts) = is_unsafe part || any_unsafe parts

unfoldable pub joined_member : List Text → Outcome ExtractError Text
unfolding any_unsafe join_parts
joined_member [] = err unsafe_member
joined_member (part ∷ parts) =
    if any_unsafe (part ∷ parts) then err unsafe_member else ok (join_parts part parts)

unfoldable pub member_path : Text → Outcome ExtractError Text
unfolding strip_dots pop_empty joined_member split starts_with text_eq
member_path name =
    if starts_with name (codes "/")
    then err absolute_member
    else if text_eq (strip_dots name) [] || text_eq (strip_dots name) (codes ".")
    then ok []
    else joined_member (pop_empty (split b'/' (strip_dots name)))

-- `_link_target`
unfoldable pub link_target : Text → Text → Outcome ExtractError Text
unfolding member_path normpath join_path dirname starts_with text_eq
link_target relative linkname =
    let target = normpath (join_path (dirname relative) linkname) in
    if starts_with linkname (codes "/")
    then member_path (drop 1 linkname)
    else if text_eq target (codes "..") || starts_with target (codes "../")
    then err symlink_escapes
    else ok target

-- `_hardlink_target`
unfoldable pub hardlink_target : Text → Outcome ExtractError Text
unfolding member_path starts_with
hardlink_target linkname =
    if starts_with linkname (codes "/") then err absolute_hardlink else member_path linkname

-- The loop of `_index_members`, with `members_by_path` so far.
unfoldable pub index_from : List Member → Dict Member → Outcome ExtractError (Dict Member)
unfolding member_path lookup text_eq
index_from [] by_path = ok by_path
index_from (member ∷ members) by_path = do
  relative ← member_path member.name
  elim relative [
    | [] ↦ index_from members by_path
    | c ∷ s ↦ elim (lookup (c ∷ s) by_path) [
      | some previous ↦ err duplicate_member
      | none ↦ index_from members (by_path ++ (c ∷ s, member) ∷ [])
    ]
  ]

-- `_index_members`: the members by their paths, in the order of the archive.
unfoldable pub index_members : List Member → Outcome ExtractError (Dict Member)
unfolding index_from
index_members members = index_from members []

-- Whether a member is a symbolic link.
unfoldable pub is_symlink : Kind → Bool
is_symlink directory = false
is_symlink file = false
is_symlink symlink = true
is_symlink hardlink = false
is_symlink other = false

unfoldable pub is_hardlink : Kind → Bool
is_hardlink directory = false
is_hardlink file = false
is_hardlink symlink = false
is_hardlink hardlink = true
is_hardlink other = false

-- `{relative: member for member, relative in members if ...}`
unfoldable pub of_kind : (Kind → Bool) → Dict Member → Dict Member
of_kind test [] = []
of_kind test ((relative, member) ∷ members) =
    let rest = of_kind test members in if test member.kind then (relative, member) ∷ rest else rest
