-- ===== src/Tests/Extract.antt =====
-- An archive with a directory, a file, and three symbolic links.
use rules_mkosi.Prelude.{◌≡◌, refl, List, [], ◌∷◌, ok, err}
use rules_mkosi.Prelude.Text.{Text, codes}
use rules_mkosi.Prelude.Dict.{Dict}
use rules_mkosi.Extract.Error.{symlink_escapes, symlink_cycle}
use rules_mkosi.Extract.Member.{
  Kind, Member, directory, file, symlink, hardlink, is_hardlink, of_kind, member_path, link_target,
  index_members,
}
use rules_mkosi.Extract.Symlinks.{resolve_link_path}
use rules_mkosi.Extract.Hardlinks.{sort_members, hardlink_targets}
use rules_mkosi.Extract.Links.{IsLinked, hardlink_targets-IsLinked}
use rules_mkosi.Extract.Names.{IsMemberPath, member_path-IsMemberPath}
use rules_mkosi.Extract.Resolved.{IsAnswer, resolve_link_path-IsAnswer}

abbrev member : Text → Text → Kind → Member
member name linkname kind = record { name = name; linkname = linkname; kind = kind }

abbrev members : List Member
members =
    member (codes "./usr/") [] directory
    ∷ member (codes "usr/sh") [] file
    ∷ member (codes "bin") (codes "usr") symlink
    ∷ member (codes "usr/bash") (codes "../bin/sh") symlink
    ∷ member (codes "twice") (codes "bin/../bin/sh") symlink
    ∷ []

abbrev by_path : Dict Member
by_path =
    (codes "usr", member (codes "./usr/") [] directory)
    ∷ (codes "usr/sh", member (codes "usr/sh") [] file)
    ∷ (codes "bin", member (codes "bin") (codes "usr") symlink)
    ∷ (codes "usr/bash", member (codes "usr/bash") (codes "../bin/sh") symlink)
    ∷ (codes "twice", member (codes "twice") (codes "bin/../bin/sh") symlink)
    ∷ []

indexed : index_members members ≡ ok by_path
unfolding index_members
indexed = refl

resolved :
    resolve_link_path by_path (codes "usr/bash") (codes "../bin/sh")
    ≡ ok (codes "usr/sh", codes "bin" ∷ [])
unfolding resolve_link_path
resolved = refl

escapes : resolve_link_path by_path (codes "usr/up") (codes "../../etc") ≡ err symlink_escapes
unfolding resolve_link_path
escapes = refl

-- A link that leads through another one twice is rejected as a cycle, although it leads to a file.
twice : resolve_link_path by_path (codes "twice") (codes "bin/../bin/sh") ≡ err symlink_cycle
unfolding resolve_link_path
twice = refl

relative_target : link_target (codes "usr/bash") (codes "../bin/sh") ≡ ok (codes "bin/sh")
unfolding link_target
relative_target = refl

named : member_path (codes "./usr/") ≡ ok (codes "usr")
unfolding member_path
named = refl

member_path-IsMemberPath_example : IsMemberPath (codes "usr")
member_path-IsMemberPath_example = member_path-IsMemberPath (codes "./usr/") named

resolve_link_path-IsAnswer_example :
    IsAnswer by_path (resolve_link_path by_path (codes "usr/bash") (codes "../bin/sh"))
resolve_link_path-IsAnswer_example =
    resolve_link_path-IsAnswer by_path (codes "usr/bash") (codes "../bin/sh")

abbrev linked_members : List Member
linked_members =
    member (codes "b") (codes "c") hardlink
    ∷ member (codes "a") (codes "./b") hardlink
    ∷ member (codes "c") [] file
    ∷ []

abbrev linked : Dict Member
linked =
    (codes "b", member (codes "b") (codes "c") hardlink)
    ∷ (codes "a", member (codes "a") (codes "./b") hardlink)
    ∷ (codes "c", member (codes "c") [] file)
    ∷ []

linked_indexed : index_members linked_members ≡ ok linked
unfolding index_members
linked_indexed = refl

linked_targets : hardlink_targets linked ≡ ok ((codes "a", codes "c") ∷ (codes "b", codes "c") ∷ [])
unfolding hardlink_targets
linked_targets = refl

hardlink_targets-IsLinked_example :
    IsLinked linked (sort_members (of_kind is_hardlink linked)) (hardlink_targets linked)
hardlink_targets-IsLinked_example = hardlink_targets-IsLinked linked_members linked_indexed
