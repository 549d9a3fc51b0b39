-- ===== src/Extract/Hardlinks.antt =====
-- Hard links of an archive: `_resolve_hardlink_graph` of mkosi/debian/extract_tree.py, without the
-- links that it makes in the file system.
use rules_mkosi.Prelude.{
  ℕ, zero, suc, ◌+◌, [], ◌∷◌, none, some, length, if◌then◌else◌, Outcome, ok, err, ◌>>=◌,
}
use rules_mkosi.Prelude.Text.{Text, text_lt}
use rules_mkosi.Prelude.Dict.{Dict, lookup, lookup_or, insert}
use rules_mkosi.Extract.Error.{
  ExtractError, bound_exceeded, hardlink_cycle, dangling_hardlink, not_a_file,
}
use rules_mkosi.Extract.Member.{
  Kind, directory, file, symlink, hardlink, other, Member, hardlink_target, is_hardlink, of_kind,
}

-- The values of `state`.
pub data Phase : Type 0 where
  visiting done : Phase

-- `state` and `targets`
pub record Visits : Type 0 where
  pub state : Dict Phase
  pub targets : Dict Text

abbrev pub no_visits : Visits
no_visits = record { state = []; targets = [] }

-- The target of a hard link to a member, with `visit` for a member that is a hard link itself.
unfoldable pub final_target :
    (Text → Text → Visits → Outcome ExtractError (Visits × Text))
    → Kind
    → Text
    → Text
    → Visits
    → Outcome ExtractError (Visits × Text)
final_target visit hardlink target linkname v = visit target linkname v
final_target visit file target linkname v = ok (v, target)
final_target visit directory target linkname v = err not_a_file
final_target visit symlink target linkname v = err not_a_file
final_target visit other target linkname v = err not_a_file

unfoldable pub set_done : Text → Visits × Text → Visits × Text
unfolding insert
set_done relative (v, target) = (
  record v { state = insert relative done v.state; targets = insert relative target v.targets },
  target,
)

unfoldable pub visit_target :
    Dict Member
    → (Text → Text → Visits → Outcome ExtractError (Visits × Text))
    → Text
    → Text
    → Visits
    → Outcome ExtractError (Visits × Text)
unfolding hardlink_target lookup insert final_target set_done
visit_target members visit relative linkname v = do
  target ← hardlink_target linkname
  elim (lookup target members) [
    | none ↦ err dangling_hardlink
    | some member ↦ do
      found ←
          final_target visit member.kind target member.linkname
            (record v { state = insert relative visiting v.state })
      ok (set_done relative found)
  ]

-- `visit` of a hard link and its link name, on fuel. No hard link is visited inside of its own visit.
unfoldable pub visit : ℕ → Dict Member → Text → Text → Visits → Outcome ExtractError (Visits × Text)
unfolding visit_target lookup lookup_or
visit zero members relative linkname v = err bound_exceeded
visit (suc fuel) members relative linkname v = elim (lookup relative v.state) [
  | some visiting ↦ err hardlink_cycle
  | some done ↦ ok (v, lookup_or [] relative v.targets)
  | none ↦ visit_target members (visit fuel members) relative linkname v
]

-- `sorted(hardlinks)`, with the members.
unfoldable pub insert_member : Text × Member → Dict Member → Dict Member
unfolding text_lt
insert_member m [] = m ∷ []
insert_member m (m' ∷ members) =
    let rest = insert_member m members in if text_lt m.0 m'.0 then m ∷ m' ∷ members else m' ∷ rest

unfoldable pub sort_members : Dict Member → Dict Member
unfolding insert_member
sort_members [] = []
sort_members (m ∷ members) = insert_member m (sort_members members)

-- The loop over the hard links: each with its target.
unfoldable pub visit_all : ℕ → Dict Member → Dict Member → Visits → Outcome ExtractError (Dict Text)
unfolding visit
visit_all fuel members [] v = ok []
visit_all fuel members ((relative, member) ∷ links) v = do
  (v', target) ← visit fuel members relative member.linkname v
  rest ← visit_all fuel members links v'
  ok ((relative, target) ∷ rest)

-- The targets of `_resolve_hardlink_graph`. One more visit than there are hard links is enough.
unfoldable pub hardlink_targets : Dict Member → Outcome ExtractError (Dict Text)
unfolding visit_all sort_members of_kind is_hardlink
hardlink_targets members =
    visit_all (length (of_kind is_hardlink members) + 1) members
      (sort_members (of_kind is_hardlink members)) no_visits
