-- ===== src/Extract/Visits.antt =====
-- The visits of hard links: the invariant of `_resolve_hardlink_graph` of
-- mkosi/debian/extract_tree.py.
use rules_mkosi.Prelude.{◌≡◌, refl, subst, true, some, ok, All, inl, inr, Bool-cases}
use rules_mkosi.Prelude.Distinct.{Unrepeated}
use rules_mkosi.Prelude.Text.{Text, text_eq, text_eq_iff}
use rules_mkosi.Prelude.Dict.{Dict, lookup, insert, lookup-insert, keys, keys-insert_keeps}
use rules_mkosi.Extract.Member.{file, Member, hardlink_target, is_hardlink}
use rules_mkosi.Extract.Kinds.{HasKind}
use rules_mkosi.Extract.Hardlinks.{visiting, done, Visits, set_done}

-- A hard link leads to a regular file, directly or by way of members that are hard links too.
pub data Leads (members : Dict Member) : Text → Text → Type 0 where
  to_file :
      {path target : Text} {member member' : Member}
      → lookup path members ≡ some member
      → is_hardlink member.kind ≡ true
      → hardlink_target member.linkname ≡ ok target
      → lookup target members ≡ some member'
      → member'.kind ≡ file
      → Leads members path target
  to_link :
      {path next target : Text} {member member' : Member}
      → lookup path members ≡ some member
      → is_hardlink member.kind ≡ true
      → hardlink_target member.linkname ≡ ok next
      → lookup next members ≡ some member'
      → is_hardlink member'.kind ≡ true
      → Leads members next target
      → Leads members path target

abbrev pub IsHardlink : Dict Member → Text → Type 0
IsHardlink members path = HasKind is_hardlink members path

-- The visited paths are different hard links, and those that are done have a target.
abbrev pub IsVisits : Dict Member → Visits → Type 0
IsVisits members v =
    All (IsHardlink members) (keys v.state)
    × Unrepeated (keys v.state)
    × ((path : Text)
        → lookup path v.state ≡ some done
        → (target : Text) × (lookup path v.targets ≡ some target) × Leads members path target)

pub IsVisits-visiting :
    (members : Dict Member) (relative : Text) (v : Visits)
    → IsHardlink members relative
    → IsVisits members v
    → IsVisits members (record v { state = insert relative visiting v.state })
IsVisits-visiting members relative v link (h, l, targets) =
    let (h', l') = keys-insert_keeps (IsHardlink members) relative visiting v.state link (h, l) in
    (
      h',
      l',
      λ path e. elim (Bool-cases (text_eq relative path)) [
        | inl same ↦
            absurd (let e' = rw (lookup-insert relative path visiting v.state, same) at e in cc)
        | inr differ ↦ targets path (rw (lookup-insert relative path visiting v.state, differ) at e)
      ],
    )

pub IsVisits-done :
    (members : Dict Member) (relative target : Text) (v : Visits)
    → IsHardlink members relative
    → Leads members relative target
    → IsVisits members v
    → IsVisits members (set_done relative (v, target)).0
unfolding set_done
IsVisits-done members relative target v link leads (h, l, targets) =
    let (h', l') = keys-insert_keeps (IsHardlink members) relative done v.state link (h, l) in
    (
      h',
      l',
      λ path e. elim (Bool-cases (text_eq relative path)) [
        | inl same ↦ (
          target,
          rw (lookup-insert relative path target v.targets, same) refl,
          subst (λ p. Leads members p target) ((text_eq_iff relative path).0 same) leads,
        )
        | inr differ ↦
            let (t, found, there) =
              targets path (rw (lookup-insert relative path done v.state, differ) at e) in
            (t, rw (lookup-insert relative path target v.targets, differ) found, there)
      ],
    )
