-- ===== src/Extract/Linked.antt =====
-- Where the hard links of an archive lead: `_resolve_hardlink_graph` of
-- mkosi/debian/extract_tree.py.
use rules_mkosi.Prelude.{
  ℕ, zero, suc, ◌+◌, ◌≤◌, ◌≡◌, ◌≢◌, refl, ap, Bool, true, false, ◌||◌, List, [], ◌∷◌, none, some,
  length, length-append, if◌then◌else◌, Outcome, ok, err, ◌>>=◌, arith, inl, inr, Option-cases,
}
use rules_mkosi.Prelude.Text.{Text, codes, text_eq, starts_with}
use rules_mkosi.Prelude.Dict.{Dict, lookup, lookup_or, insert, keys, keys-insert_new}
use rules_mkosi.Prelude.Paths.{split}
use rules_mkosi.Extract.Error.{
  ExtractError, bound_exceeded, absolute_hardlink, hardlink_cycle, dangling_hardlink,
}
use rules_mkosi.Extract.Member.{
  Kind, directory, file, symlink, hardlink, other, Member, strip_dots, pop_empty, member_path,
  joined_member, hardlink_target, is_hardlink, of_kind,
}
use rules_mkosi.Extract.Kinds.{HasKind, length-HasKind}
use rules_mkosi.Extract.Hardlinks.{
  visiting, done, Visits, final_target, set_done, visit_target, visit,
}
use rules_mkosi.Extract.Visits.{
  Leads, to_file, to_link, IsHardlink, IsVisits, IsVisits-visiting, IsVisits-done,
}

-- A visit returns where the link leads, and raises no bound.
abbrev pub IsVisit : Dict Member → Text → Outcome ExtractError (Visits × Text) → Type 0
IsVisit members relative (ok (v, target)) = IsVisits members v × Leads members relative target
IsVisit members relative (err e) = e ≢ bound_exceeded

joined_member_raises :
    (parts : List Text) (e : ExtractError) → joined_member parts ≡ err e → e ≢ bound_exceeded
unfolding joined_member
joined_member_raises [] e h = ground arith
joined_member_raises (part ∷ parts) e h = ground arith

raises_if :
    (b : Bool) (m n : Outcome ExtractError Text) (e : ExtractError)
    → (m ≡ err e → e ≢ bound_exceeded)
    → (n ≡ err e → e ≢ bound_exceeded)
    → (if b then m else n) ≡ err e
    → e ≢ bound_exceeded
raises_if true m n e h k = h
raises_if false m n e h k = k

member_path_raises :
    (name : Text) (e : ExtractError) → member_path name ≡ err e → e ≢ bound_exceeded
unfolding member_path
member_path_raises name e =
    let parts = pop_empty (split b'/' (strip_dots name)) in
    raises_if (starts_with name (codes "/")) _ _ e (λ h. ground arith)
      (raises_if (text_eq (strip_dots name) [] || text_eq (strip_dots name) (codes ".")) (ok [])
        (joined_member parts) e (λ h. cc) (joined_member_raises parts e))

hardlink_target_raises :
    (linkname : Text) (e : ExtractError) → hardlink_target linkname ≡ err e → e ≢ bound_exceeded
unfolding hardlink_target
hardlink_target_raises linkname e =
    raises_if (starts_with linkname (codes "/")) (err absolute_hardlink) (member_path linkname) e
      (λ h. ground arith) (member_path_raises linkname e)

IsVisit-Leads :
    (members : Dict Member) (path path' : Text) (o : Outcome ExtractError (Visits × Text))
    → ((target : Text) → Leads members path target → Leads members path' target)
    → IsVisit members path o
    → IsVisit members path' o
IsVisit-Leads members path path' (ok (v, target)) f (h, leads) = (h, f target leads)
IsVisit-Leads members path path' (err e) f h = h

final_target-IsVisit :
    (members : Dict Member) (visit : Text → Text → Visits → Outcome ExtractError (Visits × Text))
    (relative target : Text) (kind : Kind) (linkname : Text) (v : Visits)
    → (kind ≡ file → Leads members relative target)
    → (kind ≡ hardlink → (final : Text) → Leads members target final → Leads members relative final)
    → IsVisits members v
    → (kind ≡ hardlink → IsVisit members target (visit target linkname v))
    → IsVisit members relative (final_target visit kind target linkname v)
unfolding final_target
final_target-IsVisit members visit relative target hardlink linkname v f g h k =
    IsVisit-Leads members target relative (visit target linkname v) (g refl) (k refl)
final_target-IsVisit members visit relative target file linkname v f g h k = (h, f refl)
final_target-IsVisit members visit relative target directory linkname v f g h k = λ e. cc
final_target-IsVisit members visit relative target symlink linkname v f g h k = λ e. cc
final_target-IsVisit members visit relative target other linkname v f g h k = λ e. cc

done-IsVisit :
    (members : Dict Member) (relative : Text) (o : Outcome ExtractError (Visits × Text))
    → IsHardlink members relative
    → IsVisit members relative o
    → IsVisit members relative (o >>= λ found. ok (set_done relative found))
unfolding set_done
done-IsVisit members relative (ok (v, target)) link (h, leads) =
    (IsVisits-done members relative target v link leads h, leads)
done-IsVisit members relative (err e) link h = h

IsVisit-err :
    (members : Dict Member) (relative : Text) (e : ExtractError)
    → e ≢ bound_exceeded
    → IsVisit members relative (err e)
IsVisit-err members relative e h = h

HasKind-IsHardlink :
    (members : Dict Member) (path : Text)
    → HasKind is_hardlink members path
    → IsHardlink members path
HasKind-IsHardlink members path h = h

count_visiting :
    (members : Dict Member) (relative : Text) (v : Visits) (fuel : ℕ)
    → lookup relative v.state ≡ none
    → length (of_kind is_hardlink members) + 1 ≤ suc fuel + length (keys v.state)
    → length (of_kind is_hardlink members) + 1
      ≤ fuel + length (keys (insert relative visiting v.state))
count_visiting members relative v fuel new h = omega (
  arith,
  ap length (keys-insert_new relative visiting v.state new),
  length-append (keys v.state) (relative ∷ []),
)

bind-IsVisit :
    (members : Dict Member) (relative : Text) (o : Outcome ExtractError Text)
    (rest : Text → Outcome ExtractError (Visits × Text))
    → ((e : ExtractError) → o ≡ err e → e ≢ bound_exceeded)
    → ((target : Text) → o ≡ ok target → IsVisit members relative (rest target))
    → IsVisit members relative (o >>= rest)
bind-IsVisit members relative (ok target) rest h k = k target refl
bind-IsVisit members relative (err e) rest h k = IsVisit-err members relative e (h e refl)

visit_target-IsVisit :
    (members : Dict Member) (visit : Text → Text → Visits → Outcome ExtractError (Visits × Text))
    (relative : Text) (member : Member) (v : Visits)
    → lookup relative members ≡ some member
    → is_hardlink member.kind ≡ true
    → IsVisits members v
    → ((target : Text) (member' : Member)
        → lookup target members ≡ some member'
        → is_hardlink member'.kind ≡ true
        → IsVisit members target
            (visit target member'.linkname (record v { state = insert relative visiting v.state })))
    → IsVisit members relative (visit_target members visit relative member.linkname v)
unfolding visit_target is_hardlink
visit_target-IsVisit members go relative member v here link h k =
    let link' : IsHardlink members relative =
      HasKind-IsHardlink members relative (member, here, link) in
    let v' : Visits = record v { state = insert relative visiting v.state } in
    bind-IsVisit members relative (hardlink_target member.linkname) _
      (hardlink_target_raises member.linkname)
      (λ target leads. elim (Option-cases (lookup target members)) [
        | inl missing ↦ rw missing (IsVisit-err members relative dangling_hardlink (λ e. cc))
        | inr (member', there) ↦ rw there (
            done-IsVisit members relative _ link' (
              final_target-IsVisit members go relative target member'.kind member'.linkname v'
                (λ is_file. to_file here link leads there is_file)
                (λ is_link final more. to_link here link leads there (ap is_hardlink is_link) more)
                (IsVisits-visiting members relative v link' h)
                (λ is_link. k target member' there (ap is_hardlink is_link))))
      ])

done_before :
    (members : Dict Member) (relative : Text) (v : Visits)
    → IsVisits members v
    → lookup relative v.state ≡ some done
    → IsVisit members relative (ok (v, lookup_or [] relative v.targets))
unfolding lookup_or
done_before members relative v h found =
    let (target, there, leads) = h.2 relative found in (h, rw (there, lookup_or) leads)

pub visit-IsVisit :
    (fuel : ℕ) (members : Dict Member) (relative : Text) (member : Member) (v : Visits)
    → lookup relative members ≡ some member
    → is_hardlink member.kind ≡ true
    → IsVisits members v
    → length (of_kind is_hardlink members) + 1 ≤ fuel + length (keys v.state)
    → IsVisit members relative (visit fuel members relative member.linkname v)
unfolding visit
visit-IsVisit zero members relative member v here link (h, l, _) enough =
    absurd (omega (arith, length-HasKind is_hardlink members (keys v.state) h l))
visit-IsVisit (suc fuel) members relative member v here link h enough =
    let v' : Visits = record v { state = insert relative visiting v.state } in
    elim (Option-cases (lookup relative v.state)) [
      | inr (visiting, found) ↦
          rw (found, visit) (IsVisit-err members relative hardlink_cycle (λ e. cc))
      | inr (done, found) ↦ rw (found, visit) (done_before members relative v h found)
      | inl new ↦
          rw (new, visit)
            (visit_target-IsVisit members (visit fuel members) relative member v here link h
              (λ target member' there link'.
                visit-IsVisit fuel members target member' v' there link'
                  (IsVisits-visiting members relative v (member, here, link) h)
                  (count_visiting members relative v fuel new enough)))
    ]
