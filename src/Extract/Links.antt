-- ===== src/Extract/Links.antt =====
-- The hard links of an indexed archive: `_index_members` and `_resolve_hardlink_graph` of
-- mkosi/debian/extract_tree.py.
use rules_mkosi.Prelude.{
  ℕ, ◌+◌, ◌≤◌, ◌≡◌, ◌≢◌, refl, sym, subst, ap, true, List, [], ◌∷◌, ◌++◌, some, length, Outcome, ok,
  err, ◌>>=◌, >>=-eq-ok, arith, All, All-intro, Elem, inl, inr, Bool-cases, List-cases,
  Option-cases, IfOk-ok,
}
use rules_mkosi.Prelude.Distinct.{Unrepeated, Unrepeated-append}
use rules_mkosi.Prelude.Text.{Text, text_eq, text_eq_iff, text_eq_refl, text_lt}
use rules_mkosi.Prelude.Dict.{Dict, lookup, keys, not_in_keys}
use rules_mkosi.Extract.Error.{ExtractError, bound_exceeded}
use rules_mkosi.Extract.Member.{
  Member, member_path, index_from, index_members, is_hardlink, of_kind,
}
use rules_mkosi.Extract.Hardlinks.{
  Visits, no_visits, insert_member, sort_members, visit_all, hardlink_targets,
}
use rules_mkosi.Extract.Linked.{IsVisit, visit-IsVisit}
use rules_mkosi.Extract.Visits.{Leads, IsVisits}

keys-append :
    (members : Dict Member) (path : Text) (member : Member)
    → keys (members ++ (path, member) ∷ []) ≡ keys members ++ path ∷ []
unfolding keys
keys-append [] path member = refl
keys-append ((p, m) ∷ members) path member = ap (λ ks. p ∷ ks) (keys-append members path member)

index_from-Unrepeated :
    (archive : List Member) (so_far : Dict Member) {members : Dict Member}
    → Unrepeated (keys so_far)
    → index_from archive so_far ≡ ok members
    → Unrepeated (keys members)
unfolding index_from
index_from-Unrepeated [] so_far h e =
    IfOk-ok {E = ExtractError} (λ d. Unrepeated (keys d)) (ok so_far) e h
index_from-Unrepeated (m ∷ archive) so_far h e =
    let (relative, named, e') = >>=-eq-ok (member_path m.name) _ e in
    elim (List-cases relative) [
      | inl root ↦ index_from-Unrepeated archive so_far h (rw root at e')
      | inr (c, s, path) ↦ elim (Option-cases (lookup (c ∷ s) so_far)) [
        | inr (other, repeated) ↦ absurd (let e'' = rw (path, repeated) at e' in cc)
        | inl new ↦
            index_from-Unrepeated archive (so_far ++ (c ∷ s, m) ∷ [])
              (subst Unrepeated (sym (keys-append so_far (c ∷ s) m))
                (Unrepeated-append (keys so_far) (c ∷ s) h (not_in_keys (c ∷ s) so_far new)))
              (rw (path, new) at e')
      ]
    ]

-- The members under their own paths.
Own : Dict Member → Dict Member → Type 0
Own members links =
    All (λ (x : Text × Member). (lookup x.0 members ≡ some x.1) × (is_hardlink x.1.kind ≡ true))
      links

-- Every hard link, with a path that it leads to.
abbrev pub IsLinked : Dict Member → Dict Member → Outcome ExtractError (Dict Text) → Type 0
IsLinked members links (ok found) =
    (keys found ≡ keys links) × All (λ (x : Text × Text). Leads members x.0 x.1) found
IsLinked members links (err e) = e ≢ bound_exceeded

after_visit :
    (members links : Dict Member) (relative : Text) (o : Outcome ExtractError (Visits × Text))
    (rest : Visits × Text → Outcome ExtractError (Dict Text))
    → IsVisit members relative o
    → ((v : Visits) (target : Text)
        → IsVisits members v
        → Leads members relative target
        → IsLinked members links (rest (v, target)))
    → IsLinked members links (o >>= rest)
after_visit members links relative (ok (v, target)) rest (h, leads) k = k v target h leads
after_visit members links relative (err e) rest h k = h

IsLinked-cons :
    (members links : Dict Member) (relative target : Text) (member : Member)
    (o : Outcome ExtractError (Dict Text))
    → Leads members relative target
    → IsLinked members links o
    → IsLinked members ((relative, member) ∷ links) (o >>= λ rest. ok ((relative, target) ∷ rest))
unfolding keys
IsLinked-cons members links relative target member (ok found) leads (same, h) =
    (ap (λ ks. relative ∷ ks) same, (leads, h))
IsLinked-cons members links relative target member (err e) leads h = h

visit_all-IsLinked :
    (fuel : ℕ) (members links : Dict Member) (v : Visits)
    → length (of_kind is_hardlink members) + 1 ≤ fuel
    → Own members links
    → IsVisits members v
    → IsLinked members links (visit_all fuel members links v)
unfolding visit_all Own keys
visit_all-IsLinked fuel members [] v enough own h = (refl, tt)
visit_all-IsLinked fuel members ((relative, member) ∷ links) v enough ((here, link), own) h =
    after_visit members ((relative, member) ∷ links) relative _ _
      (visit-IsVisit fuel members relative member v here link h (omega arith))
      (λ v' target h' leads.
        IsLinked-cons members links relative target member _ leads
          (visit_all-IsLinked fuel members links v' enough own h'))

insert_member-All :
    (P : Text × Member → Type 0) (m : Text × Member) (ms : Dict Member)
    → P m
    → All P ms
    → All P (insert_member m ms)
unfolding insert_member
insert_member-All P m [] p h = (p, tt)
insert_member-All P m (m' ∷ ms) p (p', h) = elim (Bool-cases (text_lt m.0 m'.0)) [
  | inl less ↦ rw less (p, (p', h))
  | inr other ↦ rw other (p', insert_member-All P m ms p h)
]

sort_members-All :
    (P : Text × Member → Type 0) (ms : Dict Member) → All P ms → All P (sort_members ms)
unfolding sort_members
sort_members-All P [] h = tt
sort_members-All P (m ∷ ms) (p, h) =
    insert_member-All P m (sort_members ms) p (sort_members-All P ms h)

Elem-keys_of : (x : Text × Member) (d : Dict Member) → Elem x d → Elem x.0 (keys d)
unfolding keys
Elem-keys_of x [] m = absurd m
Elem-keys_of x ((p, m) ∷ d) (inl e) = inl (ap (λ (y : Text × Member). y.0) e)
Elem-keys_of x ((p, m) ∷ d) (inr l) = inr (Elem-keys_of x d l)

lookup_own :
    (x : Text × Member) (d : Dict Member) → Unrepeated (keys d) → Elem x d → lookup x.0 d ≡ some x.1
unfolding lookup keys
lookup_own x [] h m = absurd m
lookup_own x ((p, m) ∷ d) (a, h) (inl e) =
    subst (λ (y : Text × Member). lookup y.0 ((p, m) ∷ d) ≡ some y.1) (sym e) (rw (text_eq_refl p))
lookup_own x ((p, m) ∷ d) (a, h) (inr l) = elim (Bool-cases (text_eq p x.0)) [
  | inl same ↦
      absurd
        (a (subst (λ k. Elem k (keys d)) (sym ((text_eq_iff p x.0).0 same)) (Elem-keys_of x d l)))
  | inr differ ↦ rw differ (lookup_own x d h l)
]

of_kind_members :
    (d : Dict Member) (x : Text × Member)
    → Elem x (of_kind is_hardlink d)
    → Elem x d × (is_hardlink x.1.kind ≡ true)
unfolding of_kind
of_kind_members [] x m = absurd m
of_kind_members ((p, m) ∷ d) x e = elim (Bool-cases (is_hardlink m.kind)) [
  | inr other ↦ let (l, k) = of_kind_members d x (rw other at e) in (inr l, k)
  | inl link ↦
      let e' : Elem x ((p, m) ∷ of_kind is_hardlink d) = rw link at e in
      elim e' [
        | inl same ↦
            (inl same, subst (λ (y : Text × Member). is_hardlink y.1.kind ≡ true) (sym same) link)
        | inr later ↦ let (l, k) = of_kind_members d x later in (inr l, k)
      ]
]

-- The hard links of an archive that is indexed are resolved in the order of their paths, each to a
-- regular file of the archive that it leads to, directly or by way of other hard links; or an
-- error is raised, which is never that the visits run out of their rounds.
pub hardlink_targets-IsLinked :
    (archive : List Member) {members : Dict Member}
    → index_members archive ≡ ok members
    → IsLinked members (sort_members (of_kind is_hardlink members)) (hardlink_targets members)
unfolding hardlink_targets index_members Own keys lookup
hardlink_targets-IsLinked archive {members} e =
    let different = index_from-Unrepeated archive [] tt e in
    visit_all-IsLinked (length (of_kind is_hardlink members) + 1) members
      (sort_members (of_kind is_hardlink members)) no_visits (omega arith)
      (sort_members-All _ (of_kind is_hardlink members) (
        All-intro _ (of_kind is_hardlink members) (λ x m.
          let (l, k) = of_kind_members members x m in (lookup_own x members different l, k))))
      (tt, tt, λ path found. cc)
