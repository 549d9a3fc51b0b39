-- ===== src/Extract/Kinds.antt =====
-- The members of a kind, by their paths.
use rules_mkosi.Prelude.{
  suc, ◌≤◌, ◌≡◌, refl, sym, ap, subst, Bool, true, List, [], ◌∷◌, none, some, length, arith, All,
  Elem, inl, inr, Bool-cases,
}
use rules_mkosi.Prelude.Distinct.{Unrepeated, length-Unrepeated}
use rules_mkosi.Prelude.Text.{Text, text_eq, text_eq_iff}
use rules_mkosi.Prelude.Dict.{Dict, lookup, keys}
use rules_mkosi.Extract.Member.{Kind, Member, of_kind}

-- A path of a member whose kind passes a test.
abbrev pub HasKind : (Kind → Bool) → Dict Member → Text → Type 0
HasKind test members path =
    (member : Member) × (lookup path members ≡ some member) × (test member.kind ≡ true)

HasKind-keys :
    (test : Kind → Bool) (members : Dict Member) (path : Text)
    → HasKind test members path
    → Elem path (keys (of_kind test members))
unfolding lookup of_kind keys
HasKind-keys test [] path (m, e, _) = cc
HasKind-keys test ((p, m) ∷ members) path (m', e, k) = elim (Bool-cases (text_eq p path)) [
  | inl same ↦
      let same_member : some m ≡ some m' = rw same at e in
      let link : test m.kind ≡ true =
        subst (λ o. elim o [ none ↦ Unit | some x ↦ test x.kind ≡ true ]) (sym same_member) k in
      rw link (inl (sym ((text_eq_iff p path).0 same)))
  | inr differ ↦
      let later = HasKind-keys test members path (m', rw differ at e, k) in
      elim (Bool-cases (test m.kind)) [
        | inl link ↦ rw link (inr later)
        | inr other ↦ rw other later
      ]
]

length-keys : (members : Dict Member) → length (keys members) ≡ length members
unfolding keys
length-keys [] = refl
length-keys ((p, m) ∷ members) = ap suc (length-keys members)

All-keys :
    (test : Kind → Bool) (members : Dict Member) (paths : List Text)
    → All (HasKind test members) paths
    → All (λ p. Elem p (keys (of_kind test members))) paths
All-keys test members [] h = tt
All-keys test members (p ∷ paths) (a, h) =
    (HasKind-keys test members p a, All-keys test members paths h)

-- Different paths of a kind are at most as many as the members of the kind.
pub length-HasKind :
    (test : Kind → Bool) (members : Dict Member) (paths : List Text)
    → All (HasKind test members) paths
    → Unrepeated paths
    → length paths ≤ length (of_kind test members)
length-HasKind test members paths h different = omega (
  arith,
  length-keys (of_kind test members),
  length-Unrepeated paths (keys (of_kind test members)) different (All-keys test members paths h),
)
