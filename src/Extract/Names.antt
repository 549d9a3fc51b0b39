-- ===== src/Extract/Names.antt =====
-- Which member names are accepted: `member_path` of mkosi/debian/extract_tree.py.
use rules_mkosi.Prelude.{
  ℕ, ◌==◌, ◌≡◌, refl, sym, subst, ◌∙◌, ◌⊎◌, inl, inr, false, ◌||◌, List, [], ◌∷◌, ◌++◌, ok, arith,
  All, All-append, IfOk-ok, Bool-cases,
}
use rules_mkosi.Prelude.Text.{Text, codes, text_eq, starts_with}
use rules_mkosi.Prelude.Paths.{split, join_path, join_parts, is_absolute, ends_with_slash}
use rules_mkosi.Extract.Error.{ExtractError}
use rules_mkosi.Extract.Components.{IsComponent, components_safe}
use rules_mkosi.Extract.Member.{
  strip_dots, pop_empty, is_unsafe, any_unsafe, joined_member, member_path,
}

Slashless : Text → Type 0
Slashless t = All (λ c. (c == b'/') ≡ false) t

IsPart : Text → Type 0
IsPart part = Slashless part × (is_unsafe part ≡ false)

split_cons : (s : Text) → (part : Text) × (parts : List Text) × (split b'/' s ≡ part ∷ parts)
unfolding split
split_cons [] = ([], [], refl)
split_cons (c ∷ s) =
    let (part, parts, e) = split_cons s in
    elim (Bool-cases (c == b'/')) [
      | inl slash ↦ ([], part ∷ parts, rw (e, slash))
      | inr other ↦ (c ∷ part, parts, rw (e, other))
    ]

split-Slashless : (s : Text) → All Slashless (split b'/' s)
unfolding split Slashless
split-Slashless [] = (tt, tt)
split-Slashless (c ∷ s) =
    let (part, parts, e) = split_cons s in
    let (h, k) : All Slashless (part ∷ parts) = subst (All Slashless) e (split-Slashless s) in
    elim (Bool-cases (c == b'/')) [
      | inl slash ↦ rw (e, slash) (tt, (h, k))
      | inr other ↦ rw (e, other) ((other, h), k)
    ]

split_one : (t : Text) → Slashless t → split b'/' t ≡ t ∷ []
unfolding split Slashless
split_one [] h = refl
split_one (c ∷ t) (other, h) = rw (split_one t h, other)

split-append : (s t : Text) → Slashless t → split b'/' (s ++ b'/' ∷ t) ≡ split b'/' s ++ t ∷ []
unfolding split
split-append [] t h = rw (split_one t h)
split-append (c ∷ s) t h =
    let (part, parts, e) = split_cons s in
    elim (Bool-cases (c == b'/')) [
      | inl slash ↦ rw (split-append s t h, e, slash)
      | inr other ↦ rw (split-append s t h, e, other)
    ]

-- A path that another part can follow.
IsReady : Text → Type 0
IsReady path = (text_eq path [] || ends_with_slash path) ≡ false

ends_with_slash-Slashless : (c : ℕ) (t : Text) → Slashless (c ∷ t) → ends_with_slash (c ∷ t) ≡ false
unfolding ends_with_slash Slashless
ends_with_slash-Slashless c [] (h, _) = h
ends_with_slash-Slashless c (d ∷ t) (_, h) = ends_with_slash-Slashless d t h

ends_with_slash-append :
    (s : Text) (c : ℕ) (t : Text) → ends_with_slash (s ++ (c ∷ t)) ≡ ends_with_slash (c ∷ t)
unfolding ends_with_slash
ends_with_slash-append [] c t = refl
ends_with_slash-append (d ∷ []) c t = refl
ends_with_slash-append (d ∷ d' ∷ s) c t = ends_with_slash-append (d' ∷ s) c t

IsPart-Ready : (part : Text) → IsPart part → IsReady part
unfolding IsPart IsReady is_unsafe text_eq
IsPart-Ready [] (_, h) = cc
IsPart-Ready (c ∷ t) (h, _) = ends_with_slash-Slashless c t h

join_path-Part :
    (path part : Text)
    → IsReady path
    → IsPart part
    → (join_path path part ≡ path ++ b'/' ∷ part) × IsReady (path ++ b'/' ∷ part)
unfolding IsReady IsPart join_path is_absolute is_unsafe text_eq Slashless
join_path-Part [] part h k = cc
join_path-Part (c ∷ path) [] h (_, k) = cc
join_path-Part (c ∷ path) (d ∷ part) h ((other, k), safe) = (
  rw (other, h),
  ends_with_slash-append (c ∷ path) b'/' (d ∷ part)
      ∙ ends_with_slash-append (b'/' ∷ []) d part
      ∙ ends_with_slash-Slashless d part (other, k),
)

IsSafe : Text → Type 0
IsSafe part = is_unsafe part ≡ false

join_parts-Safe :
    (path : Text) (parts : List Text)
    → IsReady path
    → All IsSafe (split b'/' path)
    → All IsPart parts
    → All IsSafe (split b'/' (join_parts path parts))
unfolding join_parts IsPart IsSafe
join_parts-Safe path [] h k l = k
join_parts-Safe path (part ∷ parts) h k (l, ls) =
    let (joined, ready) = join_path-Part path part h l in
    rw joined (
      join_parts-Safe (path ++ b'/' ∷ part) parts ready
        (subst (All IsSafe) (sym (split-append path part l.0))
          (All-append IsSafe (split b'/' path) (part ∷ []) k (l.1, tt)))
        ls)

pop_empty-All : (P : Text → Type 0) (parts : List Text) → All P parts → All P (pop_empty parts)
unfolding pop_empty
pop_empty-All P [] h = tt
pop_empty-All P (part ∷ []) (p, h) = elim (Bool-cases (text_eq part [])) [
  | inl empty ↦ rw empty tt
  | inr other ↦ rw other (p, tt)
]
pop_empty-All P (part ∷ part' ∷ parts) (p, h) = (p, pop_empty-All P (part' ∷ parts) h)

parts-IsPart :
    (parts : List Text) → All Slashless parts → any_unsafe parts ≡ false → All IsPart parts
unfolding any_unsafe IsPart
parts-IsPart [] h e = tt
parts-IsPart (part ∷ parts) (p, h) e = ((p, ground arith), parts-IsPart parts h (ground arith))

-- The archive root, or a path of parts that are not empty, "." or "..".
abbrev pub IsMemberPath : Text → Type 0
IsMemberPath path = (path ≡ []) ⊎ All IsComponent (split b'/' path)

joined_member-IsMemberPath :
    (parts : List Text) {path : Text}
    → All Slashless parts
    → joined_member parts ≡ ok path
    → IsMemberPath path
unfolding joined_member IsPart IsSafe
joined_member-IsMemberPath [] h e = cc
joined_member-IsMemberPath (part ∷ parts) h e = elim (Bool-cases (any_unsafe (part ∷ parts))) [
  | inl unsafe ↦ absurd (let e' = rw unsafe at e in cc)
  | inr safe ↦
      let (p, ps) : All IsPart (part ∷ parts) = parts-IsPart (part ∷ parts) h safe in
      let start : All IsSafe (split b'/' part) =
        subst (All IsSafe) (sym (split_one part p.0)) (p.1, tt) in
      let all_safe = join_parts-Safe part parts (IsPart-Ready part p) start ps in
      IfOk-ok {E = ExtractError} IsMemberPath (ok (join_parts part parts)) (rw safe at e)
        (inr (components_safe (split b'/' (join_parts part parts)) all_safe))
]

-- An accepted member name gives the archive root or a path below it: every component of the path is
-- a name, so it is relative, and neither leaves the root nor names a directory twice.
pub member_path-IsMemberPath :
    (name : Text) {path : Text} → member_path name ≡ ok path → IsMemberPath path
unfolding member_path
member_path-IsMemberPath name {path} e =
    let parts = split b'/' (strip_dots name) in
    elim (Bool-cases (starts_with name (codes "/"))) [
      | inl absolute ↦ absurd (let e' = rw absolute at e in cc)
      | inr relative ↦
          elim (Bool-cases
            (text_eq (strip_dots name) [] || text_eq (strip_dots name) (codes "."))) [
              | inl root ↦ inl (ground arith)
              | inr other ↦
                  joined_member-IsMemberPath (pop_empty parts)
                    (pop_empty-All Slashless parts (split-Slashless (strip_dots name)))
                    (rw (relative, other) at e)
            ]
    ]
