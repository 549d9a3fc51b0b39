-- ===== src/Debian/Records/Checked.antt =====
-- What the package records of an index have: `parse_packages` of mkosi/debian/generate_lock.py.
use rules_mkosi.Prelude.{
  ◌==◌, ◌≡◌, refl, subst, inl, inr, Bool, true, false, not, ◌&&◌, List, [], ◌∷◌, Option,
  if◌then◌else◌, map, ok, >>=-eq-ok, arith, All, Bool-cases, Option-cases, IfOk, IfOk-ok,
  List-cases,
}
use rules_mkosi.Prelude.Text.{Text, codes, text_eq, is_numeric, starts_with, strip}
use rules_mkosi.Prelude.Dict.{Dict, lookup, lookup_or}
use rules_mkosi.Prelude.Paths.{split}
use rules_mkosi.Debian.Error.{LockError}
use rules_mkosi.Debian.Package.{Relation, Package}
use rules_mkosi.Debian.Relations.{
  parse_relation, parse_group, parse_groups, or_empty, parse_relations, parse_provides,
}
use rules_mkosi.Debian.Relations.Forms.{IsRelation}
use rules_mkosi.Debian.Relations.Grammar.{parse_relation-IsRelation}
use rules_mkosi.Debian.Records.{
  lock_paragraphs, is_sha256, is_index_architecture, is_nonempty, is_complete, complete_record,
  package_record, package_records, parse_packages,
}

-- Alternatives that the pattern of a relation allows.
abbrev pub AreRelations : List (List Relation) → Type 0
AreRelations groups = All (λ group. All IsRelation group) groups

parse_group-Relations :
    (texts : List Text) {group : List Relation}
    → parse_group texts ≡ ok group
    → All IsRelation group
unfolding parse_group
parse_group-Relations [] e = IfOk-ok {E = LockError} (All IsRelation) (ok []) e tt
parse_group-Relations (t ∷ texts) e = elim (Option-cases (parse_relation (strip t))) [
  | inl malformed ↦ absurd (let e' = rw (parse_group, malformed) at e in cc)
  | inr (r, found) ↦
      let (rest, others, e') = >>=-eq-ok (parse_group texts) _ (rw (parse_group, found) at e) in
      IfOk-ok {E = LockError} (All IsRelation) (ok (r ∷ rest)) e'
        ((parse_relation-IsRelation (strip t) found).0, parse_group-Relations texts others)
]

parse_groups-AreRelations :
    (texts : List Text) {groups : List (List Relation)}
    → parse_groups texts ≡ ok groups
    → AreRelations groups
unfolding parse_groups
parse_groups-AreRelations [] e = IfOk-ok {E = LockError} AreRelations (ok []) e tt
parse_groups-AreRelations (t ∷ texts) e = elim (List-cases (strip t)) [
  | inl empty ↦ parse_groups-AreRelations texts (rw (parse_groups, empty) at e)
  | inr (c, s, text) ↦
      let (group, parsed, e₁) =
        >>=-eq-ok (parse_group (split b'|' t)) _ (rw (parse_groups, text) at e) in
      let (rest, others, e₂) = >>=-eq-ok (parse_groups texts) _ e₁ in
      IfOk-ok {E = LockError} AreRelations (ok (group ∷ rest)) e₂
        (parse_group-Relations (split b'|' t) parsed, parse_groups-AreRelations texts others)
]

parse_relations-AreRelations :
    (value : Option Text) {groups : List (List Relation)}
    → parse_relations value ≡ ok groups
    → AreRelations groups
unfolding parse_relations
parse_relations-AreRelations value e =
    parse_groups-AreRelations (split b',' (map (λ c. if c == 10 then 32 else c) (or_empty value))) e

-- A record of an index: its architecture can be installed, its digest is a SHA-256, its file is in
-- the pool, and its dependencies are relations.
abbrev pub IsRecord : Text → Text → Package → Type 0
IsRecord component index_architecture p =
    (is_index_architecture p.architecture ≡ true)
    × ((text_eq index_architecture (codes "all") && not (text_eq p.architecture (codes "all")))
        ≡ false)
    × (p.component ≡ component)
    × (is_sha256 p.sha256 ≡ true)
    × (starts_with p.filename (codes "pool/") ≡ true)
    × AreRelations p.pre_depends
    × AreRelations p.depends

last_two : (a b c d e : Bool) → (a && b && c && d && e) ≡ true → (d ≡ true) × (e ≡ true)
last_two a b c d e h = ground arith

complete_parts :
    (p : Dict Text)
    → is_complete p ≡ true
    → (is_sha256 (lookup_or [] (codes "SHA256") p) ≡ true)
      × (starts_with (lookup_or [] (codes "Filename") p) (codes "pool/") ≡ true)
unfolding is_complete
complete_parts p h =
    last_two (is_nonempty (lookup (codes "Package") p)) (is_nonempty (lookup (codes "Version") p))
      (is_numeric (lookup_or [] (codes "Size") p)) (is_sha256 (lookup_or [] (codes "SHA256") p))
      (starts_with (lookup_or [] (codes "Filename") p) (codes "pool/")) h

complete_record-IsRecord :
    (p : Dict Text) (architecture component index_architecture : Text) {r : Package}
    → is_index_architecture architecture ≡ true
    → (text_eq index_architecture (codes "all") && not (text_eq architecture (codes "all"))) ≡ false
    → is_complete p ≡ true
    → complete_record p architecture component ≡ ok r
    → IsRecord component index_architecture r
unfolding complete_record
complete_record-IsRecord p architecture component index_architecture {r} supported native complete
      e =
    let (pre, pre_parsed, e₁) = >>=-eq-ok (parse_relations (lookup (codes "Pre-Depends") p)) _ e in
    let (deps, deps_parsed, e₂) = >>=-eq-ok (parse_relations (lookup (codes "Depends") p)) _ e₁ in
    let (provides, _, e₃) = >>=-eq-ok (parse_provides (lookup (codes "Provides") p)) _ e₂ in
    let (digest, pool) = complete_parts p complete in
    subst (IfOk (IsRecord component index_architecture)) e₃ (
      supported,
      native,
      refl,
      digest,
      pool,
      parse_relations-AreRelations (lookup (codes "Pre-Depends") p) pre_parsed,
      parse_relations-AreRelations (lookup (codes "Depends") p) deps_parsed,
    )

package_record-IsRecord :
    (p : Dict Text) (component index_architecture : Text) {r : Package}
    → package_record p component index_architecture ≡ ok r
    → IsRecord component index_architecture r
unfolding package_record
package_record-IsRecord p component index_architecture {r} e =
    let architecture = lookup_or [] (codes "Architecture") p in
    let foreign =
      text_eq index_architecture (codes "all") && not (text_eq architecture (codes "all")) in
    elim (Bool-cases (is_index_architecture architecture)) [
      | inr no_arch ↦ absurd (let e' = rw (package_record, no_arch) at e in cc)
      | inl supported ↦ elim (Bool-cases foreign) [
        | inl is_foreign ↦ absurd (let e' = rw (package_record, supported, is_foreign) at e in cc)
        | inr native ↦ elim (Bool-cases (is_complete p)) [
          | inr lacks ↦ absurd (let e' = rw (package_record, supported, native, lacks) at e in cc)
          | inl complete ↦
              complete_record-IsRecord p architecture component index_architecture supported native
                complete (rw (package_record, supported, native, complete) at e)
        ]
      ]
    ]

package_records-All :
    (ps : List (Dict Text)) (component index_architecture : Text) {rs : List Package}
    → package_records ps component index_architecture ≡ ok rs
    → All (IsRecord component index_architecture) rs
unfolding package_records
package_records-All [] component index_architecture e =
    IfOk-ok {E = LockError} (All (IsRecord component index_architecture)) (ok []) e tt
package_records-All (p ∷ ps) component index_architecture e =
    let (r, first, e₁) = >>=-eq-ok (package_record p component index_architecture) _ e in
    let (rest, others, e₂) = >>=-eq-ok (package_records ps component index_architecture) _ e₁ in
    IfOk-ok {E = LockError} (All (IsRecord component index_architecture)) (ok (r ∷ rest)) e₂ (
      package_record-IsRecord p component index_architecture first,
      package_records-All ps component index_architecture others,
    )

-- Every package of an index that is parsed has an architecture of the index, the component of the
-- index, a SHA-256 in hexadecimal digits, a file in the pool, and relations in its dependencies.
pub parse_packages-Records :
    (text component index_architecture : Text) {packages : List Package}
    → parse_packages text component index_architecture ≡ ok packages
    → All (IsRecord component index_architecture) packages
unfolding parse_packages
parse_packages-Records text component index_architecture e =
    let (ps, _, e') = >>=-eq-ok (lock_paragraphs text) _ e in
    package_records-All ps component index_architecture e'
