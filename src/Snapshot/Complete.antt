-- ===== src/Snapshot/Complete.antt =====
-- Which locked packages are staged: `_stage_packages` of mkosi/private/debian_snapshot.py.
use rules_mkosi.Prelude.{
  guard-eq-ok, ◌≡◌, refl, sym, ◌∙◌, subst, inl, inr, true, ◌&&◌, &&-eq-true, List, [], ◌∷◌, Option,
  none, some, ok, >>=-eq-ok, arith, Elem, Bool-cases, IfOk-ok, map,
}
use rules_mkosi.Prelude.Text.{Text, text_eq, text_eq_iff, text_eq_refl, contains}
use rules_mkosi.Prelude.Bytes.{Bytes}
use rules_mkosi.Prelude.Dict.{Dict, lookup, insert, lookup-insert, keys}
use rules_mkosi.Snapshot.Error.{SnapshotError, unmatched_names}
use rules_mkosi.Snapshot.Indexes.{Arguments, verify_package}
use rules_mkosi.Snapshot.Packages.{Locked, safe_package_path}
use rules_mkosi.Snapshot.Stage.{
  Tree, records_by_name, all_among, stage_package, stage_files, stage_packages,
}
use rules_mkosi.Snapshot.Files.{copy_lem}
use rules_mkosi.Snapshot.Locks.{AreDistinct, safe_package_path_lem}

-- There is a file at a path.
abbrev pub IsThere : Tree → Text → Type 0
IsThere tree path = (file : Bytes) × (lookup path tree ≡ some file)

IsThere-insert :
    (path other : Text) (file : Bytes) (tree : Tree)
    → IsThere tree path
    → IsThere (insert other file tree) path
IsThere-insert path other file tree (own, at_path) = elim (Bool-cases (text_eq other path)) [
  | inl same ↦ (file, rw (lookup-insert other path file tree, same))
  | inr differ ↦ (own, rw (lookup-insert other path file tree, differ) at_path)
]

insert-IsThere : (path : Text) (file : Bytes) (tree : Tree) → IsThere (insert path file tree) path
insert-IsThere path file tree = (file, rw (lookup-insert path path file tree, text_eq_refl path))

other_name :
    (name : Text) (l : Locked) (ls : List Locked) (records : Dict Locked)
    → (Elem name (map (λ k. k.local_name) (l ∷ ls)) → ⊥)
    → lookup name (insert l.local_name l records) ≡ lookup name records
other_name name l ls records n = elim (Bool-cases (text_eq l.local_name name)) [
  | inl same ↦ absurd (n (inl (sym ((text_eq_iff l.local_name name).0 same))))
  | inr differ ↦ rw (lookup-insert l.local_name name l records, differ)
]

lookup-records_other :
    (name : Text) (ls : List Locked) (records : Dict Locked)
    → (Elem name (map (λ l. l.local_name) ls) → ⊥)
    → lookup name (records_by_name ls records) ≡ lookup name records
unfolding records_by_name
lookup-records_other name [] records n = refl
lookup-records_other name (l ∷ ls) records n =
    lookup-records_other name ls (insert l.local_name l records) (λ m. n (inr m))
    ∙ other_name name l ls records n

-- The local name of every package leads to it.
lookup-records_by_name :
    (ls : List Locked) (records : Dict Locked) (l : Locked)
    → AreDistinct (λ k. k.local_name) ls
    → Elem l ls
    → lookup l.local_name (records_by_name ls records) ≡ some l
unfolding records_by_name
lookup-records_by_name [] records l d m = absurd m
lookup-records_by_name (x ∷ ls) records l (c, d) (inr m) =
    lookup-records_by_name ls (insert x.local_name x records) l d m
lookup-records_by_name (x ∷ ls) records l (c, d) (inl e) =
    subst (λ k. lookup k.local_name (records_by_name ls (insert x.local_name x records)) ≡ some k)
      (sym e)
      (lookup-records_other x.local_name ls (insert x.local_name x records) c
        ∙ rw (lookup-insert x.local_name x.local_name x records, text_eq_refl x.local_name))

contains-keys :
    {V : Type 0} (name : Text) (d : Dict V) {v : V}
    → lookup name d ≡ some v
    → contains name (keys d) ≡ true
unfolding lookup keys contains
contains-keys name [] e = cc
contains-keys name ((k, w) ∷ d) e = elim (Bool-cases (text_eq k name)) [
  | inl same ↦ ground (arith, text_eq_iff k name, text_eq_iff name k)
  | inr differ ↦ let rest = contains-keys name d (rw (differ, lookup) at e) in ground arith
]

all_among_lem :
    (name : Text) (names others : List Text)
    → all_among names others ≡ true
    → contains name names ≡ true
    → contains name others ≡ true
unfolding all_among contains
all_among_lem name [] others h m = cc
all_among_lem name (n ∷ names) others h m =
    let (a, b) = &&-eq-true (contains n others) (all_among names others) h in
    elim (Bool-cases (text_eq name n)) [
      | inl same ↦ subst (λ t. contains t others ≡ true) (sym ((text_eq_iff name n).0 same)) a
      | inr differ ↦ all_among_lem name names others b (ground arith)
    ]

module _ (sha256 : Bytes → Text) where
  stage_package-insert :
      (file : Bytes) (l : Locked) (tree : Tree) {tree' : Tree}
      → stage_package sha256 file (some l) tree ≡ ok tree'
      → insert l.filename file tree ≡ tree'
  unfolding stage_package
  stage_package-insert file l tree {tree'} e =
      let (_, _, e₁) = >>=-eq-ok (verify_package sha256 file l.digest l.size) _ e in
      let (path, safe, e₂) = >>=-eq-ok (safe_package_path l.filename) _ e₁ in
      subst (λ p. insert p file tree ≡ tree') (sym (safe_package_path_lem l.filename safe).0)
        (copy_lem file path tree e₂)

  stage_package-IsThere :
      (file : Bytes) (found : Option Locked) (tree : Tree) (path : Text) {tree' : Tree}
      → stage_package sha256 file found tree ≡ ok tree'
      → IsThere tree path
      → IsThere tree' path
  unfolding stage_package
  stage_package-IsThere file none tree path e h = cc
  stage_package-IsThere file (some l) tree path e h =
      subst (λ t. IsThere t path) (stage_package-insert file l tree e)
        (IsThere-insert path l.filename file tree h)

  stage_files-IsThere :
      (files : List Bytes) (names : List Text) (records : Dict Locked) (tree : Tree) (path : Text)
      {tree' : Tree}
      → stage_files sha256 files names records tree ≡ ok tree'
      → IsThere tree path
      → IsThere tree' path
  unfolding stage_files
  stage_files-IsThere [] [] records tree path e h =
      IfOk-ok {E = SnapshotError} (λ t. IsThere t path) (ok tree) e h
  stage_files-IsThere [] (name ∷ names) records tree path e h = cc
  stage_files-IsThere (file ∷ files) [] records tree path e h = cc
  stage_files-IsThere (file ∷ files) (name ∷ names) records tree path e h =
      let (tree₁, first, e') =
        >>=-eq-ok (stage_package sha256 file (lookup name records) tree) _ e in
      stage_files-IsThere files names records tree₁ path e'
        (stage_package-IsThere file (lookup name records) tree path first h)

  -- Every package whose name is given is staged.
  stage_files-lookup :
      (files : List Bytes) (names : List Text) (records : Dict Locked) (tree : Tree) (name : Text)
      (l : Locked) {tree' : Tree}
      → stage_files sha256 files names records tree ≡ ok tree'
      → lookup name records ≡ some l
      → contains name names ≡ true
      → IsThere tree' l.filename
  unfolding stage_files contains
  stage_files-lookup files [] records tree name l e found m = cc
  stage_files-lookup [] (n ∷ names) records tree name l e found m = cc
  stage_files-lookup (file ∷ files) (n ∷ names) records tree name l e found m =
      let (tree₁, first, e') = >>=-eq-ok (stage_package sha256 file (lookup n records) tree) _ e in
      elim (Bool-cases (text_eq name n)) [
        | inr differ ↦ stage_files-lookup files names records tree₁ name l e' found (ground arith)
        | inl same ↦
            let found' : lookup n records ≡ some l =
              subst (λ t. lookup t records ≡ some l) ((text_eq_iff name n).0 same) found in
            stage_files-IsThere files names records tree₁ l.filename e' (
              subst (λ t. IsThere t l.filename)
                (stage_package-insert file l tree
                  (subst (λ o. stage_package sha256 file o tree ≡ ok tree₁) found' first))
                (insert-IsThere l.filename file tree))
      ]

  pub stage_packages-IsThere :
      (args : Arguments) (expected : List Locked) (tree : Tree) {tree' : Tree}
      → AreDistinct (λ l. l.local_name) expected
      → stage_packages sha256 args expected tree ≡ ok tree'
      → (l : Locked) → Elem l expected
      → IsThere tree' l.filename
  unfolding stage_packages
  stage_packages-IsThere args expected tree d e l m =
      let records = records_by_name expected [] in
      let (h, e') =
        guard-eq-ok
          (all_among (keys records) args.package_names
            && all_among args.package_names (keys records))
          unmatched_names _ e in
      let (every, _) =
        &&-eq-true (all_among (keys records) args.package_names)
          (all_among args.package_names (keys records)) h in
      let found = lookup-records_by_name expected [] l d m in
      stage_files-lookup args.packages args.package_names records tree l.local_name l e' found (
        all_among_lem l.local_name (keys records) args.package_names every
          (contains-keys l.local_name records found))
