-- ===== src/Snapshot/Pool.antt =====
-- The files below "pool/": `_stage_packages` of mkosi/private/debian_snapshot.py.
use rules_mkosi.Prelude.{
  guard-eq-ok, guard-true, ℕ, ◌==◌, ==_iff, ◌≡◌, refl, subst, true, ◌&&◌, List, [], ◌∷◌, Option,
  none, some, ok, >>=-eq-ok, All, Elem, IfOk-ok, length,
}
use rules_mkosi.Prelude.Text.{Text, codes, text_eq, text_eq_iff, starts_with}
use rules_mkosi.Prelude.Bytes.{Bytes}
use rules_mkosi.Prelude.Dict.{Dict, lookup, insert, keys, Entries, Entries-insert, Entries-lookup}
use rules_mkosi.Snapshot.Error.{SnapshotError, digest_mismatch, size_mismatch, unmatched_names}
use rules_mkosi.Snapshot.Indexes.{Arguments, Index, verify_indexes, verify_digest, verify_package}
use rules_mkosi.Snapshot.Packages.{Locked, safe_package_path}
use rules_mkosi.Snapshot.Locks.{safe_package_path_lem}
use rules_mkosi.Snapshot.Files.{NoPool, copy_lem}
use rules_mkosi.Snapshot.Stage.{
  Tree, stage_package, stage_files, stage_packages, all_among, records_by_name,
}

module _ (P : Locked → Type 0) where
  records_by_name-Entries :
      (ls : List Locked) (records : Dict Locked)
      → All P ls
      → Entries (λ name l. P l) records
      → Entries (λ name l. P l) (records_by_name ls records)
  unfolding records_by_name
  records_by_name-Entries [] records h k = k
  records_by_name-Entries (l ∷ ls) records (p, h) k =
      records_by_name-Entries ls (insert l.local_name l records) h
        (Entries-insert (λ name l'. P l') l.local_name l records p k)

module _ (sha256 : Bytes → Text) where
  pub verify_indexes_lem :
      (is : List Index) {u : Unit {0}}
      → verify_indexes sha256 is ≡ ok u
      → All (λ (i : Index). sha256 i.file ≡ i.digest) is
  unfolding verify_indexes verify_digest
  verify_indexes_lem [] e = tt
  verify_indexes_lem (i ∷ is) e =
      let (same, e') = guard-eq-ok (text_eq (sha256 i.file) i.digest) digest_mismatch _ e in
      ((text_eq_iff (sha256 i.file) i.digest).0 same, verify_indexes_lem is e')

  verify_package_lem :
      (file : Bytes) (digest : Text) (size : ℕ) {u : Unit {0}}
      → verify_package sha256 file digest size ≡ ok u
      → (sha256 file ≡ digest) × (length file ≡ size)
  unfolding verify_package verify_digest
  verify_package_lem file digest size e =
      let (same, e') = guard-eq-ok (text_eq (sha256 file) digest) digest_mismatch _ e in
      (
        (text_eq_iff (sha256 file) digest).0 same,
        (==_iff (length file) size).0 (guard-true (length file == size) size_mismatch e'),
      )

module _ (sha256 : Bytes → Text) (R : Text × ℕ × Text → Type 0) where
  -- A file of the pool has metadata of which `R` holds.
  abbrev pub PoolFile : Text → Bytes → Type 0
  PoolFile path file = starts_with path (codes "pool/") ≡ true → R (path, length file, sha256 file)

  abbrev pub Describes : Locked → Type 0
  Describes l = R (l.filename, l.size, l.digest)

  stage_package-Pool :
      (file : Bytes) (found : Option Locked) (tree : Tree) {tree' : Tree}
      → ((l : Locked) → found ≡ some l → Describes l)
      → Entries PoolFile tree
      → stage_package sha256 file found tree ≡ ok tree'
      → Entries PoolFile tree'
  unfolding stage_package
  stage_package-Pool file none tree d h e = cc
  stage_package-Pool file (some l) tree d h e =
      let (_, checked, e₁) = >>=-eq-ok (verify_package sha256 file l.digest l.size) _ e in
      let (path, safe, e₂) = >>=-eq-ok (safe_package_path l.filename) _ e₁ in
      let (same, long) = verify_package_lem sha256 file l.digest l.size checked in
      subst (Entries PoolFile) (copy_lem file path tree e₂) (
        Entries-insert PoolFile path file tree
          (λ pool. subst R (rw (same, long, (safe_package_path_lem l.filename safe).0)) (d l refl))
          h)

  stage_files-Pool :
      (files : List Bytes) (names : List Text) (records : Dict Locked) (tree : Tree) {tree' : Tree}
      → Entries (λ name l. Describes l) records
      → Entries PoolFile tree
      → stage_files sha256 files names records tree ≡ ok tree'
      → Entries PoolFile tree'
  unfolding stage_files
  stage_files-Pool [] [] records tree d h e =
      IfOk-ok {E = SnapshotError} (Entries PoolFile) (ok tree) e h
  stage_files-Pool [] (name ∷ names) records tree d h e = cc
  stage_files-Pool (file ∷ files) [] records tree d h e = cc
  stage_files-Pool (file ∷ files) (name ∷ names) records tree d h e =
      let (tree₁, first, e') =
        >>=-eq-ok (stage_package sha256 file (lookup name records) tree) _ e in
      stage_files-Pool files names records tree₁ d
        (stage_package-Pool file (lookup name records) tree
          (λ l found. Entries-lookup (λ name l'. Describes l') name records d found) h first)
        e'

  pub stage_packages-Pool :
      (args : Arguments) (expected : List Locked) (tree : Tree) {tree' : Tree}
      → All Describes expected
      → Entries PoolFile tree
      → stage_packages sha256 args expected tree ≡ ok tree'
      → Entries PoolFile tree'
  unfolding stage_packages
  stage_packages-Pool args expected tree d h e =
      let records = records_by_name expected [] in
      let (_, e') =
        guard-eq-ok
          (all_among (keys records) args.package_names
            && all_among args.package_names (keys records))
          unmatched_names _ e in
      stage_files-Pool args.packages args.package_names records tree
        (records_by_name-Entries Describes expected [] d tt) h e'

pub NoPool-PoolFile :
    (sha256 : Bytes → Text) (R : Text × ℕ × Text → Type 0) (tree : Tree)
    → NoPool tree
    → Entries (PoolFile sha256 R) tree
NoPool-PoolFile sha256 R [] h = tt
NoPool-PoolFile sha256 R ((path, file) ∷ tree) (p, h) =
    ((λ pool. absurd (let q = rw p at pool in cc)), NoPool-PoolFile sha256 R tree h)

-- A locked package with the metadata.
abbrev pub IsLocked : List Locked → Text × ℕ × Text → Type 0
IsLocked locked m = (l : Locked) × Elem l locked × ((l.filename, l.size, l.digest) ≡ m)
