-- ===== src/Snapshot/Authentic.antt =====
-- What a staged snapshot is: `stage` of mkosi/private/debian_snapshot.py.
use rules_mkosi.Prelude.{
  guard-eq-ok, ℕ, ◌≡◌, refl, sym, ◌∙◌, ap, inl, inr, ◌⊎◌, true, ◌||◌, List, [], ◌∷◌, ◌++◌, Outcome,
  ok, >>=-eq-ok, arith, All, All-intro, All-Elem, Elem, Bool-cases, length, some,
}
use rules_mkosi.Prelude.Text.{Text, codes, text_eq, text_eq_iff, starts_with}
use rules_mkosi.Prelude.Bytes.{Bytes}
use rules_mkosi.Prelude.Dict.{lookup, Entries-lookup}
use rules_mkosi.Snapshot.Error.{SnapshotError, invalid_codename, digest_mismatch, release_mismatch}
use rules_mkosi.Snapshot.Indexes.{
  Arguments, Index, is_identifier, component_indexes, verify_digest, verify_input_digests,
}
use rules_mkosi.Snapshot.Release.{verify_authenticated_release, all_listed}
use rules_mkosi.Snapshot.Packages.{Locked, locked_packages}
use rules_mkosi.Snapshot.Metadata.{verify_package_metadata}
use rules_mkosi.Snapshot.Listed.{IsListed, all_listed-IsListed}
use rules_mkosi.Snapshot.Recorded.{LockedRecorded, verify_package_metadata-Recorded}
use rules_mkosi.Snapshot.Locks.{IsBelowPool, AreLocks, AreDistinct-unique, locked_packages-AreLocks}
use rules_mkosi.Snapshot.Complete.{stage_packages-IsThere}
use rules_mkosi.Snapshot.Files.{NoPool, stage_release_files_lem}
use rules_mkosi.Snapshot.Pairs.{component_indexes-AreIndexes}
use rules_mkosi.Snapshot.Pool.{
  PoolFile, Describes, IsLocked, verify_indexes_lem, stage_packages-Pool, NoPool-PoolFile,
}
use rules_mkosi.Snapshot.Stage.{Tree, stage_release_files, stage_packages, stage}

module _ (sha256 : Bytes → Text) where
  -- A file of the tree, with its digest and size.
  abbrev pub IsFile : Tree → Text → Text → ℕ → Type 0
  IsFile tree path digest size =
      (file : Bytes) × (lookup path tree ≡ some file)
      × (sha256 file ≡ digest)
      × (length file ≡ size)

  -- The pool of a tree: the file of every locked package, with its digest and size, and no other.
  abbrev pub IsPoolOf : List Locked → Tree → Type 0
  IsPoolOf locked tree =
      ((l : Locked) → Elem l locked → IsFile tree l.filename l.digest l.size)
      × ((path : Text) (file : Bytes)
          → starts_with path (codes "pool/") ≡ true
          → lookup path tree ≡ some file
          → (l : Locked) × Elem l locked × (l.filename ≡ path))

  stage_packages-IsPoolOf :
      (args : Arguments) (locked : List Locked) (tree : Tree) {tree' : Tree}
      → AreLocks locked
      → NoPool tree
      → stage_packages sha256 args locked tree ≡ ok tree'
      → IsPoolOf locked tree'
  stage_packages-IsPoolOf args locked tree {tree'} (keys, paths, names, pools) h e =
      let all = All-intro (Describes sha256 (IsLocked locked)) locked (λ l m. (l, m, refl)) in
      let entries =
        stage_packages-Pool sha256 (IsLocked locked) args locked tree all
          (NoPool-PoolFile sha256 (IsLocked locked) tree h) e in
      let found =
        λ (path : Text) (file : Bytes) (pool : starts_with path (codes "pool/") ≡ true)
            (at_path : lookup path tree' ≡ some file).
          Entries-lookup (PoolFile sha256 (IsLocked locked)) path tree' entries at_path pool in
      (
        λ l m.
            let (file, at_path) = stage_packages-IsThere sha256 args locked tree names e l m in
            let (pool, _) = All-Elem (λ (k : Locked). IsBelowPool k.filename) locked pools l m in
            let (k, n, same) = found l.filename file pool at_path in
            let one : k ≡ l =
              AreDistinct-unique (λ i. i.filename) locked k l paths n m
                (ap (λ (x : Text × ℕ × Text). x.0) same) in
            (
              file,
              at_path,
              sym (ap (λ (x : Text × ℕ × Text). x.2) same) ∙ ap (λ (i : Locked). i.digest) one,
              sym (ap (λ (x : Text × ℕ × Text). x.1) same) ∙ ap (λ (i : Locked). i.size) one,
            ),
        λ path file pool at_path.
            let (l, m, same) = found path file pool at_path in
            (l, m, ap (λ (x : Text × ℕ × Text). x.0) same),
      )

-- The digests of the three Release files.
abbrev pub HasDigests : (Bytes → Text) → Arguments → Type 0
HasDigests sha256 args =
    (sha256 args.inrelease ≡ args.inrelease_sha256)
    × (sha256 args.release ≡ args.release_sha256)
    × (sha256 args.release_gpg ≡ args.release_gpg_sha256)

verify_input_digests_lem :
    (sha256 : Bytes → Text) (args : Arguments) (indexes : List Index) {u : Unit {0}}
    → verify_input_digests sha256 args indexes ≡ ok u
    → HasDigests sha256 args × All (λ (i : Index). sha256 i.file ≡ i.digest) indexes
unfolding verify_input_digests verify_digest
verify_input_digests_lem sha256 args indexes e =
    let (a, e₁) =
      guard-eq-ok (text_eq (sha256 args.inrelease) args.inrelease_sha256) digest_mismatch _ e in
    let (b, e₂) =
      guard-eq-ok (text_eq (sha256 args.release) args.release_sha256) digest_mismatch _ e₁ in
    let (c, e₃) =
      guard-eq-ok (text_eq (sha256 args.release_gpg) args.release_gpg_sha256) digest_mismatch _
        e₂ in
    (
      (
        (text_eq_iff (sha256 args.inrelease) args.inrelease_sha256).0 a,
        (text_eq_iff (sha256 args.release) args.release_sha256).0 b,
        (text_eq_iff (sha256 args.release_gpg) args.release_gpg_sha256).0 c,
      ),
      verify_indexes_lem sha256 indexes e₃,
    )

either : (s t u : Text) → (text_eq s u || text_eq t u) ≡ true → (s ≡ u) ⊎ (t ≡ u)
either s t u h = elim (Bool-cases (text_eq s u)) [
  | inl same ↦ inl ((text_eq_iff s u).0 same)
  | inr differ ↦ inr ((text_eq_iff t u).0 (ground arith))
]

-- The payload of a signed Release file, that is the locked one, but for a line feed.
abbrev pub IsSigned :
    (Bytes → Bytes → Bytes → Outcome SnapshotError Bytes) → Arguments → Bytes → Type 0
IsSigned verify_signature args payload =
    (verify_signature args.inrelease args.release args.release_gpg ≡ ok payload)
    × ((payload ≡ args.release) ⊎ (payload ++ 10 ∷ [] ≡ args.release))

module _ (sha256 : Bytes → Text) (decode : Bytes → Outcome SnapshotError Text)
    (decompress : Bytes → Outcome SnapshotError Bytes)
    (verify_signature : Bytes → Bytes → Bytes → Outcome SnapshotError Bytes) where
  -- An authenticated snapshot, from the signature down to the files of the packages.
  abbrev pub IsSnapshot : Arguments → Tree → Type 0
  IsSnapshot args tree =
      (indexes : List Index) × (locked : List Locked) × (payload : Bytes) × (component_indexes args
        ≡ ok indexes)
      × (locked_packages args.package_records ≡ ok locked)
      × HasDigests sha256 args
      × IsSigned verify_signature args payload
      × All (λ (i : Index). sha256 i.file ≡ i.digest) indexes
      × All (λ (i : Index). IsListed decode payload i.relative (length i.file) i.digest) indexes
      × All (LockedRecorded decode decompress indexes) locked
      × IsPoolOf sha256 locked tree

  -- A staged tree is an authenticated snapshot. The Release files have the given digests, and the
  -- signature holds for a payload that is the locked Release file, but for a last line feed. Every
  -- index file has its digest, and the payload lists it once, with that digest and its size. Every
  -- locked package has the path, the size and the digest of a paragraph of a decompressed index. And
  -- below "pool/" stand the files of the locked packages, each with the package's digest and size,
  -- and no other files.
  pub stage-IsSnapshot :
      (args : Arguments) {tree : Tree}
      → stage sha256 decode decompress verify_signature args ≡ ok tree
      → IsSnapshot args tree
  unfolding stage verify_authenticated_release
  stage-IsSnapshot args {tree} e =
      let (_, e₁) = guard-eq-ok (is_identifier args.codename) invalid_codename _ e in
      let (indexes, given, e₂) = >>=-eq-ok (component_indexes args) _ e₁ in
      let (_, digests, e₃) = >>=-eq-ok (verify_input_digests sha256 args indexes) _ e₂ in
      let (payload, signed, e₄) =
        >>=-eq-ok (verify_signature args.inrelease args.release args.release_gpg) _ e₃ in
      let (_, checked, e₅) =
        >>=-eq-ok (verify_authenticated_release decode payload args.release indexes) _ e₄ in
      let ((tree₀, staged), released, e₆) =
        >>=-eq-ok (stage_release_files decompress args indexes []) _ e₅ in
      let (locked, locks, e₇) = >>=-eq-ok (locked_packages args.package_records) _ e₆ in
      let (_, verified, e₈) = >>=-eq-ok (verify_package_metadata decode tree₀ staged locked) _ e₇ in
      let (release, listed) =
        guard-eq-ok (text_eq payload args.release || text_eq (payload ++ 10 ∷ []) args.release)
          release_mismatch (all_listed decode payload indexes) checked in
      let (of_release, of_indexes) = verify_input_digests_lem sha256 args indexes digests in
      let (no_pool, files) =
        stage_release_files_lem decode decompress args.codename indexes args []
          {result = (tree₀, staged)} (component_indexes-AreIndexes args given).1 tt released in
      (
        indexes,
        locked,
        payload,
        given,
        locks,
        of_release,
        (signed, either payload (payload ++ 10 ∷ []) args.release release),
        of_indexes,
        all_listed-IsListed decode payload indexes listed,
        verify_package_metadata-Recorded decode decompress indexes tree₀ staged locked files
            verified,
        stage_packages-IsPoolOf sha256 args locked tree₀
            (locked_packages-AreLocks args.package_records locks) no_pool e₈,
      )
