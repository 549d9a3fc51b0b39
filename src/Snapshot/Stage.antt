-- ===== src/Snapshot/Stage.antt =====
-- The staging: `_copy`, `_decompress`, `_stage_release_files`, `_stage_packages` and `stage` of
-- mkosi/private/debian_snapshot.py. SHA-256, UTF-8, LZMA and the signature verification are
-- parameters.
use rules_mkosi.Prelude.{
  ◌-◌, Bool, true, false, ◌&&◌, ◌||◌, List, [], ◌∷◌, ◌++◌, Option, none, some, length, take,
  if◌then◌else◌, Outcome, ok, err, guard, ◌>>=◌, ◌>>◌,
}
use rules_mkosi.Prelude.Text.{Text, codes, contains, starts_with}
use rules_mkosi.Prelude.Bytes.{Bytes}
use rules_mkosi.Prelude.Dict.{Dict, lookup, insert, keys}
use rules_mkosi.Snapshot.Error.{
  SnapshotError, invalid_codename, path_conflict, counts_differ, unmatched_names,
}
use rules_mkosi.Snapshot.Indexes.{
  Arguments, Index, is_identifier, component_indexes, verify_package, verify_input_digests,
}
use rules_mkosi.Snapshot.Release.{verify_authenticated_release}
use rules_mkosi.Snapshot.Packages.{Locked, safe_package_path, locked_packages}
use rules_mkosi.Snapshot.Metadata.{verify_package_metadata}

abbrev pub Tree : Type 0
Tree = Dict Bytes

-- Whether a file cannot be written: a file has the name of one of its directories, or a file is below
-- its path.
unfoldable pub is_blocked : Text → Tree → Bool
unfolding starts_with
is_blocked path [] = false
is_blocked path ((name, file) ∷ tree) =
    starts_with path (name ++ b'/' ∷ [])
    || starts_with name (path ++ b'/' ∷ [])
    || is_blocked path tree

-- `_copy`
unfoldable pub copy : Bytes → Text → Tree → Outcome SnapshotError Tree
unfolding is_blocked insert
copy file path tree = if is_blocked path tree then err path_conflict else ok (insert path file tree)

-- `relative[: -len(".xz")]`
unfoldable pub without_xz : Text → Text
without_xz relative = take (length relative - 3) relative

-- `records_by_name`, after the entries so far.
unfoldable pub records_by_name : List Locked → Dict Locked → Dict Locked
unfolding insert
records_by_name [] records = records
records_by_name (l ∷ ls) records = records_by_name ls (insert l.local_name l records)

-- `set(names) <= set(others)`
unfoldable pub all_among : List Text → List Text → Bool
unfolding contains
all_among [] others = true
all_among (name ∷ names) others = contains name others && all_among names others

module _ (decompress : Bytes → Outcome SnapshotError Bytes) where
  -- The loop over the indexes, with the list that is returned.
  unfoldable pub stage_indexes :
      List Index → Tree → Outcome SnapshotError (Tree × List (Text × Text))
  unfolding copy without_xz
  stage_indexes [] tree = ok (tree, [])
  stage_indexes (i ∷ is) tree = do
    file ← decompress i.file
    tree' ← copy file (without_xz i.relative) tree
    rest ← stage_indexes is tree'
    ok (rest.0, (without_xz i.relative, i.architecture) ∷ rest.1)

  -- `_stage_release_files`
  unfoldable pub stage_release_files :
      Arguments → List Index → Tree → Outcome SnapshotError (Tree × List (Text × Text))
  unfolding copy stage_indexes
  stage_release_files args indexes tree = do
    tree₁ ← copy args.inrelease (codes "dists/" ++ (args.codename ++ codes "/InRelease")) tree
    tree₂ ← copy args.release (codes "dists/" ++ (args.codename ++ codes "/Release")) tree₁
    tree₃ ← copy args.release_gpg (codes "dists/" ++ (args.codename ++ codes "/Release.gpg")) tree₂
    stage_indexes indexes tree₃

module _ (sha256 : Bytes → Text) where
  -- The body of the loop, with the entry of the package's name.
  unfoldable pub stage_package : Bytes → Option Locked → Tree → Outcome SnapshotError Tree
  unfolding verify_package safe_package_path copy
  stage_package file none tree = err unmatched_names
  stage_package file (some l) tree = do
    verify_package sha256 file l.digest l.size
    path ← safe_package_path l.filename
    copy file path tree

  unfoldable pub stage_files :
      List Bytes → List Text → Dict Locked → Tree → Outcome SnapshotError Tree
  unfolding stage_package lookup
  stage_files [] [] records tree = ok tree
  stage_files [] (name ∷ names) records tree = err counts_differ
  stage_files (file ∷ files) [] records tree = err counts_differ
  stage_files (file ∷ files) (name ∷ names) records tree = do
    tree' ← stage_package file (lookup name records) tree
    stage_files files names records tree'

  -- `_stage_packages`
  unfoldable pub stage_packages : Arguments → List Locked → Tree → Outcome SnapshotError Tree
  unfolding records_by_name all_among keys stage_files
  stage_packages args expected tree =
      let records = records_by_name expected [] in
      do
        guard
            (all_among (keys records) args.package_names
              && all_among args.package_names (keys records))
            unmatched_names
        stage_files args.packages args.package_names records tree

module _ (sha256 : Bytes → Text) (decode : Bytes → Outcome SnapshotError Text)
    (decompress : Bytes → Outcome SnapshotError Bytes)
    (verify_signature : Bytes → Bytes → Bytes → Outcome SnapshotError Bytes) where
  -- `stage`. The signature verification returns the payload of InRelease, which the source keeps in
  -- the file "verified-release" until the end.
  unfoldable pub stage : Arguments → Outcome SnapshotError Tree
  unfolding is_identifier component_indexes verify_input_digests verify_authenticated_release
      stage_release_files locked_packages verify_package_metadata stage_packages
  stage args = do
    guard (is_identifier args.codename) invalid_codename
    indexes ← component_indexes args
    verify_input_digests sha256 args indexes
    payload ← verify_signature args.inrelease args.release args.release_gpg
    verify_authenticated_release decode payload args.release indexes
    staged ← stage_release_files decompress args indexes []
    expected ← locked_packages args.package_records
    verify_package_metadata decode staged.0 staged.1 expected
    stage_packages sha256 args expected staged.0
