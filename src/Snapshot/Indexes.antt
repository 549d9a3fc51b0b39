-- ===== src/Snapshot/Indexes.antt =====
-- The arguments and their package indexes: `_verify_digest`, `_verify_package`, `_component_indexes`
-- and `_verify_input_digests` of mkosi/private/debian_snapshot.py. SHA-256 is a parameter.
use rules_mkosi.Prelude.{
  ℕ, ◌==◌, Bool, true, false, not, ◌&&◌, ◌||◌, List, [], ◌∷◌, ◌++◌, length, Outcome, ok, err, guard,
  ◌>>=◌, ◌>>◌,
}
use rules_mkosi.Prelude.Text.{Text, codes, text_eq, every}
use rules_mkosi.Prelude.Bytes.{Bytes}
use rules_mkosi.Prelude.Paths.{split}
use rules_mkosi.Debian.Relations.{is_name_start, is_arch}
use rules_mkosi.Snapshot.Error.{
  SnapshotError, digest_mismatch, size_mismatch, counts_differ, record_fields, invalid_component,
  unsupported_architecture, wrong_index_path, duplicate_index, incomplete_indexes,
}

-- The arguments of `stage`, without those for the signature verification's processes.
pub record Arguments : Type 0 where
  pub inrelease : Bytes
  pub release : Bytes
  pub release_gpg : Bytes
  pub packages_xz : Bytes
  pub packages_all_xz : Bytes
  pub inrelease_sha256 : Text
  pub release_sha256 : Text
  pub release_gpg_sha256 : Text
  pub packages_xz_sha256 : Text
  pub packages_all_xz_sha256 : Text
  pub packages_path : Text
  pub packages_all_path : Text
  pub codename : Text
  pub component_indexes : List Text
  pub component_index_files : List Bytes
  pub package_records : List Text
  pub packages : List Bytes
  pub package_names : List Text

-- An entry of `indexes`, with the file's bytes in the place of its path.
pub record Index : Type 0 where
  pub component : Text
  pub architecture : Text
  pub relative : Text
  pub digest : Text
  pub file : Bytes

-- `re.fullmatch(r"[a-z0-9][a-z0-9-]*", name)`
unfoldable pub is_identifier : Text → Bool
unfolding is_name_start is_arch every
is_identifier [] = false
is_identifier (c ∷ s) = is_name_start c && every is_arch s

unfoldable pub index_of : List Text → Bytes → Outcome SnapshotError Index
index_of (component ∷ architecture ∷ relative ∷ digest ∷ []) file = ok (record {
  component = component;
  architecture = architecture;
  relative = relative;
  digest = digest;
  file = file;
})
index_of [] file = err record_fields
index_of (a ∷ []) file = err record_fields
index_of (a ∷ b ∷ []) file = err record_fields
index_of (a ∷ b ∷ c ∷ []) file = err record_fields
index_of (a ∷ b ∷ c ∷ d ∷ e ∷ fields) file = err record_fields

-- `zip(args.component_indexes, args.component_index_files, strict=True)`
unfoldable pub component_records : List Text → List Bytes → Outcome SnapshotError (List Index)
unfolding index_of split
component_records [] [] = ok []
component_records [] (file ∷ files) = err counts_differ
component_records (text ∷ texts) [] = err counts_differ
component_records (text ∷ texts) (file ∷ files) = do
  index ← index_of (split b'|' text) file
  rest ← component_records texts files
  ok (index ∷ rest)

-- `architecture in ("amd64", "all")`
unfoldable pub is_staged_architecture : Text → Bool
unfolding text_eq
is_staged_architecture architecture =
    text_eq architecture (codes "amd64") || text_eq architecture (codes "all")

-- `"dists/%s/%s/binary-%s/Packages.xz"`
unfoldable pub index_path : Text → Text → Text → Text
index_path codename component architecture =
    codes "dists/"
    ++ (codename
        ++ (b'/' ∷ (component ++ (codes "/binary-" ++ (architecture ++ codes "/Packages.xz")))))

-- `(component, architecture) in seen`
unfoldable pub is_seen : Text → Text → List (Text × Text) → Bool
unfolding text_eq
is_seen component architecture [] = false
is_seen component architecture ((c, a) ∷ seen) =
    (text_eq component c && text_eq architecture a) || is_seen component architecture seen

-- The checks of the indexes, with `seen`, which is returned.
unfoldable pub check_indexes :
    Text → List Index → List (Text × Text) → Outcome SnapshotError (List (Text × Text))
unfolding is_identifier is_staged_architecture index_path is_seen text_eq
check_indexes codename [] seen = ok seen
check_indexes codename (i ∷ is) seen = do
  guard (is_identifier i.component) invalid_component
  guard (is_staged_architecture i.architecture) unsupported_architecture
  guard (text_eq i.relative (index_path codename i.component i.architecture)) wrong_index_path
  guard (not (is_seen i.component i.architecture seen)) duplicate_index
  check_indexes codename is ((i.component, i.architecture) ∷ seen)

-- Whether every component of `indexes` has both architectures in `seen`. The pairs of `seen` all have
-- such a component and architecture.
unfoldable pub all_complete : List Index → List (Text × Text) → Bool
unfolding is_seen
all_complete [] seen = true
all_complete (i ∷ is) seen =
    is_seen i.component (codes "amd64") seen
    && is_seen i.component (codes "all") seen
    && all_complete is seen

-- The indexes of the main component.
unfoldable pub main_indexes : Arguments → List Index
main_indexes args =
    record {
      component = codes "main";
      architecture = codes "amd64";
      relative = args.packages_path;
      digest = args.packages_xz_sha256;
      file = args.packages_xz;
    }
    ∷ record {
      component = codes "main";
      architecture = codes "all";
      relative = args.packages_all_path;
      digest = args.packages_all_xz_sha256;
      file = args.packages_all_xz;
    }
    ∷ []

-- `_component_indexes`
unfoldable pub component_indexes : Arguments → Outcome SnapshotError (List Index)
unfolding component_records check_indexes all_complete main_indexes
component_indexes args = do
  guard (length args.component_indexes == length args.component_index_files) counts_differ
  more ← component_records args.component_indexes args.component_index_files
  let indexes = main_indexes args ++ more
  seen ← check_indexes args.codename indexes []
  guard (all_complete indexes seen) incomplete_indexes
  ok indexes

module _ (sha256 : Bytes → Text) where
  -- `_verify_digest`
  unfoldable pub verify_digest : Bytes → Text → Outcome SnapshotError (Unit {0})
  unfolding text_eq
  verify_digest file expected = guard (text_eq (sha256 file) expected) digest_mismatch

  -- `_verify_package`
  unfoldable pub verify_package : Bytes → Text → ℕ → Outcome SnapshotError (Unit {0})
  unfolding verify_digest
  verify_package file digest size = do
    verify_digest file digest
    guard (length file == size) size_mismatch

  unfoldable pub verify_indexes : List Index → Outcome SnapshotError (Unit {0})
  unfolding verify_digest
  verify_indexes [] = ok tt
  verify_indexes (i ∷ is) = do verify_digest i.file i.digest; verify_indexes is

  -- `_verify_input_digests`
  unfoldable pub verify_input_digests : Arguments → List Index → Outcome SnapshotError (Unit {0})
  unfolding verify_digest verify_indexes
  verify_input_digests args indexes = do
    verify_digest args.inrelease args.inrelease_sha256
    verify_digest args.release args.release_sha256
    verify_digest args.release_gpg args.release_gpg_sha256
    verify_indexes indexes
