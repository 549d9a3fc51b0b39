-- ===== src/Debian/Generate.antt =====
-- The lock of a specification: `_metadata_entry`, `_decode_index`, `_fetch_indexes` and
-- `_locked_package` to `generate` of mkosi/debian/generate_lock.py. The fetcher, SHA-256, UTF-8, LZMA
-- and the digest of the specification, which is that of a JSON text, are parameters.
pub mod Sorted
pub mod Locked
pub mod Indexes
pub mod Sourced
use rules_mkosi.Prelude.{
  ℕ, ◌||◌, Bool, true, false, List, [], ◌∷◌, ◌++◌, Option, none, some, if◌then◌else◌, map, Outcome,
  ok, err, guard, not, ◌>>=◌, ◌>>◌,
}
use rules_mkosi.Prelude.Text.{Text, codes, text_lt, contains}
use rules_mkosi.Prelude.Bytes.{Bytes}
use rules_mkosi.Prelude.Dict.{Dict, lookup, keys}
use rules_mkosi.Debian.Error.{LockError, colliding_keys, not_selected}
use rules_mkosi.Debian.Package.{Package}
use rules_mkosi.Debian.Universe.{universe}
use rules_mkosi.Debian.Closure.{Closure, resolve}
use rules_mkosi.Debian.Records.{package_key, parse_packages}
use rules_mkosi.Debian.Release.{
  Checksums, release_checksums, release_number, index_name, fetch_release, fetch_index,
}
use rules_mkosi.Debian.Lock.{
  Specification, MetadataEntry, Dependency, LockedPackage, Repository, Lock,
}

-- `sorted(xs, key=key)`, which is stable.
module _ {A : Type 0} (key : A → Text) where
  unfoldable pub insert_by : A → List A → List A
  unfolding text_lt
  insert_by x [] = x ∷ []
  insert_by x (y ∷ ys) =
      let rest = insert_by x ys in if text_lt (key y) (key x) then y ∷ rest else x ∷ y ∷ ys

  unfoldable pub sort_by : List A → List A
  unfolding insert_by
  sort_by [] = []
  sort_by (x ∷ xs) = insert_by x (sort_by xs)

-- `selected[name]`, and of every name.
unfoldable pub get : {V : Type 0} → Text → Dict V → Outcome LockError V
unfolding lookup
get name d = elim (lookup name d) [ none ↦ err not_selected | some v ↦ ok v ]

unfoldable pub get_all : List Text → Dict Package → Outcome LockError (List Package)
unfolding get
get_all [] selected = ok []
get_all (name ∷ names) selected = do p ← get name selected; ps ← get_all names selected; ok (p ∷ ps)

-- `selected[item].key` of a selected name.
unfoldable pub key_of : Dict Package → Text → Text
unfolding lookup package_key
key_of selected name = elim (lookup name selected) [ none ↦ [] | some p ↦ package_key p ]

unfoldable pub dependency_of : Package → Dependency
unfolding package_key
dependency_of p = record { key = package_key p; name = p.name; version = p.version }

-- `_locked_package`
unfoldable pub locked_package : Package → List Package → Text → LockedPackage
unfolding sort_by package_key dependency_of
locked_package p dependencies url = record {
  arch = p.architecture;
  component = p.component;
  dependencies = map dependency_of (sort_by package_key dependencies);
  filename = p.filename;
  key = package_key p;
  name = p.name;
  sha256 = p.sha256;
  size = p.size;
  urls = (url ++ (b'/' ∷ p.filename)) ∷ [];
  version = p.version;
}

-- The packages with these names.
unfoldable pub locked_named :
    List Text → Dict Package → Dict (List Text) → Text → Outcome LockError (List LockedPackage)
unfolding get get_all locked_package
locked_named [] selected edges url = ok []
locked_named (name ∷ names) selected edges url = do
  p ← get name selected
  targets ← get name edges
  dependencies ← get_all targets selected
  rest ← locked_named names selected edges url
  ok (locked_package p dependencies url ∷ rest)

-- `len(set(keys)) != len(keys)`
unfoldable pub has_repeat : List Text → Bool
unfolding contains
has_repeat [] = false
has_repeat (key ∷ keys_of) = contains key keys_of || has_repeat keys_of

-- `_locked_packages`
unfoldable pub locked_packages :
    Dict Package → Dict (List Text) → Text → Outcome LockError (List LockedPackage)
unfolding locked_named sort_by key_of keys has_repeat
locked_packages selected edges url = do
  locked ← locked_named (sort_by (key_of selected) (keys selected)) selected edges url
  guard (not (has_repeat (map (λ (p : LockedPackage). p.key) locked))) colliding_keys
  ok locked

-- The components with each architecture of `INDEX_ARCHITECTURES`, in the order of the loops.
unfoldable pub index_pairs : List Text → List (Text × Text)
index_pairs [] = []
index_pairs (component ∷ components) =
    (component, codes "amd64") ∷ (component, codes "all") ∷ index_pairs components

module _ (fetcher : Text → Outcome LockError Bytes) (sha256 : Bytes → Text)
    (decode : Bytes → Outcome LockError Text) (decompress : Bytes → Outcome LockError Bytes) where
  -- `_metadata_entry`
  unfoldable pub metadata_entry : Text → Text → Bytes → Text → Option (Text × Text) → MetadataEntry
  metadata_entry name path file url index = record {
    name = name;
    path = path;
    sha256 = sha256 file;
    url = url ++ (b'/' ∷ path);
    index = index;
  }

  -- `_decode_index`
  unfoldable pub decode_index : Bytes → Outcome LockError Text
  decode_index file = do plain ← decompress file; decode plain

  -- The loops of `_fetch_indexes`.
  unfoldable pub fetch_pairs :
      Text
      → Text
      → Checksums
      → List (Text × Text)
      → Outcome LockError (List MetadataEntry × List Package)
  unfolding fetch_index metadata_entry index_name decode_index parse_packages
  fetch_pairs url base sums [] = ok ([], [])
  fetch_pairs url base sums ((component, architecture) ∷ pairs) =
      let relative = component ++ (codes "/binary-" ++ (architecture ++ codes "/Packages.xz")) in
      do
        file ← fetch_index fetcher sha256 url base relative sums
        let entry =
            metadata_entry (index_name component architecture) (base ++ (b'/' ∷ relative)) file url
              (some (architecture, component))
        text ← decode_index file
        packages ← parse_packages text component architecture
        rest ← fetch_pairs url base sums pairs
        ok (entry ∷ rest.0, packages ++ rest.1)

  -- `_fetch_indexes`
  unfoldable pub fetch_indexes :
      Specification → Text → Checksums → Outcome LockError (List MetadataEntry × List Package)
  unfolding fetch_pairs index_pairs
  fetch_indexes spec base sums =
      fetch_pairs spec.snapshot_url base sums (index_pairs spec.components)

  module _ (encode : Text → Bytes) (spec_sha256 : Specification → Text) where
    -- The part of `generate` that fetches: the packages of the indexes, and the repository.
    unfoldable pub fetch_all :
        Specification → Option Text → Outcome LockError (List Package × Repository)
    unfolding fetch_release release_checksums release_number metadata_entry fetch_indexes
    fetch_all spec release =
        let base = codes "dists/" ++ spec.suite in
        let url = spec.snapshot_url in
        do
          files ← fetch_release fetcher decode encode url base
          text ← decode files.1
          fields ← release_checksums text
          number ← release_number fields.0 spec.suite spec.components release
          indexes ← fetch_indexes spec base fields.1
          ok (
            indexes.1,
            record {
              architecture = codes "amd64";
              codename = spec.suite;
              components = spec.components;
              distribution = codes "debian";
              metadata =
                  metadata_entry (codes "inrelease") (base ++ codes "/InRelease") files.0 url none
                  ∷ metadata_entry (codes "release") (base ++ codes "/Release") files.1 url none
                  ∷ metadata_entry (codes "release_gpg") (base ++ codes "/Release.gpg") files.2 url
                      none
                  ∷ indexes.0;
              release = number;
              snapshot = spec.snapshot;
              snapshot_url = url;
            },
          )

    -- The rest, of what was resolved.
    unfoldable pub lock_of :
        Specification → Repository → Outcome LockError Closure → Outcome LockError Lock
    unfolding locked_packages
    lock_of spec repository resolved = do
      c ← resolved
      packages ← locked_packages c.selected c.edges spec.snapshot_url
      ok (record {
        packages = packages;
        repository = repository;
        spec_sha256 = spec_sha256 spec;
        version = 1;
      })

    -- `generate`; `none` is that of `resolve`.
    unfoldable pub generate : Specification → Option Text → Option (Outcome LockError Lock)
    unfolding fetch_all universe resolve lock_of
    generate spec release = elim (fetch_all spec release) [
      | err e ↦ some (err e)
      | ok (packages, repository) ↦ elim (universe packages) [
        | err e ↦ some (err e)
        | ok u ↦ elim (resolve u spec.packages) [
          | none ↦ none
          | some resolved ↦ some (lock_of spec repository resolved)
        ]
      ]
    ]
