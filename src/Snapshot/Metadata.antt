-- ===== src/Snapshot/Metadata.antt =====
-- The metadata of the packages in the indexes: `_read_package_metadata` and
-- `_verify_package_metadata` of mkosi/private/debian_snapshot.py. UTF-8 is a parameter.
use rules_mkosi.Prelude.{
  ℕ, ◌==◌, Bool, true, false, not, ◌&&◌, List, [], ◌∷◌, Option, none, some, if◌then◌else◌, Outcome,
  ok, err, guard, ◌>>=◌, ◌>>◌,
}
use rules_mkosi.Prelude.Text.{Text, codes, text_eq, is_numeric, decimal}
use rules_mkosi.Prelude.Bytes.{Bytes}
use rules_mkosi.Prelude.Dict.{Dict, lookup, lookup_or}
use rules_mkosi.Control.{Paragraph, paragraphs}
use rules_mkosi.Debian.Records.{is_nonempty}
use rules_mkosi.Snapshot.Error.{
  SnapshotError, unsupported_architecture, malformed_data, foreign_package, incomplete_metadata,
  conflicting_duplicate, unmatched_packages, metadata_disagrees, missing_file,
}
use rules_mkosi.Snapshot.Indexes.{is_staged_architecture}
use rules_mkosi.Snapshot.Packages.{Key, key_eq, Locked, is_expected}

-- A file name, a size and a digest.
abbrev pub Metadata : Type 0
Metadata = Text × ℕ × Text

unfoldable pub metadata_eq : Metadata → Metadata → Bool
unfolding text_eq
metadata_eq (filename, size, digest) (f, s, d) = text_eq filename f && size == s && text_eq digest d

-- The dictionary `actual`.
abbrev pub Actual : Type 0
Actual = List (Key × Metadata)

unfoldable pub find : Key → Actual → Option Metadata
unfolding key_eq
find key [] = none
find key ((k, m) ∷ actual) = if key_eq k key then some m else find key actual

unfoldable pub store : Key → Metadata → Actual → Actual
unfolding key_eq
store key m [] = (key, m) ∷ []
store key m ((k, n) ∷ actual) =
    let rest = store key m actual in if key_eq k key then (k, m) ∷ actual else (k, n) ∷ rest

-- The key of a paragraph; one without a name or a version is the key of no locked package.
unfoldable pub paragraph_key : Paragraph → Option Key
unfolding lookup lookup_or
paragraph_key p = elim (lookup (codes "Package") p) [
  | none ↦ none
  | some name ↦ elim (lookup (codes "Version") p) [
    | none ↦ none
    | some version ↦ some (name, version, lookup_or [] (codes "Architecture") p)
  ]
]

unfoldable pub paragraph_metadata : Paragraph → Metadata
unfolding lookup_or decimal
paragraph_metadata p = (
  lookup_or [] (codes "Filename") p,
  decimal 0 (lookup_or [] (codes "Size") p),
  lookup_or [] (codes "SHA256") p,
)

-- The condition for incomplete metadata, negated.
unfoldable pub has_metadata : Paragraph → Bool
unfolding lookup lookup_or is_nonempty is_numeric
has_metadata p =
    is_nonempty (lookup (codes "Filename") p)
    && is_nonempty (lookup (codes "Size") p)
    && is_nonempty (lookup (codes "SHA256") p)
    && is_numeric (lookup_or [] (codes "Size") p)

-- `key in actual and actual[key] != record`
unfoldable pub is_other : Metadata → Option Metadata → Bool
unfolding metadata_eq
is_other m none = false
is_other m (some n) = not (metadata_eq n m)

-- `actual` after a paragraph with its key and its metadata.
unfoldable pub add_metadata :
    Option Key → Metadata → List Locked → Actual → Outcome SnapshotError Actual
unfolding find is_other is_expected store
add_metadata none m expected actual = ok actual
add_metadata (some key) m expected actual = do
  guard (not (is_other m (find key actual))) conflicting_duplicate
  ok (if is_expected key expected then store key m actual else actual)

-- A paragraph of an index. A missing architecture is none of the two.
unfoldable pub read_paragraph :
    Text → List Locked → Paragraph → Actual → Outcome SnapshotError Actual
unfolding is_staged_architecture has_metadata add_metadata paragraph_key paragraph_metadata
    lookup_or text_eq
read_paragraph index_architecture expected p actual =
    let architecture = lookup_or [] (codes "Architecture") p in
    do
      guard (is_staged_architecture architecture) unsupported_architecture
      guard
          (not
            (text_eq index_architecture (codes "all") && not (text_eq architecture (codes "all"))))
          foreign_package
      guard (has_metadata p) incomplete_metadata
      add_metadata (paragraph_key p) (paragraph_metadata p) expected actual

unfoldable pub read_paragraphs :
    Text → List Locked → List Paragraph → Actual → Outcome SnapshotError Actual
unfolding read_paragraph
read_paragraphs architecture expected [] actual = ok actual
read_paragraphs architecture expected (p ∷ ps) actual = do
  actual' ← read_paragraph architecture expected p actual
  read_paragraphs architecture expected ps actual'

-- `debian_control.paragraphs`, whose exceptions are `ValueError`s.
unfoldable pub control_paragraphs : Text → Outcome SnapshotError (List Paragraph)
unfolding paragraphs
control_paragraphs text = elim (paragraphs text) [ ok ps ↦ ok ps | err e ↦ err malformed_data ]

-- A file of the output directory.
unfoldable pub read_file : Text → Dict Bytes → Outcome SnapshotError Bytes
unfolding lookup
read_file path tree = elim (lookup path tree) [ none ↦ err missing_file | some file ↦ ok file ]

-- Whether every key of `expected` is one of `actual`, and every key of `actual` one of `expected`.
unfoldable pub all_found : List Locked → Actual → Bool
unfolding find
all_found [] actual = true
all_found (l ∷ ls) actual =
    let rest = all_found ls actual in elim (find l.key actual) [ none ↦ false | some m ↦ rest ]

unfoldable pub all_expected : Actual → List Locked → Bool
unfolding is_expected
all_expected [] expected = true
all_expected ((k, m) ∷ actual) expected = is_expected k expected && all_expected actual expected

-- `actual[key] != expected[key][:3]` for no key.
unfoldable pub all_agree : List Locked → Actual → Bool
unfolding find metadata_eq
all_agree [] actual = true
all_agree (l ∷ ls) actual = elim (find l.key actual) [
  | none ↦ false
  | some m ↦ metadata_eq m (l.filename, l.size, l.digest) && all_agree ls actual
]

module _ (decode : Bytes → Outcome SnapshotError Text) where
  -- `_read_package_metadata`, of the staged indexes with their architectures.
  unfoldable pub read_package_metadata :
      Dict Bytes → List (Text × Text) → List Locked → Actual → Outcome SnapshotError Actual
  unfolding read_file control_paragraphs read_paragraphs
  read_package_metadata tree [] expected actual = ok actual
  read_package_metadata tree ((path, architecture) ∷ staged) expected actual = do
    file ← read_file path tree
    text ← decode file
    ps ← control_paragraphs text
    actual' ← read_paragraphs architecture expected ps actual
    read_package_metadata tree staged expected actual'

  -- `_verify_package_metadata`
  unfoldable pub verify_package_metadata :
      Dict Bytes → List (Text × Text) → List Locked → Outcome SnapshotError (Unit {0})
  unfolding read_package_metadata all_found all_expected all_agree
  verify_package_metadata tree staged expected = do
    actual ← read_package_metadata tree staged expected []
    guard (all_expected actual expected && all_found expected actual) unmatched_packages
    guard (all_agree expected actual) metadata_disagrees
