-- ===== src/Snapshot/Release.antt =====
-- The checksums of the authenticated Release file: `_sha256_entries` to `_release_hash` and
-- `_verify_authenticated_release` of mkosi/private/debian_snapshot.py. UTF-8 is a parameter.
use rules_mkosi.Prelude.{
  ℕ, ◌==◌, leb, Bool, true, false, not, ◌&&◌, ◌||◌, List, [], ◌∷◌, ◌++◌, Option, none, some, length,
  if◌then◌else◌, Outcome, ok, err, guard, ◌>>=◌, ◌>>◌,
}
use rules_mkosi.Prelude.Text.{
  Text, codes, text_eq, contains, every, is_digit, is_numeric, decimal, starts_with,
}
use rules_mkosi.Prelude.Bytes.{Bytes}
use rules_mkosi.Control.{split_lines, starts_with_space}
use rules_mkosi.Debian.Release.{words}
use rules_mkosi.Verity.Project.{lower}
use rules_mkosi.Snapshot.Error.{
  SnapshotError, malformed_checksum, duplicate_checksum, not_one_entry, size_disagrees,
  digest_disagrees, release_mismatch, no_suite_path,
}
use rules_mkosi.Snapshot.Indexes.{Index}

-- An entry of `_sha256_entries`: a digest, a size and a path.
pub record Entry : Type 0 where
  pub digest : Text
  pub size : ℕ
  pub path : Text

-- `re.fullmatch(r"[0-9a-fA-F]{64}", digest)`
unfoldable pub is_hex_digit : ℕ → Bool
unfolding is_digit
is_hex_digit c = is_digit c || (leb b'a' c && leb c b'f') || (leb b'A' c && leb c b'F')

unfoldable pub is_digest : Text → Bool
unfolding every is_hex_digit
is_digest digest = every is_hex_digit digest && length digest == 64

unfoldable pub ends_with_colon : Text → Bool
ends_with_colon [] = false
ends_with_colon (c ∷ []) = c == b':'
ends_with_colon (c ∷ d ∷ s) = ends_with_colon (d ∷ s)

-- `not line[0].isspace() and line.endswith(":")`
unfoldable pub is_heading : Text → Bool
unfolding ends_with_colon starts_with_space
is_heading line = not (starts_with_space line) && ends_with_colon line

-- The fields of a checksum line, after the paths that were seen.
unfoldable pub entry_of : List Text → List Text → Outcome SnapshotError Entry
unfolding is_digest is_numeric contains decimal
entry_of (digest ∷ size ∷ path ∷ []) seen = do
  guard (is_digest digest) malformed_checksum
  guard (is_numeric size) malformed_checksum
  guard (not (contains path seen)) duplicate_checksum
  ok (record { digest = digest; size = decimal 0 size; path = path })
entry_of [] seen = err malformed_checksum
entry_of (a ∷ []) seen = err malformed_checksum
entry_of (a ∷ b ∷ []) seen = err malformed_checksum
entry_of (a ∷ b ∷ c ∷ d ∷ fields) seen = err malformed_checksum

-- The loop of `_sha256_entries`, with `in_sha256` and `seen`.
unfoldable pub entries_from : List Text → Bool → List Text → Outcome SnapshotError (List Entry)
unfolding is_heading entry_of words text_eq
entries_from [] inside seen = ok []
entries_from ([] ∷ lines) inside seen = entries_from lines inside seen
entries_from ((c ∷ line) ∷ lines) inside seen = elim (is_heading (c ∷ line)) [
  | true ↦ entries_from lines (text_eq (c ∷ line) (codes "SHA256:")) seen
  | false ↦ elim inside [
    | false ↦ entries_from lines false seen
    | true ↦ do
      entry ← entry_of (words (c ∷ line)) seen
      rest ← entries_from lines true (entry.path ∷ seen)
      ok (entry ∷ rest)
  ]
]

-- `text.split("/", 1)[1]`
unfoldable pub after_slash : Text → Option Text
after_slash [] = none
after_slash (c ∷ s) = let rest = after_slash s in if c == b'/' then some s else rest

-- The path below the suite.
unfoldable pub suite_path : Text → Outcome SnapshotError Text
unfolding after_slash starts_with
suite_path relative =
    if not (starts_with relative (codes "dists/"))
    then ok relative
    else elim (after_slash relative) [
      | none ↦ err no_suite_path
      | some rest ↦ elim (after_slash rest) [ none ↦ err no_suite_path | some path ↦ ok path ]
    ]

-- `[... for ... if entry_path == path]`
unfoldable pub entries_at : Text → List Entry → List Entry
unfolding text_eq
entries_at path [] = []
entries_at path (e ∷ es) =
    let rest = entries_at path es in if text_eq e.path path then e ∷ rest else rest

unfoldable pub only_entry : List Entry → Outcome SnapshotError Entry
only_entry [] = err not_one_entry
only_entry (e ∷ []) = ok e
only_entry (e ∷ f ∷ es) = err not_one_entry

module _ (decode : Bytes → Outcome SnapshotError Text) where
  -- `_sha256_entries`
  unfoldable pub sha256_entries : Bytes → Outcome SnapshotError (List Entry)
  unfolding entries_from split_lines
  sha256_entries release = do text ← decode release; entries_from (split_lines [] text) false []

  -- `_release_hash`
  unfoldable pub release_hash : Bytes → Text → ℕ → Text → Outcome SnapshotError (Unit {0})
  unfolding sha256_entries suite_path entries_at only_entry lower text_eq
  release_hash release relative expected_size expected_digest = do
    path ← suite_path relative
    entries ← sha256_entries release
    entry ← only_entry (entries_at path entries)
    guard (entry.size == expected_size) size_disagrees
    guard (text_eq (lower entry.digest) (lower expected_digest)) digest_disagrees

  unfoldable pub all_listed : Bytes → List Index → Outcome SnapshotError (Unit {0})
  unfolding release_hash
  all_listed payload [] = ok tt
  all_listed payload (i ∷ is) = do
    release_hash payload i.relative (length i.file) i.digest
    all_listed payload is

  -- `_verify_authenticated_release`, of the verified payload.
  unfoldable pub verify_authenticated_release :
      Bytes → Bytes → List Index → Outcome SnapshotError (Unit {0})
  unfolding all_listed text_eq
  verify_authenticated_release payload release indexes = do
    guard (text_eq payload release || text_eq (payload ++ 10 ∷ []) release) release_mismatch
    all_listed payload indexes
