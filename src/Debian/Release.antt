-- ===== src/Debian/Release.antt =====
-- The Release file of a snapshot and the indexes that it lists: `cleartext_payload`,
-- `release_checksums`, `_index_name` and `_fetch_release` to `_fetch_index` of
-- mkosi/debian/generate_lock.py. The fetcher, the SHA-256 and UTF-8 are
-- parameters.
pub mod Authentic
use rules_mkosi.Prelude.{
  ℕ, ◌+◌, ◌==◌, Bool, true, false, not, ◌&&◌, ◌||◌, List, [], ◌∷◌, ◌++◌, Option, none, some, length,
  drop, map, if◌then◌else◌, Outcome, ok, err, ◌>>=◌, ◌>>◌, guard,
}
use rules_mkosi.Prelude.Text.{
  Text, codes, text_eq, contains, is_space, is_numeric, decimal, starts_with, strip,
}
use rules_mkosi.Prelude.Dict.{Dict, lookup, lookup_or, insert}
use rules_mkosi.Prelude.Paths.{split, join_with}
use rules_mkosi.Control.{split_lines}
use rules_mkosi.Debian.Error.{
  LockError, not_clear_signed, not_one_paragraph, malformed_checksum, duplicate_checksum,
  release_mismatch, wrong_suite, missing_components, missing_architecture, no_number, not_listed,
  wrong_checksum,
}
use rules_mkosi.Debian.Records.{lock_paragraphs, is_sha256}

-- The lines after the first one that is equal to a line, and those before it.
unfoldable pub after_line : Text → List Text → Option (List Text)
unfolding text_eq
after_line line [] = none
after_line line (l ∷ ls) = let rest = after_line line ls in if text_eq l line then some ls else rest

unfoldable pub until_line : Text → List Text → Option (List Text)
unfolding text_eq
until_line line [] = none
until_line line (l ∷ ls) =
    let rest = until_line line ls in
    if text_eq l line then some [] else elim rest [ none ↦ none | some ms ↦ some (l ∷ ms) ]

unfoldable pub unescape : Text → Text
unfolding starts_with
unescape line = if starts_with line (codes "- ") then drop 2 line else line

-- The lines of the payload.
unfoldable pub payload_lines : List Text → Option (List Text)
unfolding after_line until_line
payload_lines lines = elim (after_line (codes "-----BEGIN PGP SIGNED MESSAGE-----") lines) [
  | none ↦ none
  | some headers ↦ elim (after_line [] headers) [
    | none ↦ none
    | some body ↦ until_line (codes "-----BEGIN PGP SIGNATURE-----") body
  ]
]

-- `cleartext_payload`, of decoded text.
unfoldable pub cleartext_payload : Text → Outcome LockError Text
unfolding payload_lines unescape split join_with
cleartext_payload inrelease = elim (payload_lines (split 10 inrelease)) [
  | none ↦ err not_clear_signed
  | some lines ↦ ok (join_with 10 (map unescape lines) ++ 10 ∷ [])
]

-- `text.split()`, after the characters of the word so far.
unfoldable pub words_from : Text → Text → List Text
unfolding is_space
words_from [] [] = []
words_from (c ∷ word) [] = (c ∷ word) ∷ []
words_from word (c ∷ s) =
    let after = words_from [] s in
    let longer = words_from (word ++ c ∷ []) s in
    if is_space c then elim word [ [] ↦ after | d ∷ word' ↦ (d ∷ word') ∷ after ] else longer

unfoldable pub words : Text → List Text
unfolding words_from
words s = words_from [] s

-- The digests and sizes by their paths.
abbrev pub Checksums : Type 0
Checksums = Dict (Text × ℕ)

-- A line with its parts.
unfoldable pub add_checksum : List Text → Checksums → Outcome LockError Checksums
unfolding is_sha256 is_numeric decimal lookup insert
add_checksum (digest ∷ size ∷ path ∷ []) sums =
    if not (is_sha256 digest) || not (is_numeric size)
    then err malformed_checksum
    else elim (lookup path sums) [
      | some previous ↦ err duplicate_checksum
      | none ↦ ok (insert path (digest, decimal 0 size) sums)
    ]
add_checksum [] sums = err malformed_checksum
add_checksum (a ∷ []) sums = err malformed_checksum
add_checksum (a ∷ b ∷ []) sums = err malformed_checksum
add_checksum (a ∷ b ∷ c ∷ d ∷ parts) sums = err malformed_checksum

unfoldable pub checksums_from : List Text → Checksums → Outcome LockError Checksums
unfolding add_checksum words strip
checksums_from [] sums = ok sums
checksums_from (line ∷ lines) sums = elim (strip line) [
  | [] ↦ checksums_from lines sums
  | c ∷ s ↦ do sums' ← add_checksum (words line) sums; checksums_from lines sums'
]

unfoldable pub one_paragraph : List (Dict Text) → Outcome LockError (Dict Text)
one_paragraph [] = err not_one_paragraph
one_paragraph (p ∷ []) = ok p
one_paragraph (p ∷ q ∷ ps) = err not_one_paragraph

-- `release_checksums`
unfoldable pub release_checksums : Text → Outcome LockError (Dict Text × Checksums)
unfolding lock_paragraphs one_paragraph checksums_from split_lines lookup_or
release_checksums release = do
  ps ← lock_paragraphs release
  fields ← one_paragraph ps
  sums ← checksums_from (split_lines [] (lookup_or [] (codes "SHA256") fields)) []
  ok (fields, sums)

unfoldable pub all_in : List Text → List Text → Bool
unfolding contains
all_in [] available = true
all_in (component ∷ components) available =
    contains component available && all_in components available

-- `text.split(".", 1)[0]`
unfoldable pub before_dot : Text → Text
before_dot [] = []
before_dot (c ∷ s) = let rest = before_dot s in if c == b'.' then [] else c ∷ rest

-- `release or ...`
unfoldable pub release_or : Option Text → Text → Text
release_or none version = version
release_or (some []) version = version
release_or (some (c ∷ s)) version = c ∷ s

unfoldable pub is_suite : Option Text → Text → Bool
unfolding text_eq
is_suite none suite = false
is_suite (some codename) suite = text_eq codename suite

-- `_release_number`, of the suite and the components of the specification.
unfoldable pub release_number : Dict Text → Text → List Text → Option Text → Outcome LockError Text
unfolding is_suite all_in words contains release_or before_dot is_numeric lookup lookup_or
release_number fields suite components release = do
  guard (is_suite (lookup (codes "Codename") fields) suite) wrong_suite
  guard (all_in components (words (lookup_or [] (codes "Components") fields))) missing_components
  guard (contains (codes "amd64") (words (lookup_or [] (codes "Architectures") fields)))
      missing_architecture
  let number = release_or release (before_dot (lookup_or [] (codes "Version") fields))
  guard (is_numeric number) no_number
  ok number

-- `_index_name`
unfoldable pub index_name : Text → Text → Text
unfolding text_eq
index_name component architecture =
    (if text_eq component (codes "main") then [] else component ++ b'_' ∷ [])
    ++ (if text_eq architecture (codes "amd64")
        then codes "packages_xz"
        else codes "packages_all_xz")

module _ (fetcher : Text → Outcome LockError (List ℕ)) (decode : List ℕ → Outcome LockError Text)
    (encode : Text → List ℕ) where
  -- `_fetch_release`
  unfoldable pub fetch_release : Text → Text → Outcome LockError (List ℕ × List ℕ × List ℕ)
  unfolding cleartext_payload text_eq
  fetch_release url base = do
    inrelease ← fetcher (url ++ (b'/' ∷ (base ++ codes "/InRelease")))
    release ← fetcher (url ++ (b'/' ∷ (base ++ codes "/Release")))
    release_gpg ← fetcher (url ++ (b'/' ∷ (base ++ codes "/Release.gpg")))
    text ← decode inrelease
    payload ← cleartext_payload text
    guard (text_eq (encode payload) release || text_eq (encode payload) (release ++ 10 ∷ []))
        release_mismatch
    ok (inrelease, release, release_gpg)

module _ (fetcher : Text → Outcome LockError (List ℕ)) (sha256 : List ℕ → Text) where
  -- `_fetch_index`
  unfoldable pub fetch_index : Text → Text → Text → Checksums → Outcome LockError (List ℕ)
  unfolding lookup text_eq
  fetch_index url base relative sums = elim (lookup relative sums) [
    | none ↦ err not_listed
    | some (digest, size) ↦ do
      data_of ← fetcher (url ++ (b'/' ∷ (base ++ (b'/' ∷ relative))))
      guard (length data_of == size && text_eq (sha256 data_of) digest) wrong_checksum
      ok data_of
  ]
