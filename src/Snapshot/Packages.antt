-- ===== src/Snapshot/Packages.antt =====
-- The locked packages: `_safe_package_path` and `_locked_packages` of
-- mkosi/private/debian_snapshot.py.
use rules_mkosi.Prelude.{
  ℕ, Bool, false, not, ◌&&◌, ◌||◌, List, [], ◌∷◌, ◌++◌, if◌then◌else◌, Outcome, ok, err, guard,
  ◌>>=◌, ◌>>◌,
}
use rules_mkosi.Prelude.Text.{Text, codes, text_eq, contains, is_numeric, decimal, starts_with}
use rules_mkosi.Prelude.Paths.{split, join_with, is_absolute, or_dot}
use rules_mkosi.Snapshot.Error.{
  SnapshotError, record_fields, invalid_size, unsafe_path, duplicate_package, path_collision,
  duplicate_name,
}

-- The parts of a relative `PurePosixPath`, of the components between the slashes.
unfoldable pub path_parts : List Text → List Text
unfolding text_eq
path_parts [] = []
path_parts (part ∷ parts) =
    let rest = path_parts parts in
    if text_eq part [] || text_eq part (codes ".") then rest else part ∷ rest

-- The condition of `_safe_package_path`.
unfoldable pub is_unsafe_path : Text → Bool
unfolding path_parts is_absolute contains split join_with or_dot text_eq starts_with
is_unsafe_path filename =
    let parts = path_parts (split b'/' filename) in
    let text = or_dot (join_with b'/' parts) in
    is_absolute filename
    || contains (codes "..") parts
    || not (text_eq text filename)
    || not (starts_with text (codes "pool/"))

-- `_safe_package_path`; the result's text is the argument.
unfoldable pub safe_package_path : Text → Outcome SnapshotError Text
unfolding is_unsafe_path
safe_package_path filename = if is_unsafe_path filename then err unsafe_path else ok filename

-- A name, a version and an architecture.
abbrev pub Key : Type 0
Key = Text × Text × Text

unfoldable pub key_eq : Key → Key → Bool
unfolding text_eq
key_eq (name, version, architecture) (n, v, a) =
    text_eq name n && text_eq version v && text_eq architecture a

-- An entry of `expected`.
pub record Locked : Type 0 where
  pub key : Key
  pub filename : Text
  pub size : ℕ
  pub digest : Text
  pub local_name : Text

-- `key in expected`
unfoldable pub is_expected : Key → List Locked → Bool
unfolding key_eq
is_expected key [] = false
is_expected key (l ∷ ls) = key_eq key l.key || is_expected key ls

-- `filename in filenames` and `local_name in local_names`
unfoldable pub has_filename : Text → List Locked → Bool
unfolding text_eq
has_filename filename [] = false
has_filename filename (l ∷ ls) = text_eq filename l.filename || has_filename filename ls

unfoldable pub has_local_name : Text → List Locked → Bool
unfolding text_eq
has_local_name name [] = false
has_local_name name (l ∷ ls) = text_eq name l.local_name || has_local_name name ls

-- The entry of a record's fields.
unfoldable pub locked_of : List Text → List Locked → Outcome SnapshotError Locked
unfolding safe_package_path is_expected has_filename has_local_name is_numeric decimal
locked_of (name ∷ version ∷ architecture ∷ filename ∷ size ∷ digest ∷ local_name ∷ []) expected = do
  guard (is_numeric size) invalid_size
  path ← safe_package_path filename
  guard (not (is_expected (name, version, architecture) expected)) duplicate_package
  guard (not (has_filename path expected)) path_collision
  guard (not (has_local_name local_name expected)) duplicate_name
  ok (record {
    key = (name, version, architecture);
    filename = path;
    size = decimal 0 size;
    digest = digest;
    local_name = local_name;
  })
locked_of [] expected = err record_fields
locked_of (a ∷ []) expected = err record_fields
locked_of (a ∷ b ∷ []) expected = err record_fields
locked_of (a ∷ b ∷ c ∷ []) expected = err record_fields
locked_of (a ∷ b ∷ c ∷ d ∷ []) expected = err record_fields
locked_of (a ∷ b ∷ c ∷ d ∷ e ∷ []) expected = err record_fields
locked_of (a ∷ b ∷ c ∷ d ∷ e ∷ f ∷ []) expected = err record_fields
locked_of (a ∷ b ∷ c ∷ d ∷ e ∷ f ∷ g ∷ h ∷ fields) expected = err record_fields

-- The loop of `_locked_packages`.
unfoldable pub locked_from : List Text → List Locked → Outcome SnapshotError (List Locked)
unfolding locked_of split
locked_from [] expected = ok expected
locked_from (text ∷ texts) expected = do
  l ← locked_of (split b'|' text) expected
  locked_from texts (expected ++ l ∷ [])

-- `_locked_packages`
unfoldable pub locked_packages : List Text → Outcome SnapshotError (List Locked)
unfolding locked_from
locked_packages texts = locked_from texts []
