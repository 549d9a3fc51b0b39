-- ===== src/Debian/Records.antt =====
-- Package records of an index: `paragraphs` to `parse_packages` of mkosi/debian/generate_lock.py.
pub mod Checked
use rules_mkosi.Prelude.{
  ℕ, ◌==◌, leb, Bool, true, false, not, ◌&&◌, ◌||◌, List, [], ◌∷◌, ◌++◌, Option, none, some, length,
  if◌then◌else◌, Outcome, ok, err, ◌>>=◌, ◌>>◌, guard,
}
use rules_mkosi.Prelude.Text.{
  Text, codes, text_eq, every, is_digit, is_numeric, decimal, starts_with,
}
use rules_mkosi.Prelude.Dict.{Dict, lookup, lookup_or}
use rules_mkosi.Control.{ControlError, paragraphs}
use rules_mkosi.Debian.Error.{
  LockError, malformed_data, unsupported_architecture, foreign_package, incomplete_metadata,
}
use rules_mkosi.Debian.Package.{Package}
use rules_mkosi.Debian.Relations.{parse_relations, parse_provides}

-- `paragraphs`
unfoldable pub lock_paragraphs : Text → Outcome LockError (List (Dict Text))
unfolding paragraphs
lock_paragraphs text = elim (paragraphs text) [ ok ps ↦ ok ps | err e ↦ err malformed_data ]

-- `text.replace(c, new)`
unfoldable pub replace_char : ℕ → Text → Text → Text
replace_char c new [] = []
replace_char c new (d ∷ s) = (if d == c then new else d ∷ []) ++ replace_char c new s

-- `lock_key`
unfoldable pub lock_key : Text → Text → Text → Text
unfolding replace_char
lock_key name version architecture =
    let name' = replace_char b'+' (codes "-p-") name in
    let version' =
      replace_char b'~' (codes "-t-")
        (replace_char b'+' (codes "-p-") (replace_char b':' (codes "-") version)) in
    name' ++ (b'_' ∷ (version' ++ (b'_' ∷ architecture)))

-- `Package.key`
unfoldable pub package_key : Package → Text
unfolding lock_key
package_key p = lock_key p.name p.version p.architecture

-- `re.fullmatch(r"[0-9a-f]{64}", digest)`
unfoldable pub is_hex : ℕ → Bool
unfolding is_digit
is_hex c = is_digit c || (leb b'a' c && leb c b'f')

unfoldable pub is_sha256 : Text → Bool
unfolding every is_hex
is_sha256 digest = every is_hex digest && length digest == 64

-- `architecture in INDEX_ARCHITECTURES`
unfoldable pub is_index_architecture : Text → Bool
unfolding text_eq
is_index_architecture architecture =
    text_eq architecture (codes "amd64") || text_eq architecture (codes "all")

unfoldable pub is_nonempty : Option Text → Bool
unfolding text_eq
is_nonempty none = false
is_nonempty (some s) = not (text_eq s [])

-- The condition on the metadata of a package, negated.
unfoldable pub is_complete : Dict Text → Bool
unfolding is_nonempty lookup lookup_or is_numeric is_sha256 starts_with
is_complete p =
    is_nonempty (lookup (codes "Package") p)
    && is_nonempty (lookup (codes "Version") p)
    && is_numeric (lookup_or [] (codes "Size") p)
    && is_sha256 (lookup_or [] (codes "SHA256") p)
    && starts_with (lookup_or [] (codes "Filename") p) (codes "pool/")

-- The record of complete metadata.
unfoldable pub complete_record : Dict Text → Text → Text → Outcome LockError Package
unfolding lookup lookup_or decimal parse_relations parse_provides text_eq
complete_record p architecture component = do
  pre_depends ← parse_relations (lookup (codes "Pre-Depends") p)
  depends ← parse_relations (lookup (codes "Depends") p)
  provides ← parse_provides (lookup (codes "Provides") p)
  ok (record {
    name = lookup_or [] (codes "Package") p;
    version = lookup_or [] (codes "Version") p;
    architecture = architecture;
    component = component;
    filename = lookup_or [] (codes "Filename") p;
    size = decimal 0 (lookup_or [] (codes "Size") p);
    sha256 = lookup_or [] (codes "SHA256") p;
    multi_arch = lookup_or (codes "no") (codes "Multi-Arch") p;
    essential = text_eq (lookup_or [] (codes "Essential") p) (codes "yes");
    priority = lookup_or (codes "optional") (codes "Priority") p;
    pre_depends = pre_depends;
    depends = depends;
    provides = provides;
  })

-- `_package_record`; no supported architecture is empty.
unfoldable pub package_record : Dict Text → Text → Text → Outcome LockError Package
unfolding is_index_architecture is_complete complete_record lookup_or text_eq
package_record p component index_architecture =
    let architecture = lookup_or [] (codes "Architecture") p in
    if not (is_index_architecture architecture)
    then err unsupported_architecture
    else if text_eq index_architecture (codes "all") && not (text_eq architecture (codes "all"))
    then err foreign_package
    else if not (is_complete p)
    then err incomplete_metadata
    else complete_record p architecture component

unfoldable pub package_records : List (Dict Text) → Text → Text → Outcome LockError (List Package)
unfolding package_record
package_records [] component index_architecture = ok []
package_records (p ∷ ps) component index_architecture = do
  record_of ← package_record p component index_architecture
  rest ← package_records ps component index_architecture
  ok (record_of ∷ rest)

-- `parse_packages`
unfoldable pub parse_packages : Text → Text → Text → Outcome LockError (List Package)
unfolding lock_paragraphs package_records
parse_packages text component index_architecture = do
  ps ← lock_paragraphs text
  package_records ps component index_architecture
