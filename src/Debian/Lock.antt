-- ===== src/Debian/Lock.antt =====
-- The specification and the lock of mkosi/debian/generate_lock.py: `Specification`, and the
-- dictionaries that `_metadata_entry`, `_locked_package` and `generate` return.
use rules_mkosi.Prelude.{ℕ, List, Option}
use rules_mkosi.Prelude.Text.{Text}

-- `Specification`
pub record Specification : Type 0 where
  pub snapshot_url : Text
  pub snapshot : Text
  pub suite : Text
  pub components : List Text
  pub packages : List Text

-- A metadata entry; `index` is the architecture and the component of an index.
pub record MetadataEntry : Type 0 where
  pub name : Text
  pub path : Text
  pub sha256 : Text
  pub url : Text
  pub index : Option (Text × Text)

pub record Dependency : Type 0 where
  pub key : Text
  pub name : Text
  pub version : Text

pub record LockedPackage : Type 0 where
  pub arch : Text
  pub component : Text
  pub dependencies : List Dependency
  pub filename : Text
  pub key : Text
  pub name : Text
  pub sha256 : Text
  pub size : ℕ
  pub urls : List Text
  pub version : Text

pub record Repository : Type 0 where
  pub architecture : Text
  pub codename : Text
  pub components : List Text
  pub distribution : Text
  pub metadata : List MetadataEntry
  pub release : Text
  pub snapshot : Text
  pub snapshot_url : Text

-- The dictionary that `generate` returns.
pub record Lock : Type 0 where
  pub packages : List LockedPackage
  pub repository : Repository
  pub spec_sha256 : Text
  pub version : ℕ
