-- ===== src/Debian/Error.antt =====
-- The reasons for which mkosi/debian/generate_lock.py raises a `LockError`, without their texts.

pub data LockError : Type 0 where
  invalid_epoch unsupported_operator conflicting_duplicate : LockError
  conflicting_selection virtual_package missing_packages unsatisfiable : LockError
  malformed_relation provides_alternatives provides_inexact : LockError
  malformed_data unsupported_architecture foreign_package incomplete_metadata : LockError
  not_clear_signed not_one_paragraph malformed_checksum duplicate_checksum : LockError
  wrong_suite missing_components missing_architecture no_number : LockError
  release_mismatch not_listed wrong_checksum colliding_keys : LockError
  not_an_object unknown_fields wrong_version wrong_sources not_https no_timestamp : LockError
  short_channel invalid_name repeated_component no_main wrong_archs : LockError
  no_packages invalid_package : LockError
  -- Python raises a `KeyError` here.
  not_selected : LockError
  -- Python raises a `TypeError` here; no parsed relation has an operator without a version.
  version_is_none : LockError
  -- Python raises an `AttributeError` here: `newest` gave no package.
  no_such_package : LockError
