-- ===== src/Snapshot/Error.antt =====
-- The exceptions of mkosi/private/debian_snapshot.py, without their texts.
-- `path_conflict` and `missing_file` are an `OSError`.
pub data SnapshotError : Type 0 where
  invalid_codename digest_mismatch size_mismatch signature_failed : SnapshotError
  counts_differ record_fields invalid_component unsupported_architecture : SnapshotError
  wrong_index_path duplicate_index incomplete_indexes : SnapshotError
  malformed_checksum duplicate_checksum not_one_entry size_disagrees digest_disagrees :
      SnapshotError
  release_mismatch malformed_data foreign_package incomplete_metadata : SnapshotError
  conflicting_duplicate invalid_size unsafe_path duplicate_package path_collision : SnapshotError
  duplicate_name path_conflict missing_file unmatched_packages metadata_disagrees unmatched_names :
      SnapshotError
  -- Python raises an `IndexError` here: the path below "dists/" has no second slash.
  no_suite_path : SnapshotError
