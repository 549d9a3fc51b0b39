-- ===== src/Verity/Error.antt =====
-- The reasons for which mkosi/private/verity_metadata.py raises an exception.
pub data VerityError : Type 0 where
  no_superblock algorithm_not_ascii unsupported_format unsupported_algorithm : VerityError
  invalid_data_block_size invalid_hash_block_size slots_do_not_divide : VerityError
  invalid_data_blocks invalid_salt_size : VerityError
  root_truncated too_many_levels spools_too_large spool_truncated hash_mismatch : VerityError
  invalid_root_spool : VerityError
  partition_count signature_partition artifact_too_large root_size_differs : VerityError
  hash_size_differs data_exceeds_root nonzero_padding nonzero_trailer root_hash_differs :
      VerityError
