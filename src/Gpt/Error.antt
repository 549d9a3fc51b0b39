-- ===== src/Gpt/Error.antt =====
-- The reasons for which mkosi/private/partition_metadata.py raises a `ValueError`.
pub data GptError : Type 0 where
  outside_image truncated : GptError
  invalid_signature unsupported_revision invalid_header_size header_crc_mismatch : GptError
  nonzero_reserved : GptError
  invalid_reciprocal unexpected_location invalid_usable_range hostile_count : GptError
  hostile_entry_size oversized_array : GptError
  invalid_array_location array_not_before_usable array_not_after_usable : GptError
  array_crc_mismatch ambiguous_sector_size copies_disagree arrays_disagree : GptError
  invalid_range outside_usable out_of_order overlap unaligned invalid_label : GptError
  populated_slot inactive_slot_too_small : GptError
  root_count root_label unknown_firmware bios_boot_count bios_boot_size : GptError
  patches_overlap truncated_while_hashing : GptError
