-- ===== src/Esp/Error.antt =====
-- The reasons for which the reader raises an `InvalidImageError` or an `EspFileNotFoundError`.
pub data EspError : Type 0 where
  beyond_image no_protective_mbr no_gpt_header : EspError
  invalid_header_size header_crc_differs invalid_array array_outside array_crc_differs : EspError
  esp_count esp_outside : EspError
  invalid_boot_sector larger_than_partition no_clusters fat_too_small : EspError
  invalid_cluster chain_loops chain_length too_many_entries : EspError
  cross_linked directories_too_large : EspError
  names_no_file parent_is_file no_such_file is_a_directory : EspError
  -- Python raises a `struct.error` here, an access outside of the FAT.
  outside_fat : EspError
  -- A loop of the model ran out of fuel.
  out_of_fuel : EspError
