-- ===== src/Runner/CommandLine/Error.antt =====
-- The reasons for which mkosi/private/mkosi_runner/command_line.py and mkosi_options.py raise a `SystemExit`.
pub data ExitError : Type 0 where
  bad_epoch bad_components missing_dashes missing_preflight bad_preamble : ExitError
  unknown_option not_exactly_one missing_argument missing_path_value : ExitError
  image_id_count : ExitError
  incomplete_release finalize_needs_both finalize_is_alone base_needs_repository : ExitError
