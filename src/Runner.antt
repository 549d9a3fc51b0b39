-- ===== src/Runner.antt =====
-- The mkosi runner: mkosi/private/mkosi_runner/mkosi_options.py and command_line.py.
pub mod Options
pub mod CommandLine
pub mod Attached
pub mod Occurrences
pub mod Rewriting
pub mod Preambles
pub mod Insertion
pub mod Stages
