-- ===== src/Extract/Error.antt =====
-- The exceptions of mkosi/debian/extract_tree.py.
pub data ExtractError : Type 0 where
  absolute_member unsafe_member duplicate_member : ExtractError
  symlink_escapes symlink_cycle bound_exceeded dangling_symlink : ExtractError
  absolute_hardlink hardlink_cycle dangling_hardlink not_a_file : ExtractError
