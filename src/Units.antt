-- ===== src/Units.antt =====
-- The unit tests that stand beside the code, as tests that evaluate to true: the modules `tests` of
-- src/date.rs, src/symlink.rs, src/block.rs, src/checksum.rs, src/dir.rs, src/utf8.rs, src/file.rs,
-- src/reader.rs and src/varblock.rs.
pub mod Dates
pub mod Links
pub mod Blocks
pub mod Readers
