-- ===== src/Block.antt =====
-- src/block.rs: the blocks of the disk format and the names in them.
pub mod Fields
pub mod Boot
pub mod Root
pub mod Entry
pub mod FileExt
pub mod OfsData
pub mod Names
pub mod Accepts
pub mod Valid
pub mod Ranges
pub mod Parsed
