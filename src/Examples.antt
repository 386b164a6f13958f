-- ===== src/Examples.antt =====
-- The theorems at concrete inputs: devices, blocks and instances of the interfaces to use them at.
pub mod Data
pub mod Stored
pub mod Instances
pub mod Blocks
pub mod Sums
pub mod Tables
mod Whole
mod Order
mod Paths
mod Beside
pub mod Files
mod Gap
pub mod Good
pub mod Search
pub mod Starts
pub mod Large
pub mod Strict
pub mod Runs
pub mod Disk
