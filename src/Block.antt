-- ===== src/Block.antt =====
-- The block device: crates/abi/src/block, kernel/src/block.
pub mod Abi
pub mod Wire
pub mod Broker
pub mod Budget
pub mod Hold
mod Tests
