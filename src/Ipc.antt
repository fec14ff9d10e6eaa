-- ===== src/Ipc.antt =====
-- kernel/src/ipc, crates/abi/src/ipc.rs and the messages of crates/sdk/src/ipc.
pub mod Abi
pub mod Message
pub mod Channel
pub mod Sdk
pub mod Wire
pub mod Identity
pub mod Broker
mod Tests
