-- ===== src/Sdk.antt =====
-- crates/sdk: the parts of the SDK that keep state of their own.
pub mod Rpc
