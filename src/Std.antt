-- ===== src/Std.antt =====
-- The contract library: the crate src/target/std-evm.
pub mod Machine
pub mod Value
pub mod Slots
pub mod Lock
pub mod Handles
mod Examples
