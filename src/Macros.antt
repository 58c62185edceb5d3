-- ===== src/Macros.antt =====
-- The contract macros: the crate src/target/std-evm-macros.
pub mod Syntax
pub mod Signature
pub mod Params
pub mod Layout
pub mod Contract
pub mod Entry
mod Examples
