-- ===== src/Abi.antt =====
-- The contract ABI: the crate src/target/std-evm-abi.
pub mod Word
pub mod Codec
pub mod Tuple
pub mod Value
pub mod Names
pub mod Revert
mod Examples
