-- ===== src/Sys.antt =====
-- The bindings of the opcodes: src/target/evm-sys.
pub mod Binding
pub mod Bindings
pub mod Stack
pub mod Agreement
mod Examples
