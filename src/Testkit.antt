-- ===== src/Testkit.antt =====
-- The test kit: the crate src/tooling/evm-testkit.
pub mod Outcome
pub mod Link
pub mod Trace
pub mod Text
pub mod Harness
mod Examples
