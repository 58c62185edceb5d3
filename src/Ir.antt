-- ===== src/Ir.antt =====
-- The intermediate representation: src/backend/evm-codegen/src/ir.
pub mod Types
pub mod Effect
pub mod Inst
pub mod Func
pub mod Error
pub mod Builder
pub mod Module
pub mod Text
mod Examples
