-- ===== src/Asm.antt =====
-- The assembler and the disassembler: src/backend/evm-codegen/src/asm.rs and asm/disasm.rs.
pub mod Immediate
pub mod Disasm
pub mod Text
pub mod Assembler
mod Examples
