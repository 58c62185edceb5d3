-- ===== src/Ir/Error.antt =====
-- What can go wrong: `IrError` of src/backend/evm-codegen/src/ir.rs.
use rustevm.Ir.Inst.{Block, Func}
use rustevm.Isa.{Str}

pub data IrError : Type 0 where
  no_current_block : IrError
  already_terminated : (block : Block) → IrError
  unknown_mnemonic : Str → IrError
  reserved_opcode : (mnemonic reason : Str) → IrError
  signature_mismatch already_defined undefined : (func : Func) (name : Str) → IrError
  no_entry : IrError
