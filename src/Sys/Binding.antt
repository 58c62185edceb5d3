-- ===== src/Sys/Binding.antt =====
-- A binding of an opcode to a Rust function, with the attribute of src/target/evm-sys-macros. The
-- bodies are unreachable, so that a binding is its signature.
use rustevm.Base.{Bool, List}
use rustevm.Isa.{Str}

pub data ParamTy : Type 0 where
  word u8 u16 u32 u64 u128 : ParamTy

pub data Returns : Type 0 where
  nothing never : Returns
  gives : ParamTy → Returns

pub record Binding : Type 0 where
  pub opcode : Str
  pub name : Str
  pub is_unsafe : Bool
  pub params : List ParamTy
  pub returns : Returns

unfoldable pub binding : Str → Str → Bool → List ParamTy → Returns → Binding
binding opcode name is_unsafe params returns = record {
  opcode = opcode;
  name = name;
  is_unsafe = is_unsafe;
  params = params;
  returns = returns;
}
