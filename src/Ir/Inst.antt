-- ===== src/Ir/Inst.antt =====
-- Operations, instructions and terminators: src/backend/evm-codegen/src/ir/inst.rs.
pub mod Raw
pub mod HighBits
pub mod Sound
use rustevm.Base.{ℕ, ◌-◌, ◌^◌, Bool, true, false, Option, List, [], ◌∷◌, ◌++◌, if◌then◌else◌}
use rustevm.Asm.Immediate.{Immediate}
use rustevm.Ir.Effect.{
  Effects, pure_effects, reads_memory, writes_memory, reads_storage, writes_storage,
  reads_transient, writes_transient, all_effects, union, of_opcode,
}
use rustevm.Ir.Types.{IntTy, Ty, as_int, Repair, mask, sext}
use rustevm.Isa.{Str, bytes, OpSpec}

-- Handles: the `u32` inside each entity.
abbrev pub Value : Type 0
Value = ℕ

abbrev pub Inst : Type 0
Inst = ℕ

abbrev pub Block : Type 0
Block = ℕ

abbrev pub Func : Type 0
Func = ℕ

pub data Cmp : Type 0 where
  eq ne lt le gt ge : Cmp

pub data Op : Type 0 where
  const : Immediate → Op
  add sub mul div rem add_mod mul_mod exp : Op
  add_overflow sub_overflow mul_overflow : Op
  and or xor not shl shr sar extract_byte : Op
  convert : Op
  icmp : Cmp → Op
  select : Op
  alloca : ℕ → Op
  load store mem_copy : Op
  s_load s_store t_load t_store : Op
  opcode : OpSpec → Op
  call : Func → Op

-- The last two arms of `default_repair`.
unfoldable pub narrow : IntTy → Repair
unfolding mask sext
narrow int = if int.signed then sext int.bits else mask int.bits

unfoldable pub repair_for : Op → IntTy → Repair
unfolding narrow
repair_for (Op.icmp c) int = Repair.none
repair_for (Op.const imm) int = Repair.none
repair_for Op.select int = Repair.none
repair_for (Op.call callee) int = Repair.none
repair_for (Op.alloca bytes) int = Repair.none
repair_for Op.and int = Repair.none
repair_for Op.or int = Repair.none
repair_for Op.xor int = Repair.none
repair_for Op.not int = if int.signed then Repair.none else narrow int
repair_for Op.div int = if int.signed then narrow int else Repair.none
repair_for Op.rem int = if int.signed then narrow int else Repair.none
repair_for Op.shr int = if int.signed then narrow int else Repair.none
repair_for _ int = narrow int

unfoldable pub default_repair : Op → Ty → Repair
unfolding repair_for
default_repair op ty = repair_for op (as_int ty)

unfoldable pub effects : Op → Effects
effects (Op.alloca bytes) = writes_memory
effects Op.load = reads_memory
effects Op.store = writes_memory
effects Op.mem_copy = union reads_memory writes_memory
effects Op.s_load = reads_storage
effects Op.s_store = writes_storage
effects Op.t_load = reads_transient
effects Op.t_store = writes_transient
effects (Op.opcode spec) = of_opcode spec
effects (Op.call callee) = all_effects
effects _ = pure_effects

cmp_name : Cmp → Str
cmp_name Cmp.eq = bytes "eq"
cmp_name Cmp.ne = bytes "ne"
cmp_name Cmp.lt = bytes "lt"
cmp_name Cmp.le = bytes "le"
cmp_name Cmp.gt = bytes "gt"
cmp_name Cmp.ge = bytes "ge"

unfoldable pub name : Op → Str
unfolding cmp_name
name (Op.const imm) = bytes "const"
name Op.add = bytes "add"
name Op.sub = bytes "sub"
name Op.mul = bytes "mul"
name Op.div = bytes "div"
name Op.rem = bytes "rem"
name Op.add_mod = bytes "addmod"
name Op.mul_mod = bytes "mulmod"
name Op.exp = bytes "exp"
name Op.add_overflow = bytes "add.overflow"
name Op.sub_overflow = bytes "sub.overflow"
name Op.mul_overflow = bytes "mul.overflow"
name Op.and = bytes "and"
name Op.or = bytes "or"
name Op.xor = bytes "xor"
name Op.not = bytes "not"
name Op.shl = bytes "shl"
name Op.shr = bytes "shr"
name Op.sar = bytes "sar"
name Op.extract_byte = bytes "byte"
name Op.convert = bytes "convert"
name (Op.icmp c) = cmp_name c
name Op.select = bytes "select"
name (Op.alloca n) = bytes "alloca"
name Op.load = bytes "load"
name Op.store = bytes "store"
name Op.mem_copy = bytes "memcopy"
name Op.s_load = bytes "sload"
name Op.s_store = bytes "sstore"
name Op.t_load = bytes "tload"
name Op.t_store = bytes "tstore"
name (Op.opcode spec) = spec.mnemonic
name (Op.call callee) = bytes "call"

-- `usize::MAX`, on a host of 64 bits.
abbrev pub usize_max : ℕ
usize_max = 2 ^ 64 - 1

unfoldable pub result_count : Op → ℕ
result_count Op.add_overflow = 2
result_count Op.sub_overflow = 2
result_count Op.mul_overflow = 2
result_count Op.store = 0
result_count Op.s_store = 0
result_count Op.t_store = 0
result_count Op.mem_copy = 0
result_count (Op.opcode spec) = spec.stack_out
result_count (Op.call callee) = usize_max
result_count _ = 1

pub record InstData : Type 0 where
  pub op : Op
  pub ty : Ty
  pub repair : Repair
  pub args : List Value
  pub results : List Value
  pub note : Option Str

pub record BlockCall : Type 0 where
  pub block : Block
  pub args : List Value

pub data Terminator : Type 0 where
  jump : BlockCall → Terminator
  brif : (cond : Value) (then_call otherwise : BlockCall) → Terminator
  switch : (on : Value) (cases : List (Immediate × BlockCall)) (default : BlockCall) → Terminator
  return : List Value → Terminator
  stop : Terminator
  return_data revert : (ptr len : Value) → Terminator
  self_destruct : (beneficiary : Value) → Terminator
  invalid unreachable : Terminator

case_calls : List (Immediate × BlockCall) → List BlockCall
case_calls [] = []
case_calls ((imm, c) ∷ cases) = c ∷ case_calls cases

unfoldable pub block_calls : Terminator → List BlockCall
unfolding case_calls
block_calls (Terminator.jump target) = target ∷ []
block_calls (Terminator.brif cond t o) = t ∷ o ∷ []
block_calls (Terminator.switch on cases default) = case_calls cases ++ (default ∷ [])
block_calls _ = []

-- The values that the terminator itself reads.
own_args : Terminator → List Value
own_args (Terminator.brif cond t o) = cond ∷ []
own_args (Terminator.switch on cases default) = on ∷ []
own_args (Terminator.return values) = values
own_args (Terminator.return_data ptr len) = ptr ∷ len ∷ []
own_args (Terminator.revert ptr len) = ptr ∷ len ∷ []
own_args (Terminator.self_destruct b) = b ∷ []
own_args _ = []

extend_args : List Value → List BlockCall → List Value
extend_args args [] = args
extend_args args (c ∷ calls) = extend_args (args ++ c.args) calls

unfoldable pub args : Terminator → List Value
unfolding own_args extend_args block_calls
args term = extend_args (own_args term) (block_calls term)

unfoldable pub is_halt : Terminator → Bool
is_halt Terminator.stop = true
is_halt (Terminator.return_data ptr len) = true
is_halt (Terminator.revert ptr len) = true
is_halt (Terminator.self_destruct b) = true
is_halt Terminator.invalid = true
is_halt Terminator.unreachable = true
is_halt _ = false
