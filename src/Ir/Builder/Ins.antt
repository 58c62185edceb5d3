-- ===== src/Ir/Builder/Ins.antt =====
-- One method for each operation: `InsBuilder` of src/backend/evm-codegen/src/ir/builder.rs.
use rustevm.Base.{
  ℕ, Bool, true, false, Option, none, some, List, [], ◌∷◌, ◌>>=◌, if◌then◌else◌, replicate,
  get_elem?,
}
use rustevm.Asm.Immediate.{Immediate}
use rustevm.Ir.Builder.{FunctionBuilder, emit, fail}
use rustevm.Ir.Error.{IrError}
use rustevm.Ir.Func.{value_type, handle}
use rustevm.Ir.Inst.{Value, Func, Op, Cmp, default_repair}
use rustevm.Ir.Types.{Ty, ptr, bool, u256, Repair, for_convert, Signature}
use rustevm.Isa.{Str, bytes, OpSpec, OpForm, OpCategory, op_form, by_mnemonic}

-- The builder after the call, and what the call returns.
abbrev pub Made : Type 0 → Type 0
Made A = Option (FunctionBuilder × A)

unfoldable pub unary_op : FunctionBuilder → Op → Ty → List Value → Made Value
unary_op b op ty args = do
  (b', results) ← emit b op ty (default_repair op ty) args (ty ∷ [])
  result ← get_elem? results 0
  some (b', result)

unfoldable pub checked : FunctionBuilder → Op → Ty → Value → Value → Made (Value × Value)
checked b op ty x y = do
  (b', results) ← emit b op ty (default_repair op ty) (x ∷ y ∷ []) (ty ∷ bool ∷ [])
  result ← get_elem? results 0
  overflow ← get_elem? results 1
  some (b', (result, overflow))

-- The methods that make one value by `unary_op`, under their names.
pub data Unary : Type 0 where
  iconst : Ty → Immediate → Unary
  add sub mul div rem exp : Ty → Value → Value → Unary
  and or xor shl shr sar : Ty → Value → Value → Unary
  not : Ty → Value → Unary
  icmp : Cmp → Value → Value → Unary
  select : Ty → Value → Value → Value → Unary
  alloca : ℕ → Unary
  load sload tload : Ty → Value → Unary

unfoldable pub unary : FunctionBuilder → Unary → Made Value
unfolding unary_op
unary b (iconst ty value) = unary_op b (Op.const value) ty []
unary b (add ty x y) = unary_op b Op.add ty (x ∷ y ∷ [])
unary b (sub ty x y) = unary_op b Op.sub ty (x ∷ y ∷ [])
unary b (mul ty x y) = unary_op b Op.mul ty (x ∷ y ∷ [])
unary b (div ty x y) = unary_op b Op.div ty (x ∷ y ∷ [])
unary b (rem ty x y) = unary_op b Op.rem ty (x ∷ y ∷ [])
unary b (exp ty base exponent) = unary_op b Op.exp ty (base ∷ exponent ∷ [])
unary b (and ty x y) = unary_op b Op.and ty (x ∷ y ∷ [])
unary b (or ty x y) = unary_op b Op.or ty (x ∷ y ∷ [])
unary b (xor ty x y) = unary_op b Op.xor ty (x ∷ y ∷ [])
unary b (shl ty value shift) = unary_op b Op.shl ty (value ∷ shift ∷ [])
unary b (shr ty value shift) = unary_op b Op.shr ty (value ∷ shift ∷ [])
unary b (sar ty value shift) = unary_op b Op.sar ty (value ∷ shift ∷ [])
unary b (not ty value) = unary_op b Op.not ty (value ∷ [])
unary b (icmp c x y) = unary_op b (Op.icmp c) bool (x ∷ y ∷ [])
unary b (select ty cond x y) = unary_op b Op.select ty (cond ∷ x ∷ y ∷ [])
unary b (alloca size) = unary_op b (Op.alloca size) ptr []
unary b (load ty place) = unary_op b Op.load ty (place ∷ [])
unary b (sload ty key) = unary_op b Op.s_load ty (key ∷ [])
unary b (tload ty key) = unary_op b Op.t_load ty (key ∷ [])

-- `add_overflow`, `sub_overflow` and `mul_overflow`.
pub data Checked : Type 0 where
  add_overflow sub_overflow mul_overflow : Checked

unfoldable pub checked_op : Checked → Op
checked_op add_overflow = Op.add_overflow
checked_op sub_overflow = Op.sub_overflow
checked_op mul_overflow = Op.mul_overflow

unfoldable pub overflow : FunctionBuilder → Checked → Ty → Value → Value → Made (Value × Value)
unfolding checked checked_op
overflow b c ty x y = checked b (checked_op c) ty x y

-- An operation without a result.
unfoldable pub effect_op : FunctionBuilder → Op → Ty → List Value → Option FunctionBuilder
effect_op b op ty args = do (b', results) ← emit b op ty Repair.none args []; some b'

unfoldable pub convert : FunctionBuilder → Ty → Value → Made Value
convert b to value = do
  from ← value_type b.func value
  (b', results) ← emit b Op.convert to (for_convert from to) (value ∷ []) (to ∷ [])
  result ← get_elem? results 0
  some (b', result)

-- `store`, `sstore` and `tstore`: the type is the stored value's.
pub data Store : Type 0 where
  store sstore tstore : Store

unfoldable pub write_op : Store → Op
write_op store = Op.store
write_op sstore = Op.s_store
write_op tstore = Op.t_store

unfoldable pub write : FunctionBuilder → Store → Value → Value → Option FunctionBuilder
unfolding effect_op write_op
write b kind place value = do
  ty ← value_type b.func value
  effect_op b (write_op kind) ty (place ∷ value ∷ [])

unfoldable pub memcopy : FunctionBuilder → Value → Value → Value → Option FunctionBuilder
unfolding effect_op
memcopy b dst src len = effect_op b Op.mem_copy ptr (dst ∷ src ∷ len ∷ [])

unfoldable pub call : FunctionBuilder → Func → Signature → List Value → Made (List Value)
call b callee sig args =
    emit b (Op.call callee) (elim sig.returns [ [] ↦ u256 | ty ∷ tys ↦ ty ]) Repair.none args
      sig.returns

is_simple : OpForm → Bool
is_simple OpForm.simple = true
is_simple _ = false

is_stack_manip : OpCategory → Bool
is_stack_manip OpCategory.stack_manip = true
is_stack_manip _ = false

is_control : OpCategory → Bool
is_control OpCategory.control = true
is_control _ = false

-- Why the intermediate representation keeps an opcode to itself.
unfoldable pub reserved : OpSpec → Option Str
unfolding is_simple is_stack_manip is_control
reserved spec =
    if (if is_simple (op_form spec) then is_stack_manip spec.category else true)
    then some (bytes "the stackifier owns the operand stack")
    else if is_control spec.category
    then some (bytes "EIR owns control flow")
    else if spec.is_terminating
    then some (bytes "terminating opcodes are terminators")
    else none

unfoldable pub emit_opcode :
    FunctionBuilder → OpSpec → Ty → List Value → ℕ → Made (Option (List Value))
unfolding reserved
emit_opcode b spec ty args results = elim (reserved spec) [
  | some reason ↦ some (fail b (IrError.reserved_opcode spec.mnemonic reason), none)
  | none ↦ do
    (b', values) ← emit b (Op.opcode spec) ty Repair.none args (replicate results ty)
    some (b', some values)
]

unfoldable pub raw_opcode : FunctionBuilder → Str → Ty → List Value → ℕ → Made (Option (List Value))
unfolding emit_opcode
raw_opcode b mnemonic ty args results = elim (by_mnemonic mnemonic) [
  | none ↦ some (fail b (IrError.unknown_mnemonic mnemonic), none)
  | some spec ↦ emit_opcode b spec ty args results
]

unfoldable pub opcode : FunctionBuilder → Str → Ty → List Value → Made Value
unfolding raw_opcode
opcode b mnemonic ty args = do
  (b', made) ← raw_opcode b mnemonic ty args 1
  result ← elim made [ some results ↦ get_elem? results 0 | none ↦ some (handle 0) ]
  some (b', result)

unfoldable pub opcode_void : FunctionBuilder → Str → List Value → Option FunctionBuilder
unfolding raw_opcode
opcode_void b mnemonic args = do (b', made) ← raw_opcode b mnemonic u256 args 0; some b'
