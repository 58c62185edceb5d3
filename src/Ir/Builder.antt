-- ===== src/Ir/Builder.antt =====
-- Building a function: `FunctionBuilder` of src/backend/evm-codegen/src/ir/builder.rs. A method that
-- mutates the builder returns it; `none` is a panic.
pub mod Ins
pub mod Run
pub mod Advances
pub mod Methods
pub mod Finished
mod Examples
use rustevm.Base.{
  ℕ, Bool, true, false, Option, none, some, List, [], ◌∷◌, ◌>>=◌, if◌then◌else◌, length, replicate,
  get_elem?, Result, ok, err,
}
use rustevm.Asm.Immediate.{Immediate}
use rustevm.Ir.Error.{IrError}
use rustevm.Ir.Func
use rustevm.Ir.Func.{Function, BlockKind, append_param, append_inst, terminator, handle}
use rustevm.Ir.Inst.{Value, Inst, Block, BlockCall, InstData, Op, Terminator}
use rustevm.Ir.Types.{Ty, Repair, Signature}
use rustevm.Isa.{Str}

pub record FunctionBuilder : Type 0 where
  pub func : Function
  pub current : Option Block
  pub last : Option Inst
  pub error : Option IrError

unfoldable pub new : Str → Signature → Option FunctionBuilder
new name sig = do
  func ← Func.new name sig
  some (record { func = func; current = some func.entry; last = none; error = none })

unfoldable pub block_param : FunctionBuilder → Block → ℕ → Option Value
block_param b block n = do params ← Func.block_params b.func block; get_elem? params n

unfoldable pub param : FunctionBuilder → ℕ → Option Value
unfolding block_param
param b n = block_param b b.func.entry n

unfoldable pub create_block : FunctionBuilder → FunctionBuilder × Block
create_block b = let (func, block) = Func.create_block b.func in (record b { func = func }, block)

unfoldable pub create_block_with : FunctionBuilder → List Ty → Option (FunctionBuilder × Block)
create_block_with b params =
    let (func, block) = Func.create_block b.func in
    do func' ← Func.append_params func block params; some (record b { func = func' }, block)

unfoldable pub set_block_kind : FunctionBuilder → Block → BlockKind → Option FunctionBuilder
set_block_kind b block kind = do
  func ← Func.set_block_kind b.func block kind
  some (record b { func = func })

unfoldable pub switch_to : FunctionBuilder → Block → FunctionBuilder
switch_to b block = record b { current = some block; last = none }

unfoldable pub note : FunctionBuilder → Str → Option FunctionBuilder
note b text = elim b.last [
  | none ↦ some b
  | some inst ↦ do func ← Func.set_note b.func inst text; some (record b { func = func })
]

-- `get_or_insert`: the first error stays.
unfoldable pub fail : FunctionBuilder → IrError → FunctionBuilder
fail b e = record b { error = elim b.error [ none ↦ some e | some old ↦ some old ] }

-- `self.func.terminator(block).is_some()`
unfoldable pub is_terminated : Function → Block → Option Bool
is_terminated func block = do
  term ← terminator func block
  some (elim term [ none ↦ false | some t ↦ true ])

unfoldable pub close : FunctionBuilder → Block → Terminator → Option FunctionBuilder
close b block term = do
  func ← Func.set_terminator b.func block term
  some (record b { func = func; current = none; last = none })

unfoldable pub end_block : FunctionBuilder → Block → Terminator → Option FunctionBuilder
unfolding is_terminated fail close
end_block b block term = do
  ended ← is_terminated b.func block
  if ended then some (fail b (IrError.already_terminated block)) else close b block term

-- `terminate` on a builder without an error.
unfoldable pub terminate_current : FunctionBuilder → Terminator → Option FunctionBuilder
unfolding end_block fail
terminate_current b term = elim b.current [
  | none ↦ some (fail b IrError.no_current_block)
  | some block ↦ end_block b block term
]

unfoldable pub terminate : FunctionBuilder → Terminator → Option FunctionBuilder
unfolding terminate_current
terminate b term = elim b.error [ some e ↦ some b | none ↦ terminate_current b term ]

unfoldable pub placeholder : ℕ → List Value
unfolding handle
placeholder count = replicate count (handle 0)

-- The end of `emit`, in a block that is open.
unfoldable pub append_to :
    FunctionBuilder → Block → InstData → List Ty → Option (FunctionBuilder × List Value)
append_to b block d result_types = do
  (func, inst) ← append_inst b.func block d result_types
  values ← Func.results func inst
  some (record b { func = func; last = some inst }, values)

unfoldable pub emit_into :
    FunctionBuilder → Block → InstData → List Ty → Option (FunctionBuilder × List Value)
unfolding is_terminated fail placeholder append_to
emit_into b block d result_types = do
  ended ← is_terminated b.func block
  if ended
      then some (fail b (IrError.already_terminated block), placeholder (length result_types))
      else append_to b block d result_types

-- `emit` on a builder without an error.
unfoldable pub emit_current :
    FunctionBuilder → InstData → List Ty → Option (FunctionBuilder × List Value)
unfolding emit_into fail placeholder
emit_current b d result_types = elim b.current [
  | none ↦ some (fail b IrError.no_current_block, placeholder (length result_types))
  | some block ↦ emit_into b block d result_types
]

unfoldable pub emit :
    FunctionBuilder
    → Op
    → Ty
    → Repair
    → List Value
    → List Ty
    → Option (FunctionBuilder × List Value)
unfolding emit_current placeholder
emit b op ty repair args result_types = elim b.error [
  | some e ↦ some (b, placeholder (length result_types))
  | none ↦
      emit_current b
        (record { op = op; ty = ty; repair = repair; args = args; results = []; note = none })
        result_types
]

unfoldable pub finish : FunctionBuilder → Result IrError Function
finish b = elim b.error [ some e ↦ err e | none ↦ ok b.func ]

abbrev pub block_call : Block → List Value → BlockCall
block_call block args = record { block = block; args = args }

unfoldable pub jump : FunctionBuilder → Block → List Value → Option FunctionBuilder
unfolding terminate
jump b to args = terminate b (Terminator.jump (block_call to args))

unfoldable pub brif :
    FunctionBuilder → Value → Block → List Value → Block → List Value → Option FunctionBuilder
unfolding terminate
brif b cond then_block then_args otherwise else_args =
    terminate b
      (Terminator.brif cond (block_call then_block then_args) (block_call otherwise else_args))

bare_cases : List (Immediate × Block) → List (Immediate × BlockCall)
bare_cases [] = []
bare_cases ((value, block) ∷ cases) = (value, block_call block []) ∷ bare_cases cases

unfoldable pub switch :
    FunctionBuilder → Value → List (Immediate × Block) → Block → Option FunctionBuilder
unfolding terminate bare_cases
switch b on cases default =
    terminate b (Terminator.switch on (bare_cases cases) (block_call default []))

unfoldable pub ret : FunctionBuilder → List Value → Option FunctionBuilder
unfolding terminate
ret b values = terminate b (Terminator.return values)

unfoldable pub stop : FunctionBuilder → Option FunctionBuilder
unfolding terminate
stop b = terminate b Terminator.stop

unfoldable pub return_data : FunctionBuilder → Value → Value → Option FunctionBuilder
unfolding terminate
return_data b ptr len = terminate b (Terminator.return_data ptr len)

unfoldable pub revert : FunctionBuilder → Value → Value → Option FunctionBuilder
unfolding terminate
revert b ptr len = terminate b (Terminator.revert ptr len)

unfoldable pub selfdestruct : FunctionBuilder → Value → Option FunctionBuilder
unfolding terminate
selfdestruct b beneficiary = terminate b (Terminator.self_destruct beneficiary)

unfoldable pub invalid : FunctionBuilder → Option FunctionBuilder
unfolding terminate
invalid b = terminate b Terminator.invalid

unfoldable pub unreachable : FunctionBuilder → Option FunctionBuilder
unfolding terminate
unreachable b = terminate b Terminator.unreachable
