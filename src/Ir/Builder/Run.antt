-- ===== src/Ir/Builder/Run.antt =====
-- Programs of calls on the builder of src/backend/evm-codegen/src/ir/builder.rs, less what the calls
-- return.
use rustevm.Base.{Option, some, List, [], ◌∷◌, ◌>>=◌}
use rustevm.Ir.Builder
use rustevm.Ir.Builder.{FunctionBuilder}
use rustevm.Ir.Builder.Ins
use rustevm.Ir.Builder.Ins.{Made, Unary, Checked, Store}
use rustevm.Ir.Func.{BlockKind}
use rustevm.Ir.Inst.{Value, Block, Func, Terminator}
use rustevm.Ir.Types.{Ty, Signature}
use rustevm.Isa.{Str}

-- The ten methods that end a block all call `terminate` with a terminator of theirs.
pub data Call : Type 0 where
  create_block : Call
  create_block_with : List Ty → Call
  set_block_kind : Block → BlockKind → Call
  switch_to : Block → Call
  note : Str → Call
  terminate : Terminator → Call
  unary : Unary → Call
  overflow : Checked → Ty → Value → Value → Call
  convert : Ty → Value → Call
  write : Store → Value → Value → Call
  memcopy : Value → Value → Value → Call
  call : Func → Signature → List Value → Call
  opcode : Str → Ty → List Value → Call
  opcode_void : Str → List Value → Call

-- The builder after a call that returns something.
unfoldable pub after : {A : Type 0} → Made A → Option FunctionBuilder
after made = do (b, result) ← made; some b

unfoldable pub step : Call → FunctionBuilder → Option FunctionBuilder
unfolding after
step create_block b = some (Builder.create_block b).0
step (create_block_with params) b = after (Builder.create_block_with b params)
step (set_block_kind block kind) b = Builder.set_block_kind b block kind
step (switch_to block) b = some (Builder.switch_to b block)
step (note text) b = Builder.note b text
step (terminate term) b = Builder.terminate b term
step (unary u) b = after (Ins.unary b u)
step (overflow c ty x y) b = after (Ins.overflow b c ty x y)
step (convert to value) b = after (Ins.convert b to value)
step (write kind place value) b = Ins.write b kind place value
step (memcopy dst src len) b = Ins.memcopy b dst src len
step (call callee sig args) b = after (Ins.call b callee sig args)
step (opcode mnemonic ty args) b = after (Ins.opcode b mnemonic ty args)
step (opcode_void mnemonic args) b = Ins.opcode_void b mnemonic args

unfoldable pub run : List Call → FunctionBuilder → Option FunctionBuilder
run [] b = some b
run (c ∷ calls) b = do b' ← step c b; run calls b'
