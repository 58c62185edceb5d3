-- ===== src/Ir/Builder/Examples.antt =====
-- Runs of the builder of src/backend/evm-codegen/src/ir/builder.rs.
use rustevm.Base.{ℕ, ◌≡◌, refl, false, none, some, List, [], ◌∷◌, ◌++◌, get_elem?, err}
use rustevm.Asm.Immediate.{from_int}
use rustevm.Ir.Builder
use rustevm.Ir.Builder.{
  FunctionBuilder, new, finish, emit, emit_current, emit_into, fail, terminate, terminate_current,
  end_block, close, is_terminated, placeholder,
}
use rustevm.Ir.Builder.Finished.{finish-run_error, run-ended_block}
use rustevm.Ir.Builder.Ins.{Unary, unary, unary_op, convert, opcode}
use rustevm.Ir.Builder.Run.{Call, after, step, run}
use rustevm.Ir.Error.{IrError}
use rustevm.Ir.Func
use rustevm.Ir.Func.{
  Function, BlockData, BlockKind, update_block, handle, end_with, set_terminator, terminator,
  results, value_type, ValueData, ValueDef,
}
use rustevm.Ir.Func.Params.{entry_only, param_values}
use rustevm.Ir.Inst.{Op, InstData, Terminator, default_repair}
use rustevm.Ir.Types.{uint, u256, bool, Repair, mask, Signature}
use rustevm.Isa.{OpSpec, bytes, context, frontier, fixed}

abbrev signature : Signature
signature = record { params = u256 ∷ bool ∷ []; returns = u256 ∷ [] }

abbrev start : FunctionBuilder
start = record {
  func = entry_only (bytes "f") signature (0 ∷ 1 ∷ []) (param_values 0 (u256 ∷ bool ∷ []));
  current = some 0;
  last = none;
  error = none;
}

-- A body that reads a slot, adds the caller and returns.
abbrev body : List Call
body =
    Call.unary (Unary.sload u256 0)
    ∷ Call.opcode (bytes "CALLER") u256 []
    ∷ Call.unary (Unary.add u256 2 3)
    ∷ Call.terminate (Terminator.return (4 ∷ []))
    ∷ []

abbrev caller : OpSpec
caller = record {
  mnemonic = bytes "CALLER";
  byte = 0x33;
  stack_in = 0;
  stack_out = 1;
  is_terminating = false;
  gas = fixed 2;
  category = context;
  min_fork = frontier;
}

abbrev inst : Op → List ℕ → ℕ → InstData
inst op args result = record {
  op = op;
  ty = u256;
  repair = Repair.none;
  args = args;
  results = result ∷ [];
  note = none;
}

abbrev ended : BlockData
ended = record {
  params = 0 ∷ 1 ∷ [];
  insts = 0 ∷ 1 ∷ 2 ∷ [];
  term = some (Terminator.return (4 ∷ []));
  kind = BlockKind.normal;
}

abbrev built : FunctionBuilder
built = record start {
  func = record start.func {
    insts =
        inst Op.s_load (0 ∷ []) 2 ∷ inst (Op.opcode caller) [] 3 ∷ inst Op.add (2 ∷ 3 ∷ []) 4 ∷ [];
    values =
        param_values 0 (u256 ∷ bool ∷ [])
        ++ (record { ty = u256; def = ValueDef.result 0 0 }
            ∷ record { ty = u256; def = ValueDef.result 1 0 }
            ∷ record { ty = u256; def = ValueDef.result 2 0 }
            ∷ []);
    blocks = ended ∷ [];
  };
  current = none;
}

-- More calls after the end of the only block.
abbrev more : List Call
more = Call.switch_to 0 ∷ Call.unary (Unary.add u256 2 3) ∷ []

abbrev refused : FunctionBuilder
refused = record built { current = some 0; error = some (IrError.already_terminated 0) }

more_runs : run more built ≡ some refused
unfolding run step after unary unary_op emit emit_current emit_into is_terminated terminator fail
    placeholder handle default_repair mask Builder.switch_to
more_runs = refl

run-ended_block_example :
    (new : BlockData) × (get_elem? refused.func.blocks 0 ≡ some new)
    × (new.term ≡ some (Terminator.return (4 ∷ [])))
    × (new.insts ≡ ended.insts)
run-ended_block_example =
    run-ended_block more built refused 0 ended (Terminator.return (4 ∷ [])) more_runs refl refl

refused_stays : run (Call.unary (Unary.add u256 2 3) ∷ []) refused ≡ some refused
unfolding run step after unary unary_op emit placeholder handle
refused_stays = refl

finish-run_error_example : finish refused ≡ err (IrError.already_terminated 0)
finish-run_error_example =
    finish-run_error (Call.unary (Unary.add u256 2 3) ∷ []) refused refused
      (IrError.already_terminated 0) refl refused_stays

abbrev no_values : FunctionBuilder
no_values = record {
  func = entry_only (bytes "g") (record { params = []; returns = [] }) [] [];
  current = some 0;
  last = none;
  error = none;
}

-- A constant after the end of the block is an error and gives the placeholder 0; the conversion of
-- that placeholder then panics, since the function has no value.
placeholder_panics :
    run
      (Call.terminate Terminator.stop
        ∷ Call.unary (Unary.iconst u256 (from_int 1 1))
        ∷ Call.convert (uint 8) 0
        ∷ [])
      no_values
    ≡ none
unfolding run step after unary unary_op convert emit emit_current fail placeholder handle
    default_repair terminate terminate_current end_block close set_terminator end_with is_terminated
    terminator update_block value_type
placeholder_panics = refl
