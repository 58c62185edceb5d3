-- ===== src/Ir/Examples.antt =====
-- Runs of the types, the effects, the instructions and the functions of
-- src/backend/evm-codegen/src/ir.
use rustevm.Base.{ℕ, ◌-◌, ◌≡◌, refl, ◌⊎◌, inr, true, false, arith, some, [], ◌∷◌, none, ◌++◌}
use rustevm.Ir.Effect.{of_opcode, all_effects}
use rustevm.Ir.Effect.Rows.{of_opcode-Agrees, is_reserved, Agrees}
use rustevm.Ir.Func
use rustevm.Ir.Func.Params.{new-entry_only, entry_only, param_values}
use rustevm.Ir.Func.Fresh.{append_inst-fresh, result_values}
use rustevm.Ir.Inst.{Op, InstData, default_repair}
use rustevm.Ir.Inst.Sound.{default_repair-Fits}
use rustevm.Ir.Text.{effects_text}
use rustevm.Ir.Text.Flags.{read_effects, read_effects-effects_text}
use rustevm.Ir.Types.{uint, sint, bool, u256, bits, Repair, is_well_formed, for_convert, Signature}
use rustevm.Ir.Types.Convert.{for_convert-Fits, Same}
use rustevm.Ir.Types.Invariant.{word_mod, Fits, repaired}
use rustevm.Ir.Types.Needed.{for_convert_needed}
use rustevm.Isa.{OpSpec, bytes, cold_warm, storage, frontier, by_byte, by_byte_sound, opcodes}

-- `-1` of 16 bits becomes 0xff of 8.
for_convert-Fits_example :
    Fits (uint 8) (repaired (for_convert (sint 16) (uint 8)) (word_mod - 1))
    × Same (bits (uint 8)) (repaired (for_convert (sint 16) (uint 8)) (word_mod - 1)) (word_mod - 1)
unfolding is_well_formed bits
for_convert-Fits_example =
    for_convert-Fits (sint 16) (uint 8) (word_mod - 1) refl refl (omega arith, inr (omega arith))

for_convert_needed_example :
    (for_convert (uint 8) (sint 8) ≡ Repair.none) ⊎ ((w : ℕ) × Fits (uint 8) w × ¬ Fits (sint 8) w)
unfolding is_well_formed bits
for_convert_needed_example = for_convert_needed (uint 8) (sint 8) refl refl

read_effects-effects_text_example : read_effects (effects_text 0x111) ≡ 0x111
read_effects-effects_text_example = read_effects-effects_text 0x111 (omega arith)

abbrev sload : OpSpec
sload = record {
  mnemonic = bytes "SLOAD";
  byte = 0x54;
  stack_in = 1;
  stack_out = 1;
  is_terminating = false;
  gas = cold_warm 2100 100;
  category = storage;
  min_fork = frontier;
}

sload_found : by_byte 0x54 ≡ some sload
unfolding by_byte opcodes
sload_found = refl

of_opcode-Agrees_example :
    (is_reserved sload.category ≡ true) × (of_opcode sload ≡ all_effects)
    ⊎ (is_reserved sload.category ≡ false) × Agrees sload
of_opcode-Agrees_example = of_opcode-Agrees sload (by_byte_sound 0x54 sload sload_found).1

abbrev signature : Signature
signature = record { params = u256 ∷ bool ∷ []; returns = u256 ∷ [] }

new-entry_only_example :
    Func.new (bytes "f") signature
    ≡ some (entry_only (bytes "f") signature (0 ∷ 1 ∷ []) (param_values 0 (u256 ∷ bool ∷ [])))
new-entry_only_example = new-entry_only (bytes "f") signature (omega arith)

-- The complement of 0x0f at 8 bits.
default_repair-Fits_example :
    Fits (uint 8) (repaired (default_repair Op.not (uint 8)) (word_mod - 1 - 0x0f))
unfolding is_well_formed bits
default_repair-Fits_example =
    default_repair-Fits Op.not (uint 8) (0x0f ∷ []) (word_mod - 1 - 0x0f) refl tt (omega arith, tt)
      refl

abbrev entry_f : Func.Function
entry_f = entry_only (bytes "f") signature (0 ∷ 1 ∷ []) (param_values 0 (u256 ∷ bool ∷ []))

abbrev entry_block : Func.BlockData
entry_block = record Func.default_block { params = 0 ∷ 1 ∷ [] }

abbrev checked_add : InstData
checked_add = record {
  op = Op.add_overflow;
  ty = u256;
  repair = Repair.none;
  args = 0 ∷ 0 ∷ [];
  results = [];
  note = none;
}

append_inst-fresh_example :
    Func.append_inst entry_f 0 checked_add (u256 ∷ bool ∷ [])
    ≡ some (
      record entry_f {
        insts = record checked_add { results = 2 ∷ 3 ∷ [] } ∷ [];
        values = param_values 0 (u256 ∷ bool ∷ []) ++ result_values 0 0 (u256 ∷ bool ∷ []);
        blocks = record entry_block { insts = 0 ∷ [] } ∷ [];
      },
      0,
    )
append_inst-fresh_example =
    append_inst-fresh entry_f 0 entry_block checked_add (u256 ∷ bool ∷ []) refl (omega arith)
      (omega arith) (omega arith)
