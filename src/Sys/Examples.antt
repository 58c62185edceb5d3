-- ===== src/Sys/Examples.antt =====
-- Bindings, for the model of src/target/evm-sys.
use rustevm.Base.{◌≡◌, refl, true, false, some, length}
use rustevm.Isa.{
  storage, frontier, bytes, OpSpec, cold_warm, by_byte, by_byte_sound, opcodes, op_form,
}
use rustevm.Sys.Binding.{Binding}
use rustevm.Sys.Agreement.{bindings, find_binding, matches_form, find_binding-bindings}

abbrev sload : OpSpec
sload = record {
  mnemonic = bytes "SLOAD";
  byte = 0x54;
  stack_in = 1;
  stack_out = 1;
  is_terminating = false;
  gas = cold_warm 2100 100;
  category = storage;
  min_fork = frontier;
}

sload_found : by_byte 0x54 ≡ some sload
unfolding by_byte opcodes
sload_found = refl

find_binding-bindings_example :
    ((b : Binding) × (find_binding (bytes "SLOAD") bindings ≡ some b)
      × (matches_form (op_form sload) sload b ≡ true))
    × (length bindings ≡ length opcodes)
find_binding-bindings_example = find_binding-bindings sload (by_byte_sound 0x54 sload sload_found).1
