-- ===== src/Isa/Examples.antt =====
-- Runs of the lookups of src/shared/evm-isa/src/lookup.rs.
use rustevm.Base.{◌≡◌, refl, false, some}
use rustevm.Isa.Lookup.{by_byte}
use rustevm.Isa.Table.{opcodes}
use rustevm.Isa.Spec.{bytes, OpSpec, cold_warm, storage, frontier}

abbrev sload : OpSpec
sload = record {
  mnemonic = bytes "SLOAD";
  byte = 0x54;
  stack_in = 1;
  stack_out = 1;
  is_terminating = false;
  gas = cold_warm 2100 100;
  category = storage;
  min_fork = frontier;
}

sload_found : by_byte 0x54 ≡ some sload
unfolding by_byte opcodes
sload_found = refl
