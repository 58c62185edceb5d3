-- ===== src/Isa.antt =====
-- The instruction set: src/shared/evm-isa/src (category.rs, fork.rs, gas.rs, spec.rs, op_form.rs,
-- table.rs, lookup.rs).
mod Spec
mod Table
pub mod Lookup
mod Examples
pub use Spec.{
  Str, bytes, str_eq_iff, str_eq_refl, str_eq_ne, str_eq_flip, OpCategory, arithmetic, comparison,
  bitwise, storage, memory, context, block, control, stack_manip, call, log, terminating,
}
pub use Spec.{
  Fork, frontier, homestead, byzantium, constantinople, istanbul, berlin, london, shanghai, cancun,
  prague, GasClass, fixed, cold_warm,
}
pub use Spec.{OpSpec, OpForm, simple}
unfoldable pub use Spec.{
  str_eq, op_form, chronology, is_pure, reads_storage, writes_storage, is_stack_manip,
}
unfoldable pub use Table.{opcodes}
unfoldable pub use Lookup.{by_mnemonic, by_byte}
pub use Lookup.{InTable, by_byte_sound, by_mnemonic_sound, all-InTable}
