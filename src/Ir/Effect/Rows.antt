-- ===== src/Ir/Effect/Rows.antt =====
-- `Effects::of_opcode` of src/backend/evm-codegen/src/ir/effect.rs against the opcode table's own
-- tests.
use mathlib.Core.Bool.{and-eq-true_iff}
use rustevm.Base.{
  ◌≡◌, refl, ◌⊎◌, inl, inr, Bool, true, false, ◌&&◌, ◌||◌, ◌==◌, ==_iff, if◌then◌else◌, Bool-cases,
  same_bool, same_bool_eq, all,
}
use rustevm.Ir.Effect
use rustevm.Ir.Effect.{
  Effects, all_effects, reads_storage, writes_storage, reads_transient, writes_transient, union,
  intersects, is_pure, is_removable, of_opcode, of_category,
}
use rustevm.Isa
use rustevm.Isa.{OpSpec, OpCategory, opcodes, InTable, all-InTable, is_stack_manip}

-- The categories that the intermediate representation keeps to itself.
unfoldable pub is_reserved : OpCategory → Bool
is_reserved OpCategory.control = true
is_reserved OpCategory.terminating = true
is_reserved _ = false

-- The effects of a row that is not reserved are those that the table tells of it.
abbrev pub Agrees : OpSpec → Type 0
Agrees spec =
    (is_removable (of_opcode spec) ≡ Isa.is_pure spec || is_stack_manip spec)
    × (intersects (of_opcode spec) (union reads_storage reads_transient) ≡ Isa.reads_storage spec)
    × (intersects (of_opcode spec) (union writes_storage writes_transient)
        ≡ Isa.writes_storage spec)

agrees : OpSpec → Bool
agrees spec =
    same_bool (is_removable (of_opcode spec)) (Isa.is_pure spec || is_stack_manip spec)
    && same_bool (intersects (of_opcode spec) (union reads_storage reads_transient))
        (Isa.reads_storage spec)
    && same_bool (intersects (of_opcode spec) (union writes_storage writes_transient))
        (Isa.writes_storage spec)

row_ok : OpSpec → Bool
row_ok spec = if is_reserved spec.category then of_opcode spec == all_effects else agrees spec

rows_ok : all row_ok opcodes ≡ true
unfolding row_ok agrees is_reserved opcodes of_opcode of_category union intersects Effect.is_pure
    is_removable Isa.is_pure Isa.reads_storage Isa.writes_storage is_stack_manip
rows_ok = refl

agrees_sound : (spec : OpSpec) → agrees spec ≡ true → Agrees spec
unfolding agrees
agrees_sound spec h =
    let (left, writes) = (and-eq-true_iff _ _).0 h in
    let (pure_ones, reads) = (and-eq-true_iff _ _).0 left in
    (same_bool_eq _ _ pure_ones, same_bool_eq _ _ reads, same_bool_eq _ _ writes)

-- Every row of the table has all effects if its category is control flow or terminating. Otherwise
-- its effects leave it removable exactly if the table calls it pure or a stack operation, and meet
-- the storage reads (the storage writes) exactly if the table says that it reads (writes) storage.
pub of_opcode-Agrees :
    (spec : OpSpec)
    → InTable spec
    → (is_reserved spec.category ≡ true) × (of_opcode spec ≡ all_effects)
      ⊎ (is_reserved spec.category ≡ false) × Agrees spec
unfolding row_ok
of_opcode-Agrees spec row =
    let checked = all-InTable row_ok spec rows_ok row in
    elim (Bool-cases (is_reserved spec.category)) [
      | inl kept ↦ inl (kept, (==_iff _ _).0 (rw (row_ok, kept) at checked))
      | inr free ↦ inr (free, agrees_sound spec (rw (row_ok, free) at checked))
    ]
