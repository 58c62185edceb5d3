-- ===== src/Isa/Lookup/Family.antt =====
-- The PUSH, DUP and SWAP families and the bytes that the assembler names: op_form.rs over table.rs.
use rustevm.Base.{
  ℕ, ◌+◌, ◌≤◌, ◌≡◌, refl, Bool, true, false, none, some, arith, holds_from, holds_from_sound,
  Option-cases, inl, inr, ◌==◌, ==_iff,
}
use mathlib.Core.Bool.{false≢true}
use rustevm.Isa.Spec.{
  bytes, OpSpec, push, dup, swap, op_form, chronology, frontier, shanghai, fixed, stack_manip,
  control,
}
use rustevm.Isa.Table.{opcodes}
use rustevm.Isa.Lookup.{by_byte}

pub op_form-push : (spec : OpSpec) (n : ℕ) → n ≤ 32 → spec.byte ≡ 0x5f + n → op_form spec ≡ push n
unfolding op_form
op_form-push spec n h e = ground arith

pub op_form-dup :
    (spec : OpSpec) (n : ℕ) → 1 ≤ n → n ≤ 16 → spec.byte ≡ 0x7f + n → op_form spec ≡ dup n
unfolding op_form
op_form-dup spec n l h e = ground arith

pub op_form-swap :
    (spec : OpSpec) (n : ℕ) → 1 ≤ n → n ≤ 16 → spec.byte ≡ 0x8f + n → op_form spec ≡ swap n
unfolding op_form
op_form-swap spec n l h e = ground arith

has_row : ℕ → Bool
has_row b = elim (by_byte b) [ none ↦ false | some spec ↦ true ]

families-has_row : holds_from 0x5f has_row 65 ≡ true
unfolding holds_from has_row by_byte opcodes
families-has_row = refl

has_row-some : (b : ℕ) → has_row b ≡ true → (spec : OpSpec) × (by_byte b ≡ some spec)
unfolding has_row
has_row-some b h = elim (Option-cases (by_byte b)) [
  | inl lost ↦ absurd (false≢true (rw (lost, has_row) at h))
  | inr found ↦ found
]

-- Every byte from PUSH0 to SWAP16 has a row.
pub family_row : (n : ℕ) → n ≤ 64 → (spec : OpSpec) × (by_byte (0x5f + n) ≡ some spec)
family_row n h =
    has_row-some (0x5f + n)
      (holds_from_sound 0x5f has_row 65 (0x5f + n) families-has_row (omega arith) (omega arith))

is_frontier : ℕ → Bool
is_frontier b = elim (by_byte b) [ none ↦ false | some spec ↦ chronology spec.min_fork == 0 ]

families-is_frontier : holds_from 0x60 is_frontier 64 ≡ true
unfolding holds_from is_frontier by_byte opcodes chronology
families-is_frontier = refl

is_frontier-row :
    (b : ℕ) (spec : OpSpec)
    → is_frontier b ≡ true
    → by_byte b ≡ some spec
    → chronology spec.min_fork ≡ 0
unfolding is_frontier
is_frontier-row b spec h row = (==_iff (chronology spec.min_fork) 0).0 (rw (is_frontier, row) at h)

-- Every fork has the families, PUSH0 aside.
pub family-frontier :
    (n : ℕ) (spec : OpSpec)
    → 1 ≤ n
    → n ≤ 64
    → by_byte (0x5f + n) ≡ some spec
    → chronology spec.min_fork ≡ 0
family-frontier n spec lo hi row =
    is_frontier-row (0x5f + n) spec
      (holds_from_sound 0x60 is_frontier 64 (0x5f + n) families-is_frontier (omega arith)
        (omega arith))
      row

pub push0_row : (spec : OpSpec) × (by_byte 0x5f ≡ some spec) × (spec.min_fork ≡ shanghai)
unfolding by_byte opcodes
push0_row = (
  record {
    mnemonic = bytes "PUSH0";
    byte = 0x5f;
    stack_in = 0;
    stack_out = 1;
    is_terminating = false;
    gas = fixed 2;
    category = stack_manip;
    min_fork = shanghai;
  },
  refl,
  refl,
)

pub push2_row : (spec : OpSpec) × (by_byte 0x61 ≡ some spec) × (spec.min_fork ≡ frontier)
unfolding by_byte opcodes
push2_row = (
  record {
    mnemonic = bytes "PUSH2";
    byte = 0x61;
    stack_in = 0;
    stack_out = 1;
    is_terminating = false;
    gas = fixed 3;
    category = stack_manip;
    min_fork = frontier;
  },
  refl,
  refl,
)

pub jumpdest_row :
    (spec : OpSpec) × (by_byte 0x5b ≡ some spec)
    × (spec.min_fork ≡ frontier)
    × (spec.mnemonic ≡ bytes "JUMPDEST")
unfolding by_byte opcodes
jumpdest_row = (
  record {
    mnemonic = bytes "JUMPDEST";
    byte = 0x5b;
    stack_in = 0;
    stack_out = 0;
    is_terminating = false;
    gas = fixed 1;
    category = control;
    min_fork = frontier;
  },
  refl,
  refl,
  refl,
)
