-- ===== src/Asm/Disasm.antt =====
-- The disassembler: src/backend/evm-codegen/src/asm/disasm.rs. Its text is in Asm/Text.antt.
pub mod Walk
pub mod Unique
pub mod Targets
use rustevm.Base.{
  ℕ, zero, suc, ◌+◌, ◌-◌, min, Bool, Option, none, some, List, [], ◌∷◌, ◌++◌, map, ltb,
  if◌then◌else◌, length, take, drop, get_elem?,
}
use rustevm.Isa.{Str, bytes, str_eq, OpSpec, OpForm, op_form, by_byte}

abbrev pub unknown : Str
unknown = bytes "INVALID"

pub record Instruction : Type 0 where
  pub pc : ℕ
  pub opcode : ℕ
  pub spec : Option OpSpec
  pub immediate : List ℕ
  pub truncated : Bool

unfoldable pub mnemonic : Instruction → Str
mnemonic ins = elim ins.spec [ none ↦ unknown | some spec ↦ spec.mnemonic ]

unfoldable pub size : Instruction → ℕ
size ins = 1 + length ins.immediate

-- The immediate that a form carries: `n` for `PUSH{n}`, nothing otherwise.
form_width : OpForm → ℕ
form_width (OpForm.push n) = n
form_width _ = 0

-- `match spec.map(op_form) { Some(OpForm::Push(n)) => n as usize, _ => 0 }`
unfoldable pub wanted : Option OpSpec → ℕ
unfolding form_width
wanted none = 0
wanted (some spec) = form_width (op_form spec)

unfoldable pub immediate_width : Instruction → ℕ
immediate_width ins = wanted ins.spec

-- The source subtracts in `usize`.
unfoldable pub missing : Instruction → ℕ
missing ins = immediate_width ins - length ins.immediate

pub record Instructions : Type 0 where
  pub code : List ℕ
  pub pc : ℕ

unfoldable pub next : Instructions → Option (Instruction × Instructions)
next it = elim (get_elem? it.code it.pc) [
  | none ↦ none
  | some opcode ↦
      let spec = by_byte opcode in
      let from = it.pc + 1 in
      let taken = min (wanted spec) (length it.code - from) in
      some (
        record {
          pc = it.pc;
          opcode = opcode;
          spec = spec;
          immediate = take taken (drop from it.code);
          truncated = ltb taken (wanted spec);
        },
        record it { pc = from + taken },
      )
]

-- The iterator run to its end, in `fuel` steps at most.
collect : ℕ → Instructions → List Instruction
collect zero it = []
collect (suc fuel) it = elim (next it) [ none ↦ [] | some (ins, it') ↦ ins ∷ collect fuel it' ]

-- Each step takes a byte at least, so the code's length is fuel enough.
unfoldable pub disassemble : List ℕ → List Instruction
unfolding collect next
disassemble code = collect (length code) (record { code = code; pc = 0 })

targets : List Instruction → List ℕ
targets [] = []
targets (ins ∷ rest) =
    if str_eq (mnemonic ins) (bytes "JUMPDEST") then ins.pc ∷ targets rest else targets rest

unfoldable pub jumpdests : List ℕ → List ℕ
unfolding targets mnemonic
jumpdests code = targets (disassemble code)
