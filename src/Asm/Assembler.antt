-- ===== src/Asm/Assembler.antt =====
-- The assembler's state and its calls: `Asm` of src/backend/evm-codegen/src/asm.rs. Where the source
-- can panic (`expect`, a slice index), the result is an `Option` and `none` is the panic.
pub mod Run
pub mod Chunks
pub mod Built
pub mod Calls
pub mod Replace
pub mod Finish
pub mod Finished
pub mod Legal
pub mod SameFork
pub mod NextLabel
pub mod Emits
pub mod Answers
pub mod Sticky
pub mod Program
use rustevm.Base.{
  ℕ, suc, ◌+◌, ◌-◌, ◌%◌, ◌^◌, Bool, true, false, not, ◌&&◌, Option, none, some, List, [], ◌∷◌, ◌++◌,
  ◌>>=◌, ltb, leb, ◌==◌, if◌then◌else◌, length, drop, set, Result, ok, err,
}
use rustevm.Base.Bytes.{to_be_bytes}
use rustevm.Isa.{
  Str, bytes, Fork, frontier, shanghai, chronology, OpSpec, OpForm, op_form, by_mnemonic, by_byte,
}
use rustevm.Asm.Immediate.{Immediate, width}

abbrev pub max_contract_size : ℕ
max_contract_size = 24_576

abbrev pub max_label_offset : ℕ
max_label_offset = 2 ^ 16 - 1

-- The index inside `Label(u32)`.
abbrev pub Label : Type 0
Label = ℕ

pub record Fixup : Type 0 where
  pub label : Label
  pub at : ℕ

pub data AsmError : Type 0 where
  unknown_mnemonic : Str → AsmError
  opcode_too_new : Str → Fork → Fork → AsmError
  use_helper_instead : Str → Str → AsmError
  bad_stack_depth : Str → ℕ → AsmError
  unbound_label : Label → AsmError
  label_already_bound : Label → AsmError
  code_too_large_to_address : ℕ → AsmError

-- The `HashMap` of labels is an association list.
abbrev pub Labels : Type 0
Labels = List (Label × ℕ)

unfoldable pub get : Label → Labels → Option ℕ
get l [] = none
get l ((k, o) ∷ m) = if k == l then some o else get l m

contains_key : Label → Labels → Bool
unfolding get
contains_key l m = elim (get l m) [ none ↦ false | some o ↦ true ]

pub record Asm : Type 0 where
  pub fork : Fork
  pub code : List ℕ
  pub labels : Labels
  pub fixups : List Fixup
  pub next_label : ℕ
  pub error : Option AsmError

unfoldable pub new : Fork → Asm
new fork = record { fork = fork; code = []; labels = []; fixups = []; next_label = 0; error = none }

unfoldable pub offset : Asm → ℕ
offset a = length a.code

unfoldable pub is_deployable : Asm → Bool
is_deployable a = leb (length a.code) max_contract_size

-- `self.error.is_some()`
abbrev pub failed : Asm → Bool
failed a = elim a.error [ none ↦ false | some e ↦ true ]

-- `get_or_insert`: the first error stays.
unfoldable pub fail : Asm → AsmError → Asm
fail a e = record a { error = elim a.error [ none ↦ some e | some old ↦ some old ] }

unfoldable pub emit_byte : Asm → ℕ → Str → Fork → Asm
emit_byte a byte mnemonic min_fork =
    if ltb (chronology a.fork) (chronology min_fork)
    then fail a (AsmError.opcode_too_new mnemonic min_fork a.fork)
    else record a { code = a.code ++ (byte ∷ []) }

unfoldable pub emit_family_byte : Asm → ℕ → Option Asm
emit_family_byte a byte = do
  spec ← by_byte byte
  some (emit_byte a spec.byte spec.mnemonic spec.min_fork)

-- `if self.error.is_none() { self.code.extend_from_slice(bytes) }`
unfoldable pub extend : Asm → List ℕ → Asm
extend a bs = if failed a then a else record a { code = a.code ++ bs }

-- `0x5f + bytes.len() as u8`; the sum stays in the byte for an immediate of 32 bytes at most.
unfoldable pub push_bytes : Asm → List ℕ → Option Asm
unfolding extend
push_bytes a bs = do
  spec ← by_byte (0x5f + length bs % 2 ^ 8)
  some (extend (emit_byte a spec.byte spec.mnemonic spec.min_fork) bs)

-- The helper to use for a form that carries an operand.
helper : OpForm → Option Str
helper OpForm.simple = none
helper (OpForm.push n) = some (bytes "push")
helper (OpForm.dup n) = some (bytes "dup")
helper (OpForm.swap n) = some (bytes "swap")

emit_simple : Asm → OpSpec → Asm
unfolding helper
emit_simple a spec = elim (helper (op_form spec)) [
  | some h ↦ fail a (AsmError.use_helper_instead spec.mnemonic h)
  | none ↦ emit_byte a spec.byte spec.mnemonic spec.min_fork
]

unfoldable pub op : Asm → Str → Asm
unfolding emit_simple
op a mnemonic = if failed a then a else elim (by_mnemonic mnemonic) [
  | none ↦ fail a (AsmError.unknown_mnemonic mnemonic)
  | some spec ↦ emit_simple a spec
]

unfoldable pub push : Asm → Immediate → Option Asm
push a imm =
    if failed a
    then some a
    else if width imm == 0 && ltb (chronology a.fork) (chronology shanghai)
    then push_bytes a (0 ∷ [])
    else if width imm == 0
    then some (emit_byte a 0x5f (bytes "PUSH0") shanghai)
    else push_bytes a (drop (32 - width imm) imm)

unfoldable pub dup : Asm → ℕ → Option Asm
dup a n =
    if failed a
    then some a
    else if not (leb 1 n && leb n 16)
    then some (fail a (AsmError.bad_stack_depth (bytes "dup") n))
    else emit_family_byte a (0x7f + n)

unfoldable pub swap : Asm → ℕ → Option Asm
swap a n =
    if failed a
    then some a
    else if not (leb 1 n && leb n 16)
    then some (fail a (AsmError.bad_stack_depth (bytes "swap") n))
    else emit_family_byte a (0x8f + n)

-- `next_label` is a `u32`; an addition that overflows panics, as in a debug build.
unfoldable pub label : Asm → Option (Asm × Label)
label a =
    if ltb (a.next_label + 1) (2 ^ 32)
    then some (record a { next_label = a.next_label + 1 }, a.next_label)
    else none

unfoldable pub bind : Asm → Label → Asm
unfolding contains_key
bind a l =
    if failed a
    then a
    else if contains_key l a.labels
    then fail a (AsmError.label_already_bound l)
    else emit_byte (record a { labels = (l, length a.code) ∷ a.labels }) 0x5b (bytes "JUMPDEST")
        frontier

unfoldable pub push_label : Asm → Label → Asm
push_label a l = if failed a then a else record a {
  code = (a.code ++ (0x61 ∷ [])) ++ (0 ∷ 0 ∷ []);
  fixups = a.fixups ++ (record { label = l; at = length (a.code ++ (0x61 ∷ [])) } ∷ []);
}

-- `copy_from_slice` into a range that starts at `at`.
unfoldable pub copy_at : List ℕ → ℕ → List ℕ → List ℕ
copy_at code at [] = code
copy_at code at (b ∷ bs) = copy_at (set code at b) (at + 1) bs

-- The loop of `finish` over the label references.
unfoldable pub patch : Labels → List Fixup → List ℕ → Option (Result AsmError (List ℕ))
patch labels [] code = some (ok code)
patch labels (fixup ∷ rest) code = elim (get fixup.label labels) [
  | none ↦ some (err (AsmError.unbound_label fixup.label))
  | some target ↦
      if leb (fixup.at + 2) (length code)
      then patch labels rest (copy_at code fixup.at (to_be_bytes 2 (target % 2 ^ 16)))
      else none
]

is_empty : List Fixup → Bool
is_empty [] = true
is_empty (f ∷ fs) = false

unfoldable pub finish : Asm → Option (Result AsmError (List ℕ))
unfolding is_empty
finish a = elim a.error [
  | some e ↦ some (err e)
  | none ↦
      if ltb max_label_offset (length a.code) && not (is_empty a.fixups)
      then some (err (AsmError.code_too_large_to_address (length a.code)))
      else patch a.labels a.fixups a.code
]
