-- ===== src/Asm/Assembler/Program/Asks.antt =====
-- What a call of asm.rs asks the bytecode to hold.
use rustevm.Base.{◌+◌, ◌≡◌, some, List, [], ◌∷◌, length}
use rustevm.Base.Bytes.{be_value}
use rustevm.Isa.{OpSpec, InTable}
use rustevm.Asm.Disasm.{Instruction}
use rustevm.Asm.Assembler.{Labels, get}
use rustevm.Asm.Assembler.Run.{Call}

-- The instruction is the one that the call asks for, at the addresses of the labels.
abbrev pub AsksFor : Labels → Call → Instruction → Type 0
AsksFor labels (Call.op m) ins =
    ((spec : OpSpec) × InTable spec × (spec.mnemonic ≡ m) × (ins.opcode ≡ spec.byte))
    × (ins.immediate ≡ [])
AsksFor labels (Call.push imm) ins =
    (ins.opcode ≡ 0x5f + length ins.immediate) × (be_value ins.immediate ≡ be_value imm)
AsksFor labels (Call.dup n) ins = (ins.opcode ≡ 0x7f + n) × (ins.immediate ≡ [])
AsksFor labels (Call.swap n) ins = (ins.opcode ≡ 0x8f + n) × (ins.immediate ≡ [])
AsksFor labels Call.label ins = ⊥
AsksFor labels (Call.bind l) ins =
    (get l labels ≡ some ins.pc) × (ins.opcode ≡ 0x5b) × (ins.immediate ≡ [])
AsksFor labels (Call.push_label l) ins =
    (get l labels ≡ some (be_value ins.immediate))
    × (ins.opcode ≡ 0x61)
    × (length ins.immediate ≡ 2)

-- The calls, less those that reserve a label, which emit nothing.
abbrev pub emitting : List Call → List Call
emitting [] = []
emitting (Call.label ∷ calls) = emitting calls
emitting (Call.op m ∷ calls) = Call.op m ∷ emitting calls
emitting (Call.push imm ∷ calls) = Call.push imm ∷ emitting calls
emitting (Call.dup n ∷ calls) = Call.dup n ∷ emitting calls
emitting (Call.swap n ∷ calls) = Call.swap n ∷ emitting calls
emitting (Call.bind l ∷ calls) = Call.bind l ∷ emitting calls
emitting (Call.push_label l ∷ calls) = Call.push_label l ∷ emitting calls
