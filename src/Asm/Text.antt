-- ===== src/Asm/Text.antt =====
-- Text output of the assembler and the disassembler: the `LowerHex` of an immediate, the `Display` of
-- an error (asm.rs), and the `Display` of an instruction and of a listing (disasm.rs). A text is the
-- list of its UTF-8 bytes.
pub mod Words
pub mod Reader
pub mod ReadBack
pub mod Lines
use rustevm.Base.{
  ℕ, ◌-◌, Bool, true, false, Option, none, some, List, [], ◌∷◌, ◌++◌, ◌==◌, if◌then◌else◌, drop,
}
use rustevm.Base.Format.{decimal, lower_hex, pad_left, hex_bytes}
use rustevm.Isa.{
  Str, bytes, Fork, frontier, homestead, byzantium, constantinople, istanbul, berlin, london,
  shanghai, cancun, prague, OpSpec,
}
use rustevm.Asm.Immediate.{Immediate, width}
use rustevm.Asm.Assembler.{
  AsmError, Label, unknown_mnemonic, opcode_too_new, use_helper_instead, bad_stack_depth,
  unbound_label, label_already_bound, code_too_large_to_address, max_label_offset,
}
use rustevm.Asm.Disasm.{Instruction, mnemonic, missing, disassemble}

-- The `LowerHex` of an immediate.
unfoldable pub immediate_hex : Immediate → Str
unfolding hex_bytes
immediate_hex imm = if width imm == 0 then b'0' ∷ [] else hex_bytes (drop (32 - width imm) imm)

-- The derived `Debug` of a fork and of a label.
unfoldable pub fork_debug : Fork → Str
fork_debug Fork.frontier = bytes "Frontier"
fork_debug Fork.homestead = bytes "Homestead"
fork_debug Fork.byzantium = bytes "Byzantium"
fork_debug Fork.constantinople = bytes "Constantinople"
fork_debug Fork.istanbul = bytes "Istanbul"
fork_debug Fork.berlin = bytes "Berlin"
fork_debug Fork.london = bytes "London"
fork_debug Fork.shanghai = bytes "Shanghai"
fork_debug Fork.cancun = bytes "Cancun"
fork_debug Fork.prague = bytes "Prague"

unfoldable pub label_debug : Label → Str
unfolding decimal
label_debug l = bytes "Label(" ++ decimal l ++ bytes ")"

-- The em dash.
abbrev dash : Str
dash = 0xe2 ∷ 0x80 ∷ 0x94 ∷ []

unfoldable pub error_text : AsmError → Str
unfolding fork_debug label_debug decimal
error_text (unknown_mnemonic m) = bytes "unknown opcode `" ++ m ++ bytes "`"
error_text (opcode_too_new m min_fork target) =
    bytes "`"
    ++ m
    ++ bytes "` requires "
    ++ fork_debug min_fork
    ++ bytes " but the target fork is "
    ++ fork_debug target
error_text (use_helper_instead m helper) =
    bytes "use `"
    ++ helper
    ++ bytes "` to emit `"
    ++ m
    ++ bytes "` "
    ++ dash
    ++ bytes " it carries an operand"
error_text (bad_stack_depth helper n) =
    bytes "`"
    ++ helper
    ++ bytes "("
    ++ decimal n
    ++ bytes ")` is out of range; depth must be 1..=16"
error_text (unbound_label l) =
    bytes "label " ++ label_debug l ++ bytes " was referenced but never bound"
error_text (label_already_bound l) = bytes "label " ++ label_debug l ++ bytes " was bound twice"
error_text (code_too_large_to_address len) =
    bytes "code is "
    ++ decimal len
    ++ bytes " bytes; a PUSH2 label reference cannot address past "
    ++ decimal max_label_offset

-- What follows the mnemonic. `{:#04x}` is `0x` and two digits, for a byte.
operand_text : Instruction → Str
unfolding hex_bytes
operand_text ins = elim ins.immediate [ [] ↦ [] | b ∷ bs ↦ bytes " 0x" ++ hex_bytes (b ∷ bs) ]

truncated_text : Instruction → Str
unfolding decimal
truncated_text ins =
    if ins.truncated
    then bytes " (truncated, " ++ decimal (missing ins) ++ bytes " byte(s) missing)"
    else []

unfoldable pub instruction_text : Instruction → Str
unfolding lower_hex pad_left operand_text truncated_text
instruction_text ins =
    (pad_left b'0' 4 (lower_hex ins.pc) ++ bytes "  " ++ mnemonic ins) ++ elim ins.spec [
      | none ↦ bytes " 0x" ++ pad_left b'0' 2 (lower_hex ins.opcode)
      | some spec ↦ operand_text ins ++ truncated_text ins
    ]

-- The lines, each with its line end.
lines_text : List Instruction → Str
lines_text [] = []
lines_text (ins ∷ rest) = instruction_text ins ++ (b'\n' ∷ lines_text rest)

-- The `Display` of a `Listing`.
unfoldable pub listing : List ℕ → Str
unfolding lines_text
listing code = lines_text (disassemble code)
