-- ===== src/Asm/Examples.antt =====
-- Runs of the assembler and the disassembler of src/backend/evm-codegen/src/asm.rs.
use rustevm.Asm.Assembler.{
  Asm, AsmError, new, finish, push, push_bytes, extend, op, push_label, bind, label, get, patch,
  copy_at, emit_byte,
}
use rustevm.Asm.Assembler.Answers.{op-Answers, Answers}
use rustevm.Asm.Assembler.Emits.{push-emits, Narrowest}
use rustevm.Asm.Assembler.Finished.{Admissible, finish_total}
use rustevm.Asm.Assembler.Legal.{IsResolved, IsAvailable, finish-IsAvailable, finish-IsResolved}
use rustevm.Asm.Assembler.Program.Asks.{AsksFor, emitting}
use rustevm.Asm.Assembler.Program.Spelled.{finish-AsksFor}
use rustevm.Asm.Assembler.Run.{Call, run, step}
use rustevm.Asm.Assembler.NextLabel.{reserved_by}
use rustevm.Asm.Assembler.Sticky.{reserving, finish-run_failed}
use rustevm.Asm.Disasm.{Instruction, disassemble, jumpdests}
use rustevm.Asm.Disasm.Targets.{JumpdestAt, jumpdests_iff}
use rustevm.Asm.Disasm.Unique.{
  reassemble, WellDecoded, CountsMissing, disassemble_lem, disassemble_unique, missing_exact,
}
use rustevm.Asm.Immediate.{width, bit_width, from_int}
use rustevm.Asm.Immediate.Width.{width_bounds, bit_width_bounds, from_int-IsWord}
use rustevm.Asm.Text
use rustevm.Asm.Text.Reader.{read_listing}
use rustevm.Asm.Text.Lines.{read_listing-listing}
use rustevm.Base.{
  Pairs, ℕ, ◌+◌, ◌-◌, ◌^◌, ◌≤◌, ◌<◌, ◌≡◌, ◌≢◌, ◌↔◌, refl, some, none, List, [], ◌∷◌, ◌++◌, All, Any,
  Result, ok, err, length, arith,
}
use rustevm.Base.Bytes.{be_value, to_be_bytes}
use rustevm.Isa.{bytes, cancun, by_byte, by_mnemonic, opcodes, str_eq, op_form, chronology}

-- A forward jump over a PUSH1 of 0x5b.
abbrev program : List Call
program =
    Call.label
    ∷ Call.push_label 0
    ∷ Call.op (bytes "JUMP")
    ∷ Call.push (from_int 1 0x5b)
    ∷ Call.bind 0
    ∷ []

program-Admissible : All Admissible program
program-Admissible = (tt, (tt, (tt, (from_int-IsWord 1 0x5b (omega arith), (tt, tt)))))

abbrev assembled : Asm
assembled = record {
  fork = cancun;
  code = 0x61 ∷ 0 ∷ 0 ∷ 0x56 ∷ 0x60 ∷ 0x5b ∷ 0x5b ∷ [];
  labels = (0, 6) ∷ [];
  fixups = record { label = 0; at = 1 } ∷ [];
  next_label = 1;
  error = none;
}

abbrev bytecode : List ℕ
bytecode = 0x61 ∷ 0 ∷ 6 ∷ 0x56 ∷ 0x60 ∷ 0x5b ∷ 0x5b ∷ []

program_runs : run program (new cancun) ≡ some assembled
unfolding run step push push_bytes extend emit_byte op push_label bind label new by_byte by_mnemonic
    opcodes str_eq op_form chronology width from_int to_be_bytes
program_runs = refl

program_finishes : finish assembled ≡ some (ok bytecode)
unfolding finish patch get copy_at to_be_bytes
program_finishes = refl

finish-IsResolved_example : All (IsResolved assembled.labels bytecode) assembled.fixups
finish-IsResolved_example =
    finish-IsResolved cancun program assembled bytecode program-Admissible program_runs
      program_finishes

finish-IsAvailable_example : All (IsAvailable cancun) (disassemble bytecode)
finish-IsAvailable_example =
    finish-IsAvailable cancun program assembled bytecode program-Admissible program_runs
      program_finishes

finish-AsksFor_example : Pairs (AsksFor assembled.labels) (emitting program) (disassemble bytecode)
finish-AsksFor_example =
    finish-AsksFor cancun program assembled bytecode program-Admissible program_runs
      program_finishes

finish_total_example :
    (a : Asm) × (run program (new cancun) ≡ some a)
    × ((r : Result AsmError (List ℕ)) × (finish a ≡ some r))
finish_total_example = finish_total cancun program program-Admissible (omega arith)

abbrev listing : List Instruction
listing = disassemble (0x61 ∷ 0x5b ∷ 0x5b ∷ 0x5b ∷ 0x62 ∷ 0x5b ∷ [])

listing-WellDecoded : WellDecoded 0 listing
listing-WellDecoded = (disassemble_lem (0x61 ∷ 0x5b ∷ 0x5b ∷ 0x5b ∷ 0x62 ∷ 0x5b ∷ [])).1

disassemble_lem_example :
    (reassemble (disassemble bytecode) ≡ bytecode) × WellDecoded 0 (disassemble bytecode)
disassemble_lem_example = disassemble_lem bytecode

disassemble_unique_example : disassemble (reassemble listing) ≡ listing
disassemble_unique_example = disassemble_unique listing listing-WellDecoded

jumpdests_iff_example :
    Any (λ t. t ≡ 5) (jumpdests bytecode) ↔ Any (JumpdestAt 5) (disassemble bytecode)
jumpdests_iff_example = jumpdests_iff bytecode 5

missing_exact_example : All CountsMissing (disassemble (0x62 ∷ 1 ∷ []))
missing_exact_example = missing_exact (0x62 ∷ 1 ∷ [])

push-emits_example :
    (bs : List ℕ) × (push (new cancun) (from_int 8 0x1234)
      ≡ some (record (new cancun) { code = (new cancun).code ++ ((0x5f + length bs) ∷ bs) }))
    × (be_value bs ≡ be_value (from_int 8 0x1234))
    × Narrowest (new cancun).fork (from_int 8 0x1234) bs
unfolding new
push-emits_example =
    push-emits (new cancun) (from_int 8 0x1234) refl (from_int-IsWord 8 0x1234 (omega arith))

-- A truncated PUSH3 and a byte that is no opcode among the rest.
read_listing-listing_example :
    read_listing (Text.listing (0x60 ∷ 0xff ∷ 0x0c ∷ 0x01 ∷ 0x62 ∷ 0x5b ∷ []))
    ≡ 0x60 ∷ 0xff ∷ 0x0c ∷ 0x01 ∷ 0x62 ∷ 0x5b ∷ []
read_listing-listing_example =
    read_listing-listing (0x60 ∷ 0xff ∷ 0x0c ∷ 0x01 ∷ 0x62 ∷ 0x5b ∷ []) (omega arith)

op-Answers_example : Answers (new cancun) (bytes "MCOPY")
unfolding new
op-Answers_example = op-Answers (new cancun) (bytes "MCOPY") refl

abbrev broken : Asm
broken = record assembled { error = some (AsmError.unbound_label 7) }

finish-run_failed_example :
    (run program broken ≡ some (reserving broken (reserved_by program)))
    × (finish (reserving broken (reserved_by program)) ≡ some (err (AsmError.unbound_label 7)))
finish-run_failed_example =
    finish-run_failed program broken (AsmError.unbound_label 7) refl (omega arith)

width_bounds_example :
    (width (from_int 8 0x1234) ≤ 32)
    × (be_value (from_int 8 0x1234) < 256 ^ width (from_int 8 0x1234))
    × (width (from_int 8 0x1234) ≢ 0
        → 256 ^ (width (from_int 8 0x1234) - 1) ≤ be_value (from_int 8 0x1234))
width_bounds_example = width_bounds (from_int 8 0x1234) (from_int-IsWord 8 0x1234 (omega arith))

bit_width_bounds_example :
    (bit_width (from_int 8 0x1234) ≤ 256)
    × (be_value (from_int 8 0x1234) < 2 ^ bit_width (from_int 8 0x1234))
    × (bit_width (from_int 8 0x1234) ≢ 0
        → 2 ^ (bit_width (from_int 8 0x1234) - 1) ≤ be_value (from_int 8 0x1234))
bit_width_bounds_example =
    bit_width_bounds (from_int 8 0x1234) (from_int-IsWord 8 0x1234 (omega arith))
