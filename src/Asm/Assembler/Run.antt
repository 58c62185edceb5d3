-- ===== src/Asm/Assembler/Run.antt =====
-- Programs of calls on the assembler of asm.rs, in any order and with any operands.
use rustevm.Base.{ℕ, Option, some, List, [], ◌∷◌, ◌>>=◌}
use rustevm.Isa.{Str}
use rustevm.Asm.Immediate.{Immediate}
use rustevm.Asm.Assembler
use rustevm.Asm.Assembler.{Asm, Label}

pub data Call : Type 0 where
  op : Str → Call
  push : Immediate → Call
  dup swap : ℕ → Call
  label : Call
  bind push_label : Label → Call

unfoldable pub step : Call → Asm → Option Asm
step (op mnemonic) a = some (Assembler.op a mnemonic)
step (push imm) a = Assembler.push a imm
step (dup n) a = Assembler.dup a n
step (swap n) a = Assembler.swap a n
step label a = do (a', l) ← Assembler.label a; some a'
step (bind l) a = some (Assembler.bind a l)
step (push_label l) a = some (Assembler.push_label a l)

unfoldable pub run : List Call → Asm → Option Asm
run [] a = some a
run (call ∷ calls) a = do a' ← step call a; run calls a'
