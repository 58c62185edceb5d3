-- ===== src/Asm/Assembler/SameFork.antt =====
-- The target fork over the calls of asm.rs.
use rustevm.Base.{ℕ, ◌-◌, drop, ◌≡◌, ◌∙◌, some, List, [], ◌∷◌, >>=-eq-some, arith}
use rustevm.Asm.Immediate.{Immediate, width}
use rustevm.Isa.{Str, bytes, shanghai, Fork}
use rustevm.Asm.Assembler.{
  Asm, fail, emit_byte, emit_family_byte, extend, push_bytes, emit_simple, op, push, dup, swap,
  label, bind, push_label,
}
use rustevm.Asm.Assembler.Run.{Call, step, run}

emit_byte-fork : (a : Asm) (b : ℕ) (m : Str) (f : Fork) → (emit_byte a b m f).fork ≡ a.fork
unfolding emit_byte fail
emit_byte-fork a b m f = ground arith

emit_family_byte-fork : (a a' : Asm) (b : ℕ) → emit_family_byte a b ≡ some a' → a'.fork ≡ a.fork
unfolding emit_family_byte emit_byte fail
emit_family_byte-fork a a' b h = ground arith

push_bytes-fork : (a a' : Asm) (bs : List ℕ) → push_bytes a bs ≡ some a' → a'.fork ≡ a.fork
unfolding push_bytes extend emit_byte fail
push_bytes-fork a a' bs h = ground arith

op-fork : (a : Asm) (m : Str) → (op a m).fork ≡ a.fork
unfolding op emit_simple emit_byte fail
op-fork a m = ground arith

push-fork : (a a' : Asm) (imm : Immediate) → push a imm ≡ some a' → a'.fork ≡ a.fork
unfolding push
push-fork a a' imm h = ground (
  arith,
  push_bytes-fork a a' (0 ∷ []),
  push_bytes-fork a a' (drop (32 - width imm) imm),
  emit_byte-fork a 0x5f (bytes "PUSH0") shanghai,
)

step-fork : (call : Call) (a a' : Asm) → step call a ≡ some a' → a'.fork ≡ a.fork
unfolding step fail dup swap label bind push_label
step-fork (Call.op m) a a' h = ground (arith, op-fork a m)
step-fork (Call.push imm) a a' h = push-fork a a' imm h
step-fork (Call.dup n) a a' h = grind (arith, emit_family_byte-fork)
step-fork (Call.swap n) a a' h = grind (arith, emit_family_byte-fork)
step-fork Call.label a a' h = ground arith
step-fork (Call.bind l) a a' h = grind (arith, emit_byte-fork)
step-fork (Call.push_label l) a a' h = ground arith

pub run-fork : (calls : List Call) (a a' : Asm) → run calls a ≡ some a' → a'.fork ≡ a.fork
unfolding run
run-fork [] a a' h = cc
run-fork (call ∷ calls) a a' h =
    let (b, e, rest) = >>=-eq-some (step call a) (run calls) h in
    run-fork calls b a' rest ∙ step-fork call a b e
