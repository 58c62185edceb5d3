-- ===== src/Asm/Assembler/Legal.antt =====
-- The bytecode that `finish` of asm.rs returns, read back by the disassembler of asm/disasm.rs.
use rustevm.Base.{
  ℕ, suc, ◌%◌, ◌^◌, ◌≤◌, ◌≡◌, refl, sym, ap, ◌∙◌, ◌⊎◌, inl, inr, false, Option, some, List, [], ◌∷◌,
  arith, length, All, All-map, Any, Any-map, Bool-cases, Result, ok, err, ◌==◌,
}
use mathlib.Core.Path.{subst}
use rustevm.Base.Bytes.{be_value, be_value-to_be_bytes}
use rustevm.Isa.{Fork, chronology, OpSpec}
use rustevm.Asm.Disasm.{Instruction, disassemble, jumpdests}
use rustevm.Asm.Disasm.Targets.{jumpdests_iff}
use rustevm.Asm.Assembler.{Label, Labels, get, Fixup, AsmError, Asm, new, max_label_offset, finish}
use rustevm.Asm.Assembler.SameFork.{run-fork}
use rustevm.Asm.Assembler.Run.{Call, run}
use rustevm.Asm.Assembler.Chunks.{Chunk, flatten, At, At-lt, Reads, disassemble-At, All-disassemble}
use rustevm.Asm.Assembler.Built.{Allowed, IsJumpdest, Bound, Built, new-IsBuilt}
use rustevm.Asm.Assembler.Finish.{Pushes, Resolved, Patched}
use rustevm.Asm.Assembler.Finished.{Admissible, run-IsBuilt, finish-Ends}

-- The offset is a legal jump target of the code.
abbrev pub IsTarget : List ℕ → ℕ → Type 0
IsTarget code o = Any (λ t. t ≡ o) (jumpdests code)

-- The reference is a PUSH2 instruction of an address, which is its label's and a legal jump target.
abbrev pub IsResolved : Labels → List ℕ → Fixup → Type 0
IsResolved labels code f =
    (target : ℕ) × (get f.label labels ≡ some target)
    × IsTarget code target
    × Any (λ ins. (f.at ≡ suc ins.pc) × (ins.opcode ≡ 0x61) × (be_value ins.immediate ≡ target))
        (disassemble code)

-- The instruction is whole and in the table of the fork.
abbrev pub IsAvailable : Fork → Instruction → Type 0
IsAvailable fork ins =
    (ins.truncated ≡ false)
    × ((spec : OpSpec) × (ins.spec ≡ some spec) × (chronology spec.min_fork ≤ chronology fork))

pub get-Bound :
    (cs : List Chunk) (l : Label) (labels : Labels) (target : ℕ)
    → All (Bound cs) labels
    → get l labels ≡ some target
    → At IsJumpdest target cs
unfolding get
get-Bound cs l [] target h e = cc
get-Bound cs l ((k, o) ∷ m) target (h, hs) e = elim (Bool-cases (k == l)) [
  | inl same ↦ subst (λ n. At IsJumpdest n cs) (found (rw same at e)) h
  | inr other ↦ get-Bound cs l m target hs (rw other at e)
]
  where
    found : some o ≡ some target → o ≡ target
    found p = cc

-- What a finished program of calls hands to the theorems below.
pub record Done (fork : Fork) (a : Asm) (code : List ℕ) : Type 0 where
  pub chunks : List Chunk
  pub built : Built a chunks
  pub same_fork : a.fork ≡ fork
  pub patched : List Chunk
  pub patches : Patched a.labels a.fixups chunks patched
  pub spelled : flatten patched ≡ code
  pub addressable : (length a.code ≤ max_label_offset) ⊎ (a.fixups ≡ [])

ok_code :
    (c d : List ℕ) → ◌≡◌ {A = Option (Result AsmError (List ℕ))} (some (ok c)) (some (ok d)) → c ≡ d
ok_code c d e = cc

err_not_ok :
    (e : AsmError) (d : List ℕ)
    → ◌≡◌ {A = Option (Result AsmError (List ℕ))} (some (err e)) (some (ok d))
    → ⊥
err_not_ok e d h = cc

pub finished-Done :
    (fork : Fork) (calls : List Call) (a : Asm) (code : List ℕ)
    → All Admissible calls
    → run calls (new fork) ≡ some a
    → finish a ≡ some (ok code)
    → Done fork a code
finished-Done fork calls a code k r f =
    let (cs, b) = run-IsBuilt calls (new fork) a k r (new-IsBuilt fork) in done cs b
  where
    done : (cs : List Chunk) → Built a cs → Done fork a code
    done cs b = elim (finish-Ends a cs b) [
      | inl (e, g) ↦ absurd (err_not_ok e code (sym g ∙ f))
      | inr (cs', g, p, fits) ↦ record {
        chunks = cs;
        built = b;
        same_fork = unfold new in run-fork calls (new fork) a r;
        patched = cs';
        patches = p;
        spelled = ok_code (flatten cs') code (sym g ∙ f);
        addressable = fits;
      }
    ]

module _ (fork : Fork) (a : Asm) (code : List ℕ) (d : Done fork a code) where
  -- What stands in the patched chunks is read back from the code.
  Done-Reads : (P : Chunk → Type 0) (o : ℕ) → At P o d.patched → Any (Reads P o) (disassemble code)
  Done-Reads P o m =
      subst (λ c. Any (Reads P o) (disassemble c)) d.spelled
        (disassemble-At P o d.patched d.patches.whole m)

  Done-IsTarget : (o : ℕ) → At IsJumpdest o d.chunks → IsTarget code o
  Done-IsTarget o m =
      (jumpdests_iff code o).1 (Done-Reads IsJumpdest o (d.patches.opcodes 0x5b o m))

  Done-IsAvailable : All (IsAvailable fork) (disassemble code)
  Done-IsAvailable =
      subst (λ c. All (IsAvailable fork) (disassemble c)) d.spelled
        (All-disassemble (Allowed fork) (IsAvailable fork) (λ pc c l. (refl, l)) d.patched
          d.patches.whole
          (d.patches.allowed fork
            (subst (λ f. All (Allowed f) d.chunks) d.same_fork d.built.allowed)))

  -- Addresses fit in two bytes where there is a reference.
  pub Done-small :
      (f : Fixup) (fs : List Fixup) → a.fixups ≡ f ∷ fs → length a.code ≤ max_label_offset
  Done-small f fs e = elim d.addressable [ inl small ↦ small | inr empty ↦ cc ]

-- After any calls, with words of 32 bytes for immediates, that `finish` turns into bytecode,
-- every bound label's address is an offset that the disassembler lists as a legal jump target.
pub finish-IsTarget :
    (fork : Fork) (calls : List Call) (a : Asm) (code : List ℕ)
    → All Admissible calls
    → run calls (new fork) ≡ some a
    → finish a ≡ some (ok code)
    → All (λ b. IsTarget code b.1) a.labels
finish-IsTarget fork calls a code k r f =
    let d = finished-Done fork calls a code k r f in
    All-map (Bound d.chunks) (λ b. IsTarget code b.1) (λ b m. Done-IsTarget fork a code d b.1 m)
      a.labels d.built.bound

-- After any calls, with words of 32 bytes for immediates, that `finish` turns into bytecode, the
-- disassembler reads only whole instructions, each with a row of the opcode table that the
-- target fork has.
pub finish-IsAvailable :
    (fork : Fork) (calls : List Call) (a : Asm) (code : List ℕ)
    → All Admissible calls
    → run calls (new fork) ≡ some a
    → finish a ≡ some (ok code)
    → All (IsAvailable fork) (disassemble code)
finish-IsAvailable fork calls a code k r f =
    Done-IsAvailable fork a code (finished-Done fork calls a code k r f)

Pushes-target :
    (target : ℕ) (ins : Instruction) (f : Fixup) (o : ℕ)
    → target ≤ max_label_offset
    → f.at ≡ suc o
    → Reads (Pushes target) o ins
    → (f.at ≡ suc ins.pc) × (ins.opcode ≡ 0x61) × (be_value ins.immediate ≡ target)
Pushes-target target ins f o small at (place, (opcode, bytes)) =
    let fits : target % 2 ^ 16 ≡ target = omega arith in
    (
      at ∙ ap suc (sym place),
      opcode,
      ap be_value bytes ∙ be_value-to_be_bytes 2 (target % 2 ^ 16) (omega arith) ∙ fits,
    )

Done-Resolved :
    (fork : Fork) (a : Asm) (code : List ℕ) (d : Done fork a code)
    → length a.code ≤ max_label_offset
    → (f : Fixup) → Resolved a.labels d.patched f
    → IsResolved a.labels code f
Done-Resolved fork a code d small f (target, found, (o, at, m)) =
    let bound = get-Bound d.chunks f.label a.labels target d.built.bound found in
    let inside = At-lt IsJumpdest target d.chunks bound in
    let sized = ap length d.built.spelled in
    (
      target,
      found,
      Done-IsTarget fork a code d target bound,
      Any-map (Reads (Pushes target) o) _ (λ ins r. Pushes-target target ins f o (omega arith) at r)
          (disassemble code) (Done-Reads fork a code d (Pushes target) o m),
    )

All-Resolved :
    (fork : Fork) (a : Asm) (code : List ℕ) (d : Done fork a code) (fs : List Fixup)
    → a.fixups ≡ fs
    → All (Resolved a.labels d.patched) fs
    → All (IsResolved a.labels code) fs
All-Resolved fork a code d [] e h = tt
All-Resolved fork a code d (f ∷ fs) e h =
    All-map (Resolved a.labels d.patched) (IsResolved a.labels code)
      (Done-Resolved fork a code d (Done-small fork a code d f fs e)) (f ∷ fs) h

-- After any calls, with words of 32 bytes for immediates, that `finish` turns into bytecode,
-- every label reference is an instruction PUSH2 whose immediate is the address of the
-- reference's label, not truncated, and that address is a legal jump target.
pub finish-IsResolved :
    (fork : Fork) (calls : List Call) (a : Asm) (code : List ℕ)
    → All Admissible calls
    → run calls (new fork) ≡ some a
    → finish a ≡ some (ok code)
    → All (IsResolved a.labels code) a.fixups
finish-IsResolved fork calls a code k r f =
    let d = finished-Done fork calls a code k r f in
    All-Resolved fork a code d a.fixups refl d.patches.resolved
