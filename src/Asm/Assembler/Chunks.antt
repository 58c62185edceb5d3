-- ===== src/Asm/Assembler/Chunks.antt =====
-- Code of asm.rs as the instructions it was emitted in: each an opcode byte and its immediate.
use rustevm.Base.{
  ℕ, suc, ◌+◌, ◌<◌, ◌≡◌, refl, sym, ap, ◌∙◌, ◌⊎◌, inl, inr, List, [], ◌∷◌, ◌++◌, arith, length,
  length-append, All, Any, false,
}
use native.Mathlib.Nat.{zero-add}
use mathlib.Core.List.{append-nil, append_assoc}
use mathlib.Core.Path.{subst}
use rustevm.Isa.{by_byte}
use rustevm.Asm.Disasm.{Instruction, wanted, size, immediate_width, disassemble}
use rustevm.Asm.Disasm.Unique.{reassemble, WellDecoded, disassemble_unique}

pub record Chunk : Type 0 where
  pub opcode : ℕ
  pub immediate : List ℕ

abbrev pub span : Chunk → ℕ
span c = suc (length c.immediate)

unfoldable pub flatten : List Chunk → List ℕ
flatten [] = []
flatten (c ∷ cs) = c.opcode ∷ (c.immediate ++ flatten cs)

-- The immediate is as wide as the disassembler wants it.
abbrev pub Whole : Chunk → Type 0
Whole c = length c.immediate ≡ wanted (by_byte c.opcode)

-- A chunk with the property starts at the offset.
abbrev pub At : (Chunk → Type 0) → ℕ → List Chunk → Type 0
At P o [] = ⊥
At P o (c ∷ cs) = (o ≡ 0) × P c ⊎ ((k : ℕ) × (o ≡ span c + k) × At P k cs)

-- What the disassembler reads at `pc` where a chunk stands.
abbrev pub instruction_at : ℕ → Chunk → Instruction
instruction_at pc c = record {
  pc = pc;
  opcode = c.opcode;
  spec = by_byte c.opcode;
  immediate = c.immediate;
  truncated = false;
}

unfoldable pub listing_of : ℕ → List Chunk → List Instruction
listing_of pc [] = []
listing_of pc (c ∷ cs) = instruction_at pc c ∷ listing_of (pc + span c) cs

reassemble-listing_of : (pc : ℕ) (cs : List Chunk) → reassemble (listing_of pc cs) ≡ flatten cs
unfolding reassemble listing_of flatten
reassemble-listing_of pc [] = refl
reassemble-listing_of pc (c ∷ cs) =
    ap (λ r. c.opcode ∷ (c.immediate ++ r)) (reassemble-listing_of (pc + span c) cs)

listing_of-WellDecoded :
    (pc : ℕ) (cs : List Chunk) → All Whole cs → WellDecoded pc (listing_of pc cs)
unfolding listing_of size immediate_width
listing_of-WellDecoded pc [] h = tt
listing_of-WellDecoded pc (c ∷ cs) (h, hs) =
    let e : pc + (1 + length c.immediate) ≡ pc + span c = omega arith in
    (refl, refl, inl (refl, h), rw e (listing_of-WellDecoded (pc + span c) cs hs))

-- Whole chunks come back from the disassembler as they were emitted.
pub disassemble-flatten :
    (cs : List Chunk) → All Whole cs → disassemble (flatten cs) ≡ listing_of 0 cs
disassemble-flatten cs h =
    ap disassemble (sym (reassemble-listing_of 0 cs))
    ∙ disassemble_unique (listing_of 0 cs) (listing_of-WellDecoded 0 cs h)

-- The instruction read back has the chunk's place and parts.
abbrev pub Reads : (Chunk → Type 0) → ℕ → Instruction → Type 0
Reads P o ins = (ins.pc ≡ o) × P (record { opcode = ins.opcode; immediate = ins.immediate })

listing_of-At :
    (P : Chunk → Type 0) (pc o : ℕ) (cs : List Chunk)
    → At P o cs
    → Any (Reads P (pc + o)) (listing_of pc cs)
unfolding listing_of
listing_of-At P pc o [] m = absurd m
listing_of-At P pc o (c ∷ cs) (inl (e, p)) = inl (omega arith, p)
listing_of-At P pc o (c ∷ cs) (inr (k, e, m)) =
    let e' : pc + o ≡ pc + span c + k = omega arith in
    inr (
      subst (λ n. Any (Reads P n) (listing_of (pc + span c) cs)) (sym e')
        (listing_of-At P (pc + span c) k cs m))

-- The disassembler finds the instruction at every chunk's offset.
pub disassemble-At :
    (P : Chunk → Type 0) (o : ℕ) (cs : List Chunk)
    → All Whole cs
    → At P o cs
    → Any (Reads P o) (disassemble (flatten cs))
disassemble-At P o cs h m =
    subst (Any (Reads P o)) (sym (disassemble-flatten cs h))
      (subst (λ n. Any (Reads P n) (listing_of 0 cs)) (zero-add o) (listing_of-At P 0 o cs m))

All-listing_of {κ κ'} :
    (P : Chunk → Type κ') (Q : Instruction → Type κ)
    → ((pc : ℕ) (c : Chunk) → P c → Q (instruction_at pc c))
    → (pc : ℕ) (cs : List Chunk) → All P cs
    → All Q (listing_of pc cs)
unfolding listing_of
All-listing_of P Q f pc [] h = tt
All-listing_of P Q f pc (c ∷ cs) (h, hs) = (f pc c h, All-listing_of P Q f (pc + span c) cs hs)

-- What holds of all chunks holds of all instructions read back.
pub All-disassemble {κ κ'} :
    (P : Chunk → Type κ') (Q : Instruction → Type κ)
    → ((pc : ℕ) (c : Chunk) → P c → Q (instruction_at pc c))
    → (cs : List Chunk) → All Whole cs
    → All P cs
    → All Q (disassemble (flatten cs))
All-disassemble P Q f cs h k =
    subst (All Q) (sym (disassemble-flatten cs h)) (All-listing_of P Q f 0 cs k)

-- Growing the code by one chunk at its end.
pub flatten-snoc :
    (cs : List Chunk) (c : Chunk)
    → flatten (cs ++ (c ∷ [])) ≡ flatten cs ++ (c.opcode ∷ c.immediate)
unfolding flatten
flatten-snoc [] c = ap (λ r. c.opcode ∷ r) (append-nil c.immediate)
flatten-snoc (d ∷ cs) c =
    ap (λ r. d.opcode ∷ r)
      (ap (λ r. d.immediate ++ r) (flatten-snoc cs c)
        ∙ sym (append_assoc d.immediate (flatten cs) (c.opcode ∷ c.immediate)))

pub At-snoc :
    (P : Chunk → Type 0) (o : ℕ) (cs : List Chunk) (c : Chunk) → At P o cs → At P o (cs ++ (c ∷ []))
At-snoc P o [] c m = absurd m
At-snoc P o (d ∷ cs) c (inl m) = inl m
At-snoc P o (d ∷ cs) c (inr (k, e, m)) = inr (k, e, At-snoc P k cs c m)

pub At-end :
    (P : Chunk → Type 0) (cs : List Chunk) (c : Chunk)
    → P c
    → At P (length (flatten cs)) (cs ++ (c ∷ []))
unfolding flatten
At-end P [] c p = inl (refl, p)
At-end P (d ∷ cs) c p =
    inr
      (length (flatten cs), omega (arith, length-append d.immediate (flatten cs)), At-end P cs c p)

-- A chunk lies inside the code.
pub At-lt : (P : Chunk → Type 0) (o : ℕ) (cs : List Chunk) → At P o cs → o < length (flatten cs)
unfolding flatten
At-lt P o [] m = absurd m
At-lt P o (c ∷ cs) (inl (e, p)) = omega arith
At-lt P o (c ∷ cs) (inr (k, e, m)) =
    omega (arith, At-lt P k cs m, length-append c.immediate (flatten cs))
