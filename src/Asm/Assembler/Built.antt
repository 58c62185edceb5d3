-- ===== src/Asm/Assembler/Built.antt =====
-- The invariant of the assembler's state: its code is whole instructions of the target fork, each
-- bound label is at a JUMPDEST, and each reference is inside a PUSH2.
use rustevm.Base.{
  ℕ, suc, ◌≤◌, ◌<◌, ◌≡◌, refl, sym, ap, ◌∙◌, inl, inr, some, List, [], ◌∷◌, ◌++◌, arith, All,
  All-append, All-map, Bool-cases, ltb,
}
use rustevm.Isa.{Str, Fork, chronology, OpSpec, by_byte}
use rustevm.Asm.Disasm.{wanted}
use rustevm.Asm.Assembler.{Label, Fixup, AsmError, Asm, new, fail, emit_byte}
use rustevm.Asm.Assembler.Chunks.{Chunk, flatten, Whole, At, flatten-snoc, At-snoc}

abbrev pub IsJumpdest : Chunk → Type 0
IsJumpdest c = c.opcode ≡ 0x5b

abbrev pub IsPush2 : Chunk → Type 0
IsPush2 c = c.opcode ≡ 0x61

-- The opcode has a row in the table, of the fork or an earlier one.
abbrev pub Allowed : Fork → Chunk → Type 0
Allowed fork c =
    (spec : OpSpec) × (by_byte c.opcode ≡ some spec) × (chronology spec.min_fork ≤ chronology fork)

abbrev pub Bound : List Chunk → Label × ℕ → Type 0
Bound cs b = At IsJumpdest b.1 cs

abbrev pub Referenced : List Chunk → Fixup → Type 0
Referenced cs f = (o : ℕ) × (f.at ≡ suc o) × At IsPush2 o cs

-- The references stand in the order of their places.
abbrev pub Apart : List Fixup → Type 0
Apart [] = Unit
Apart (f ∷ fs) = All (λ (g : Fixup). f.at < g.at) fs × Apart fs

pub record Built (a : Asm) (cs : List Chunk) : Type 0 where
  pub spelled : a.code ≡ flatten cs
  pub whole : All Whole cs
  pub allowed : All (Allowed a.fork) cs
  pub bound : All (Bound cs) a.labels
  pub referenced : All (Referenced cs) a.fixups
  pub apart : Apart a.fixups

abbrev pub IsBuilt : Asm → Type 0
IsBuilt a = (cs : List Chunk) × Built a cs

pub new-IsBuilt : (fork : Fork) → IsBuilt (new fork)
unfolding new flatten
new-IsBuilt fork = (
  [],
  record { spelled = refl; whole = tt; allowed = tt; bound = tt; referenced = tt; apart = tt },
)

pub fail-IsBuilt : (a : Asm) (e : AsmError) → IsBuilt a → IsBuilt (fail a e)
unfolding fail
fail-IsBuilt a e (cs, b) = (
  cs,
  record {
    spelled = b.spelled;
    whole = b.whole;
    allowed = b.allowed;
    bound = b.bound;
    referenced = b.referenced;
    apart = b.apart;
  },
)

pub Bound-snoc :
    (cs : List Chunk) (c : Chunk) (ls : List (Label × ℕ))
    → All (Bound cs) ls
    → All (Bound (cs ++ (c ∷ []))) ls
Bound-snoc cs c ls =
    All-map (Bound cs) (Bound (cs ++ (c ∷ []))) (λ b m. At-snoc IsJumpdest b.1 cs c m) ls

pub Referenced-snoc :
    (cs : List Chunk) (c : Chunk) (fs : List Fixup)
    → All (Referenced cs) fs
    → All (Referenced (cs ++ (c ∷ []))) fs
Referenced-snoc cs c fs =
    All-map (Referenced cs) (Referenced (cs ++ (c ∷ [])))
      (λ f r. (r.0, r.1, At-snoc IsPush2 r.0 cs c r.2)) fs

-- One more instruction at the end of the code.
pub Built-snoc :
    (a : Asm) (cs : List Chunk) (c : Chunk)
    → Built a cs
    → Whole c
    → Allowed a.fork c
    → Built (record a { code = a.code ++ (c.opcode ∷ c.immediate) }) (cs ++ (c ∷ []))
Built-snoc a cs c b w l = record {
  spelled = ap (λ r. r ++ (c.opcode ∷ c.immediate)) b.spelled ∙ sym (flatten-snoc cs c);
  whole = All-append Whole cs (c ∷ []) b.whole (w, tt);
  allowed = All-append (Allowed a.fork) cs (c ∷ []) b.allowed (l, tt);
  bound = Bound-snoc cs c a.labels b.bound;
  referenced = Referenced-snoc cs c a.fixups b.referenced;
  apart = b.apart;
}

-- A byte that carries nothing, from a row of the table.
pub emit_byte-IsBuilt :
    (a : Asm) (byte : ℕ) (mnemonic : Str) (min_fork : Fork) (spec : OpSpec)
    → by_byte byte ≡ some spec
    → min_fork ≡ spec.min_fork
    → wanted (some spec) ≡ 0
    → IsBuilt a
    → IsBuilt (emit_byte a byte mnemonic min_fork)
unfolding emit_byte
emit_byte-IsBuilt a byte mnemonic min_fork spec row same none_wanted (cs, b) =
    elim (Bool-cases (ltb (chronology a.fork) (chronology min_fork))) [
      | inl late ↦ rw late (fail-IsBuilt a _ (cs, b))
      | inr timely ↦
          let c : Chunk = record { opcode = byte; immediate = [] } in
          rw timely (
            cs ++ (c ∷ []),
            Built-snoc a cs c b (sym (ap wanted row ∙ none_wanted))
                (spec, row, rw (← same) (ground arith)),
          )
    ]
