-- ===== src/Asm/Disasm/Unique.antt =====
-- What the listing of disasm.rs is to be.
use rustevm.Base.{
  ℕ, zero, suc, ◌+◌, ◌≤◌, ◌<◌, min, ◌≡◌, refl, sym, ap, ◌∙◌, ◌⊎◌, inl, inr, true, false, List, [],
  ◌∷◌, ◌++◌, arith, ltb, length, length-append, length-drop, length-take, take, drop,
  take-append-drop, take-length_append, drop-length_append, Bool-cases, ltb→lt, lt→ltb, All,
}
use mathlib.Core.Bool.{false≢true}
use mathlib.Core.Logic.{◌↔◌}
use mathlib.Core.Path.{subst}
use rustevm.Isa.{by_byte}
use rustevm.Asm.Disasm.{Instruction, wanted, size, immediate_width, missing, disassemble}
use rustevm.Asm.Disasm.Walk.{first_ins, walk, disassemble-walk}

-- The bytes that a listing was read from.
unfoldable pub reassemble : List Instruction → List ℕ
reassemble [] = []
reassemble (ins ∷ rest) = ins.opcode ∷ (ins.immediate ++ reassemble rest)

-- Either the whole immediate is there, or the code ended inside it.
abbrev pub Fits : Instruction → List Instruction → Type 0
Fits ins rest =
    (ins.truncated ≡ false) × (length ins.immediate ≡ immediate_width ins)
    ⊎ (ins.truncated ≡ true) × (length ins.immediate < immediate_width ins) × (rest ≡ [])

-- From `pc` on: each instruction starts where the one before it ends, carries the table's row for its
-- byte, and has its whole immediate unless it is the last.
abbrev pub WellDecoded : ℕ → List Instruction → Type 0
WellDecoded pc [] = Unit
WellDecoded pc (ins ∷ rest) =
    (ins.pc ≡ pc)
    × (ins.spec ≡ by_byte ins.opcode)
    × Fits ins rest
    × WellDecoded (pc + size ins) rest

walk-nil : (fuel pc : ℕ) → walk fuel pc [] ≡ []
unfolding walk
walk-nil zero pc = refl
walk-nil (suc fuel) pc = refl

drop-length : (bs : List ℕ) (n : ℕ) → length bs ≤ n → drop n bs ≡ []
drop-length [] zero h = refl
drop-length [] (suc n) h = refl
drop-length (b ∷ bs) zero h = absurd (omega arith)
drop-length (b ∷ bs) (suc n) h = drop-length bs n (omega arith)

first_ins-size :
    (pc b : ℕ) (bs : List ℕ)
    → pc + size (first_ins pc b bs) ≡ pc + 1 + min (wanted (by_byte b)) (length bs)
unfolding size
first_ins-size pc b bs = omega (arith, length-take (min (wanted (by_byte b)) (length bs)) bs)

first_ins-Fits :
    (fuel pc b : ℕ) (bs : List ℕ)
    → Fits (first_ins pc b bs) (
        walk fuel
          (pc + 1 + min (wanted (by_byte b)) (length bs))
          (drop (min (wanted (by_byte b)) (length bs)) bs))
unfolding immediate_width
first_ins-Fits fuel pc b bs =
    let taken = min (wanted (by_byte b)) (length bs) in
    let sized = length-take taken bs in
    elim (Bool-cases (ltb taken (wanted (by_byte b)))) [
      | inl short ↦
          let lt = ltb→lt taken (wanted (by_byte b)) short in
          inr (short, omega arith, rw (drop-length bs taken (omega arith)) (walk-nil fuel _))
      | inr whole ↦ inl (whole, ground arith)
    ]

walk-WellDecoded :
    (fuel pc : ℕ) (code : List ℕ) → length code ≤ fuel → WellDecoded pc (walk fuel pc code)
unfolding walk
walk-WellDecoded zero pc code h = tt
walk-WellDecoded (suc fuel) pc [] h = tt
walk-WellDecoded (suc fuel) pc (b ∷ bs) h =
    let taken = min (wanted (by_byte b)) (length bs) in
    (
      refl,
      refl,
      first_ins-Fits fuel pc b bs,
      rw (first_ins-size pc b bs) (
          walk-WellDecoded fuel (pc + 1 + taken) (drop taken bs)
            (omega (arith, length-drop taken bs))),
    )

reassemble-walk :
    (fuel pc : ℕ) (code : List ℕ) → length code ≤ fuel → reassemble (walk fuel pc code) ≡ code
unfolding walk reassemble
reassemble-walk zero pc [] h = refl
reassemble-walk zero pc (b ∷ bs) h = absurd (omega arith)
reassemble-walk (suc fuel) pc [] h = refl
reassemble-walk (suc fuel) pc (b ∷ bs) h =
    let taken = min (wanted (by_byte b)) (length bs) in
    ap (λ r. b ∷ r)
      (ap (λ r. take taken bs ++ r)
          (reassemble-walk fuel (pc + 1 + taken) (drop taken bs)
            (omega (arith, length-drop taken bs)))
        ∙ take-append-drop taken bs)

-- An instruction that fits took its immediate and no more.
Fits-taken :
    (ins : Instruction) (rest : List Instruction)
    → ins.spec ≡ by_byte ins.opcode
    → Fits ins rest
    → min (wanted (by_byte ins.opcode)) (length (ins.immediate ++ reassemble rest))
      ≡ length ins.immediate
unfolding immediate_width reassemble
Fits-taken ins rest row (inl (whole, sized)) =
    let w = sized ∙ ap wanted row in omega (arith, length-append ins.immediate (reassemble rest))
Fits-taken ins rest row (inr (cut, short, e)) =
    let w = ap wanted row in rw e (omega (arith, length-append ins.immediate []))

Fits-truncated :
    (ins : Instruction) (rest : List Instruction)
    → ins.spec ≡ by_byte ins.opcode
    → Fits ins rest
    → ltb (length ins.immediate) (wanted (by_byte ins.opcode)) ≡ ins.truncated
unfolding immediate_width
Fits-truncated ins rest row (inl (whole, sized)) = rw (whole, ← row, sized) (ground arith)
Fits-truncated ins rest row (inr (cut, short, e)) = rw (cut, ← row) (lt→ltb _ _ short)

same_instruction :
    (i j : Instruction)
    → i.pc ≡ j.pc
    → i.opcode ≡ j.opcode
    → i.spec ≡ j.spec
    → i.immediate ≡ j.immediate
    → i.truncated ≡ j.truncated
    → i ≡ j
same_instruction i j p o s m t =
    λ k. record { pc = p k; opcode = o k; spec = s k; immediate = m k; truncated = t k }

first_ins-eq :
    (pc : ℕ) (ins : Instruction) (rest : List Instruction)
    → ins.pc ≡ pc
    → ins.spec ≡ by_byte ins.opcode
    → Fits ins rest
    → first_ins pc ins.opcode (ins.immediate ++ reassemble rest) ≡ ins
first_ins-eq pc ins rest at row fits =
    let taken = Fits-taken ins rest row fits in
    same_instruction _ ins (sym at) refl (sym row)
      (rw taken (take-length_append ins.immediate (reassemble rest)))
      (rw taken (Fits-truncated ins rest row fits))

-- A listing that is well decoded is the walk over its own bytes.
walk_unique :
    (fuel pc : ℕ) (listing : List Instruction)
    → length (reassemble listing) ≤ fuel
    → WellDecoded pc listing
    → walk fuel pc (reassemble listing) ≡ listing
unfolding walk reassemble
walk_unique fuel pc [] h d = walk-nil fuel pc
walk_unique zero pc (ins ∷ rest) h d = absurd (omega arith)
walk_unique (suc fuel) pc (ins ∷ rest) h (at, row, fits, d) =
    let after : pc + size ins ≡ pc + 1 + length ins.immediate = unfold size in omega arith in
    let short = length-append ins.immediate (reassemble rest) in
    rw (first_ins-eq pc ins rest at row fits, Fits-taken ins rest row fits)
      (ap (λ r. ins ∷ r)
        (rw (drop-length_append ins.immediate (reassemble rest)) (
          walk_unique fuel (pc + 1 + length ins.immediate) rest (omega (arith, short))
            (subst (λ p. WellDecoded p rest) after d))))

-- The listing of any bytes gives them back; its instructions stand end to end from offset 0, each
-- with the table's row for its byte and its whole immediate, except that the last one is marked
-- truncated where the code ends inside its immediate.
pub disassemble_lem :
    (code : List ℕ) → (reassemble (disassemble code) ≡ code) × WellDecoded 0 (disassemble code)
disassemble_lem code = rw (disassemble-walk code) (
  reassemble-walk (length code) 0 code (omega arith),
  walk-WellDecoded (length code) 0 code (omega arith),
)

-- A well-decoded listing from offset 0 is the disassembler's listing of its own bytes.
pub disassemble_unique :
    (listing : List Instruction)
    → WellDecoded 0 listing
    → disassemble (reassemble listing) ≡ listing
disassemble_unique listing d =
    disassemble-walk (reassemble listing)
    ∙ walk_unique (length (reassemble listing)) 0 listing (omega arith) d

-- The missing bytes make up the opcode's width, and a truncated instruction is one that misses some.
abbrev pub CountsMissing : Instruction → Type 0
CountsMissing ins =
    (length ins.immediate + missing ins ≡ immediate_width ins)
    × ((ins.truncated ≡ true) ↔ (0 < missing ins))

Fits-CountsMissing :
    (ins : Instruction) (rest : List Instruction) → Fits ins rest → CountsMissing ins
unfolding missing
Fits-CountsMissing ins rest (inl (whole, sized)) =
    (omega arith, (λ t. absurd (false≢true (sym whole ∙ t)), λ h. absurd (omega arith)))
Fits-CountsMissing ins rest (inr (cut, short, e)) = (omega arith, (λ _. omega arith, λ _. cut))

WellDecoded-CountsMissing :
    (pc : ℕ) (listing : List Instruction) → WellDecoded pc listing → All CountsMissing listing
WellDecoded-CountsMissing pc [] d = tt
WellDecoded-CountsMissing pc (ins ∷ rest) (at, row, fits, d) =
    (Fits-CountsMissing ins rest fits, WellDecoded-CountsMissing (pc + size ins) rest d)

-- In every listing, the immediate that is there and the missing bytes make up the opcode's width (so
-- the subtraction in `missing` does not go below 0), and exactly the truncated instructions miss
-- some.
pub missing_exact : (code : List ℕ) → All CountsMissing (disassemble code)
missing_exact code = WellDecoded-CountsMissing 0 (disassemble code) (disassemble_lem code).1
