-- ===== src/Asm/Disasm/Targets.antt =====
-- Which offsets `jumpdests` of disasm.rs lists.
use rustevm.Base.{
  ℕ, ◌+◌, ◌≡◌, sym, ap, ◌∙◌, ◌↔◌, ◌⊎◌, inl, inr, true, some, List, [], ◌∷◌, Any, Bool-cases,
  Option-cases,
}
use mathlib.Core.Bool.{false≢true}
use rustevm.Isa.{bytes, str_eq, str_eq_iff, OpSpec, by_byte, by_mnemonic, by_byte_sound}
use rustevm.Isa.Lookup.Distinct.{lookup-row}
use rustevm.Isa.Lookup.Family.{jumpdest_row}
use rustevm.Asm.Disasm.{Instruction, mnemonic, size, targets, disassemble, jumpdests}
use rustevm.Asm.Disasm.Unique.{WellDecoded, disassemble_lem}

-- A JUMPDEST byte that is decoded as an instruction at the offset.
abbrev pub JumpdestAt : ℕ → Instruction → Type 0
JumpdestAt o ins = (ins.pc ≡ o) × (ins.opcode ≡ 0x5b)

mnemonic-jumpdest :
    (ins : Instruction)
    → ins.spec ≡ by_byte ins.opcode
    → ins.opcode ≡ 0x5b
    → str_eq (mnemonic ins) (bytes "JUMPDEST") ≡ true
unfolding mnemonic
mnemonic-jumpdest ins row e =
    let (spec, found, _, name) = jumpdest_row in
    let s : ins.spec ≡ some spec = row ∙ ap by_byte e ∙ found in
    rw (mnemonic, s) ((str_eq_iff spec.mnemonic (bytes "JUMPDEST")).1 name)

-- A row named JUMPDEST is the row of 0x5b.
jumpdest-byte :
    (b : ℕ) (spec : OpSpec) → by_byte b ≡ some spec → spec.mnemonic ≡ bytes "JUMPDEST" → b ≡ 0x5b
jumpdest-byte b spec found name =
    let (row, found', _, name') = jumpdest_row in
    let (same, there) = by_byte_sound b spec found in
    let (same', there') = by_byte_sound 0x5b row found' in
    let e : some spec ≡ some row =
      sym (lookup-row spec there).1
      ∙ ap by_mnemonic (name ∙ sym name')
      ∙ (lookup-row row there').1 in
    sym same ∙ ap (λ (s : OpSpec). s.byte) (some_inj e) ∙ same'
  where
    some_inj : {x y : OpSpec} → some x ≡ some y → x ≡ y
    some_inj e = cc

jumpdest-opcode :
    (ins : Instruction)
    → ins.spec ≡ by_byte ins.opcode
    → str_eq (mnemonic ins) (bytes "JUMPDEST") ≡ true
    → ins.opcode ≡ 0x5b
unfolding mnemonic str_eq
jumpdest-opcode ins row h = elim (Option-cases ins.spec) [
  | inl lost ↦ absurd (false≢true (rw (mnemonic, lost) at h))
  | inr (spec, found) ↦
      jumpdest-byte ins.opcode spec (sym row ∙ found)
        ((str_eq_iff spec.mnemonic (bytes "JUMPDEST")).0 (rw (mnemonic, found) at h))
]

Sum-map : {A B C D : Type 0} → (A → C) → (B → D) → A ⊎ B → C ⊎ D
Sum-map f g (inl a) = inl (f a)
Sum-map f g (inr b) = inr (g b)

only_rest : {A B C : Type 0} → ¬ A → (B → C) → A ⊎ B → C
only_rest no_a f (inl a) = absurd (no_a a)
only_rest no_a f (inr b) = f b

targets_iff :
    (pc o : ℕ) (listing : List Instruction)
    → WellDecoded pc listing
    → Any (λ t. t ≡ o) (targets listing) ↔ Any (JumpdestAt o) listing
unfolding targets
targets_iff pc o [] d = (λ m. m, λ m. m)
targets_iff pc o (ins ∷ rest) (at, row, fits, d) =
    let (there, back) = targets_iff (pc + size ins) o rest d in
    elim (Bool-cases (str_eq (mnemonic ins) (bytes "JUMPDEST"))) [
      | inl named ↦
          rw (targets, named)
            (Sum-map (λ e. (e, jumpdest-opcode ins row named)) there, Sum-map (λ j. j.0) back)
      | inr other ↦
          rw (targets, other)
            (
              λ m. inr (there m),
              only_rest (λ j. false≢true (sym other ∙ mnemonic-jumpdest ins row j.1)) back,
            )
    ]

-- The offsets that `jumpdests` lists are exactly those where a 0x5b byte is decoded as an
-- instruction; a 0x5b inside an immediate is not among them.
pub jumpdests_iff :
    (code : List ℕ) (o : ℕ)
    → Any (λ t. t ≡ o) (jumpdests code) ↔ Any (JumpdestAt o) (disassemble code)
unfolding jumpdests
jumpdests_iff code o = targets_iff 0 o (disassemble code) (disassemble_lem code).1
