-- ===== src/Asm/Assembler/Calls.antt =====
-- The calls of the assembler in asm.rs and the invariant of its state.
pub mod Labels
use rustevm.Base.{
  ℕ, zero, suc, ◌+◌, ◌-◌, ◌%◌, ◌^◌, ◌≤◌, ◌<◌, ◌≡◌, refl, sym, ap, ◌∙◌, ◌≢◌, ◌⊎◌, inl, inr, Bool,
  true, false, not, ◌&&◌, Option, some, none, List, [], ◌∷◌, ◌++◌, arith, length, length-append,
  length-drop, drop, All, All-append, All-map, Bool-cases, Option-cases, ltb, leb, leb→le, ◌==◌,
  ==_iff, if◌then◌else◌,
}
use mathlib.Core.Path.{subst}
use mathlib.Core.List.{append-nil, append_assoc}
use rustevm.Isa.{
  Str, bytes, Fork, frontier, shanghai, chronology, OpSpec, OpForm, op_form, by_byte, by_mnemonic,
  InTable, by_byte_sound, by_mnemonic_sound,
}
use rustevm.Isa.Lookup.Distinct.{lookup-row}
use rustevm.Isa.Lookup.Family.{
  op_form-push, op_form-dup, op_form-swap, family_row, push0_row, push2_row, jumpdest_row,
}
use rustevm.Asm.Immediate.{Immediate, IsWord, width}
use rustevm.Asm.Immediate.Width.{width_bounds}
use rustevm.Asm.Disasm.{wanted}
use rustevm.Asm.Assembler.{
  failed, extend, contains_key, Label, Fixup, AsmError, Asm, new, fail, emit_byte, emit_family_byte,
  push_bytes, helper, emit_simple, op, push, dup, swap, label, bind, push_label,
}
use rustevm.Asm.Assembler.Chunks.{Chunk, flatten, Whole, At, flatten-snoc, At-snoc, At-end, At-lt}
use rustevm.Asm.Assembler.Built.{
  Allowed, IsJumpdest, IsPush2, Built, IsBuilt, emit_byte-IsBuilt, fail-IsBuilt, Built-snoc,
  Bound-snoc, Referenced-snoc, Apart, Referenced,
}

-- The step does not panic, and keeps the invariant.
abbrev pub Keeps : Option Asm → Type 0
Keeps m = (a : Asm) × (m ≡ some a) × IsBuilt a

-- A test that the code makes: both branches keep a property.
pub both {ℓ κ} :
    {A : Type ℓ} (P : A → Type κ) (b : Bool) {x y : A}
    → (b ≡ true → P x)
    → (b ≡ false → P y)
    → P (if b then x else y)
both P true hx hy = hx refl
both P false hx hy = hy refl

pub wanted-simple : (spec : OpSpec) → op_form spec ≡ OpForm.simple → wanted (some spec) ≡ 0
unfolding wanted
wanted-simple spec e = rw e

pub wanted-push : (spec : OpSpec) (n : ℕ) → op_form spec ≡ OpForm.push n → wanted (some spec) ≡ n
unfolding wanted
wanted-push spec n e = rw e

emit_simple-IsBuilt :
    (a : Asm) (spec : OpSpec)
    → by_byte spec.byte ≡ some spec
    → IsBuilt a
    → IsBuilt (emit_simple a spec)
unfolding emit_simple helper
emit_simple-IsBuilt a spec row b = form (op_form spec) refl
  where
    form : (f : OpForm) → op_form spec ≡ f → IsBuilt (emit_simple a spec)
    form OpForm.simple e =
        rw (e, emit_simple)
          (emit_byte-IsBuilt a spec.byte spec.mnemonic spec.min_fork spec row refl
            (wanted-simple spec e) b)
    form (OpForm.push n) e = rw (e, emit_simple) (fail-IsBuilt a _ b)
    form (OpForm.dup n) e = rw (e, emit_simple) (fail-IsBuilt a _ b)
    form (OpForm.swap n) e = rw (e, emit_simple) (fail-IsBuilt a _ b)

pub op-IsBuilt : (a : Asm) (mnemonic : Str) → IsBuilt a → IsBuilt (op a mnemonic)
unfolding op
op-IsBuilt a mnemonic b = both IsBuilt _ (λ _. b) (λ _. found (by_mnemonic mnemonic) refl)
  where
    found :
        (o : Option OpSpec)
        → by_mnemonic mnemonic ≡ o
        → IsBuilt (elim o [
          | none ↦ fail a (AsmError.unknown_mnemonic mnemonic)
          | some spec ↦ emit_simple a spec
        ])
    found none e = fail-IsBuilt a _ b
    found (some spec) e =
        emit_simple-IsBuilt a spec (lookup-row spec (by_mnemonic_sound mnemonic spec e).1).0 b

pub wanted-family : (spec : OpSpec) → 0x80 ≤ spec.byte → spec.byte ≤ 0x9f → wanted (some spec) ≡ 0
unfolding wanted op_form
wanted-family spec lo hi = ground arith

family_row_at : (b : ℕ) → 0x5f ≤ b → b ≤ 0x9f → (spec : OpSpec) × (by_byte b ≡ some spec)
family_row_at b lo hi =
    let e : 0x5f + (b - 0x5f) ≡ b = omega arith in
    subst (λ c. (spec : OpSpec) × (by_byte c ≡ some spec)) e (family_row (b - 0x5f) (omega arith))

-- DUP and SWAP bytes are all in the table.
emit_family_byte-Keeps :
    (a : Asm) (byte : ℕ) → 0x80 ≤ byte → byte ≤ 0x9f → IsBuilt a → Keeps (emit_family_byte a byte)
unfolding emit_family_byte
emit_family_byte-Keeps a byte lo hi b =
    let (spec, row) = family_row_at byte (omega arith) hi in
    let same = (by_byte_sound byte spec row).0 in
    (
      emit_byte a spec.byte spec.mnemonic spec.min_fork,
      rw (emit_family_byte, row) refl,
      emit_byte-IsBuilt a spec.byte spec.mnemonic spec.min_fork spec (ap by_byte same ∙ row) refl
          (wanted-family spec (omega arith) (omega arith)) b,
    )

depth_range : (n : ℕ) → not (leb 1 n && leb n 16) ≡ false → (1 ≤ n) × (n ≤ 16)
depth_range n h = ground arith

failed-none : (a : Asm) → failed a ≡ false → a.error ≡ none
failed-none a h = ground arith

pub dup-Keeps : (a : Asm) (n : ℕ) → IsBuilt a → Keeps (dup a n)
unfolding dup
dup-Keeps a n b =
    both Keeps (failed a) (λ _. (a, refl, b))
      λ _.
        both Keeps _ (λ _. (fail a _, refl, fail-IsBuilt a _ b))
          λ h.
            let (lo, hi) = depth_range n h in
            emit_family_byte-Keeps a (0x7f + n) (omega arith) (omega arith) b

pub swap-Keeps : (a : Asm) (n : ℕ) → IsBuilt a → Keeps (swap a n)
unfolding swap
swap-Keeps a n b =
    both Keeps (failed a) (λ _. (a, refl, b))
      λ _.
        both Keeps _ (λ _. (fail a _, refl, fail-IsBuilt a _ b))
          λ h.
            let (lo, hi) = depth_range n h in
            emit_family_byte-Keeps a (0x8f + n) (omega arith) (omega arith) b

extend-fail : (a : Asm) (e : AsmError) (bs : List ℕ) → extend (fail a e) bs ≡ fail a e
unfolding extend fail
extend-fail a e bs = ground arith

pub extend-emitted :
    (a : Asm) (byte : ℕ) (bs : List ℕ)
    → a.error ≡ none
    → extend (record a { code = a.code ++ (byte ∷ []) }) bs
      ≡ record a { code = a.code ++ (byte ∷ bs) }
unfolding extend
extend-emitted a byte bs fine =
    fine_branch fine ∙ ap (λ r. record a { code = r }) (append_assoc a.code (byte ∷ []) bs)
  where
    fine_branch :
        a.error ≡ none
        → (if failed a
            then record a { code = a.code ++ (byte ∷ []) }
            else record a { code = (a.code ++ (byte ∷ [])) ++ bs })
          ≡ record a { code = (a.code ++ (byte ∷ [])) ++ bs }
    fine_branch h = ground arith

-- An opcode of the PUSH family and its immediate, once the row is found.
with_immediate-IsBuilt :
    (a : Asm) (spec : OpSpec) (bs : List ℕ)
    → a.error ≡ none
    → by_byte spec.byte ≡ some spec
    → length bs ≡ wanted (some spec)
    → IsBuilt a
    → IsBuilt (extend (emit_byte a spec.byte spec.mnemonic spec.min_fork) bs)
unfolding emit_byte
with_immediate-IsBuilt a spec bs fine row sized (cs, b) =
    elim (Bool-cases (ltb (chronology a.fork) (chronology spec.min_fork))) [
      | inl late ↦ rw late (subst IsBuilt (sym (extend-fail a _ bs)) (fail-IsBuilt a _ (cs, b)))
      | inr timely ↦
          let c : Chunk = record { opcode = spec.byte; immediate = bs } in
          rw timely (
            subst IsBuilt (sym (extend-emitted a spec.byte bs fine)) (
              cs ++ (c ∷ []),
              Built-snoc a cs c b (sized ∙ sym (ap wanted row)) (spec, row, ground arith),
            ))
    ]

pub push_bytes-row :
    (a : Asm) (bs : List ℕ) (spec : OpSpec)
    → length bs ≤ 32
    → by_byte (0x5f + length bs) ≡ some spec
    → push_bytes a bs ≡ some (extend (emit_byte a spec.byte spec.mnemonic spec.min_fork) bs)
unfolding push_bytes
push_bytes-row a bs spec hi row =
    let whole : length bs % 2 ^ 8 ≡ length bs = omega arith in rw (whole, row) refl

-- The immediate follows only if the opcode was emitted.
pub push_bytes-Keeps :
    (a : Asm) (bs : List ℕ) → a.error ≡ none → length bs ≤ 32 → IsBuilt a → Keeps (push_bytes a bs)
push_bytes-Keeps a bs fine hi b =
    let (spec, row) = family_row_at (0x5f + length bs) (omega arith) (omega arith) in
    let same = (by_byte_sound (0x5f + length bs) spec row).0 in
    let sized = wanted-push spec (length bs) (op_form-push spec (length bs) hi same) in
    (
      extend (emit_byte a spec.byte spec.mnemonic spec.min_fork) bs,
      push_bytes-row a bs spec hi row,
      with_immediate-IsBuilt a spec bs fine (ap by_byte same ∙ row) (sym sized) b,
    )

push0-IsBuilt : (a : Asm) → IsBuilt a → IsBuilt (emit_byte a 0x5f (bytes "PUSH0") shanghai)
push0-IsBuilt a b =
    let (spec, row, fork) = push0_row in
    let same = (by_byte_sound 0x5f spec row).0 in
    emit_byte-IsBuilt a 0x5f (bytes "PUSH0") shanghai spec row (sym fork)
      (wanted-push spec 0 (op_form-push spec 0 (omega arith) same)) b

pub push-Keeps : (a : Asm) (imm : Immediate) → IsWord imm → IsBuilt a → Keeps (push a imm)
unfolding push
push-Keeps a imm w b =
    both Keeps (failed a) (λ _. (a, refl, b))
      λ fine.
        both Keeps (width imm == 0 && ltb (chronology a.fork) (chronology shanghai))
          (λ _. push_bytes-Keeps a (0 ∷ []) (failed-none a fine) (omega arith) b)
          λ _.
            both Keeps (width imm == 0)
              (λ _. (emit_byte a 0x5f (bytes "PUSH0") shanghai, refl, push0-IsBuilt a b))
              λ _.
                push_bytes-Keeps a (drop (32 - width imm) imm) (failed-none a fine)
                  (omega (arith, length-drop (32 - width imm) imm, (width_bounds imm w).0)) b
