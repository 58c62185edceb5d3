-- ===== src/Asm/Assembler/Answers.antt =====
-- What `op` of asm.rs does, on every branch.
use rustevm.Base.{
  ℕ, ◌≤◌, ◌<◌, ◌≡◌, refl, sym, ap, ◌∙◌, ◌≢◌, ◌⊎◌, inl, inr, some, none, [], ◌∷◌, ◌++◌, arith,
  Bool-cases, Option-cases, ltb, ltb→lt,
}
use mathlib.Core.Path.{subst}
use native.Mathlib.Decide.{ℕ_discrete}
use rustevm.Isa.{
  Str, bytes, Fork, chronology, OpSpec, OpForm, op_form, by_mnemonic, InTable, by_mnemonic_sound,
}
use rustevm.Isa.Lookup.Distinct.{lookup-row}
use rustevm.Asm.Assembler.{failed, Asm, AsmError, fail, emit_byte, helper, emit_simple, op}
use rustevm.Asm.Assembler.Emits.{emit_byte-early}

-- What `op` needs to emit an opcode: a row of the table for the mnemonic, with no operand, on the fork.
abbrev pub Emittable : Fork → Str → OpSpec → Type 0
Emittable fork mnemonic spec =
    InTable spec
    × (spec.mnemonic ≡ mnemonic)
    × (op_form spec ≡ OpForm.simple)
    × (chronology spec.min_fork ≤ chronology fork)

-- Either `op` appended the byte of such a row, or there is none and `op` recorded an error.
abbrev pub Answers : Asm → Str → Type 0
Answers a mnemonic =
    ((spec : OpSpec) × Emittable a.fork mnemonic spec
      × (op a mnemonic ≡ record a { code = a.code ++ (spec.byte ∷ []) }))
    ⊎ ((e : AsmError) × (op a mnemonic ≡ record a { error = some e })
        × ¬ ((spec : OpSpec) × Emittable a.fork mnemonic spec))

fail-fine : (a : Asm) (e : AsmError) → a.error ≡ none → fail a e ≡ record a { error = some e }
unfolding fail
fail-fine a e fine = ground arith

op-unknown :
    (a : Asm) (mnemonic : Str)
    → a.error ≡ none
    → by_mnemonic mnemonic ≡ none
    → op a mnemonic ≡ fail a (AsmError.unknown_mnemonic mnemonic)
unfolding op
op-unknown a mnemonic fine lost = ground arith

op-known :
    (a : Asm) (mnemonic : Str) (spec : OpSpec)
    → a.error ≡ none
    → by_mnemonic mnemonic ≡ some spec
    → op a mnemonic ≡ emit_simple a spec
unfolding op
op-known a mnemonic spec fine found = ground arith

emit_simple-ne :
    (a : Asm) (spec : OpSpec)
    → op_form spec ≢ OpForm.simple
    → (e : AsmError) × (emit_simple a spec ≡ fail a e)
unfolding emit_simple helper
emit_simple-ne a spec ne = form (op_form spec) refl
  where
    form : (f : OpForm) → op_form spec ≡ f → (e : AsmError) × (emit_simple a spec ≡ fail a e)
    form OpForm.simple e = absurd (ne e)
    form (OpForm.push n) e =
        (AsmError.use_helper_instead spec.mnemonic (bytes "push"), rw (emit_simple, e) refl)
    form (OpForm.dup n) e =
        (AsmError.use_helper_instead spec.mnemonic (bytes "dup"), rw (emit_simple, e) refl)
    form (OpForm.swap n) e =
        (AsmError.use_helper_instead spec.mnemonic (bytes "swap"), rw (emit_simple, e) refl)

emit_simple-simple :
    (a : Asm) (spec : OpSpec)
    → op_form spec ≡ OpForm.simple
    → emit_simple a spec ≡ emit_byte a spec.byte spec.mnemonic spec.min_fork
unfolding emit_simple helper
emit_simple-simple a spec e = ground arith

emit_byte-late :
    (a : Asm) (byte : ℕ) (mnemonic : Str) (since : Fork)
    → chronology a.fork < chronology since
    → emit_byte a byte mnemonic since ≡ fail a (AsmError.opcode_too_new mnemonic since a.fork)
unfolding emit_byte
emit_byte-late a byte mnemonic since h = ground arith

OpForm-discrete : Discrete OpForm
OpForm-discrete = hlevel ℕ_discrete

-- A row with the mnemonic is the one that the lookup found.
only_row :
    (mnemonic : Str) (spec other : OpSpec)
    → by_mnemonic mnemonic ≡ some spec
    → InTable other
    → other.mnemonic ≡ mnemonic
    → some other ≡ some spec
only_row mnemonic spec other found there name =
    sym (lookup-row other there).1 ∙ ap by_mnemonic name ∙ found

some_injective : (x y : OpSpec) → some x ≡ some y → x ≡ y
some_injective x y e = cc

refused :
    (a : Asm) (mnemonic : Str) (spec : OpSpec)
    → by_mnemonic mnemonic ≡ some spec
    → ¬ ((op_form spec ≡ OpForm.simple) × (chronology spec.min_fork ≤ chronology a.fork))
    → ¬ ((other : OpSpec) × Emittable a.fork mnemonic other)
refused a mnemonic spec found unfit (other, (there, name, form, since)) =
    let e = some_injective other spec (only_row mnemonic spec other found there name) in
    unfit (
      subst
        (λ (s : OpSpec). (op_form s ≡ OpForm.simple) × (chronology s.min_fork ≤ chronology a.fork))
        e (form, since))

-- On an assembler without an error, `op` appends the byte of the table's row for the mnemonic if that
-- row carries no operand and the target fork has it. It records an error and changes nothing else
-- exactly if there is no such row.
pub op-Answers : (a : Asm) (mnemonic : Str) → a.error ≡ none → Answers a mnemonic
op-Answers a mnemonic fine = elim (Option-cases (by_mnemonic mnemonic)) [
  | inl lost ↦ inr (
    AsmError.unknown_mnemonic mnemonic,
    op-unknown a mnemonic fine lost ∙ fail-fine a _ fine,
    λ o. unknown_row o.0 o.1.0 o.1.1 lost,
  )
  | inr (spec, found) ↦ known spec found (by_mnemonic_sound mnemonic spec found)
]
  where
    none_some : (s : OpSpec) → none ≡ some s → ⊥
    none_some s e = cc

    unknown_row :
        (other : OpSpec)
        → InTable other
        → other.mnemonic ≡ mnemonic
        → by_mnemonic mnemonic ≡ none
        → ⊥
    unknown_row other there name lost =
        absurd (none_some other (sym lost ∙ sym (ap by_mnemonic name) ∙ (lookup-row other there).1))

    known :
        (spec : OpSpec)
        → by_mnemonic mnemonic ≡ some spec
        → (spec.mnemonic ≡ mnemonic) × InTable spec
        → Answers a mnemonic
    known spec found (name, there) = elim (OpForm-discrete (op_form spec) OpForm.simple) [
      | no operand ↦
          let (e, failed) = emit_simple-ne a spec operand in
          inr (
            e,
            op-known a mnemonic spec fine found ∙ failed ∙ fail-fine a e fine,
            refused a mnemonic spec found (λ h. operand h.0),
          )
      | yes form ↦
          let emitted = op-known a mnemonic spec fine found ∙ emit_simple-simple a spec form in
          elim (Bool-cases (ltb (chronology a.fork) (chronology spec.min_fork))) [
            | inl late ↦
                let after = ltb→lt _ _ late in
                inr (
                  _,
                  emitted
                      ∙ emit_byte-late a spec.byte spec.mnemonic spec.min_fork after
                      ∙ fail-fine a _ fine,
                  refused a mnemonic spec found (λ h. absurd (omega (arith, h.1))),
                )
            | inr timely ↦
                let since : chronology spec.min_fork ≤ chronology a.fork = ground arith in
                inl (
                  spec,
                  (there, name, form, since),
                  emitted ∙ emit_byte-early a spec.byte spec.mnemonic spec.min_fork since,
                )
          ]
    ]
