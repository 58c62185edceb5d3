-- ===== src/Asm/Assembler/Program.antt =====
-- What each call of asm.rs appends when it records no error.
pub mod Grows
pub mod Placed
pub mod Asks
pub mod OneCall
pub mod Spelled
use rustevm.Base.{
  ℕ, suc, ◌+◌, ◌-◌, ◌≤◌, ◌≡◌, refl, sym, ap, ◌∙◌, inl, inr, Bool, true, false, not, ◌&&◌, Option,
  some, none, List, [], ◌∷◌, ◌++◌, arith, length, length-append, Bool-cases, Option-cases, ltb, leb,
  if◌then◌else◌,
}
use mathlib.Core.Path.{subst}
use mathlib.Core.List.{append_assoc}
use rustevm.Base.Bytes.{be_value}
use rustevm.Isa.{Str, bytes, Fork, frontier, chronology, OpSpec, by_byte, by_byte_sound}
use rustevm.Isa.Lookup.Family.{family_row, family-frontier}
use rustevm.Asm.Immediate.{Immediate, IsWord, width}
use rustevm.Asm.Immediate.Width.{width_bounds}
use rustevm.Asm.Assembler.{
  Asm, AsmError, Label, Fixup, failed, fail, get, contains_key, emit_byte, emit_family_byte, op,
  push, dup, swap, label, bind, push_label,
}
use rustevm.Asm.Assembler.NextLabel.{label_lem}
use rustevm.Asm.Assembler.Run.{Call, step}
use rustevm.Asm.Assembler.Answers.{Emittable, op-Answers}
use rustevm.Asm.Assembler.Emits.{emit_byte-early, Narrowest, push-emits}
use rustevm.Asm.Assembler.Finished.{Admissible}

-- The state after the call is the state before it with one instruction more.
pub Emits : Call → Asm → Asm → Type 0
Emits (Call.op m) a z =
    (spec : OpSpec) × Emittable a.fork m spec × (z ≡ record a { code = a.code ++ (spec.byte ∷ []) })
Emits (Call.push imm) a z =
    (bs : List ℕ) × (length bs ≤ 32)
    × (be_value bs ≡ be_value imm)
    × (z ≡ record a { code = a.code ++ ((0x5f + length bs) ∷ bs) })
Emits (Call.dup n) a z = (1 ≤ n) × (n ≤ 16) × (z ≡ record a { code = a.code ++ ((0x7f + n) ∷ []) })
Emits (Call.swap n) a z = (1 ≤ n) × (n ≤ 16) × (z ≡ record a { code = a.code ++ ((0x8f + n) ∷ []) })
Emits Call.label a z = (n : ℕ) × (z ≡ record a { next_label = n })
Emits (Call.bind l) a z =
    (get l a.labels ≡ none)
    × (z ≡ record a { labels = (l, length a.code) ∷ a.labels; code = a.code ++ (0x5b ∷ []) })
Emits (Call.push_label l) a z = z ≡ record a {
  code = a.code ++ (0x61 ∷ 0 ∷ 0 ∷ []);
  fixups = a.fixups ++ (record { label = l; at = suc (length a.code) } ∷ []);
}

some_asm : {a z : Asm} → some a ≡ some z → a ≡ z
some_asm e = cc

-- A state with an error is not one without.
error_clash : {a z : Asm} (e : AsmError) → a ≡ z → a.error ≡ some e → z.error ≡ none → ⊥
error_clash e same bad fine = none_some e (sym fine ∙ ap (λ s. s.error) (sym same) ∙ bad)
  where
    none_some : (e : AsmError) → none ≡ some e → ⊥
    none_some e h = cc

op-Emits :
    (a z : Asm) (m : Str) → a.error ≡ none → op a m ≡ z → z.error ≡ none → Emits (Call.op m) a z
unfolding Emits
op-Emits a z m fine e fine' = elim (op-Answers a m fine) [
  | inl (spec, emittable, same) ↦ (spec, emittable, sym e ∙ same)
  | inr (bad, same, _) ↦ absurd (error_clash bad (sym same ∙ e) refl fine')
]

push-Emits :
    (a z : Asm) (imm : Immediate)
    → a.error ≡ none
    → IsWord imm
    → push a imm ≡ some z
    → Emits (Call.push imm) a z
unfolding Emits
push-Emits a z imm fine w e =
    let (bs, same, value, narrow) = push-emits a imm fine w in
    (bs, short bs narrow, value, some_asm (sym e ∙ same))
  where
    short : (bs : List ℕ) → Narrowest a.fork imm bs → length bs ≤ 32
    short bs (inl (sized, _)) = rw sized (width_bounds imm w).0
    short bs (inr (one, _, _)) = rw one (omega arith)

-- A byte of the DUP and SWAP families is emitted on every fork.
emit_family_byte-emits :
    (a : Asm) (n b : ℕ)
    → 0x5f + n ≡ b
    → 1 ≤ n
    → n ≤ 64
    → emit_family_byte a b ≡ some (record a { code = a.code ++ (b ∷ []) })
unfolding emit_family_byte
emit_family_byte-emits a n b place lo hi =
    let (spec, row) = family_row n hi in
    let since = family-frontier n spec lo hi row in
    let same = (by_byte_sound (0x5f + n) spec row).0 in
    let found : by_byte b ≡ some spec = ap by_byte (sym place) ∙ row in
    rw (emit_family_byte, found)
      (ap some (emit_byte-early a spec.byte spec.mnemonic spec.min_fork (omega arith))
        ∙ ap (λ c. some (record a { code = a.code ++ (c ∷ []) })) (same ∙ place))

fail-error : (a : Asm) (e : AsmError) → a.error ≡ none → (fail a e).error ≡ some e
unfolding fail
fail-error a e fine = rw (fail, fine) refl

-- The range test of `dup` and `swap`, passed.
depth_passed :
    (a z : Asm) (n : ℕ) (e : AsmError) (emitted : Option Asm)
    → a.error ≡ none
    → z.error ≡ none
    → (if failed a then some a else if not (leb 1 n && leb n 16) then some (fail a e) else emitted)
      ≡ some z
    → (1 ≤ n) × (n ≤ 16) × (emitted ≡ some z)
depth_passed a z n e emitted fine fine' h =
    let runs : failed a ≡ false = rw fine refl in
    elim (Bool-cases (not (leb 1 n && leb n 16))) [
      | inl out ↦
          absurd (error_clash e (some_asm (rw (runs, out) at h)) (fail-error a e fine) fine')
      | inr within ↦ (ground arith, ground arith, rw (runs, within) at h)
    ]

dup-Emits :
    (a z : Asm) (n : ℕ)
    → a.error ≡ none
    → dup a n ≡ some z
    → z.error ≡ none
    → Emits (Call.dup n) a z
unfolding Emits dup
dup-Emits a z n fine e fine' =
    let (lo, hi, emitted) = depth_passed a z n _ _ fine fine' e in
    let same =
      emit_family_byte-emits a (n + 32) (0x7f + n) (omega arith) (omega arith) (omega arith) in
    (lo, hi, some_asm (sym emitted ∙ same))

swap-Emits :
    (a z : Asm) (n : ℕ)
    → a.error ≡ none
    → swap a n ≡ some z
    → z.error ≡ none
    → Emits (Call.swap n) a z
unfolding Emits swap
swap-Emits a z n fine e fine' =
    let (lo, hi, emitted) = depth_passed a z n _ _ fine fine' e in
    let same =
      emit_family_byte-emits a (n + 48) (0x8f + n) (omega arith) (omega arith) (omega arith) in
    (lo, hi, some_asm (sym emitted ∙ same))

absent_key : (l : Label) (a : Asm) → contains_key l a.labels ≡ false → get l a.labels ≡ none
unfolding contains_key
absent_key l a h = elim (Option-cases (get l a.labels)) [
  | inl lost ↦ lost
  | inr (o, found) ↦ absurd (clash (rw (contains_key, found) at h))
]
  where
    clash : true ≡ false → ⊥
    clash e = cc

bind-Emits :
    (a z : Asm) (l : Label)
    → a.error ≡ none
    → bind a l ≡ z
    → z.error ≡ none
    → Emits (Call.bind l) a z
unfolding Emits bind chronology
bind-Emits a z l fine e fine' =
    let runs : failed a ≡ false = rw fine refl in
    elim (Bool-cases (contains_key l a.labels)) [
      | inl there ↦ absurd (
          error_clash (AsmError.label_already_bound l) (rw (runs, there) at e) (fail-error a _ fine)
            fine')
      | inr free ↦ (
        absent_key l a free,
        sym (rw (runs, free) at e)
            ∙ emit_byte-early _ 0x5b (bytes "JUMPDEST") frontier (omega arith),
      )
    ]

push_label-Emits :
    (a z : Asm) (l : Label) → a.error ≡ none → push_label a l ≡ z → Emits (Call.push_label l) a z
unfolding Emits push_label
push_label-Emits a z l fine e =
    let runs : failed a ≡ false = rw fine refl in
    let end : length (a.code ++ (0x61 ∷ [])) ≡ suc (length a.code) =
      omega (arith, length-append a.code (0x61 ∷ [])) in
    sym (rw (runs, append_assoc a.code (0x61 ∷ []) (0 ∷ 0 ∷ []), end) at e)

pub step-Emits :
    (call : Call) (a z : Asm)
    → Admissible call
    → a.error ≡ none
    → step call a ≡ some z
    → z.error ≡ none
    → Emits call a z
unfolding step label
step-Emits (Call.op m) a z k fine e fine' = op-Emits a z m fine (some_asm e) fine'
step-Emits (Call.push imm) a z k fine e fine' = push-Emits a z imm fine k e
step-Emits (Call.dup n) a z k fine e fine' = dup-Emits a z n fine e fine'
step-Emits (Call.swap n) a z k fine e fine' = swap-Emits a z n fine e fine'
step-Emits Call.label a z k fine e fine' = unfold Emits in (_, (label_lem a z e).1)
step-Emits (Call.bind l) a z k fine e fine' = bind-Emits a z l fine (some_asm e) fine'
step-Emits (Call.push_label l) a z k fine e fine' = push_label-Emits a z l fine (some_asm e)
