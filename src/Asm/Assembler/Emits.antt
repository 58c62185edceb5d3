-- ===== src/Asm/Assembler/Emits.antt =====
-- What `push` of asm.rs appends to the code, on every branch.
use rustevm.Base.{
  ℕ, ◌+◌, ◌-◌, ◌≤◌, ◌<◌, ◌^◌, ◌≡◌, refl, sym, ap, ◌∙◌, ◌≢◌, ◌⊎◌, inl, inr, some, none, List, [],
  ◌∷◌, ◌++◌, arith, length, length-drop, drop, Bool-cases, ltb, ltb→lt, ◌==◌, ==_iff,
}
use mathlib.Core.Path.{subst}
use rustevm.Base.Bytes.{be_value}
use rustevm.Isa.{Str, bytes, Fork, shanghai, chronology, by_byte_sound}
use rustevm.Isa.Lookup.Family.{family_row, family-frontier}
use rustevm.Asm.Immediate.{Immediate, IsWord, width}
use rustevm.Asm.Immediate.Width.{width_bounds, be_value-drop-width}
use rustevm.Asm.Assembler.{Asm, emit_byte, extend, push_bytes, push}
use rustevm.Asm.Assembler.Calls.{extend-emitted, push_bytes-row}

pub emit_byte-early :
    (a : Asm) (byte : ℕ) (mnemonic : Str) (since : Fork)
    → chronology since ≤ chronology a.fork
    → emit_byte a byte mnemonic since ≡ record a { code = a.code ++ (byte ∷ []) }
unfolding emit_byte
emit_byte-early a byte mnemonic since h = ground arith

-- `PUSH{n}` and an immediate of `n` bytes, for any `n` from 1 to 32 and any fork.
push_bytes-emits :
    (a : Asm) (bs : List ℕ)
    → a.error ≡ none
    → 1 ≤ length bs
    → length bs ≤ 32
    → push_bytes a bs ≡ some (record a { code = a.code ++ ((0x5f + length bs) ∷ bs) })
push_bytes-emits a bs fine lo hi =
    let (spec, row) = family_row (length bs) (omega arith) in
    let since = family-frontier (length bs) spec lo (omega arith) row in
    let same = (by_byte_sound (0x5f + length bs) spec row).0 in
    push_bytes-row a bs spec hi row
    ∙ ap (λ a'. some (extend a' bs))
        (emit_byte-early a spec.byte spec.mnemonic spec.min_fork (omega arith))
    ∙ ap some (extend-emitted a spec.byte bs fine)
    ∙ ap (λ b. some (record a { code = a.code ++ (b ∷ bs) })) same

-- The shortest immediate: as many bytes as the value needs, and one for zero before Shanghai.
abbrev pub Narrowest : Fork → Immediate → List ℕ → Type 0
Narrowest fork imm bs =
    (length bs ≡ width imm) × ((width imm ≢ 0) ⊎ (chronology shanghai ≤ chronology fork))
    ⊎ (bs ≡ 0 ∷ []) × (width imm ≡ 0) × (chronology fork < chronology shanghai)

module _ (a : Asm) (imm : Immediate) (fine : a.error ≡ none) where
  push-zero_early :
      width imm ≡ 0 → chronology a.fork < chronology shanghai → push a imm ≡ push_bytes a (0 ∷ [])
  unfolding push
  push-zero_early z early = ground arith

  push-zero_late :
      width imm ≡ 0
      → chronology shanghai ≤ chronology a.fork
      → push a imm ≡ some (emit_byte a 0x5f (bytes "PUSH0") shanghai)
  unfolding push
  push-zero_late z late = ground arith

  push-wide : width imm ≢ 0 → push a imm ≡ push_bytes a (drop (32 - width imm) imm)
  unfolding push
  push-wide nz = ground arith

-- On an assembler without an error, `push` of a word appends one `PUSH{n}` with an immediate of `n`
-- bytes that has the word's value, and records no error. The immediate is as short as the value
-- allows, except for zero before Shanghai, which takes one byte.
pub push-emits :
    (a : Asm) (imm : Immediate)
    → a.error ≡ none
    → IsWord imm
    → (bs : List ℕ) × (push a imm ≡ some (record a { code = a.code ++ ((0x5f + length bs) ∷ bs) }))
      × (be_value bs ≡ be_value imm)
      × Narrowest a.fork imm bs
push-emits a imm fine w = elim (Bool-cases (width imm == 0)) [
  | inl is_zero ↦
      let z = (==_iff (width imm) 0).0 is_zero in
      let nil : be_value imm ≡ 0 = zero_value z in
      elim (Bool-cases (ltb (chronology a.fork) (chronology shanghai))) [
        | inl early ↦
            let before = ltb→lt _ _ early in
            (
              0 ∷ [],
              push-zero_early a imm fine z before
                  ∙ push_bytes-emits a (0 ∷ []) fine (omega arith) (omega arith),
              unfold be_value in (omega arith),
              inr (refl, z, before),
            )
        | inr late ↦
            let since : chronology shanghai ≤ chronology a.fork = ground arith in
            (
              [],
              push-zero_late a imm fine z since
                  ∙ ap some (emit_byte-early a 0x5f (bytes "PUSH0") shanghai since),
              unfold be_value in (omega arith),
              inl (sym z, inr since),
            )
      ]
  | inr wide ↦
      let nz : width imm ≢ 0 = ground arith in
      let small = (width_bounds imm w).0 in
      let sized : length (drop (32 - width imm) imm) ≡ width imm =
        omega (arith, length-drop (32 - width imm) imm, w.sized) in
      (
        drop (32 - width imm) imm,
        push-wide a imm fine nz ∙ push_bytes-emits a _ fine (omega arith) (omega arith),
        be_value-drop-width imm w,
        inl (sized, inl nz),
      )
]
  where
    zero_value : width imm ≡ 0 → be_value imm ≡ 0
    zero_value z =
        let below : be_value imm < 256 ^ width imm = (width_bounds imm w).1 in
        let below' : be_value imm < 256 ^ 0 = subst (λ n. be_value imm < 256 ^ n) z below in
        omega arith
