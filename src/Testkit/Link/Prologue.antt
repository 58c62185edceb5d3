-- ===== src/Testkit/Link/Prologue.antt =====
-- The code of `assemble_prologue` of src/tooling/evm-testkit/src/link.rs, and its length.
use rustevm.Base.{
  ℕ, suc, ◌+◌, ◌*◌, ◌≤◌, ◌≡◌, refl, ap, inl, inr, Bool, true, false, ◌&&◌, none, some, List, [],
  ◌∷◌, ◌++◌, ◌==◌, ltb, lt→ltb, if◌then◌else◌, length, length-append, ok, arith,
}
use rustevm.Base.Bytes.{to_be_bytes}
use rustevm.Isa.{
  Fork, bytes, chronology, shanghai, frontier, by_mnemonic, by_byte, opcodes, op_form, str_eq,
}
use rustevm.Asm.Immediate.{Immediate, IsWord, width, from_int}
use rustevm.Asm.Immediate.Width.{from_int-IsWord}
use rustevm.Asm.Assembler.{Asm, new, push, dup, op, finish, emit_byte, emit_family_byte, patch}
use rustevm.Asm.Assembler.Emits.{emit_byte-early, push-emits, Narrowest}
use rustevm.Testkit.Link.{assemble_prologue}

-- What a `push` of an immediate of a width takes in the code.
pub push_size : Fork → ℕ → ℕ
push_size fork w = if w == 0 && ltb (chronology fork) (chronology shanghai) then 2 else suc w

pub push_size_bounds : (fork : Fork) (w : ℕ) → (1 ≤ push_size fork w) × (push_size fork w ≤ w + 2)
unfolding push_size
push_size_bounds fork w = ground arith

Narrowest-size :
    (fork : Fork) (imm : Immediate) (bs : List ℕ)
    → Narrowest fork imm bs
    → suc (length bs) ≡ push_size fork (width imm)
unfolding push_size
Narrowest-size fork imm bs (inl (sized, inl wide)) = ground arith
Narrowest-size fork imm bs (inl (sized, inr late)) = ground arith
Narrowest-size fork imm bs (inr (same, nothing, early)) =
    rw (same, nothing, lt→ltb (chronology fork) (chronology shanghai) early)

-- An assembler with this code and nothing else.
abbrev at : Fork → List ℕ → Asm
at fork code = record {
  fork = fork;
  code = code;
  labels = [];
  fixups = [];
  next_label = 0;
  error = none;
}

push_at :
    (fork : Fork) (code : List ℕ) (imm : Immediate)
    → IsWord imm
    → (code' : List ℕ) × (push (at fork code) imm ≡ some (at fork code'))
      × (length code' ≡ length code + push_size fork (width imm))
push_at fork code imm w =
    let (bs, pushed, _, narrow) = push-emits (at fork code) imm refl w in
    (
      code ++ ((0x5f + length bs) ∷ bs),
      pushed,
      omega
          (arith, length-append code ((0x5f + length bs) ∷ bs), Narrowest-size fork imm bs narrow),
    )

early : (fork : Fork) → chronology frontier ≤ chronology fork
unfolding chronology
early fork = omega arith

emitted_at :
    (fork : Fork) (code : List ℕ) (byte : ℕ) (mnemonic : List ℕ)
    → emit_byte (at fork code) byte mnemonic frontier ≡ at fork (code ++ (byte ∷ []))
emitted_at fork code byte mnemonic =
    emit_byte-early (at fork code) byte mnemonic frontier (early fork)

dup_at : (fork : Fork) (code : List ℕ) → dup (at fork code) 1 ≡ some (at fork (code ++ (0x80 ∷ [])))
unfolding dup emit_family_byte by_byte opcodes
dup_at fork code = ap some (emitted_at fork code 0x80 (bytes "DUP1"))

codecopy_at :
    (fork : Fork) (code : List ℕ)
    → op (at fork code) (bytes "CODECOPY") ≡ at fork (code ++ (0x39 ∷ []))
unfolding op by_mnemonic opcodes str_eq op_form
codecopy_at fork code = emitted_at fork code 0x39 (bytes "CODECOPY")

return_at :
    (fork : Fork) (code : List ℕ)
    → op (at fork code) (bytes "RETURN") ≡ at fork (code ++ (0xf3 ∷ []))
unfolding op by_mnemonic opcodes str_eq op_form
return_at fork code = emitted_at fork code 0xf3 (bytes "RETURN")

and_false : (b : Bool) → b && false ≡ false
and_false true = refl
and_false false = refl

finish_at : (fork : Fork) (code : List ℕ) → finish (at fork code) ≡ some (ok code)
unfolding finish patch
finish_at fork code = rw (and_false (ltb 65535 (length code)))

from_int_8-IsWord : (v : ℕ) → IsWord (from_int 8 v)
from_int_8-IsWord v = from_int-IsWord 8 v (omega arith)

zero-IsWord : IsWord (from_int 1 0)
zero-IsWord = from_int-IsWord 1 0 (omega arith)

zero_width : width (from_int 1 0) ≡ 0
unfolding width from_int to_be_bytes
zero_width = refl

-- The prologue assembles on every fork, to a code of this length.
unfoldable pub prologue_size : Fork → ℕ → ℕ → ℕ
prologue_size fork len offset =
    push_size fork (width (from_int 8 len))
    + push_size fork (width (from_int 8 offset))
    + 2 * push_size fork 0
    + 3

pub assemble_prologue-size :
    (len offset : ℕ) (fork : Fork)
    → (code : List ℕ) × (assemble_prologue len offset fork ≡ some (ok code))
      × (length code ≡ prologue_size fork len offset)
unfolding assemble_prologue new prologue_size
assemble_prologue-size len offset fork =
    let (c1, p1, s1) = push_at fork [] (from_int 8 len) (from_int_8-IsWord len) in
    let c2 : List ℕ = c1 ++ (0x80 ∷ []) in
    let (c3, p3, s3) = push_at fork c2 (from_int 8 offset) (from_int_8-IsWord offset) in
    let (c4, p4, s4) = push_at fork c3 (from_int 1 0) zero-IsWord in
    let c5 : List ℕ = c4 ++ (0x39 ∷ []) in
    let (c6, p6, s6) = push_at fork c5 (from_int 1 0) zero-IsWord in
    let c7 : List ℕ = c6 ++ (0xf3 ∷ []) in
    (
      c7,
      rw (p1, dup_at fork c1, p3, p4, codecopy_at fork c4, p6, return_at fork c6)
          (finish_at fork c7),
      omega (
        arith,
        s1,
        s3,
        s4,
        s6,
        ap (push_size fork) zero_width,
        length-append c1 (0x80 ∷ []),
        length-append c4 (0x39 ∷ []),
        length-append c6 (0xf3 ∷ []),
      ),
    )
