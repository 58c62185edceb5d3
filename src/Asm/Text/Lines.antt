-- ===== src/Asm/Text/Lines.antt =====
-- The listing of disasm.rs as its lines.
use mathlib.Core.Path.{subst}
use rustevm.Base.{
  ℕ, suc, ◌+◌, ◌≤◌, ◌≡◌, refl, sym, ap, ◌∙◌, inl, inr, Bool, true, false, none, some, List, [], ◌∷◌,
  ◌++◌, arith, All, All-append, All-map, Option-cases, if◌then◌else◌, ◌-◌, ◌<◌, ◌^◌, ◌==◌, ==_iff,
  Bool-cases, drop, All-drop,
}
use rustevm.Base.Bytes.{IsByte, be_value}
use rustevm.Asm.Immediate.{Immediate, IsWord, width}
use rustevm.Asm.Immediate.Width.{width_bounds, be_value-drop-width}
use rustevm.Base.Format.{decimal, lower_hex, pad_left, hex_bytes}
use rustevm.Base.Format.Digits.{digits_from-All, byte_digits, is_hex_digit}
use rustevm.Isa.{Str, bytes, OpSpec, by_byte, by_byte_sound}
use rustevm.Asm.Disasm.{Instruction, mnemonic, missing, size, disassemble}
use rustevm.Asm.Disasm.Unique.{reassemble, WellDecoded, disassemble_lem}
use rustevm.Asm.Text.{
  operand_text, truncated_text, instruction_text, lines_text, listing, immediate_hex,
}
use rustevm.Asm.Text.Words.{
  hex_pairs, hex_pairs-hex_bytes, words, Above, words-next, all-hex_Above, hex_bytes-Above,
}
use rustevm.Asm.Text.Reader.{readable, line_bytes, lines_bytes, read_listing}
use rustevm.Asm.Text.ReadBack.{address-Above, line-bytes}

-- No line end.
abbrev Plain : Str → Type 0
Plain = Above 11

visible-Plain : (cs : Str) → Above 33 cs → Plain cs
visible-Plain cs = All-map (λ c. 33 ≤ c) (λ c. 11 ≤ c) (λ c h. omega arith) cs

Plain-append : (xs ys : Str) → Plain xs → Plain ys → Plain (xs ++ ys)
Plain-append xs ys = All-append (λ c. 11 ≤ c) xs ys

decimal-Plain : (n : ℕ) → Plain (decimal n)
unfolding decimal
decimal-Plain n =
    visible-Plain (decimal n) (all-hex_Above (decimal n) (digits_from-All 10 (suc n) n (inl refl)))

operand-Plain :
    (op : List ℕ)
    → All IsByte op
    → Plain (elim op [ [] ↦ [] | b ∷ bs ↦ bytes " 0x" ++ hex_bytes (b ∷ bs) ])
operand-Plain [] h = tt
operand-Plain (b ∷ bs) h =
    Plain-append (bytes " 0x") (hex_bytes (b ∷ bs)) (omega arith)
      (visible-Plain (hex_bytes (b ∷ bs)) (hex_bytes-Above (b ∷ bs) h))

truncated-Plain :
    (t : Bool) (n : ℕ)
    → Plain (if t then bytes " (truncated, " ++ decimal n ++ bytes " byte(s) missing)" else [])
truncated-Plain false n = tt
truncated-Plain true n =
    Plain-append (bytes " (truncated, " ++ decimal n) (bytes " byte(s) missing)")
      (Plain-append (bytes " (truncated, ") (decimal n) (omega arith) (decimal-Plain n))
      (omega arith)

address-Plain : (pc : ℕ) → Plain (pad_left b'0' 4 (lower_hex pc) ++ bytes "  ")
address-Plain pc =
    Plain-append (pad_left b'0' 4 (lower_hex pc)) (bytes "  ") (visible-Plain _ (address-Above pc))
      (omega arith)

module _ (ins : Instruction) (row : ins.spec ≡ by_byte ins.opcode) (byte : IsByte ins.opcode)
    (ok_bytes : All IsByte ins.immediate) where
  known-Plain : (spec : OpSpec) → ins.spec ≡ some spec → Plain (instruction_text ins)
  unfolding instruction_text mnemonic operand_text truncated_text
  known-Plain spec e =
      let (same, there) = by_byte_sound ins.opcode spec (sym row ∙ e) in
      let address = pad_left b'0' 4 (lower_hex ins.pc) ++ bytes "  " in
      rw e (
        Plain-append (address ++ spec.mnemonic) _
          (Plain-append address spec.mnemonic (address-Plain ins.pc)
            (visible-Plain spec.mnemonic (readable spec there).0))
          (Plain-append _ _ (operand-Plain ins.immediate ok_bytes)
            (truncated-Plain ins.truncated (missing ins))))

  unknown-Plain : ins.spec ≡ none → Plain (instruction_text ins)
  unfolding instruction_text mnemonic
  unknown-Plain e =
      let (hi, lo, two, value, high, low) = byte_digits ins.opcode byte in
      let digits = pad_left b'0' 2 (lower_hex ins.opcode) in
      let visible : Above 33 digits =
        all-hex_Above digits
          (subst (All (λ c. is_hex_digit c ≡ true)) (sym two) (high, (low, tt))) in
      let address = pad_left b'0' 4 (lower_hex ins.pc) ++ bytes "  " in
      rw e (
        Plain-append (address ++ bytes "INVALID") (bytes " 0x" ++ digits)
          (Plain-append address (bytes "INVALID") (address-Plain ins.pc) (omega arith))
          (Plain-append (bytes " 0x") digits (omega arith) (visible-Plain digits visible)))

  instruction_text-Plain : Plain (instruction_text ins)
  instruction_text-Plain = elim (Option-cases ins.spec) [
    | inl lost ↦ unknown-Plain lost
    | inr (spec, found) ↦ known-Plain spec found
  ]

-- Every byte of the instructions is one.
AllBytes : List Instruction → Type 0
AllBytes = All (λ ins. IsByte ins.opcode × All IsByte ins.immediate)

split_bytes : (xs ys : List ℕ) → All IsByte (xs ++ ys) → All IsByte xs × All IsByte ys
split_bytes [] ys h = (tt, h)
split_bytes (x ∷ xs) ys (h, hs) = let (a, b) = split_bytes xs ys hs in ((h, a), b)

reassemble-AllBytes : (is : List Instruction) → All IsByte (reassemble is) → AllBytes is
unfolding reassemble AllBytes
reassemble-AllBytes [] h = tt
reassemble-AllBytes (ins ∷ rest) (h, hs) =
    let (own, others) = split_bytes ins.immediate (reassemble rest) hs in
    ((h, own), reassemble-AllBytes rest others)

lines-reassemble :
    (pc : ℕ) (is : List Instruction)
    → WellDecoded pc is
    → AllBytes is
    → lines_bytes (words b'\n' (lines_text is)) ≡ reassemble is
unfolding lines_text lines_bytes reassemble AllBytes words line_bytes
lines-reassemble pc [] d h = refl
lines-reassemble pc (ins ∷ rest) (at, row, fits, d) ((byte, own), hs) =
    ap lines_bytes (
      words-next b'\n' (instruction_text ins) (lines_text rest)
        (instruction_text-Plain ins row byte own))
    ∙ ap (λ b. b ++ lines_bytes (words b'\n' (lines_text rest)))
        (line-bytes ins rest row fits byte own)
    ∙ ap (λ r. (ins.opcode ∷ ins.immediate) ++ r) (lines-reassemble (pc + size ins) rest d hs)

-- The text of a listing holds all of the code: for any bytes, truncated and unknown instructions
-- among them, a reader that takes the mnemonic and the operand of each line gets the bytes back.
pub read_listing-listing : (code : List ℕ) → All IsByte code → read_listing (listing code) ≡ code
unfolding read_listing listing
read_listing-listing code h =
    let (same, decoded) = disassemble_lem code in
    lines-reassemble 0 (disassemble code) decoded
      (reassemble-AllBytes (disassemble code) (subst (All IsByte) (sym same) h))
    ∙ same

zero_value : (imm : Immediate) → IsWord imm → width imm ≡ 0 → be_value imm ≡ 0
zero_value imm w z =
    let below : be_value imm < 256 ^ width imm = (width_bounds imm w).1 in
    let below' : be_value imm < 256 ^ 0 = subst (λ n. be_value imm < 256 ^ n) z below in omega arith

-- The hexadecimal text of a word denotes the word's value.
pub be_value-immediate_hex :
    (imm : Immediate) → IsWord imm → be_value (hex_pairs (immediate_hex imm)) ≡ be_value imm
unfolding immediate_hex
be_value-immediate_hex imm w = elim (Bool-cases (width imm == 0)) [
  | inl nil ↦
      let zero = zero_value imm w ((==_iff (width imm) 0).0 nil) in
      rw nil (unfold hex_pairs be_value in sym zero)
  | inr some_bytes ↦ rw some_bytes (
      ap be_value (
        hex_pairs-hex_bytes (drop (32 - width imm) imm)
          (All-drop IsByte (32 - width imm) imm w.of_bytes))
      ∙ be_value-drop-width imm w)
]
