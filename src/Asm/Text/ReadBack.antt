-- ===== src/Asm/Text/ReadBack.antt =====
-- The lines of disasm.rs, read.
use mathlib.Core.List.{append-nil, append_assoc}
use mathlib.Core.Path.{subst}
use rustevm.Base.{
  ℕ, suc, zero, ◌-◌, ◌≤◌, ◌≡◌, refl, sym, ap, ◌∙◌, inl, inr, Bool, true, false, none, some, List,
  [], ◌∷◌, ◌++◌, arith, if◌then◌else◌, length, replicate, All, All-append, Option-cases,
}
use rustevm.Base.Bytes.{IsByte}
use rustevm.Base.Format.{decimal, lower_hex, pad_left, hex_bytes}
use rustevm.Base.Format.Digits.{digits_from-All, byte_digits, is_hex_digit}
use rustevm.Isa.{Str, bytes, str_eq, OpSpec, by_byte, by_byte_sound}
use rustevm.Asm.Disasm.{Instruction, mnemonic, missing, wanted, immediate_width}
use rustevm.Asm.Disasm.Unique.{Fits}
use rustevm.Asm.Text.{operand_text, truncated_text, instruction_text}
use rustevm.Asm.Text.Words.{
  words, Above, words-next, words-last, hex_pairs, hex_pairs-hex_bytes, all-hex_Above,
  hex_bytes-Above,
}
use rustevm.Asm.Text.Reader.{operand_word, operand, encoded, line_bytes, readable, encoded-mnemonic}

-- The words of a line from the mnemonic on, which has no space.
module _ (m : Str) (visible : Above 33 m) (ins : Instruction)
    (ok_bytes : All IsByte ins.immediate) where
  words_at :
      (op : List ℕ) (t : Bool)
      → All IsByte op
      → (more : List Str) × (words b' ' (
            m
            ++ ((elim op [ [] ↦ [] | b ∷ bs ↦ bytes " 0x" ++ hex_bytes (b ∷ bs) ])
                ++ (if t
                    then bytes " (truncated, " ++ decimal (missing ins) ++ bytes " byte(s) missing)"
                    else [])))
          ≡ m ∷ more)
        × (operand more ≡ op)
  unfolding operand operand_word
  words_at [] false h = ([], ap (words b' ') (append-nil m) ∙ words-last b' ' m visible, refl)
  words_at [] true h =
      let rest = words b' ' (decimal (missing ins) ++ bytes " byte(s) missing)") in
      (
        bytes "(truncated," ∷ rest,
        words-next b' ' m _ visible
            ∙ ap (λ r. m ∷ r) (words-next b' ' (bytes "(truncated,") _ (omega arith)),
        refl,
      )
  words_at (b ∷ bs) false h =
      let digits = hex_bytes (b ∷ bs) in
      (
        (b'0' ∷ (b'x' ∷ digits)) ∷ [],
        words-next b' ' m _ visible
            ∙ ap (λ r. m ∷ words b' ' r) (append-nil (b'0' ∷ (b'x' ∷ digits)))
            ∙ ap (λ r. m ∷ r)
                (words-last b' ' (b'0' ∷ (b'x' ∷ digits))
                  (omega arith, (omega arith, hex_bytes-Above (b ∷ bs) h))),
        hex_pairs-hex_bytes (b ∷ bs) h,
      )
  words_at (b ∷ bs) true h =
      let digits = hex_bytes (b ∷ bs) in
      let note = bytes "(truncated, " ++ decimal (missing ins) ++ bytes " byte(s) missing)" in
      (
        (b'0' ∷ (b'x' ∷ digits)) ∷ words b' ' note,
        words-next b' ' m _ visible
            ∙ ap (λ r. m ∷ r)
                (words-next b' ' (b'0' ∷ (b'x' ∷ digits)) note
                  (omega arith, (omega arith, hex_bytes-Above (b ∷ bs) h))),
        hex_pairs-hex_bytes (b ∷ bs) h,
      )

zeros-Above : (n : ℕ) → Above 33 (replicate n b'0')
zeros-Above zero = tt
zeros-Above (suc n) = (omega arith, zeros-Above n)

pub address-Above : (pc : ℕ) → Above 33 (pad_left b'0' 4 (lower_hex pc))
unfolding pad_left lower_hex
address-Above pc =
    All-append (λ c. 33 ≤ c) (replicate (4 - length (lower_hex pc)) b'0') (lower_hex pc)
      (zeros-Above (4 - length (lower_hex pc)))
      (all-hex_Above (lower_hex pc) (digits_from-All 16 (suc pc) pc (inr refl)))

-- A line is its address, two spaces, and the rest.
line_words :
    (address m tail : Str)
    → Above 33 address
    → words b' ' ((address ++ bytes "  " ++ m) ++ tail) ≡ address ∷ [] ∷ words b' ' (m ++ tail)
line_words address m tail visible =
    ap (words b' ')
      (append_assoc (address ++ bytes "  ") m tail ∙ append_assoc address (bytes "  ") (m ++ tail))
    ∙ words-next b' ' address (b' ' ∷ (m ++ tail)) visible
    ∙ ap (λ r. address ∷ r) (words-next b' ' [] (m ++ tail) tt)

module _ (ins : Instruction) (rest : List Instruction) (row : ins.spec ≡ by_byte ins.opcode)
    (fits : Fits ins rest) (byte : IsByte ins.opcode) (ok_bytes : All IsByte ins.immediate) where
  short : length ins.immediate ≤ wanted ins.spec
  unfolding immediate_width
  short = elim fits [ inl (whole, sized) ↦ omega arith | inr (cut, less, end) ↦ omega arith ]

  -- A byte with a row.
  known_line :
      (spec : OpSpec)
      → ins.spec ≡ some spec
      → line_bytes (words b' ' (instruction_text ins)) ≡ ins.opcode ∷ ins.immediate
  unfolding line_bytes instruction_text mnemonic operand_text truncated_text
  known_line spec e =
      let (same, there) = by_byte_sound ins.opcode spec (sym row ∙ e) in
      let (more, cut, back) =
        words_at spec.mnemonic (readable spec there).0 ins ok_bytes ins.immediate ins.truncated
          ok_bytes in
      let room : length ins.immediate ≤ wanted (some spec) = rw e at short in
      rw e (
        ap line_bytes (
          line_words (pad_left b'0' 4 (lower_hex ins.pc)) spec.mnemonic _ (address-Above ins.pc)
          ∙ ap (λ r. pad_left b'0' 4 (lower_hex ins.pc) ∷ [] ∷ r) cut)
        ∙ ap (encoded spec.mnemonic) back
        ∙ encoded-mnemonic spec ins.immediate there room
        ∙ ap (λ b. b ∷ ins.immediate) same)

  -- A byte without one.
  unknown_line :
      ins.spec ≡ none → line_bytes (words b' ' (instruction_text ins)) ≡ ins.opcode ∷ ins.immediate
  unfolding line_bytes instruction_text mnemonic encoded operand operand_word str_eq
  unknown_line e =
      let none_wanted : length ins.immediate ≤ wanted none = rw e at short in
      let empty : ins.immediate ≡ [] = nil_length ins.immediate (unfold wanted in none_wanted) in
      let digits = pad_left b'0' 2 (lower_hex ins.opcode) in
      let (hi, lo, two, value, high, low) = byte_digits ins.opcode byte in
      let visible : Above 33 digits =
        all-hex_Above digits
          (subst (All (λ c. is_hex_digit c ≡ true)) (sym two) (high, (low, tt))) in
      rw (e, empty)
        (ap line_bytes (
            line_words (pad_left b'0' 4 (lower_hex ins.pc)) (bytes "INVALID")
              (bytes " 0x" ++ digits) (address-Above ins.pc)
            ∙ ap (λ r. pad_left b'0' 4 (lower_hex ins.pc) ∷ [] ∷ r)
                (words-next b' ' (bytes "INVALID") (b'0' ∷ (b'x' ∷ digits)) (omega arith)
                  ∙ ap (λ r. bytes "INVALID" ∷ r)
                      (words-last b' ' (b'0' ∷ (b'x' ∷ digits))
                        (omega arith, (omega arith, visible)))))
          ∙ ap (λ d. encoded (bytes "INVALID") (hex_pairs d)) two
          ∙ unfold hex_pairs in ap (λ b. b ∷ []) value)
    where
      nil_length : (xs : List ℕ) → length xs ≤ 0 → xs ≡ []
      nil_length [] h = refl
      nil_length (x ∷ xs) h = absurd (omega arith)

  pub line-bytes : line_bytes (words b' ' (instruction_text ins)) ≡ ins.opcode ∷ ins.immediate
  line-bytes = elim (Option-cases ins.spec) [
    | inl lost ↦ unknown_line lost
    | inr (spec, found) ↦ known_line spec found
  ]
