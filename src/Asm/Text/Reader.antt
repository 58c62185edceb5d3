-- ===== src/Asm/Text/Reader.antt =====
-- A reader of the lines of the listings of disasm.rs: the mnemonic gives the opcode back, and the digits the operand.
use mathlib.Core.Bool.{and-eq-true_iff}
use rustevm.Base.{
  ℕ, ◌≤◌, ◌≡◌, refl, inl, inr, Bool, true, false, not, ◌&&◌, ◌||◌, none, some, List, [], ◌∷◌, ◌++◌,
  ◌==◌, leb, all, arith, if◌then◌else◌, length, Bool-cases,
}
use rustevm.Isa.{Str, bytes, str_eq, OpSpec, by_mnemonic, opcodes, InTable, all-InTable, op_form}
use rustevm.Isa.Lookup.Distinct.{lookup-row}
use rustevm.Asm.Disasm.{wanted}
use rustevm.Asm.Text.Words.{words, Above, hex_pairs, all-Above}

-- `0x` and digits; another word is no operand.
unfoldable pub operand_word : Str → List ℕ
operand_word [] = []
operand_word (a ∷ []) = []
operand_word (a ∷ (b ∷ digits)) = if a == b'0' && b == b'x' then hex_pairs digits else []

unfoldable pub operand : List Str → List ℕ
unfolding operand_word
operand [] = []
operand (w ∷ ws) = operand_word w

-- The byte of the mnemonic in the table, and the operand behind it.
named : Str → List ℕ → List ℕ
named m bs = elim (by_mnemonic m) [ none ↦ bs | some spec ↦ spec.byte ∷ bs ]

-- `INVALID` with an operand is that byte; the opcode of that name has none.
unfoldable pub encoded : Str → List ℕ → List ℕ
unfolding named
encoded m [] = named m []
encoded m (b ∷ bs) = if str_eq m (bytes "INVALID") then b ∷ bs else named m (b ∷ bs)

-- The address, two spaces, the mnemonic, and perhaps an operand.
unfoldable pub line_bytes : List Str → List ℕ
unfolding operand encoded
line_bytes (address ∷ (gap ∷ (m ∷ more))) = encoded m (operand more)
line_bytes (address ∷ (gap ∷ [])) = []
line_bytes (address ∷ []) = []
line_bytes [] = []

unfoldable pub lines_bytes : List Str → List ℕ
unfolding line_bytes
lines_bytes [] = []
lines_bytes (line ∷ rest) = line_bytes (words b' ' line) ++ lines_bytes rest

-- The bytes that a listing is of.
unfoldable pub read_listing : Str → List ℕ
unfolding lines_bytes
read_listing text = lines_bytes (words b'\n' text)

-- What the table says of the names: they have no space, and `INVALID` carries no operand.
is_readable : OpSpec → Bool
is_readable spec =
    all (λ c. leb 33 c) spec.mnemonic
    && (not (str_eq spec.mnemonic (bytes "INVALID")) || wanted (some spec) == 0)

all_readable : all is_readable opcodes ≡ true
unfolding is_readable opcodes wanted op_form str_eq
all_readable = refl

pub readable :
    (spec : OpSpec)
    → InTable spec
    → Above 33 spec.mnemonic
      × ((not (str_eq spec.mnemonic (bytes "INVALID")) || wanted (some spec) == 0) ≡ true)
unfolding is_readable
readable spec there =
    let (visible, plain) =
      (and-eq-true_iff (all (λ c. leb 33 c) spec.mnemonic) _).0
        (all-InTable is_readable spec all_readable there) in
    (all-Above spec.mnemonic visible, plain)

named-mnemonic :
    (spec : OpSpec) (bs : List ℕ) → InTable spec → named spec.mnemonic bs ≡ spec.byte ∷ bs
unfolding named
named-mnemonic spec bs there = rw (named, (lookup-row spec there).1) refl

-- The mnemonic of a row and an operand no wider than the row wants.
pub encoded-mnemonic :
    (spec : OpSpec) (bs : List ℕ)
    → InTable spec
    → length bs ≤ wanted (some spec)
    → encoded spec.mnemonic bs ≡ spec.byte ∷ bs
unfolding encoded
encoded-mnemonic spec [] there fits = named-mnemonic spec [] there
encoded-mnemonic spec (b ∷ bs) there fits =
    elim (Bool-cases (str_eq spec.mnemonic (bytes "INVALID"))) [
      | inl same ↦
          let none_wanted : (false || wanted (some spec) == 0) ≡ true =
            rw same at (readable spec there).1 in
          absurd (positive (wanted (some spec)) (omega arith) none_wanted)
      | inr other ↦ rw other (named-mnemonic spec (b ∷ bs) there)
    ]
  where
    positive : (n : ℕ) → 1 ≤ n → (n == 0) ≡ true → ⊥
    positive n h e = ground arith
