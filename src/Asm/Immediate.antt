-- ===== src/Asm/Immediate.antt =====
-- A 32-byte big-endian immediate: `Immediate` of
-- src/backend/evm-codegen/src/asm.rs, with its `From` implementations.
pub mod Width
use rustevm.Base.{
  ℕ, zero, suc, ◌+◌, ◌-◌, ◌*◌, ◌≡◌, Bool, true, false, not, Option, none, some, List, [], ◌∷◌, ◌++◌,
  ◌==◌, ltb, if◌then◌else◌, length, replicate, All,
}
use rustevm.Base.Bytes.{IsByte, to_be_bytes}
use mathlib.Core.Option

-- The bytes of `Immediate([u8; 32])`.
abbrev pub Immediate : Type 0
Immediate = List ℕ

pub record IsWord (imm : Immediate) : Type 0 where
  pub sized : length imm ≡ 32
  pub of_bytes : All IsByte imm

-- `iter().position(|&b| b != 0)`
first_nonzero : List ℕ → Option ℕ
first_nonzero [] = none
first_nonzero (b ∷ bs) =
    let rest = Option.map suc (first_nonzero bs) in if b == 0 then rest else some 0

unfoldable pub width : Immediate → ℕ
unfolding first_nonzero
width imm = elim (first_nonzero imm) [ some first ↦ 32 - first | none ↦ 0 ]

-- `u8::leading_zeros`
leading_zeros : ℕ → ℕ
leading_zeros b =
    if ltb b 1
    then 8
    else if ltb b 2
    then 7
    else if ltb b 4
    then 6
    else if ltb b 8
    then 5
    else if ltb b 16
    then 4
    else if ltb b 32
    then 3
    else if ltb b 64
    then 2
    else if ltb b 128
    then 1
    else 0

-- `self.0[i]`; the caller's `i` is in range.
byte_at : List ℕ → ℕ → ℕ
byte_at [] i = 0
byte_at (b ∷ bs) zero = b
byte_at (b ∷ bs) (suc i) = byte_at bs i

unfoldable pub bit_width : Immediate → ℕ
unfolding first_nonzero leading_zeros byte_at
bit_width imm = elim (first_nonzero imm) [
  | some first ↦ (32 - first) * 8 - leading_zeros (byte_at imm first)
  | none ↦ 0
]

unfoldable pub is_zero : Immediate → Bool
is_zero imm = width imm == 0

-- `From<u8>` to `From<u128>`: the `n` bytes of the integer are copied into the end of a zeroed word.
unfoldable pub from_int : ℕ → ℕ → Immediate
from_int n v = replicate (32 - n) 0 ++ to_be_bytes n v

unfoldable pub from_bool : Bool → Immediate
unfolding from_int
from_bool true = from_int 1 1
from_bool false = from_int 1 0
