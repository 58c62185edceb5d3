-- ===== src/Ir/Types.antt =====
-- Value types and the width repair: src/backend/evm-codegen/src/ir/types.rs.
pub mod Invariant
pub mod Convert
pub mod Needed
use rustevm.Base.{ℕ, Bool, true, false, not, ◌&&◌, List, ltb, leb, if◌then◌else◌}

-- The width of a stack slot.
abbrev pub word_bits : ℕ
word_bits = 256

pub record IntTy : Type 0 where
  pub bits : ℕ
  pub signed : Bool

-- `Type` of the source.
pub data Ty : Type 0 where
  int : IntTy → Ty
  ptr : Ty

abbrev pub uint : ℕ → Ty
uint bits = int (record { bits = bits; signed = false })

abbrev pub sint : ℕ → Ty
sint bits = int (record { bits = bits; signed = true })

abbrev pub bool : Ty
bool = uint 1

abbrev pub u256 : Ty
u256 = uint 256

unfoldable pub as_int : Ty → IntTy
as_int (int ty) = ty
as_int ptr = record { bits = 32; signed = false }

unfoldable pub bits : Ty → ℕ
unfolding as_int
bits ty = (as_int ty).bits

unfoldable pub is_signed : Ty → Bool
unfolding as_int
is_signed ty = (as_int ty).signed

unfoldable pub is_well_formed : Ty → Bool
unfolding bits
is_well_formed ty = leb 1 (bits ty) && leb (bits ty) word_bits

-- `Mask` and `Sext` carry the width.
pub data Repair : Type 0 where
  none : Repair
  mask_to sext_to : ℕ → Repair

-- `Repair::mask` and `Repair::sext`: a repair to the full word is none.
unfoldable pub mask : ℕ → Repair
mask bits = if leb word_bits bits then none else mask_to bits

unfoldable pub sext : ℕ → Repair
sext bits = if leb word_bits bits then none else sext_to bits

unfoldable pub convert_int : IntTy → IntTy → Repair
convert_int from to =
    if to.signed
    then (if (if from.signed then leb from.bits to.bits else ltb from.bits to.bits)
        then none
        else sext to.bits)
    else (if not from.signed && leb from.bits to.bits then none else mask to.bits)

unfoldable pub for_convert : Ty → Ty → Repair
unfolding convert_int as_int mask sext
for_convert from to = convert_int (as_int from) (as_int to)

pub record Signature : Type 0 where
  pub params : List Ty
  pub returns : List Ty
