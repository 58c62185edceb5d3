-- ===== src/Base/Format.antt =====
-- Text of numbers, as Rust's `format!` writes them. A text is the list of its bytes.
pub mod Digits
use rustevm.Base.Lists.{length, replicate}
use rustevm.Base.Tests.{ltb}
use Prim.Native.Nat.{ℕ, zero, suc, ◌+◌, ◌-◌, ◌*◌, ◌/◌, ◌%◌}
use mathlib.Core.Bool.{true, false}
use mathlib.Core.List.{List, [], ◌∷◌, ◌++◌}

-- A lower-case digit.
unfoldable pub digit_char : ℕ → ℕ
digit_char d = elim (ltb d 10) [ true ↦ b'0' + d | false ↦ 87 + d ]

-- The digits of a number in a base, `fuel` at most.
unfoldable pub digits_from : ℕ → ℕ → ℕ → List ℕ
unfolding digit_char
digits_from base zero n = []
digits_from base (suc fuel) n = elim (ltb n base) [
  | true ↦ digit_char n ∷ []
  | false ↦ digits_from base fuel (n / base) ++ (digit_char (n % base) ∷ [])
]

-- `{}`. A number has no more digits than its value and one.
unfoldable pub decimal : ℕ → List ℕ
unfolding digits_from
decimal n = digits_from 10 (suc n) n

-- `{:x}`
unfoldable pub lower_hex : ℕ → List ℕ
unfolding digits_from
lower_hex n = digits_from 16 (suc n) n

-- `{:>width}`, with the fill; `{:<width}` fills with spaces.
unfoldable pub pad_left : ℕ → ℕ → List ℕ → List ℕ
pad_left fill width text = replicate (width - length text) fill ++ text

unfoldable pub pad_right : ℕ → List ℕ → List ℕ
pad_right width text = text ++ replicate (width - length text) b' '

-- `{:02x}` for each byte.
unfoldable pub hex_bytes : List ℕ → List ℕ
unfolding lower_hex pad_left
hex_bytes [] = []
hex_bytes (b ∷ bs) = pad_left b'0' 2 (lower_hex b) ++ hex_bytes bs
