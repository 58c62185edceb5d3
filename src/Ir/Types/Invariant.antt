-- ===== src/Ir/Types/Invariant.antt =====
-- The representation invariant that the head of types.rs states, and what a repair does to a word.
use rustevm.Base.{
  ℕ, suc, ◌+◌, ◌-◌, ◌%◌, ◌^◌, ◌≤◌, ◌<◌, ◌≡◌, ap, ◌∙◌, ◌⊎◌, inl, inr, Bool, true, false, arith, ltb,
  if◌then◌else◌, Bool-cases, ltb→lt, ltb-false,
}
use native.Mathlib.Nat.{pow-suc, pow-le-pow_right, mod-lt, one-le-pow}
use rustevm.Ir.Types.{IntTy, Ty, as_int, bits, Repair, none, mask_to, sext_to}

abbrev pub word_mod : ℕ
word_mod = 2 ^ 256

-- A word whose bits from `bits` on are zero, or equal to bit `bits - 1`.
abbrev pub FitsBits : Bool → ℕ → ℕ → Type 0
FitsBits false bits w = w < 2 ^ bits
FitsBits true bits w = (w < word_mod) × ((w < 2 ^ (bits - 1)) ⊎ (word_mod ≤ w + 2 ^ (bits - 1)))

abbrev pub FitsInt : IntTy → ℕ → Type 0
FitsInt ty w = FitsBits ty.signed ty.bits w

abbrev pub Fits : Ty → ℕ → Type 0
Fits ty w = FitsInt (as_int ty) w

-- Clearing the bits from `bits` on, and copying bit `bits - 1` into them.
unfoldable pub sign_extend : ℕ → ℕ → ℕ
sign_extend bits w =
    let low = w % 2 ^ bits in if ltb low (2 ^ (bits - 1)) then low else low + (word_mod - 2 ^ bits)

unfoldable pub repaired : Repair → ℕ → ℕ
unfolding sign_extend
repaired none w = w
repaired (mask_to bits) w = w % 2 ^ bits
repaired (sext_to bits) w = sign_extend bits w

double : (b : ℕ) → 2 ^ suc b ≡ 2 ^ b + 2 ^ b
double b = pow-suc 2 b ∙ omega arith

pub pow_half : (b : ℕ) → 1 ≤ b → 2 ^ b ≡ 2 ^ (b - 1) + 2 ^ (b - 1)
pow_half b h = ap (λ n. 2 ^ n) {y = suc (b - 1)} (omega arith) ∙ double (b - 1)

extended_fits :
    (m p h low : ℕ)
    → p ≡ h + h
    → p ≤ m
    → low < p
    → let w = if ltb low h then low else low + (m - p) in (w < m) × ((w < h) ⊎ (m ≤ w + h))
extended_fits m p h low e le lt = elim (Bool-cases (ltb low h)) [
  | inl below ↦ rw below (let under = ltb→lt low h below in (omega arith, inl under))
  | inr above ↦ rw above (let over = ltb-false low h above in (omega arith, inr (omega arith)))
]

pub sign_extend-FitsBits : (b w : ℕ) → 1 ≤ b → b ≤ 256 → FitsBits true b (sign_extend b w)
unfolding sign_extend
sign_extend-FitsBits b w low high =
    extended_fits word_mod (2 ^ b) (2 ^ (b - 1)) (w % 2 ^ b) (pow_half b low)
      (pow-le-pow_right (omega arith) high) (mod-lt w (one-le-pow b 2 (omega arith)))
