-- ===== src/Ir/Types/Needed.antt =====
-- Where `Repair::for_convert` of src/backend/evm-codegen/src/ir/types.rs gives no repair.
use rustevm.Base.{
  ℕ, suc, ◌-◌, ◌^◌, ◌≤◌, ◌<◌, ◌≡◌, refl, ◌⊎◌, inl, inr, Bool, true, false, arith, ltb, leb,
  Bool-cases, ltb-false, leb-false,
}
use native.Mathlib.Nat.{one-le-pow, pow-suc}
use rustevm.Ir.Types.{
  Ty, bits, is_signed, is_well_formed, word_bits, Repair, none, mask, sext, convert_int,
  for_convert,
}
use rustevm.Ir.Types.Convert.{pow_mono, well_formed_bounds}
use rustevm.Ir.Types.Invariant.{word_mod, FitsBits, Fits, pow_half}

-- Either no repair, or a word that fits the first type and not the second.
abbrev Answer : (s t : Bool) (a b : ℕ) → Repair → Type 0
Answer s t a b r = (r ≡ none) ⊎ ((w : ℕ) × FitsBits s a w × ¬ FitsBits t b w)

pow_strict : (a b : ℕ) → a < b → 2 ^ a < 2 ^ b
pow_strict a b lt =
    omega (arith, pow_mono (suc a) b (omega arith), pow-suc 2 a, one-le-pow a 2 (omega arith))

-- The smallest value of `b` bits whose sign bit is set.
sign_bit : (b : ℕ) → 1 ≤ b → b < 256 → ¬ FitsBits true b (2 ^ (b - 1))
sign_bit b low high (lt, inl under) = omega arith
sign_bit b low high (lt, inr over) = omega (arith, pow_half b low, pow_strict b 256 high)

sext-Answer :
    (s : Bool) (a b : ℕ)
    → 1 ≤ b
    → (b < 256 → FitsBits s a (2 ^ (b - 1)))
    → Answer s true a b (sext b)
unfolding sext
sext-Answer s a b low fits = elim (Bool-cases (leb word_bits b)) [
  | inl full ↦ rw full (inl refl)
  | inr narrow ↦
      let lt = leb-false word_bits b narrow in inr (2 ^ (b - 1), fits lt, sign_bit b low lt)
]

mask-Answer :
    (s : Bool) (a b w : ℕ)
    → (b < 256 → FitsBits s a w)
    → (b < 256 → 2 ^ b ≤ w)
    → Answer s false a b (mask b)
unfolding mask
mask-Answer s a b w fits high = elim (Bool-cases (leb word_bits b)) [
  | inl full ↦ rw full (inl refl)
  | inr narrow ↦
      let lt = leb-false word_bits b narrow in inr (w, fits lt, λ h. omega (arith, high lt, h))
]

-- The word of all ones fits every signed type.
minus_one : (a : ℕ) → FitsBits true a (word_mod - 1)
minus_one a = (omega arith, inr (let one = one-le-pow (a - 1) 2 (omega arith) in omega arith))

convert_int-Answer :
    (s t : Bool) (a b : ℕ)
    → 1 ≤ a
    → a ≤ 256
    → 1 ≤ b
    → Answer s t a b
        (convert_int (record { bits = a; signed = s }) (record { bits = b; signed = t }))
unfolding convert_int
convert_int-Answer false false a b oa la ob = elim (Bool-cases (leb a b)) [
  | inl wide ↦ rw wide (inl refl)
  | inr thin ↦
      rw thin (
        mask-Answer false a b (2 ^ b) (λ h. pow_strict b a (leb-false a b thin)) (λ h. omega arith))
]
convert_int-Answer true false a b oa la ob =
    mask-Answer true a b (word_mod - 1) (λ h. minus_one a) (λ h. omega (arith, pow_strict b 256 h))
convert_int-Answer false true a b oa la ob = elim (Bool-cases (ltb a b)) [
  | inl wide ↦ rw wide (inl refl)
  | inr thin ↦
      rw thin
        (sext-Answer false a b ob (λ h. pow_strict (b - 1) a (omega (arith, ltb-false a b thin))))
]
convert_int-Answer true true a b oa la ob = elim (Bool-cases (leb a b)) [
  | inl wide ↦ rw wide (inl refl)
  | inr thin ↦ rw thin (
      sext-Answer true a b ob (λ h. (
        pow_strict (b - 1) 256 (omega arith),
        inl (pow_strict (b - 1) (a - 1) (omega (arith, leb-false a b thin))),
      )))
]

-- For well-formed types, `for_convert` gives no repair or there is a word that fits the first type
-- and, left as it is, does not fit the second.
pub for_convert_needed :
    (from to : Ty)
    → is_well_formed from ≡ true
    → is_well_formed to ≡ true
    → (for_convert from to ≡ none) ⊎ ((w : ℕ) × Fits from w × ¬ Fits to w)
unfolding for_convert bits is_signed
for_convert_needed from to hf ht =
    let (fl, fh) = well_formed_bounds from hf in
    let (tl, th) = well_formed_bounds to ht in
    convert_int-Answer (is_signed from) (is_signed to) (bits from) (bits to) fl fh tl
