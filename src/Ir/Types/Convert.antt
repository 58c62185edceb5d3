-- ===== src/Ir/Types/Convert.antt =====
-- `Repair::for_convert` of src/backend/evm-codegen/src/ir/types.rs against the invariant at the head of
-- that file.
use rustevm.Base.{
  ℕ, suc, ◌+◌, ◌-◌, ◌*◌, ◌%◌, ◌^◌, ◌≤◌, ◌<◌, ◌≡◌, refl, sym, ap, ◌∙◌, inl, inr, Bool, true, false,
  arith, ltb, leb, if◌then◌else◌, Bool-cases, ltb→lt, ltb-false, leb→le,
}
use mathlib.Core.Path.{subst}
use native.Mathlib.Nat.{pow-le-pow_right, mod-lt, mod-mod, one-le-pow, add-mul-mod_self_right}
use rustevm.Base.Bytes.{pow_add}
use rustevm.Ir.Types.{
  IntTy, Ty, bits, is_signed, is_well_formed, word_bits, Repair, none, mask, sext, convert_int,
  for_convert,
}
use rustevm.Ir.Types.Invariant.{
  word_mod, FitsBits, FitsInt, Fits, sign_extend, repaired, sign_extend-FitsBits,
}

-- Equal as a value of `b` bits.
abbrev pub Same : ℕ → ℕ → ℕ → Type 0
Same b v w = v % 2 ^ b ≡ w % 2 ^ b

abbrev Converts : IntTy → Repair → ℕ → Type 0
Converts to r w = FitsInt to (repaired r w) × Same to.bits (repaired r w) w

pub pow_mono : (a b : ℕ) → a ≤ b → 2 ^ a ≤ 2 ^ b
pow_mono a b le = pow-le-pow_right (omega arith) le

pub lt-pow : (a b w : ℕ) → a ≤ b → w < 2 ^ a → w < 2 ^ b
lt-pow a b w le lt = omega (arith, pow_mono a b le)

pub FitsBits-word : (s : Bool) (b w : ℕ) → b ≤ 256 → FitsBits s b w → w < word_mod
FitsBits-word true b w le h = h.0
FitsBits-word false b w le h = lt-pow b 256 w le h

-- Every word fits the full width.
word-FitsBits : (w : ℕ) → w < word_mod → FitsBits true 256 w
word-FitsBits w h = elim (Bool-cases (ltb w (2 ^ 255))) [
  | inl below ↦ (h, inl (ltb→lt w (2 ^ 255) below))
  | inr above ↦ (h, inr (let over = ltb-false w (2 ^ 255) above in omega arith))
]

-- A sign-extended word stays one at a greater width.
FitsBits-wider : (a b w : ℕ) → a ≤ b → FitsBits true a w → FitsBits true b w
FitsBits-wider a b w le (lt, h) =
    let halves = pow_mono (a - 1) (b - 1) (omega arith) in
    elim h [ inl low ↦ (lt, inl (omega arith)) | inr high ↦ (lt, inr (omega arith)) ]

-- An unsigned value that is strictly narrower is its own sign extension.
FitsBits-unsigned : (a b w : ℕ) → a < b → b ≤ 256 → FitsBits false a w → FitsBits true b w
FitsBits-unsigned a b w lt le h =
    (lt-pow a 256 w (omega arith) h, inl (lt-pow a (b - 1) w (omega arith) h))

-- A sign extension adds a multiple of the width's modulus.
below_multiple : (m p k : ℕ) → m ≡ suc k * p → m - p ≡ k * p
below_multiple m p k e = omega (arith, e)

adds_multiple :
    (m p k h w : ℕ)
    → m ≡ suc k * p
    → let low = w % p in (if ltb low h then low else low + (m - p)) % p ≡ w % p
adds_multiple m p k h w e =
    let rest = below_multiple m p k e in
    elim (Bool-cases (ltb (w % p) h)) [
      | inl below ↦ rw below (mod-mod w p)
      | inr above ↦ rw (above, rest) (add-mul-mod_self_right (w % p) k p ∙ mod-mod w p)
    ]

word_mod-split : (b : ℕ) → b ≤ 256 → word_mod ≡ 2 ^ (256 - b) * 2 ^ b
word_mod-split b le = rw (sym (pow_add (256 - b) b)) (ap (λ n. 2 ^ n) {x = 256} (omega arith))

sign_extend-Same : (b w : ℕ) → b ≤ 256 → Same b (sign_extend b w) w
unfolding sign_extend
sign_extend-Same b w le =
    let some_k = one-le-pow (256 - b) 2 (omega arith) in
    adds_multiple word_mod (2 ^ b) (2 ^ (256 - b) - 1) (2 ^ (b - 1)) w
      (word_mod-split b le ∙ ap (λ n. n * 2 ^ b) {x = 2 ^ (256 - b)} (omega arith))

-- What a repaired word has to be at a width and a signedness.
abbrev pub RepairedTo : Bool → ℕ → Repair → ℕ → Type 0
RepairedTo s b r w = FitsBits s b (repaired r w) × Same b (repaired r w) w

pub mask-RepairedTo : (b w : ℕ) → w < word_mod → RepairedTo false b (mask b) w
unfolding mask repaired
mask-RepairedTo b w h = elim (Bool-cases (leb word_bits b)) [
  | inl full ↦ rw full (lt-pow 256 b w (leb→le word_bits b full) h, refl)
  | inr narrow ↦ rw narrow (mod-lt w (one-le-pow b 2 (omega arith)), mod-mod w (2 ^ b))
]

full_word : (b w : ℕ) → b ≡ 256 → FitsBits true 256 w → FitsBits true b w
full_word b w e h = subst (λ n. FitsBits true n w) (sym e) h

pub sext-RepairedTo : (b w : ℕ) → 1 ≤ b → b ≤ 256 → w < word_mod → RepairedTo true b (sext b) w
unfolding sext repaired
sext-RepairedTo b w low high h = elim (Bool-cases (leb word_bits b)) [
  | inl full ↦
      rw full (full_word b w (omega (arith, leb→le word_bits b full)) (word-FitsBits w h), refl)
  | inr narrow ↦ rw narrow (sign_extend-FitsBits b w low high, sign_extend-Same b w high)
]

none-RepairedTo : (s : Bool) (b w : ℕ) → FitsBits s b w → RepairedTo s b none w
unfolding repaired
none-RepairedTo s b w h = (h, refl)

convert_int-RepairedTo :
    (s t : Bool) (a b w : ℕ)
    → a ≤ 256
    → 1 ≤ b
    → b ≤ 256
    → FitsBits s a w
    → RepairedTo t b
        (convert_int (record { bits = a; signed = s }) (record { bits = b; signed = t }))
        w
unfolding convert_int
convert_int-RepairedTo false false a b w la ob lb h = elim (Bool-cases (leb a b)) [
  | inl wide ↦ rw wide (none-RepairedTo false b w (lt-pow a b w (leb→le a b wide) h))
  | inr thin ↦ rw thin (mask-RepairedTo b w (FitsBits-word false a w la h))
]
convert_int-RepairedTo true false a b w la ob lb h =
    mask-RepairedTo b w (FitsBits-word true a w la h)
convert_int-RepairedTo false true a b w la ob lb h = elim (Bool-cases (ltb a b)) [
  | inl wide ↦ rw wide (none-RepairedTo true b w (FitsBits-unsigned a b w (ltb→lt a b wide) lb h))
  | inr thin ↦ rw thin (sext-RepairedTo b w ob lb (FitsBits-word false a w la h))
]
convert_int-RepairedTo true true a b w la ob lb h = elim (Bool-cases (leb a b)) [
  | inl wide ↦ rw wide (none-RepairedTo true b w (FitsBits-wider a b w (leb→le a b wide) h))
  | inr thin ↦ rw thin (sext-RepairedTo b w ob lb (FitsBits-word true a w la h))
]

pub well_formed_bounds : (ty : Ty) → is_well_formed ty ≡ true → (1 ≤ bits ty) × (bits ty ≤ 256)
unfolding is_well_formed
well_formed_bounds ty h = (ground arith, ground arith)

-- For well-formed types and a word that fits the first one, the repaired word fits the second one
-- and agrees with the word on the bits of the second.
pub for_convert-Fits :
    (from to : Ty) (w : ℕ)
    → is_well_formed from ≡ true
    → is_well_formed to ≡ true
    → Fits from w
    → Fits to (repaired (for_convert from to) w)
      × Same (bits to) (repaired (for_convert from to) w) w
unfolding for_convert bits is_signed
for_convert-Fits from to w hf ht h =
    let (fl, fh) = well_formed_bounds from hf in
    let (tl, th) = well_formed_bounds to ht in
    convert_int-RepairedTo (is_signed from) (is_signed to) (bits from) (bits to) w fh tl th h
