-- ===== src/Asm/Immediate/Width.antt =====
-- What `width`, `bit_width` and the conversions of asm.rs say of an immediate's value.
use rustevm.Base.{
  ℕ, zero, suc, ◌+◌, ◌-◌, ◌*◌, ◌^◌, ◌≤◌, ◌<◌, ◌≡◌, refl, sym, ◌∙◌, ◌≢◌, inl, inr, Option, none,
  some, List, [], ◌∷◌, arith, ◌==◌, Bool-cases, ==_iff, length, length-append, length-replicate,
  length-drop, drop, All, All-append, All-drop, replicate,
}
use rustevm.Base.Bytes.{
  IsByte, be_value, be_value-lt, to_be_bytes, length-to_be_bytes, to_be_bytes-IsByte,
  be_value-to_be_bytes, be_value-zeros, pow_256, pow_add,
}
use mathlib.Core.Option
use mathlib.Core.Path.{subst}
use rustevm.Asm.Immediate.{
  Immediate, IsWord, first_nonzero, byte_at, leading_zeros, width, bit_width, from_int,
}

-- What the search for the first byte that is not zero finds.
abbrev Leading : List ℕ → Option ℕ → Type 0
Leading bs none = be_value bs ≡ 0
Leading bs (some i) =
    (after : ℕ) × (length bs ≡ suc (i + after))
    × (0 < byte_at bs i)
    × (be_value (drop i bs) ≡ be_value bs)
    × (be_value bs ≡ byte_at bs i * 256 ^ after + be_value (drop (suc i) bs))

be_value-zero_cons : (b : ℕ) (bs : List ℕ) → b ≡ 0 → be_value (b ∷ bs) ≡ be_value bs
unfolding be_value
be_value-zero_cons b bs e = rw e (omega arith)

Leading-zero :
    (b : ℕ) (bs : List ℕ) (o : Option ℕ)
    → b ≡ 0
    → Leading bs o
    → Leading (b ∷ bs) (Option.map suc o)
unfolding byte_at
Leading-zero b bs none e h = be_value-zero_cons b bs e ∙ h
Leading-zero b bs (some i) e (after, sized, nonzero, same, split) = (
  after,
  omega arith,
  nonzero,
  same ∙ sym (be_value-zero_cons b bs e),
  be_value-zero_cons b bs e ∙ split,
)

first_nonzero-Leading : (bs : List ℕ) → Leading bs (first_nonzero bs)
unfolding first_nonzero
first_nonzero-Leading [] = unfold be_value in refl
first_nonzero-Leading (b ∷ bs) = elim (Bool-cases (b == 0)) [
  | inl z ↦
      rw z (Leading-zero b bs (first_nonzero bs) ((==_iff b 0).0 z) (first_nonzero-Leading bs))
  | inr nz ↦ rw nz (unfold be_value byte_at in (length bs, omega arith, ground arith, refl, refl))
]

pow_bytes : (n : ℕ) → 256 ^ n ≡ 2 ^ (n * 8)
pow_bytes zero = refl
pow_bytes (suc n) =
    let e : suc n * 8 ≡ n * 8 + 8 = omega arith in
    rw (pow_256 n, e, pow_add (n * 8) 8, pow_bytes n) refl

-- The bounds that the number of leading zeros gives for a byte.
leading_zeros_bounds :
    (b : ℕ)
    → 0 < b
    → b < 256
    → (leading_zeros b ≤ 7) × (b < 2 ^ (8 - leading_zeros b)) × (2 ^ (7 - leading_zeros b) ≤ b)
unfolding leading_zeros
leading_zeros_bounds b pos small = ground arith

byte_at-lt : (bs : List ℕ) (i : ℕ) → All IsByte bs → byte_at bs i < 256
unfolding byte_at
byte_at-lt [] i h = omega arith
byte_at-lt (b ∷ bs) zero h = h.0
byte_at-lt (b ∷ bs) (suc i) h = byte_at-lt bs i h.1

abbrev width_at : Option ℕ → ℕ
width_at (some first) = 32 - first
width_at none = 0

-- What stands behind the leading byte is below its weight.
tail-lt :
    (imm : Immediate) (i after : ℕ)
    → IsWord imm
    → length imm ≡ suc (i + after)
    → be_value (drop (suc i) imm) < 256 ^ after
tail-lt imm i after w sized =
    let e : length (drop (suc i) imm) ≡ after = omega (arith, length-drop (suc i) imm) in
    subst (λ n. be_value (drop (suc i) imm) < 256 ^ n) e
      (be_value-lt (drop (suc i) imm) (All-drop IsByte (suc i) imm w.of_bytes))

width_of :
    (imm : Immediate) (o : Option ℕ)
    → IsWord imm
    → Leading imm o
    → (width_at o ≤ 32)
      × (be_value imm < 256 ^ width_at o)
      × (width_at o ≢ 0 → 256 ^ (width_at o - 1) ≤ be_value imm)
width_of imm none w h = (omega arith, omega arith, λ nz. absurd (nz refl))
width_of imm (some i) w (after, sized, nonzero, same, split) =
    let e : 32 - i ≡ suc after = omega arith in
    rw e (
      omega arith,
      grind (arith, pow_256 after, tail-lt imm i after w sized, byte_at-lt imm i w.of_bytes),
      λ _. grind arith,
    )

pub be_value-empty : (bs : List ℕ) → length bs ≡ 0 → be_value bs ≡ 0
unfolding be_value
be_value-empty [] e = refl
be_value-empty (b ∷ bs) e = absurd (omega arith)

drop_width_of :
    (imm : Immediate) (o : Option ℕ)
    → IsWord imm
    → Leading imm o
    → be_value (drop (32 - width_at o) imm) ≡ be_value imm
drop_width_of imm none w h =
    be_value-empty (drop 32 imm) (omega (arith, length-drop 32 imm)) ∙ sym h
drop_width_of imm (some i) w (after, sized, nonzero, same, split) =
    let e : 32 - (32 - i) ≡ i = omega arith in rw e same

abbrev bit_width_at : Immediate → Option ℕ → ℕ
bit_width_at imm (some first) = (32 - first) * 8 - leading_zeros (byte_at imm first)
bit_width_at imm none = 0

bit_width_of :
    (imm : Immediate) (o : Option ℕ)
    → IsWord imm
    → Leading imm o
    → (bit_width_at imm o ≤ 256)
      × (be_value imm < 2 ^ bit_width_at imm o)
      × (bit_width_at imm o ≢ 0 → 2 ^ (bit_width_at imm o - 1) ≤ be_value imm)
bit_width_of imm none w h = (omega arith, omega arith, λ nz. absurd (nz refl))
bit_width_of imm (some i) w (after, sized, nonzero, same, split) =
    let small = byte_at-lt imm i w.of_bytes in
    let lz = leading_zeros (byte_at imm i) in
    let (few, above, below) = leading_zeros_bounds (byte_at imm i) nonzero small in
    let e : (32 - i) * 8 - lz ≡ (8 - lz) + after * 8 = omega arith in
    let e' : (8 - lz) + after * 8 - 1 ≡ (7 - lz) + after * 8 = omega arith in
    rw e (
      omega arith,
      rw (pow_add (8 - lz) (after * 8), ← pow_bytes after)
          (grind (arith, tail-lt imm i after w sized, split)),
      λ _. rw (e', pow_add (7 - lz) (after * 8), ← pow_bytes after) (grind (arith, split)),
    )

-- A word's `width` is the least number of bytes that holds its value, and at most 32.
pub width_bounds :
    (imm : Immediate)
    → IsWord imm
    → (width imm ≤ 32)
      × (be_value imm < 256 ^ width imm)
      × (width imm ≢ 0 → 256 ^ (width imm - 1) ≤ be_value imm)
unfolding width
width_bounds imm w = width_of imm (first_nonzero imm) w (first_nonzero-Leading imm)

-- The last `width` bytes of a word have the word's value.
pub be_value-drop-width :
    (imm : Immediate) → IsWord imm → be_value (drop (32 - width imm) imm) ≡ be_value imm
unfolding width
be_value-drop-width imm w = drop_width_of imm (first_nonzero imm) w (first_nonzero-Leading imm)

-- A word's `bit_width` is the least number of bits that holds its value.
pub bit_width_bounds :
    (imm : Immediate)
    → IsWord imm
    → (bit_width imm ≤ 256)
      × (be_value imm < 2 ^ bit_width imm)
      × (bit_width imm ≢ 0 → 2 ^ (bit_width imm - 1) ≤ be_value imm)
unfolding width bit_width
bit_width_bounds imm w = bit_width_of imm (first_nonzero imm) w (first_nonzero-Leading imm)

zeros-IsByte : (n : ℕ) → All IsByte (replicate n 0)
zeros-IsByte zero = tt
zeros-IsByte (suc n) = (omega arith, zeros-IsByte n)

pub from_int-IsWord : (n v : ℕ) → n ≤ 32 → IsWord (from_int n v)
unfolding from_int
from_int-IsWord n v h = record {
  sized = omega (
    arith,
    length-append (replicate (32 - n) 0) (to_be_bytes n v),
    length-replicate {A = ℕ} (32 - n) 0,
    length-to_be_bytes n v,
  );
  of_bytes =
      All-append IsByte (replicate (32 - n) 0) _ (zeros-IsByte (32 - n)) (to_be_bytes-IsByte n v);
}

-- The conversion from an unsigned integer of `n` bytes keeps its value.
pub be_value-from_int : (n v : ℕ) → v < 256 ^ n → be_value (from_int n v) ≡ v
unfolding from_int
be_value-from_int n v h = be_value-zeros (32 - n) _ ∙ be_value-to_be_bytes n v h
