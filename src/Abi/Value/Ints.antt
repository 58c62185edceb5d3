-- ===== src/Abi/Value/Ints.antt =====
-- The low bytes of an integer's word: `impl_uint` and `impl_int` of
-- src/target/std-evm-abi/src/codec.rs.
use rustevm.Base.{
  ℕ, ◌+◌, ◌-◌, ◌*◌, ◌/◌, ◌^◌, ◌<◌, ◌≡◌, refl, ap, ◌∙◌, ltb, drop, lt→ltb, arith, false,
}
use rustevm.Base.Bytes.{to_be_bytes, be_value-to_be_bytes, drop-to_be_bytes, to_be_bytes-periodic}
use rustevm.Abi.Word.{ℤ, pos, negsuc, word_from_i128, i128_bits, int_from_be_bytes}
use rustevm.Abi.Value.{IntWidth, w8, w16, w32, w64, w128, byte_count, Fits, int}

-- The bits of a signed integer of `n` bytes.
bits : ℕ → ℤ → ℕ
bits n (pos k) = k
bits n (negsuc k) = 256 ^ n - 1 - k

low_bytes-word_from_i128 :
    (w : IntWidth) (v : ℤ)
    → drop (32 - byte_count w) (word_from_i128 v) ≡ to_be_bytes (byte_count w) (i128_bits v)
unfolding word_from_i128
low_bytes-word_from_i128 w8 v = drop-to_be_bytes 15 1 (i128_bits v)
low_bytes-word_from_i128 w16 v = drop-to_be_bytes 14 2 (i128_bits v)
low_bytes-word_from_i128 w32 v = drop-to_be_bytes 12 4 (i128_bits v)
low_bytes-word_from_i128 w64 v = drop-to_be_bytes 8 8 (i128_bits v)
low_bytes-word_from_i128 w128 v = refl

-- A negative number's bits end in those of the narrow type.
negative_bits :
    (n q k : ℕ)
    → k < 256 ^ n
    → 256 ^ 16 ≡ q * 256 ^ n + 256 ^ n
    → to_be_bytes n (256 ^ 16 - 1 - k) ≡ to_be_bytes n (256 ^ n - 1 - k)
negative_bits n q k small wide =
    let same : 256 ^ 16 - 1 - k ≡ 256 ^ n - 1 - k + q * 256 ^ n = omega arith in
    ap (to_be_bytes n) same ∙ to_be_bytes-periodic n (256 ^ n - 1 - k) q

narrow_bits :
    (w : IntWidth) (k : ℕ)
    → k < 256 ^ byte_count w / 2
    → to_be_bytes (byte_count w) (256 ^ 16 - 1 - k)
      ≡ to_be_bytes (byte_count w) (256 ^ byte_count w - 1 - k)
narrow_bits w8 k h = negative_bits 1 (256 ^ 15 - 1) k (omega arith) refl
narrow_bits w16 k h = negative_bits 2 (256 ^ 14 - 1) k (omega arith) refl
narrow_bits w32 k h = negative_bits 4 (256 ^ 12 - 1) k (omega arith) refl
narrow_bits w64 k h = negative_bits 8 (256 ^ 8 - 1) k (omega arith) refl
narrow_bits w128 k h = refl

int_from_be_bytes-nonnegative :
    (n k : ℕ) → k < 256 ^ n / 2 → int_from_be_bytes n (to_be_bytes n k) ≡ pos k
unfolding int_from_be_bytes
int_from_be_bytes-nonnegative n k h = rw (be_value-to_be_bytes n k (omega arith), lt→ltb _ _ h)

int_from_be_bytes-negative :
    (n k : ℕ) → k < 256 ^ n / 2 → int_from_be_bytes n (to_be_bytes n (256 ^ n - 1 - k)) ≡ negsuc k
unfolding int_from_be_bytes
int_from_be_bytes-negative n k h =
    let large : ltb (256 ^ n - 1 - k) (256 ^ n / 2) ≡ false = ground arith in
    rw (be_value-to_be_bytes n (256 ^ n - 1 - k) (omega arith), large) (ap negsuc (omega arith))

-- A signed integer is read off the low bytes of its word.
pub int_from_be_bytes-word_from_i128 :
    (w : IntWidth) (v : ℤ)
    → Fits (int w) v
    → int_from_be_bytes (byte_count w) (drop (32 - byte_count w) (word_from_i128 v)) ≡ v
unfolding i128_bits
int_from_be_bytes-word_from_i128 w (pos k) h =
    rw (low_bytes-word_from_i128 w (pos k)) (int_from_be_bytes-nonnegative (byte_count w) k h)
int_from_be_bytes-word_from_i128 w (negsuc k) h =
    rw (low_bytes-word_from_i128 w (negsuc k), narrow_bits w k h)
      (int_from_be_bytes-negative (byte_count w) k h)
