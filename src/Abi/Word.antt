-- ===== src/Abi/Word.antt =====
-- The ABI word and the 256-bit integer: src/target/std-evm-abi/src/word.rs, and the word helpers of
-- src/target/std-evm-abi/src/codec.rs.
use rustevm.Base.{
  ℕ, ◌-◌, ◌/◌, ◌^◌, ◌≡◌, List, ◌++◌, if◌then◌else◌, ltb, length, replicate, All, length-append,
  length-replicate, All-append, arith, zero, suc,
}
use rustevm.Base.Bytes.{IsByte, be_value, to_be_bytes, length-to_be_bytes, to_be_bytes-IsByte}

-- The bytes of `[u8; 32]`.
abbrev pub Word : Type 0
Word = List ℕ

-- `U256([u8; 32])`: `from_be_bytes` and `to_be_bytes` are the identity.
abbrev pub U256 : Type 0
U256 = Word

-- A byte array of `n` bytes.
pub record IsArray (n : ℕ) (bs : List ℕ) : Type 0 where
  pub sized : length bs ≡ n
  pub of_bytes : All IsByte bs

unfoldable pub u256_zero : U256
u256_zero = replicate 32 0

unfoldable pub u256_max : U256
u256_max = replicate 32 0xff

unfoldable pub u256_from_u64 : ℕ → U256
u256_from_u64 x = replicate 24 0 ++ to_be_bytes 8 x

-- `word_from_u128`
unfoldable pub word_from_u128 : ℕ → Word
word_from_u128 v = replicate 16 0 ++ to_be_bytes 16 v

-- A signed integer: `negsuc n` is -(n + 1).
pub data ℤ : Type 0 where
  pos : ℕ → ℤ
  negsuc : ℕ → ℤ

-- The two's complement bits of an `i128`.
unfoldable pub i128_bits : ℤ → ℕ
i128_bits (pos n) = n
i128_bits (negsuc n) = 256 ^ 16 - 1 - n

sign_byte : ℤ → ℕ
sign_byte (pos n) = 0
sign_byte (negsuc n) = 0xff

-- `word_from_i128`
unfoldable pub word_from_i128 : ℤ → Word
unfolding i128_bits sign_byte
word_from_i128 v = replicate 16 (sign_byte v) ++ to_be_bytes 16 (i128_bits v)

-- `uN::from_be_bytes`
unfoldable pub uint_from_be_bytes : List ℕ → ℕ
uint_from_be_bytes bs = be_value bs

-- `iN::from_be_bytes`, for an array of `n` bytes.
unfoldable pub int_from_be_bytes : ℕ → List ℕ → ℤ
int_from_be_bytes n bs =
    let bits = be_value bs in
    if ltb bits (256 ^ n / 2) then pos bits else negsuc (256 ^ n - 1 - bits)

replicate-IsByte : (n b : ℕ) → IsByte b → All IsByte (replicate n b)
replicate-IsByte zero b h = tt
replicate-IsByte (suc n) b h = (h, replicate-IsByte n b h)

sign_byte-IsByte : (v : ℤ) → IsByte (sign_byte v)
unfolding sign_byte
sign_byte-IsByte (pos n) = omega arith
sign_byte-IsByte (negsuc n) = omega arith

pub word_from_u128-IsArray : (v : ℕ) → IsArray 32 (word_from_u128 v)
unfolding word_from_u128
word_from_u128-IsArray v = record {
  sized = omega (arith, length-append (replicate 16 0) (to_be_bytes 16 v), length-to_be_bytes 16 v);
  of_bytes =
      All-append IsByte (replicate 16 0) (to_be_bytes 16 v) (replicate-IsByte 16 0 (omega arith))
        (to_be_bytes-IsByte 16 v);
}

pub word_from_i128-IsArray : (v : ℤ) → IsArray 32 (word_from_i128 v)
unfolding word_from_i128
word_from_i128-IsArray v = record {
  sized = omega (
    arith,
    length-append (replicate 16 (sign_byte v)) (to_be_bytes 16 (i128_bits v)),
    length-to_be_bytes 16 (i128_bits v),
    length-replicate 16 (sign_byte v),
  );
  of_bytes =
      All-append IsByte (replicate 16 (sign_byte v)) (to_be_bytes 16 (i128_bits v))
        (replicate-IsByte 16 (sign_byte v) (sign_byte-IsByte v))
        (to_be_bytes-IsByte 16 (i128_bits v));
}
