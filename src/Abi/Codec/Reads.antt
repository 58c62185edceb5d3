-- ===== src/Abi/Codec/Reads.antt =====
-- What the readers of src/target/std-evm-abi/src/codec.rs return where a word or a byte string
-- stands.
use rustevm.Base.{
  ℕ, ◌+◌, ◌-◌, ◌^◌, ◌≤◌, ◌<◌, ◌≡◌, refl, sym, ap, ◌∙◌, false, not, List, ◌++◌, ltb, ◌==◌, length,
  take, drop, replicate, ok, length-replicate, arith, lt→ltb, replicate-append, take-length_eq,
  drop-length_eq, any-replicate,
}
use rustevm.Base.Bytes.{to_be_bytes, to_be_bytes_small, be_value-to_be_bytes}
use mathlib.Core.Path.{subst}
use mathlib.Core.List.{append_assoc}
use rustevm.Abi.Word.{word_from_u128, word_from_u128-IsArray, Word}
use rustevm.Abi.Codec.{
  read_word, read_usize, usize_of_word, decode_bytes, encode_bytes, word_from_usize, padding,
  checked_add,
}
use rustevm.Abi.Codec.Stands.{Stands, Stands-le, Stands-left, Stands-right, slice-Stands}

pub length-word_from_usize : (v : ℕ) → length (word_from_usize v) ≡ 32
unfolding word_from_usize
length-word_from_usize v = (word_from_u128-IsArray v).sized

module _ (n : ℕ) where
  checked_add_fits : (a b : ℕ) → a + b < 256 ^ n → checked_add n a b ≡ ok (a + b)
  unfolding checked_add
  checked_add_fits a b h = rw (lt→ltb _ _ h)

  ltb_no : (a b : ℕ) → b ≤ a → ltb a b ≡ false
  ltb_no a b h = ground arith

  module _ {input : List ℕ} {offset : ℕ} (short : length input < 256 ^ n) where
    pub read_word-Stands :
        (w : Word) → length w ≡ 32 → Stands input offset w → read_word n input offset ≡ ok w
    unfolding read_word
    read_word-Stands w sized s =
        let fits : offset + 32 ≤ length input = omega (arith, Stands-le w s) in
        let width : offset + 32 - offset ≡ length w = omega arith in
        rw (
          checked_add_fits offset 32 (omega arith),
          ltb_no (length input) (offset + 32) fits,
          width,
          slice-Stands w s,
        )

-- A word made from a number of `n` bytes, `n` at most 16: zeros, then the number.
pub word_from_u128_split :
    (n v : ℕ) → n ≤ 16 → v < 256 ^ n → word_from_u128 v ≡ replicate (32 - n) 0 ++ to_be_bytes n v
unfolding word_from_u128
word_from_u128_split n v h small =
    let wide : 16 ≡ 16 - n + n = omega arith in
    let zeros : 32 - n ≡ 16 + (16 - n) = omega arith in
    let low : to_be_bytes 16 v ≡ replicate (16 - n) 0 ++ to_be_bytes n v =
      ap (λ k. to_be_bytes k v) wide ∙ to_be_bytes_small (16 - n) n v small in
    ap (λ bs. replicate 16 0 ++ bs) low
    ∙ sym (append_assoc (replicate 16 0) (replicate (16 - n) 0) (to_be_bytes n v))
    ∙ ap (λ bs. bs ++ to_be_bytes n v) (replicate-append 16 (16 - n) 0)
    ∙ ap (λ k. replicate k 0 ++ to_be_bytes n v) (sym zeros)

module _ (n : ℕ) (narrow : n ≤ 16) where
  pub take-word_from_u128 :
      (v : ℕ) → v < 256 ^ n → take (32 - n) (word_from_u128 v) ≡ replicate (32 - n) 0
  take-word_from_u128 v small = rw (word_from_u128_split n v narrow small) (
      take-length_eq (32 - n) (replicate (32 - n) 0) (to_be_bytes n v)
        (length-replicate (32 - n) 0))

  pub drop-word_from_u128 :
      (v : ℕ) → v < 256 ^ n → drop (32 - n) (word_from_u128 v) ≡ to_be_bytes n v
  drop-word_from_u128 v small = rw (word_from_u128_split n v narrow small) (
      drop-length_eq (32 - n) (replicate (32 - n) 0) (to_be_bytes n v)
        (length-replicate (32 - n) 0))

  pub usize_of_word-word_from_usize :
      (v : ℕ) → v < 256 ^ n → usize_of_word n (word_from_usize v) ≡ ok v
  unfolding usize_of_word word_from_usize
  usize_of_word-word_from_usize v small = rw (
    take-word_from_u128 v small,
    any-replicate (λ b. not (b == 0)) (32 - n) 0 refl,
    drop-word_from_u128 v small,
    be_value-to_be_bytes n v small,
  )

  module _ {input : List ℕ} (short : length input < 256 ^ n) where
    pub read_usize-Stands :
        {offset : ℕ} (v : ℕ)
        → v < 256 ^ n
        → Stands input offset (word_from_usize v)
        → read_usize n input offset ≡ ok v
    unfolding read_usize
    read_usize-Stands {offset} v small s =
        rw (read_word-Stands n short (word_from_usize v) (length-word_from_usize v) s)
          (usize_of_word-word_from_usize v small)

    -- The byte string that a head slot points at.
    pub decode_bytes-Stands :
        {offset : ℕ} (ptr : ℕ) (bytes : List ℕ)
        → Stands input offset (word_from_usize ptr)
        → Stands input ptr (encode_bytes bytes)
        → decode_bytes n input offset ≡ ok bytes
    unfolding decode_bytes encode_bytes
    decode_bytes-Stands {offset} ptr bytes here there =
        let sized = length-word_from_usize (length bytes) in
        let count = Stands-left (word_from_usize (length bytes)) (bytes ++ padding bytes) there in
        let rest = Stands-right (word_from_usize (length bytes)) (bytes ++ padding bytes) there in
        let body = Stands-left bytes (padding bytes) rest in
        let fits = Stands-le bytes body in
        let start : ptr + length (word_from_usize (length bytes)) ≡ ptr + 32 =
          omega (arith, sized) in
        let size : ptr + 32 + length bytes - (ptr + 32) ≡ length bytes = omega arith in
        let slice : take (length bytes) (drop (ptr + 32) input) ≡ bytes =
          subst (λ k. take (length bytes) (drop k input) ≡ bytes) start (slice-Stands bytes body) in
        rw
          (
            read_usize-Stands ptr (omega (arith, sized)) here,
            read_usize-Stands (length bytes) (omega arith) count,
            checked_add_fits n ptr 32 (omega (arith, sized)),
            checked_add_fits n (ptr + 32) (length bytes) (omega (arith, sized)),
            ltb_no n (length input) (ptr + 32 + length bytes) (omega (arith, sized)),
            size,
          )
          (ap ok slice)
