-- ===== src/Abi/Codec.antt =====
-- Reading words, and byte strings in their tail form: the helpers of
-- src/target/std-evm-abi/src/codec.rs.
--
-- `n` is the number of bytes of a `usize` on the target, `core::mem::size_of::<usize>()`.
pub mod Stands
pub mod Reads
pub mod Accepts
use rustevm.Base.{
  ℕ, ◌+◌, ◌-◌, ◌≡◌, refl, ◌*◌, ◌%◌, ◌^◌, ◌≡◌, refl, Bool, not, List, [], ◌∷◌, ◌++◌, ltb, ◌==◌,
  if◌then◌else◌, length, take, drop, replicate, any, Result, ok, err,
}
use rustevm.Base.Bytes.{be_value}
use rustevm.Base.Results.{◌>>=◌}
use rustevm.Abi.Word.{Word, word_from_u128}

pub data DecodeError : Type 0 where
  truncated overflow invalid_utf8 : DecodeError

abbrev pub Decoded : Type 0 → Type 0
Decoded A = Result DecodeError A

module _ (n : ℕ) where
  -- `a.checked_add(b).ok_or(DecodeError::Overflow)` on `usize`
  pub checked_add : ℕ → ℕ → Decoded ℕ
  checked_add a b = if ltb (a + b) (256 ^ n) then ok (a + b) else err overflow

  unfoldable pub read_word : List ℕ → ℕ → Decoded Word
  unfolding checked_add
  read_word input offset = do
    end ← checked_add offset 32
    if ltb (length input) end then err truncated else ok (take (end - offset) (drop offset input))

  unfoldable pub usize_of_word : Word → Decoded ℕ
  usize_of_word w =
      if any (λ b. not (b == 0)) (take (32 - n) w)
      then err overflow
      else ok (be_value (drop (32 - n) w))

  unfoldable pub read_usize : List ℕ → ℕ → Decoded ℕ
  unfolding usize_of_word
  read_usize input offset = do w ← read_word input offset; usize_of_word w

  unfoldable pub decode_bytes : List ℕ → ℕ → Decoded (List ℕ)
  unfolding checked_add
  decode_bytes input offset = do
    ptr ← read_usize input offset
    len ← read_usize input ptr
    start ← checked_add ptr 32
    end ← checked_add start len
    if ltb (length input) end then err truncated else ok (take (end - start) (drop start input))

-- `word_from_usize`
unfoldable pub word_from_usize : ℕ → Word
word_from_usize v = word_from_u128 v

-- The zeros that fill `data` up to a whole number of words.
unfoldable pub padding : List ℕ → List ℕ
padding bytes = let rem = length bytes % 32 in if not (rem == 0) then replicate (32 - rem) 0 else []

unfoldable pub encode_bytes : List ℕ → List ℕ
unfolding padding
encode_bytes bytes = word_from_usize (length bytes) ++ (bytes ++ padding bytes)
