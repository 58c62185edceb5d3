-- ===== src/Abi/Value/RoundTrip.antt =====
-- What is encoded decodes to itself: `encode_tuple` and `decode_args` of
-- src/target/std-evm-abi/src/codec.rs.
use rustevm.Base.{
  ℕ, ◌+◌, ◌*◌, ◌^◌, ◌≤◌, ◌<◌, ◌≡◌, refl, ap, ◌∙◌, Bool, true, false, not, List, [], ◌∷◌, ◌++◌, ◌==◌,
  length, any, ok, replicate, arith, length-append,
}
use mathlib.Core.Path.{subst}
use rustevm.Base.Bytes.{be_value-to_be_bytes, to_be_bytes}
use rustevm.Abi.Word.{
  Word, word_from_u128, word_from_u128-IsArray, word_from_i128, word_from_i128-IsArray,
  uint_from_be_bytes,
}
use rustevm.Base.Results.{◌>>=◌}
use rustevm.Abi.Codec.{Decoded, read_word}
use rustevm.Abi.Codec.Stands.{Stands}
use rustevm.Abi.Codec.Reads.{read_word-Stands, decode_bytes-Stands, drop-word_from_u128}
use rustevm.Abi.Tuple.{head_length, encode_tuple}
use rustevm.Abi.Tuple.Layout.{Placed, AllPlaced, encode_tuple-AllPlaced}
use rustevm.Abi.Value.{
  IntWidth, w8, w16, w32, w64, w128, byte_count, AbiType, uint, int, bool, word, u256, address,
  bytes, string, Value, Values, Fits, AllFit, bool_to_u128, to_component, decode, components,
  decode_args_from, decode_args, from_utf8,
}
use rustevm.Abi.Value.Ints.{int_from_be_bytes-word_from_i128}

byte_count-le : (w : IntWidth) → byte_count w ≤ 16
byte_count-le w8 = omega arith
byte_count-le w16 = omega arith
byte_count-le w32 = omega arith
byte_count-le w64 = omega arith
byte_count-le w128 = omega arith

bool-word_from_u128 : (v : Bool) → any (λ b. not (b == 0)) (word_from_u128 (bool_to_u128 v)) ≡ v
unfolding word_from_u128 to_be_bytes bool_to_u128
bool-word_from_u128 true = refl
bool-word_from_u128 false = refl

-- Every type takes one head slot.
pub head_length-to_component :
    (t : AbiType) (v : Value t) → Fits t v → head_length (to_component t v) ≡ 32
unfolding head_length to_component
head_length-to_component (uint w) v h = (word_from_u128-IsArray v).sized
head_length-to_component (int w) v h = (word_from_i128-IsArray v).sized
head_length-to_component bool v h = (word_from_u128-IsArray (bool_to_u128 v)).sized
head_length-to_component word v h = h.sized
head_length-to_component u256 v h = h.sized
head_length-to_component address v h = omega (arith, h.sized, length-append (replicate 12 0) v)
head_length-to_component bytes v h = refl
head_length-to_component string v h = refl

module _ (n : ℕ) (narrow : n ≤ 16) (input : List ℕ) (short : length input < 256 ^ n) where
  read_static :
      {A : Type 0} (offset : ℕ) (w : Word) (k : Word → Decoded A)
      → length w ≡ 32
      → Stands input offset w
      → (read_word n input offset >>= k) ≡ k w
  read_static offset w k sized s = rw (read_word-Stands n short w sized s)

  pub decode-Placed :
      (t : AbiType) (v : Value t) (offset : ℕ)
      → Fits t v
      → Placed input offset (to_component t v)
      → decode n t input offset ≡ ok v
  unfolding decode to_component
  decode-Placed (uint w) v offset h s =
      read_static offset (word_from_u128 v) _ (word_from_u128-IsArray v).sized s
      ∙ rw (drop-word_from_u128 (byte_count w) (byte_count-le w) v h)
          (ap ok (unfold uint_from_be_bytes in be_value-to_be_bytes (byte_count w) v h))
  decode-Placed (int w) v offset h s =
      read_static offset (word_from_i128 v) _ (word_from_i128-IsArray v).sized s
      ∙ ap ok (int_from_be_bytes-word_from_i128 w v h)
  decode-Placed bool v offset h s =
      let sent = word_from_u128 (bool_to_u128 v) in
      read_static offset sent _ (word_from_u128-IsArray (bool_to_u128 v)).sized s
      ∙ ap ok (bool-word_from_u128 v)
  decode-Placed word v offset h s = read_word-Stands n short v h.sized s
  decode-Placed u256 v offset h s = read_word-Stands n short v h.sized s
  decode-Placed address v offset h s =
      read_static offset (replicate 12 0 ++ v) _
        (omega (arith, h.sized, length-append (replicate 12 0) v)) s
  decode-Placed bytes v offset h (ptr, here, there) =
      decode_bytes-Stands n narrow short ptr v here there
  decode-Placed string v offset h (ptr, here, there) =
      rw (decode_bytes-Stands n narrow short ptr v here there) (unfold from_utf8 in rw h)

  decode_args_from-AllPlaced :
      (index : ℕ) (ts : List AbiType) (vs : Values ts)
      → AllFit ts vs
      → AllPlaced input (32 * index) (components ts vs)
      → decode_args_from n index ts input ≡ ok vs
  unfolding decode_args_from components
  decode_args_from-AllPlaced index [] vs h p = refl
  decode_args_from-AllPlaced index (t ∷ ts) (v, vs) (h, hs) (p, ps) =
      let next : 32 * index + head_length (to_component t v) ≡ 32 * (index + 1) =
        omega (arith, head_length-to_component t v h) in
      rw (
        decode-Placed t v (32 * index) h p,
        decode_args_from-AllPlaced (index + 1) ts vs hs
            (subst (λ k. AllPlaced input k (components ts vs)) next ps),
      )

-- For any list of argument types and any values that they hold, decoding the arguments from the
-- encoding of their tuple, with any bytes after it, gives the values back, provided that the input
-- is shorter than 256 ^ n for the n bytes of a `usize`, n at most 16.
pub decode_args-encode_tuple :
    (n : ℕ) (ts : List AbiType) (vs : Values ts) (rest : List ℕ)
    → n ≤ 16
    → AllFit ts vs
    → length (encode_tuple (components ts vs) ++ rest) < 256 ^ n
    → decode_args n ts (encode_tuple (components ts vs) ++ rest) ≡ ok vs
unfolding decode_args
decode_args-encode_tuple n ts vs rest narrow fit short =
    decode_args_from-AllPlaced n narrow (encode_tuple (components ts vs) ++ rest) short 0 ts vs fit
      (encode_tuple-AllPlaced (components ts vs) rest)
