-- ===== src/Abi/Value/Bounds.antt =====
-- The lengths of encoded and of accepted inputs: `encode_tuple`, `encode_bytes` and `decode_args` of
-- src/target/std-evm-abi/src/codec.rs.
use rustevm.Base.{
  ℕ, ◌+◌, ◌-◌, ◌*◌, ◌%◌, ◌≤◌, ◌<◌, ◌≡◌, refl, List, [], ◌∷◌, ◌++◌, ◌==◌, length, ok, length-append,
  length-replicate, Bool-cases, inl, inr, ==_iff, arith,
}
use rustevm.Base.Results.{◌>>=◌, >>=-eq-ok}
use rustevm.Abi.Codec.{Decoded, read_word, decode_bytes, encode_bytes, word_from_usize, padding}
use rustevm.Abi.Codec.Stands.{Stands-le}
use rustevm.Abi.Codec.Reads.{length-word_from_usize}
use rustevm.Abi.Codec.Accepts.{read_word-ok, decode_bytes-ok}
use rustevm.Abi.Tuple.{head_size, encode_tuple}
use rustevm.Abi.Tuple.Layout.{tails, heads, length-heads, encode_from_lem}
use rustevm.Abi.Value.{
  AbiType, uint, int, bool, word, u256, address, bytes, string, Value, Values, AllFit, to_component,
  decode, components, decode_args_from, decode_args,
}
use rustevm.Abi.Value.RoundTrip.{head_length-to_component}

module _ (n : ℕ) (input : List ℕ) where
  read_word-within :
      (offset : ℕ) {w : List ℕ} → read_word n input offset ≡ ok w → offset + 32 ≤ length input
  read_word-within offset {w} h =
      let (stands, sized) = read_word-ok n input offset h in omega (arith, Stands-le w stands)

  bind_within :
      {A : Type 0} (offset : ℕ) (k : List ℕ → Decoded A) {a : A}
      → (read_word n input offset >>= k) ≡ ok a
      → offset + 32 ≤ length input
  bind_within offset k h =
      let (w, found, _) = >>=-eq-ok (read_word n input offset) k h in read_word-within offset found

  decode_bytes-within :
      (offset : ℕ) {found : List ℕ}
      → decode_bytes n input offset ≡ ok found
      → offset + 32 ≤ length input
  decode_bytes-within offset h =
      let (slot, _, slot_at, slot_size, _, _, _, _) = decode_bytes-ok n input offset h in
      omega (arith, Stands-le slot slot_at)

  -- A value is decoded from a head slot that lies in the input.
  decode-within :
      (t : AbiType) (offset : ℕ) {v : Value t}
      → decode n t input offset ≡ ok v
      → offset + 32 ≤ length input
  unfolding decode
  decode-within (uint w) offset h = bind_within offset _ h
  decode-within (int w) offset h = bind_within offset _ h
  decode-within bool offset h = bind_within offset _ h
  decode-within word offset h = read_word-within offset h
  decode-within u256 offset h = read_word-within offset h
  decode-within address offset h = bind_within offset _ h
  decode-within bytes offset h = decode_bytes-within offset h
  decode-within string offset h =
      let (found, got, _) = >>=-eq-ok (decode_bytes n input offset) _ h in
      decode_bytes-within offset got

  decode_args_from-within :
      (index : ℕ) (t : AbiType) (ts : List AbiType) {vs : Values (t ∷ ts)}
      → decode_args_from n index (t ∷ ts) input ≡ ok vs
      → 32 * (index + length (t ∷ ts)) ≤ length input
  unfolding decode_args_from
  decode_args_from-within index t [] h =
      let (v, got, _) = >>=-eq-ok (decode n t input (32 * index)) _ h in
      omega (arith, decode-within t (32 * index) got)
  decode_args_from-within index t (u ∷ ts) h =
      let (v, got, rest) = >>=-eq-ok (decode n t input (32 * index)) _ h in
      let (vs, gots, _) = >>=-eq-ok (decode_args_from n (index + 1) (u ∷ ts) input) _ rest in
      omega (arith, decode_args_from-within (index + 1) u ts gots)

-- Arguments are decoded only from calldata that holds a word for each of them: calldata shorter
-- than 32 bytes for each argument type is refused, whatever the types.
pub decode_args-short :
    (n : ℕ) (ts : List AbiType) (calldata : List ℕ)
    → length calldata < 32 * length ts
    → (vs : Values ts) → ¬ (decode_args n ts calldata ≡ ok vs)
unfolding decode_args
decode_args-short n [] calldata short vs h = absurd (omega arith)
decode_args-short n (t ∷ ts) calldata short vs h =
    omega (arith, decode_args_from-within n calldata 0 t ts h)

padding_fills : (b : List ℕ) → (length b + length (padding b)) % 32 ≡ 0
unfolding padding
padding_fills b = elim (Bool-cases (length b % 32 == 0)) [
  | inl whole ↦ rw whole (omega (arith, (==_iff (length b % 32) 0).0 whole))
  | inr part ↦ rw part (omega (arith, length-replicate {A = ℕ} (32 - length b % 32) 0))
]

length-encode_bytes : (b : List ℕ) → length (encode_bytes b) % 32 ≡ 0
unfolding encode_bytes
length-encode_bytes b =
    let word = word_from_usize (length b) in
    omega (
      arith,
      length-append word (b ++ padding b),
      length-append b (padding b),
      length-word_from_usize (length b),
      padding_fills b,
    )

length-tails : (ts : List AbiType) (vs : Values ts) → length (tails (components ts vs)) % 32 ≡ 0
unfolding tails components to_component
length-tails [] vs = refl
length-tails (uint w ∷ ts) (v, vs) = length-tails ts vs
length-tails (int w ∷ ts) (v, vs) = length-tails ts vs
length-tails (bool ∷ ts) (v, vs) = length-tails ts vs
length-tails (word ∷ ts) (v, vs) = length-tails ts vs
length-tails (u256 ∷ ts) (v, vs) = length-tails ts vs
length-tails (address ∷ ts) (v, vs) = length-tails ts vs
length-tails (bytes ∷ ts) (v, vs) = omega (
  arith,
  length-append (encode_bytes v) (tails (components ts vs)),
  length-encode_bytes v,
  length-tails ts vs,
)
length-tails (string ∷ ts) (v, vs) = omega (
  arith,
  length-append (encode_bytes v) (tails (components ts vs)),
  length-encode_bytes v,
  length-tails ts vs,
)

head_size-components :
    (ts : List AbiType) (vs : Values ts)
    → AllFit ts vs
    → head_size (components ts vs) ≡ 32 * length ts
unfolding head_size components
head_size-components [] vs h = refl
head_size-components (t ∷ ts) (v, vs) (h, hs) =
    omega (arith, head_length-to_component t v h, head_size-components ts vs hs)

-- The encoding of any tuple of values that their types hold is a whole number of words, one head
-- word for each value and the tail.
pub encode_tuple-word_aligned :
    (ts : List AbiType) (vs : Values ts)
    → AllFit ts vs
    → (length (encode_tuple (components ts vs)) % 32 ≡ 0)
      × (32 * length ts ≤ length (encode_tuple (components ts vs)))
unfolding encode_tuple
encode_tuple-word_aligned ts vs h =
    let cs = components ts vs in
    let shape = encode_from_lem (head_size cs) [] [] cs in
    rw shape (
      omega (
        arith,
        length-append (heads (head_size cs) 0 cs) (tails cs),
        length-heads (head_size cs) 0 cs,
        head_size-components ts vs h,
        length-tails ts vs,
      ))
