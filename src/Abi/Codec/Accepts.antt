-- ===== src/Abi/Codec/Accepts.antt =====
-- What the readers of src/target/std-evm-abi/src/codec.rs accept: where a result comes from.
use rustevm.Base.{
  ℕ, ◌+◌, ◌-◌, ◌^◌, ◌≤◌, ◌<◌, ◌≡◌, refl, sym, ap, ◌∙◌, Bool, true, false, not, List, [], ◌∷◌, ◌++◌,
  ltb, if◌then◌else◌, ◌==◌, length, take, drop, any, ok, err, zero, suc, length-take, length-drop,
  take-append-drop, ltb-false, arith,
}
use mathlib.Core.Path.{subst}
use rustevm.Base.Bytes.{be_value}
use rustevm.Abi.Word.{Word}
use rustevm.Base.Results.{>>=-eq-ok}
use rustevm.Abi.Codec.{
  Decoded, DecodeError, overflow, truncated, read_word, read_usize, usize_of_word, decode_bytes,
  checked_add,
}
use rustevm.Abi.Codec.Stands.{Stands, Stands-slice}

-- The value behind a check that refuses by an error.
unless_refused :
    {A : Type 0} (refused : Bool) (e : DecodeError) (a : A) {b : A}
    → (let r : Decoded A = if refused then err e else ok a in r ≡ ok b)
    → (refused ≡ false) × (a ≡ b)
unless_refused true e a h = cc
unless_refused false e a h = (refl, cc)

-- Zeros before a slice add nothing to its value.
zeros_before :
    (zeros low : List ℕ)
    → any (λ b. not (b == 0)) zeros ≡ false
    → be_value (zeros ++ low) ≡ be_value low
unfolding be_value
zeros_before [] low h = refl
zeros_before (zero ∷ zeros) low h = omega (arith, zeros_before zeros low h)
zeros_before (suc b ∷ zeros) low h = absurd (ground arith)

module _ (n : ℕ) where
  checked_add-ok : (a b : ℕ) {c : ℕ} → checked_add n a b ≡ ok c → (c ≡ a + b) × (c < 256 ^ n)
  unfolding checked_add
  checked_add-ok a b h = ground arith

  slice_within :
      (input : List ℕ) (start end : ℕ) (bytes : List ℕ)
      → start ≤ end
      → end ≤ length input
      → take (end - start) (drop start input) ≡ bytes
      → Stands input start bytes × (length bytes ≡ end - start)
  slice_within input start end bytes order fits slice = (
    subst (Stands input start) slice (Stands-slice input start (end - start) (omega arith)),
    rw (← slice)
        (omega (arith, length-take (end - start) (drop start input), length-drop start input)),
  )

  pub read_word-ok :
      (input : List ℕ) (offset : ℕ) {w : Word}
      → read_word n input offset ≡ ok w
      → Stands input offset w × (length w ≡ 32)
  unfolding read_word
  read_word-ok input offset {w} h =
      let (end, added, rest) = >>=-eq-ok (checked_add n offset 32) _ h in
      let (sum, _) = checked_add-ok offset 32 added in
      let (fits, slice) = unless_refused (ltb (length input) end) truncated _ rest in
      let (stands, size) =
        slice_within input offset end w (omega arith) (ltb-false (length input) end fits) slice in
      (stands, omega arith)

  usize_of_word-ok : (w : Word) {v : ℕ} → usize_of_word n w ≡ ok v → be_value w ≡ v
  unfolding usize_of_word
  usize_of_word-ok w h =
      let (zeros, low) = unless_refused (any (λ b. not (b == 0)) (take (32 - n) w)) overflow _ h in
      ap be_value (sym (take-append-drop (32 - n) w))
      ∙ zeros_before (take (32 - n) w) (drop (32 - n) w) zeros
      ∙ low

  -- A `usize` that is read is the value of the word that stands there.
  pub read_usize-ok :
      (input : List ℕ) (offset : ℕ) {v : ℕ}
      → read_usize n input offset ≡ ok v
      → (w : Word) × Stands input offset w × (length w ≡ 32) × (be_value w ≡ v)
  unfolding read_usize
  read_usize-ok input offset h =
      let (w, found, rest) = >>=-eq-ok (read_word n input offset) _ h in
      let (stands, sized) = read_word-ok input offset found in
      (w, stands, sized, usize_of_word-ok w rest)

-- A byte string that `decode_bytes` returns is in the input: the head slot is a word that holds the
-- position of a word that holds the string's length, and the string follows the latter word.
pub decode_bytes-ok :
    (n : ℕ) (input : List ℕ) (offset : ℕ) {bytes : List ℕ}
    → decode_bytes n input offset ≡ ok bytes
    → (slot : Word) × (count : Word) × Stands input offset slot
      × (length slot ≡ 32)
      × Stands input (be_value slot) count
      × (length count ≡ 32)
      × (be_value count ≡ length bytes)
      × Stands input (be_value slot + 32) bytes
unfolding decode_bytes
decode_bytes-ok n input offset {bytes} h =
    let (ptr, slot_read, rest) = >>=-eq-ok (read_usize n input offset) _ h in
    let (len, count_read, rest1) = >>=-eq-ok (read_usize n input ptr) _ rest in
    let (start, started, rest2) = >>=-eq-ok (checked_add n ptr 32) _ rest1 in
    let (end, ended, rest3) = >>=-eq-ok (checked_add n start len) _ rest2 in
    let (slot, slot_at, slot_size, slot_value) = read_usize-ok n input offset slot_read in
    let (count, count_at, count_size, count_value) = read_usize-ok n input ptr count_read in
    let (from, _) = checked_add-ok n ptr 32 started in
    let (to, _) = checked_add-ok n start len ended in
    let (fits, slice) = unless_refused (ltb (length input) end) truncated _ rest3 in
    let (stands, size) =
      slice_within n input start end bytes (omega arith) (ltb-false (length input) end fits)
        slice in
    (
      slot,
      count,
      slot_at,
      slot_size,
      subst (λ k. Stands input k count) (sym slot_value) count_at,
      count_size,
      omega arith,
      subst (λ k. Stands input k bytes) (omega arith) stands,
    )
