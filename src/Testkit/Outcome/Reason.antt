-- ===== src/Testkit/Outcome/Reason.antt =====
-- `revert_reason` of src/tooling/evm-testkit/src/outcome.rs on the payloads of
-- src/target/std-evm-abi/src/revert.rs.
use rustevm.Base.{
  ℕ, ◌+◌, ◌-◌, ◌^◌, ◌≤◌, ◌<◌, ◌≡◌, refl, ap, ◌∙◌, true, false, List, [], ◌∷◌, ◌++◌, ltb, length,
  length-append, lt→ltb, le→leb, arith,
}
use mathlib.Core.Path.{subst}
use mathlib.Core.List.{append-nil}
use rustevm.Base.Bytes.{be_value, be_value-zeros, be_value-to_be_bytes, to_be_bytes}
use rustevm.Base.Utf8.{is_utf8}
use rustevm.Abi.Word.{word_from_u128}
use rustevm.Abi.Codec.{word_from_usize, encode_bytes, padding}
use rustevm.Abi.Codec.Reads.{length-word_from_usize}
use rustevm.Abi.Codec.Stands.{Stands, Stands-le, Stands-left, Stands-right, slice-Stands}
use rustevm.Abi.Tuple.{encode_tuple}
use rustevm.Abi.Tuple.Layout.{AllPlaced, encode_tuple-AllPlaced}
use rustevm.Abi.Value.{to_component, string}
use rustevm.Abi.Revert.{encode_error}
use rustevm.Testkit.Outcome.{
  panic, present, add, get, usize_of, strip_prefix, error_string, from_utf8, reason_in,
  revert_reason,
}

add_fits : (a b : ℕ) → a + b < 256 ^ 8 → add a b ≡ present (a + b)
unfolding add
add_fits a b h = rw (lt→ltb (a + b) (256 ^ 8) h)

get-Stands :
    (body : List ℕ) (start : ℕ) (found : List ℕ)
    → Stands body start found
    → get body start (start + length found) ≡ present found
unfolding get
get-Stands body start found s =
    let size : start + length found - start ≡ length found = omega arith in
    rw (
      le→leb start (start + length found) (omega arith),
      le→leb (start + length found) (length body) (Stands-le found s),
      size,
      slice-Stands found s,
    )

be_value-word_from_usize : (v : ℕ) → v < 256 ^ 8 → be_value (word_from_usize v) ≡ v
unfolding word_from_usize word_from_u128
be_value-word_from_usize v h =
    be_value-zeros 16 (to_be_bytes 16 v) ∙ be_value-to_be_bytes 16 v (omega arith)

usize_of_fits : (w : List ℕ) → be_value w < 256 ^ 8 → usize_of w ≡ present (be_value w)
unfolding usize_of
usize_of_fits w h = rw (lt→ltb (be_value w) (256 ^ 8) h)

add_overflows : (a : ℕ) → 256 ^ 8 ≤ a + 32 → add a 32 ≡ panic
unfolding add
add_overflows a h = let full : ltb (a + 32) (256 ^ 8) ≡ false = ground arith in rw full

usize_of-word_from_usize : (v : ℕ) → v < 256 ^ 8 → usize_of (word_from_usize v) ≡ present v
usize_of-word_from_usize v h =
    usize_of_fits (word_from_usize v) (rw (be_value-word_from_usize v h) h)
    ∙ ap present (be_value-word_from_usize v h)

get-word :
    (body : List ℕ) (start v : ℕ)
    → Stands body start (word_from_usize v)
    → get body start (start + 32) ≡ present (word_from_usize v)
get-word body start v s =
    subst (λ k. get body start (start + k) ≡ present (word_from_usize v)) (length-word_from_usize v)
      (get-Stands body start (word_from_usize v) s)

reason_in-Stands :
    (body : List ℕ) (ptr : ℕ) (reason : List ℕ)
    → is_utf8 reason ≡ true
    → length body < 256 ^ 8
    → Stands body 0 (word_from_usize ptr)
    → Stands body ptr (encode_bytes reason)
    → reason_in body ≡ present reason
unfolding reason_in encode_bytes from_utf8
reason_in-Stands body ptr reason valid short here there =
    let count = word_from_usize (length reason) in
    let sized = length-word_from_usize (length reason) in
    let count_at = Stands-left count (reason ++ padding reason) there in
    let text_at =
      Stands-left reason (padding reason) (Stands-right count (reason ++ padding reason) there) in
    let text_at' : Stands body (ptr + 32) reason =
      subst (λ k. Stands body (ptr + k) reason) sized text_at in
    let fits = Stands-le reason text_at' in
    rw (
      get-word body 0 ptr here,
      usize_of-word_from_usize ptr (omega arith),
      add_fits ptr 32 (omega arith),
      get-word body ptr (length reason) count_at,
      usize_of-word_from_usize (length reason) (omega arith),
      add_fits (ptr + 32) (length reason) (omega arith),
      get-Stands body (ptr + 32) reason text_at',
      valid,
    )

-- The test kit reads back the reason of every `Error(string)` payload that the ABI crate encodes,
-- for a UTF-8 reason and a payload shorter than 2^64 bytes.
pub revert_reason-encode_error :
    (reason : List ℕ)
    → is_utf8 reason ≡ true
    → length (encode_error reason) < 2 ^ 64
    → revert_reason (encode_error reason) ≡ present reason
unfolding revert_reason encode_error to_component strip_prefix
revert_reason-encode_error reason valid short =
    let cs = to_component string reason ∷ [] in
    let body = encode_tuple cs in
    let ((ptr, here, there), _) =
      subst (λ bs. AllPlaced bs 0 cs) (append-nil body) (encode_tuple-AllPlaced cs []) in
    reason_in-Stands body ptr reason valid (omega (arith, length-append error_string body)) here
      there

-- A payload with the selector of `Error(string)` and an offset word within 32 of 2^64 makes the
-- test kit panic, whatever follows, instead of giving no reason.
pub revert_reason-panic :
    (head rest : List ℕ)
    → length head ≡ 32
    → 2 ^ 64 - 32 ≤ be_value head
    → be_value head < 2 ^ 64
    → revert_reason (error_string ++ (head ++ rest)) ≡ panic
unfolding revert_reason strip_prefix reason_in
revert_reason-panic head rest sized large small =
    let placed : Stands (head ++ rest) 0 head = record {
      before = [];
      after = rest;
      split = refl;
      starts = refl;
    } in
    let found : get (head ++ rest) 0 32 ≡ present head =
      subst (λ k. get (head ++ rest) 0 k ≡ present head) (omega (arith, sized))
        (get-Stands (head ++ rest) 0 head placed) in
    rw (found, usize_of_fits head (omega arith), add_overflows (be_value head) (omega arith))
