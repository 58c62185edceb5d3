-- ===== src/Testkit/Outcome.antt =====
-- What a transaction did: src/tooling/evm-testkit/src/outcome.rs.
--
-- The host has 64-bit addresses. An addition on `usize` that overflows panics, as in a debug build.
pub mod Reason
use rustevm.Base.{
  ℕ, ◌+◌, ◌-◌, ◌^◌, ◌≡◌, refl, Bool, true, false, not, ◌&&◌, List, [], ◌∷◌, ◌++◌, ltb, leb, ◌==◌,
  if◌then◌else◌, length, take, drop, any, Option, none, some,
}
use rustevm.Base.Bytes.{be_value}
use rustevm.Base.Utf8.{is_utf8}
use rustevm.Abi.Word.{Word, U256}

-- A computation that may panic, or give `None`.
pub data Attempt {ℓ} (A : Type ℓ) : Type ℓ where
  panic : Attempt A
  absent : Attempt A
  present : A → Attempt A

infixl 5 ◌>>=◌
abbrev pub ◌>>=◌ {ℓ κ} : {A : Type ℓ} {B : Type κ} → Attempt A → (A → Attempt B) → Attempt B
panic >>= f = panic
absent >>= f = absent
present a >>= f = f a

-- `Status`, for the reasons `Halt` of the machine.
pub data Status (Halt : Type 0) : Type 0 where
  success revert : Status Halt
  halt : Halt → Status Halt

-- What the machine reports, `revm`'s `ExecutionResult`.
pub data ExecutionResult (Halt Log Address : Type 0) : Type 0 where
  called : ℕ → List Log → List ℕ → ExecutionResult Halt Log Address
  created : ℕ → List Log → List ℕ → Option Address → ExecutionResult Halt Log Address
  reverted : ℕ → List Log → List ℕ → ExecutionResult Halt Log Address
  halted : ℕ → List Log → Halt → ExecutionResult Halt Log Address

pub record Outcome (Halt Log Address Trace : Type 0) : Type 0 where
  pub status : Status Halt
  pub output : List ℕ
  pub gas_used : ℕ
  pub logs : List Log
  pub created_at : Option Address
  pub trace : Option Trace

-- `is_success`, on the status.
pub is_success : {Halt : Type 0} → Status Halt → Bool
is_success success = true
is_success revert = false
is_success (halt reason) = false

-- `is_revert` and `is_halt`, on the status.
unfoldable pub is_revert : {Halt : Type 0} → Status Halt → Bool
is_revert success = false
is_revert revert = true
is_revert (halt reason) = false

unfoldable pub is_halt : {Halt : Type 0} → Status Halt → Bool
is_halt success = false
is_halt revert = false
is_halt (halt reason) = true

module _ {Halt Log Address Trace : Type 0} where
  unfoldable pub new :
      ExecutionResult Halt Log Address → Option Trace → Outcome Halt Log Address Trace
  new (called gas logs out) trace = record {
    status = success;
    output = out;
    gas_used = gas;
    logs = logs;
    created_at = none;
    trace = trace;
  }
  new (created gas logs out address) trace = record {
    status = success;
    output = out;
    gas_used = gas;
    logs = logs;
    created_at = address;
    trace = trace;
  }
  new (reverted gas logs out) trace = record {
    status = revert;
    output = out;
    gas_used = gas;
    logs = logs;
    created_at = none;
    trace = trace;
  }
  new (halted gas logs reason) trace = record {
    status = halt reason;
    output = [];
    gas_used = gas;
    logs = logs;
    created_at = none;
    trace = trace;
  }

  unfoldable pub returned : Outcome Halt Log Address Trace → Attempt (List ℕ)
  unfolding is_success
  returned o = if is_success o.status then present o.output else panic

  unfoldable pub returned_word : Outcome Halt Log Address Trace → Attempt Word
  returned_word o = do out ← returned o; if length out == 32 then present out else panic

  -- A `U256` is its big-endian bytes.
  unfoldable pub returned_u256 : Outcome Halt Log Address Trace → Attempt U256
  returned_u256 o = returned_word o

  unfoldable pub returned_u64 : Outcome Halt Log Address Trace → Attempt ℕ
  returned_u64 o = do
    word ← returned_word o
    if any (λ b. not (b == 0)) (take 24 word) then panic else present (be_value (drop 24 word))

  unfoldable pub created_address : Outcome Halt Log Address Trace → Attempt Address
  created_address o = elim o.created_at [ none ↦ panic | some address ↦ present address ]

-- `a + b` on `usize`
pub add : ℕ → ℕ → Attempt ℕ
add a b = if ltb (a + b) (256 ^ 8) then present (a + b) else panic

-- `body.get(start..end)`
pub get : List ℕ → ℕ → ℕ → Attempt (List ℕ)
get body start end =
    if leb start end && leb end (length body)
    then present (take (end - start) (drop start body))
    else absent

-- `usize::try_from(U256::from_be_slice(word)).ok()`
pub usize_of : Word → Attempt ℕ
usize_of word = if ltb (be_value word) (256 ^ 8) then present (be_value word) else absent

-- `strip_prefix(&prefix)`
pub strip_prefix : List ℕ → List ℕ → Attempt (List ℕ)
strip_prefix [] bs = present bs
strip_prefix (p ∷ ps) [] = absent
strip_prefix (p ∷ ps) (b ∷ bs) = if p == b then strip_prefix ps bs else absent

abbrev pub error_string : List ℕ
error_string = 0x08 ∷ 0xc3 ∷ 0x79 ∷ 0xa0 ∷ []

pub from_utf8 : List ℕ → Attempt (List ℕ)
from_utf8 bs = if is_utf8 bs then present bs else absent

-- The rest of `revert_reason`, for what follows the selector.
pub reason_in : List ℕ → Attempt (List ℕ)
reason_in body = do
  head ← get body 0 32
  offset ← usize_of head
  len_end ← add offset 32
  len_at ← get body offset len_end
  len ← usize_of len_at
  end ← add len_end len
  found ← get body len_end end
  from_utf8 found

unfoldable pub revert_reason : List ℕ → Attempt (List ℕ)
unfolding strip_prefix reason_in
revert_reason output = do body ← strip_prefix error_string output; reason_in body
