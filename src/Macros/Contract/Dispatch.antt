-- ===== src/Macros/Contract/Dispatch.antt =====
-- The code that `#[contract]` emits, run: the `Dispatch` and `Contract` implementations of
-- src/target/std-evm-macros/src/contract.rs over src/target/std-evm/src/method.rs and dispatch.rs.
use rustevm.Base.{
  ℕ, Bool, true, false, not, ◌&&◌, List, [], ◌∷◌, Option, none, some, ok, err, if◌then◌else◌, map,
  length,
}
use rustevm.Base.Results.{◌>>=◌}
use rustevm.Isa.{Str, bytes, str_eq}
use rustevm.Abi.Word.{U256, u256_zero}
use rustevm.Abi.Codec.{Decoded}
use rustevm.Abi.Value.{AbiType, Value, Values, Output, encode_output, decode_args}
use rustevm.Abi.Revert.{encode_error}
use rustevm.Macros.Syntax.{RustType}
use rustevm.Macros.Contract.{Expansion, MethodImpl, find_selector}
use rustevm.Macros.Contract.Handles.{Local, arg_pat_idents, call_body, bind_args, run}

-- A value of a type that has an encoding.
abbrev pub Argument : Type 0
Argument = (t : AbiType) × Value t

-- The method that the author of the contract wrote, over the state `S` of the chain: it takes what
-- the emitted call passes.
abbrev pub Body : Type 0 → Type 0
Body S = List (Option (Local Argument)) → S → Output × S

unfoldable pub arguments_of : (ts : List AbiType) → Values ts → List Argument
arguments_of [] vs = []
arguments_of (t ∷ ts) (v, vs) = (t, v) ∷ arguments_of ts vs

-- The implementation for a marker type.
unfoldable pub find_impl : Str → List MethodImpl → Option MethodImpl
find_impl marker [] = none
find_impl marker (impl ∷ impls) =
    if str_eq impl.marker marker then some impl else find_impl marker impls

-- `guard_not_payable` does nothing yet.
unfoldable pub guard_not_payable : {S : Type 0} → S → S
guard_not_payable s = s

unfoldable pub no_matching_method : List ℕ
no_matching_method = []

-- `calldata.is_empty()`
unfoldable pub is_empty : List ℕ → Bool
is_empty [] = true
is_empty (b ∷ bs) = false

-- `n` is the number of bytes of a `usize`. The compiler resolves a type that is written to the type
-- with that name, by `abi_type`, and the method that the emitted code names, by `bodies`.
module _ (n : ℕ) (abi_type : RustType → AbiType) {S : Type 0} (bodies : Str → Body S) where
  -- `Method::call`, as `expand_method` emits it.
  unfoldable pub method_call :
      (impl : MethodImpl) → Values (map abi_type impl.args) → S → Output × S
  unfolding arguments_of guard_not_payable call_body run bind_args arg_pat_idents
  method_call impl args s =
      let guarded = if impl.guarded then guard_not_payable s else s in
      let locals =
        bind_args (arg_pat_idents (length impl.args))
          (arguments_of (map abi_type impl.args) args) in
      bodies impl.method (run locals (call_body impl.handles impl.args)) guarded

  unfoldable pub answer : Output × S → List ℕ × S
  answer (out, s) = (encode_output out, s)

  -- `Method::dispatch`
  unfoldable pub method_dispatch : MethodImpl → List ℕ → S → Decoded (List ℕ × S)
  unfolding answer method_call
  method_dispatch impl calldata s = do
    args ← decode_args n (map abi_type impl.args) calldata
    ok (answer (method_call impl args s))

  unfoldable pub or_invalid : S → Decoded (List ℕ × S) → List ℕ × S
  or_invalid s (ok r) = r
  or_invalid s (err e) = (encode_error (bytes "invalid calldata"), s)

  -- The call expression of a method; there is none without an implementation, since the emitted code
  -- does not compile then.
  unfoldable pub call_expr : Expansion → Str → List ℕ → S → Option (List ℕ × S)
  unfolding or_invalid find_impl
  call_expr e marker calldata s = elim (find_impl marker e.method_impls) [
    | none ↦ none
    | some impl ↦ some (or_invalid s (method_dispatch impl calldata s))
  ]

  fallback_branch : Expansion → Option Str → List ℕ → S → Option (List ℕ × S)
  fallback_branch e none calldata s = some (no_matching_method, s)
  fallback_branch e (some marker) calldata s = call_expr e marker calldata s

  matched : Expansion → Option Str → List ℕ → S → Option (List ℕ × S)
  unfolding fallback_branch
  matched e none calldata s = fallback_branch e e.fallback_call calldata s
  matched e (some marker) calldata s = call_expr e marker calldata s

  -- The match over the selectors.
  unfoldable pub match_selector : Expansion → List ℕ → List ℕ → S → Option (List ℕ × S)
  unfolding matched
  match_selector e sel calldata s = matched e (find_selector sel e.dispatch_arms) calldata s

  received : Option Str → Expansion → List ℕ → List ℕ → U256 → S → Option (List ℕ × S)
  received none e sel calldata value s = match_selector e sel calldata s
  received (some marker) e sel calldata value s =
      if is_empty calldata && not (str_eq value u256_zero)
      then call_expr e marker calldata s
      else match_selector e sel calldata s

  unfoldable pub dispatch : Expansion → List ℕ → List ℕ → U256 → S → Option (List ℕ × S)
  unfolding received
  dispatch e sel calldata value s = received e.receive_call e sel calldata value s
