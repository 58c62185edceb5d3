-- ===== src/Macros/Contract/Called.antt =====
-- A call of an expanded contract by a caller that encodes its arguments by the ABI: contract.rs of
-- src/target/std-evm-macros, method.rs of src/target/std-evm, and codec.rs of src/target/std-evm-abi.
use rustevm.Base.{
  ℕ, arith, suc, ◌^◌, ◌≤◌, ◌<◌, ◌≡◌, refl, sym, ap, ◌∙◌, ◌⊎◌, true, false, List, [], ◌∷◌, ◌++◌, map,
  Option, none, some, ok, length, Any, Pairs, if◌then◌else◌,
}
use mathlib.Core.List.{append-nil}
use mathlib.Core.Path.{subst}
use rustevm.Base.Results.{ok_eq, >>=-eq-ok}
use rustevm.Isa.{Str}
use rustevm.Abi.Word.{U256, u256_zero}
use rustevm.Abi.Names.{selector}
use rustevm.Abi.Tuple.{encode_tuple}
use rustevm.Abi.Value.{AbiType, Values, components, AllFit, encode_output, decode_args}
use rustevm.Abi.Value.RoundTrip.{decode_args-encode_tuple}
use rustevm.Macros.Syntax.{RustType, Arg, receiver, typed, Method, ImplItem, fn}
use rustevm.Macros.Signature.{is_handle_param, eth_signature}
use rustevm.Macros.Params.{HandleParam, split_handle_params}
use rustevm.Macros.Params.Sorted.{Handles, NoHandles, split_handle_params-ok}
use rustevm.Macros.Contract.{
  MethodImpl, Expansion, method_marker_ident, expand_method, expand_contract,
}
use rustevm.Macros.Contract.Arms.{is_ordinary}
use rustevm.Macros.Contract.Handles.{Local, value}
use rustevm.Macros.Contract.Handles.Bound.{given}
use rustevm.Macros.Contract.Handles.Passed.{
  handle_types, FitsType, expand_method-fits, expand_method-passes,
}
use rustevm.Macros.Contract.Adds.{Made}
use rustevm.Macros.Contract.Impls.{HasOwnName, expand_contract-find_impl}
use rustevm.Macros.Contract.Dispatch.{
  Argument, Body, arguments_of, find_impl, is_empty, answer, or_invalid, method_call,
  method_dispatch, call_expr, dispatch, guard_not_payable,
}
use rustevm.Macros.Contract.Reached.{dispatch-is_ordinary}

-- The types of the parameters that are no handles, in order.
abbrev pub argument_types : List Arg → List RustType
argument_types [] = []
argument_types (receiver ∷ args) = argument_types args
argument_types (typed t ∷ args) =
    let rest = argument_types args in if is_handle_param t then rest else t ∷ rest

argument_types_split :
    (hs ns : List RustType) → Handles hs → NoHandles ns → argument_types (map typed (hs ++ ns)) ≡ ns
argument_types_split [] [] h k = refl
argument_types_split [] (t ∷ ns) h (k, ks) =
    rw k (ap (λ r. t ∷ r) (argument_types_split [] ns h ks))
argument_types_split (t ∷ hs) ns (h, rest) k = rw h (argument_types_split hs ns rest k)

-- What the implementation of a method shows of it.
made_fields :
    (m : Method) (impl : MethodImpl)
    → Made m impl
    → (impl.method ≡ m.ident) × (impl.args ≡ argument_types m.inputs)
unfolding expand_method
made_fields m impl (sel, p, made) =
    let ((handles, abi_types), split, built) = >>=-eq-ok (split_handle_params m.inputs) _ made in
    let (hs, shape, are, not_are, _, _, _) =
      split_handle_params-ok m.inputs handles abi_types split in
    (
      ap (λ (i : MethodImpl). i.method) (sym (ok_eq built)),
      ap (λ (i : MethodImpl). i.args) (sym (ok_eq built))
          ∙ sym (ap argument_types shape ∙ argument_types_split hs abi_types are not_are),
    )

length-arguments_of : (ts : List AbiType) (vs : Values ts) → length (arguments_of ts vs) ≡ length ts
unfolding arguments_of
length-arguments_of [] vs = refl
length-arguments_of (t ∷ ts) (v, vs) = ap suc (length-arguments_of ts vs)

length-types :
    (abi_type : RustType → AbiType) (ts : List RustType) → length (map abi_type ts) ≡ length ts
length-types abi_type [] = refl
length-types abi_type (t ∷ ts) = ap suc (length-types abi_type ts)

module _ (n : ℕ) (abi_type : RustType → AbiType) {S : Type 0} (bodies : Str → Body S) where
  -- The bytes that a caller sends for arguments of the types.
  abbrev pub sent : (ts : List RustType) → Values (map abi_type ts) → List ℕ
  sent ts vs = encode_tuple (components (map abi_type ts) vs)

  -- What the method itself answers to handles and arguments, encoded, and the state that it leaves.
  abbrev pub answered :
      Str → List HandleParam → (ts : List RustType) → Values (map abi_type ts) → S → List ℕ × S
  answered name handles ts vs s =
      let passed : List (Option (Local Argument)) =
        map (λ h. some (given Argument h)) handles
        ++ map (λ v. some (value v)) (arguments_of (map abi_type ts) vs) in
      let (out, after) = bodies name passed s in (encode_output out, after)

  -- A call of an implementation by the ABI.
  abbrev Answers : Expansion → Str → Str → List HandleParam → List RustType → Type 0
  Answers e marker name handles ts =
      (vs : Values (map abi_type ts)) (s : S)
      → AllFit (map abi_type ts) vs
      → length (sent ts vs) < 256 ^ n
      → call_expr n abi_type bodies e marker (sent ts vs) s ≡ some (answered name handles ts vs s)

  guarded_state :
      (impl : MethodImpl) (s : S) → (if impl.guarded then guard_not_payable s else s) ≡ s
  unfolding guard_not_payable
  guarded_state impl s = ground arith

  method_call-answers :
      (m : Method) (impl : MethodImpl) (vs : Values (map abi_type impl.args)) (s : S)
      → Made m impl
      → answer n abi_type bodies (method_call n abi_type bodies impl vs s)
        ≡ answered impl.method impl.handles impl.args vs s
  unfolding answer method_call
  method_call-answers m impl vs s (sel, p, made) =
      let vals = arguments_of (map abi_type impl.args) vs in
      let (passes, _) =
        expand_method-passes m sel p impl vals made (
          sym
            (length-arguments_of (map abi_type impl.args) vs ∙ length-types abi_type impl.args)) in
      λ i. answer n abi_type bodies (bodies impl.method (passes i) (guarded_state impl s i))

  call_expr-answers :
      (e : Expansion) (m : Method) (impl : MethodImpl)
      → n ≤ 16
      → Made m impl
      → find_impl (method_marker_ident m.ident) e.method_impls ≡ some impl
      → Answers e (method_marker_ident m.ident) impl.method impl.handles impl.args
  unfolding call_expr method_dispatch or_invalid
  call_expr-answers e m impl narrow made there vs s fit short =
      let ts = map abi_type impl.args in
      let whole = append-nil (sent impl.args vs) in
      let decoded : decode_args n ts (sent impl.args vs) ≡ ok vs =
        subst (λ input. decode_args n ts input ≡ ok vs) whole
          (decode_args-encode_tuple n ts vs [] narrow fit
            (subst (λ (input : List ℕ). length input < 256 ^ n) (sym whole) short)) in
      rw (call_expr, there, decoded) (ap some (method_call-answers m impl vs s made))

  module _ (upper : Str → Str) (keccak256 : List ℕ → List ℕ) where
    -- A caller that sends the selector of an ordinary method's signature and the ABI encoding of
    -- arguments of its types, to a contract that expands, gets the encoding of what the method
    -- answers when it is called with, in order, a handle of the kind, the mutability and the layout
    -- of each of its handle parameters, and exactly these arguments; the call leaves the state that
    -- the method leaves. The implementation that decodes and calls is the one that the contract
    -- emits. Provided that no other method of the block has its name, that the arguments fit their
    -- types, that their encoding is shorter than 256 ^ n for the n bytes of a `usize`, n at most
    -- 16, and that the contract has no receiver, or the call brings no value, or the encoding is
    -- not empty.
    pub dispatch-arguments :
        (items : List ImplItem) (e : Expansion) (m : Method) (sig : Str)
        (vs : Values (map abi_type (argument_types m.inputs))) (amount : U256) (s : S)
        → expand_contract upper keccak256 items ≡ ok e
        → Any (λ item. item ≡ fn m) items
        → HasOwnName m items
        → is_ordinary m ≡ true
        → eth_signature upper m ≡ ok sig
        → n ≤ 16
        → AllFit (map abi_type (argument_types m.inputs)) vs
        → length (sent (argument_types m.inputs) vs) < 256 ^ n
        → (e.receive_call ≡ none)
          ⊎ ((amount ≡ u256_zero) ⊎ (is_empty (sent (argument_types m.inputs) vs) ≡ false))
        → (handles : List HandleParam) × Pairs FitsType (handle_types m.inputs) handles
          × (dispatch n abi_type bodies e
                (selector keccak256 sig)
                (sent (argument_types m.inputs) vs)
                amount
                s
              ≡ some (answered m.ident handles (argument_types m.inputs) vs s))
    dispatch-arguments items e m sig vs amount s h member own_name ordinary signed narrow fit short
          open_case =
        let (impl, there, made) =
          expand_contract-find_impl upper keccak256 items e m h member own_name ordinary in
        let (named, args) = made_fields m impl made in
        let (sel, p, expands) = made in
        let answers : Answers e (method_marker_ident m.ident) m.ident impl.handles
            (argument_types m.inputs) =
          subst
            (λ name.
              Answers e (method_marker_ident m.ident) name impl.handles (argument_types m.inputs))
            named
            (subst (Answers e (method_marker_ident m.ident) impl.method impl.handles) args
              (call_expr-answers e m impl narrow made there)) in
        (
          impl.handles,
          (expand_method-fits m sel p impl expands),
          dispatch-is_ordinary upper keccak256 n abi_type bodies items e m sig
                (sent (argument_types m.inputs) vs) amount s h member ordinary signed open_case
              ∙ answers vs s fit short,
        )
