-- ===== src/Macros/Contract/Examples.antt =====
-- A call of an expanded contract, for the model of contract.rs of src/target/std-evm-macros.
use rustevm.Base.{
  ℕ, Pairs, some, if◌then◌else◌, ◌==◌, sym, ap, ◌∙◌, ◌+◌, ◌≡◌, refl, inl, inr, true, List, ◌∷◌, map,
  arith, length, replicate, ◌<◌, ◌^◌,
}
use rustevm.Isa.{Str, bytes, str_eq}
use rustevm.Abi.Word.{u256_zero}
use rustevm.Abi.Tuple.{encode_tuple, encode_from, head_size, head_length}
use rustevm.Abi.Value.{AbiType, Values, AllFit, components, to_component, no_value}
use rustevm.Abi.Names.{selector}
use rustevm.Macros.Syntax.{
  Attr, RustType, path, segment, last_segment, Method, ImplItem, fn, other_item,
}
use rustevm.Macros.Signature.{has_attr, names_handle, is_handle_param}
use rustevm.Macros.Params.{HandleParam}
use rustevm.Macros.Contract.Impls.{HasOwnName}
use rustevm.Macros.Contract.Handles.Passed.{handle_types, FitsType}
use rustevm.Macros.Contract.Arms.{is_ordinary}
use rustevm.Macros.Contract.Called.{sent, answered, argument_types, dispatch-arguments}
use rustevm.Macros.Contract.Dispatch.{Body, dispatch}
use rustevm.Macros.Examples.{
  transfer, token, upper, no_hash, token_expansion, token_expands, transfer_signature,
}

-- The types that the compiler finds under the names, and a method that counts what it is passed.
abbrev abi_type : RustType → AbiType
abi_type (path q (segment (c ∷ cs) args rest)) = if c == b'A' then AbiType.address else AbiType.u256
abi_type t = AbiType.u256

abbrev bodies : Str → Body ℕ
bodies name = λ passed s. (no_value, s + length passed)

transfer_ordinary : is_ordinary transfer ≡ true
unfolding is_ordinary has_attr
transfer_ordinary = refl

method_of : ImplItem → Method
method_of (fn m) = m
method_of (other_item attrs) = transfer

transfer_alone : HasOwnName transfer token
unfolding method_of
transfer_alone other (inl e) same = absurd (clash (ap (λ item. (method_of item).ident) e ∙ same))
  where
    clash : bytes "new" ≡ bytes "transfer" → ⊥
    clash h = cc
transfer_alone other (inr (inl e)) same = sym (ap method_of e)
transfer_alone other (inr (inr (inl e))) same = absurd (clash e)
  where
    clash : {attrs : List Attr} {m : Method} → other_item attrs ≡ fn m → ⊥
    clash h = cc
transfer_alone other (inr (inr (inr (inl e)))) same =
    absurd (clash (ap (λ item. (method_of item).ident) e ∙ same))
  where
    clash : bytes "helper" ≡ bytes "transfer" → ⊥
    clash h = cc
transfer_alone other (inr (inr (inr (inr nothing)))) same = absurd nothing

to_and_amount : Values (map abi_type (argument_types transfer.inputs))
unfolding is_handle_param names_handle last_segment str_eq
to_and_amount = (replicate 20 0xab, (replicate 32 7, tt))

to_and_amount-AllFit : AllFit (map abi_type (argument_types transfer.inputs)) to_and_amount
unfolding to_and_amount is_handle_param names_handle last_segment str_eq
to_and_amount-AllFit = (
  record { sized = refl; of_bytes = omega arith },
  (record { sized = refl; of_bytes = omega arith }, tt),
)

abbrev calldata : List ℕ
calldata = sent 4 abi_type bodies (argument_types transfer.inputs) to_and_amount

calldata_short : length calldata < 256 ^ 4
unfolding to_and_amount is_handle_param names_handle last_segment str_eq encode_tuple components
    to_component head_size head_length encode_from
calldata_short = omega arith

dispatch-arguments_example :
    (handles : List HandleParam) × Pairs FitsType (handle_types transfer.inputs) handles
    × (dispatch 4 abi_type bodies token_expansion
          (selector no_hash (bytes "transfer(address,uint256)"))
          calldata
          u256_zero
          0
        ≡ some (
            answered 4 abi_type bodies
              (bytes "transfer")
              handles
              (argument_types transfer.inputs)
              to_and_amount
              0))
dispatch-arguments_example =
    dispatch-arguments 4 abi_type bodies upper no_hash token token_expansion transfer
      (bytes "transfer(address,uint256)") to_and_amount u256_zero 0 token_expands (inr (inl refl))
      transfer_alone transfer_ordinary transfer_signature (omega arith) to_and_amount-AllFit
      calldata_short (inr (inl refl))
