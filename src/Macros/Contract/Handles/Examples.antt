-- ===== src/Macros/Contract/Handles/Examples.antt =====
-- A method with both handles, for the call that contract.rs of src/target/std-evm-macros emits.
use rustevm.Base.{ℕ, ◌≡◌, refl, false, true, [], ◌∷◌, ◌++◌, map, some, none, ok, length, Pairs}
use rustevm.Isa.{bytes, str_eq}
use rustevm.Macros.Syntax.{
  RustType, path, reference, segment, no_segment, no_arguments, angle, type_argument, no_argument,
  last_segment, type_arguments, typed, Method, persistent, transient,
}
use rustevm.Isa.{Str}
use rustevm.Macros.Signature.{is_handle_param, names_handle}
use rustevm.Macros.Params.{
  handle_kind, has_kind, same_kind, handle_layout_ty, is_mut_reference, take_handle,
  split_handle_params,
}
use rustevm.Macros.Contract.{MethodImpl, expand_method}
use rustevm.Macros.Contract.Handles.{arg_pat_idents, call_body, value, bind_args, run}
use rustevm.Macros.Contract.Handles.Bound.{given}
use rustevm.Macros.Contract.Handles.Passed.{handle_types, FitsType, expand_method-passes}

abbrev plain_type : Str → RustType
plain_type name = path false (segment name no_arguments no_segment)

-- `&Name<Vault>` and `&mut Name<Vault>`
abbrev handle_type : Str → RustType
handle_type name =
    path false
      (segment name (angle (type_argument (plain_type (bytes "Vault")) no_argument)) no_segment)

-- `pub fn withdraw(t: &mut TransientStorage<Vault>, s: &Storage<Vault>, amount: U256)`
abbrev withdraw : Method
withdraw = record {
  ident = bytes "withdraw";
  public = true;
  attrs = [];
  inputs =
      typed (reference true (handle_type (bytes "TransientStorage")))
      ∷ typed (reference false (handle_type (bytes "Storage")))
      ∷ typed (plain_type (bytes "U256"))
      ∷ [];
  output = none;
}

abbrev withdraw_impl : MethodImpl
withdraw_impl = record {
  marker = bytes "__Method_withdraw";
  method = bytes "withdraw";
  selector_bytes = [];
  handles =
      record { kind = transient; is_mut = true; layout_ty = plain_type (bytes "Vault") }
      ∷ record { kind = persistent; is_mut = false; layout_ty = plain_type (bytes "Vault") }
      ∷ [];
  args = plain_type (bytes "U256") ∷ [];
  output = none;
  guarded = true;
}

withdraw_expands : expand_method withdraw [] false ≡ ok withdraw_impl
unfolding expand_method split_handle_params is_handle_param names_handle last_segment str_eq
    take_handle handle_kind has_kind same_kind handle_layout_ty type_arguments is_mut_reference
withdraw_expands = refl

expand_method-passes_example :
    (run
        (bind_args (arg_pat_idents (length withdraw_impl.args)) (7 ∷ []))
        (call_body withdraw_impl.handles withdraw_impl.args)
      ≡ map (λ h. some (given ℕ h)) withdraw_impl.handles ++ map (λ v. some (value v)) (7 ∷ []))
    × Pairs FitsType (handle_types withdraw.inputs) withdraw_impl.handles
expand_method-passes_example =
    expand_method-passes withdraw [] false withdraw_impl (7 ∷ []) withdraw_expands refl
