-- ===== src/Macros/Examples.antt =====
-- Runs and instances for the models of src/target/std-evm-macros.
use rustevm.Base.{ℕ, ◌≡◌, refl, true, false, List, [], ◌∷◌, ◌++◌, map, none, Result, ok, err, arith}
use rustevm.Isa.{Str, bytes, str_eq}
use rustevm.Abi.Names.{
  selector, solidity_type_name, split, nonempty, capitalised, char_size, join, camel_case,
}
use rustevm.Macros.Syntax.{
  Attr, RustType, path, reference, segment, no_segment, no_arguments, angle, type_argument,
  no_argument, last_segment, type_arguments, payable, constructor, other_attr, Arg, typed, Method,
  ImplItem, fn, other_item, HandleKind, SynError,
}
use rustevm.Macros.Signature.{
  same_name, has_attr, ends_with, contains, checked_selector, selector_override, is_inert, retained,
  strip_inert_attrs, sites, check_at_most_one, names_handle, is_handle_param, rust_ty_to_solidity,
  param_names, signature_text, eth_signature,
}
use rustevm.Macros.Signature
use rustevm.Macros.Params.{
  HandleParam, handle_kind, same_kind, handle_layout_ty, is_mut_reference, has_kind, take_handle,
  split_handle_params,
}
use rustevm.Macros.Params.OneEach.{OneEach}
use rustevm.Macros.Params.Sorted.{Handles, NoHandles, split_handle_params-ok}
use rustevm.Macros.Layout.{
  storage, Field, named, Accessor, guards, mapping_generics, field_accessors, fields_from,
  expand_layout,
}
use rustevm.Macros.Layout.Slots.{at_slot, expand_layout-at_slot}
use rustevm.Macros.Contract.{
  Expansion, start, expand_method, expand_constructor, find_selector, claim_selector, place_call,
  expand_item, expand_items, expand_contract,
}
use rustevm.Macros.Contract.Selectors.{Distinct}
use rustevm.Macros.Contract.Arms.{ordinary_arms}
use rustevm.Macros.Contract.Reached.{expand_contract-ordinary_arms}

abbrev pub plain_type : Str → RustType
plain_type name = path false (segment name no_arguments no_segment)

-- `Storage<Token>`
abbrev storage_type : RustType
storage_type = path false (
    segment (bytes "Storage") (angle (type_argument (plain_type (bytes "Token")) no_argument))
      no_segment)

-- `(s: &mut Storage<Token>, to: Address, amount: U256)`
abbrev transfer_inputs : List Arg
transfer_inputs =
    typed (reference true storage_type)
    ∷ typed (plain_type (bytes "Address"))
    ∷ typed (plain_type (bytes "U256"))
    ∷ []

abbrev pub transfer : Method
transfer = record {
  ident = bytes "transfer";
  public = true;
  attrs = other_attr ∷ payable ∷ Attr.by_path payable ∷ [];
  inputs = transfer_inputs;
  output = none;
}

abbrev helper : Method
helper = record {
  ident = bytes "helper";
  public = false;
  attrs = payable ∷ [];
  inputs = [];
  output = none;
}

abbrev deploy : Method
deploy = record {
  ident = bytes "new";
  public = true;
  attrs = constructor ∷ [];
  inputs = typed (reference true storage_type) ∷ [];
  output = none;
}

abbrev pub token : List ImplItem
token = fn deploy ∷ fn transfer ∷ other_item (payable ∷ []) ∷ fn helper ∷ []

-- No character is changed, and no text is hashed.
abbrev pub upper : Str → Str
upper c = c

abbrev pub no_hash : List ℕ → List ℕ
no_hash bs = bs

pub transfer_signature : eth_signature upper transfer ≡ ok (bytes "transfer(address,uint256)")
unfolding eth_signature selector_override camel_case join nonempty capitalised char_size split
    param_names is_handle_param names_handle last_segment str_eq rust_ty_to_solidity
    solidity_type_name signature_text Signature.join
transfer_signature = refl

abbrev handle : HandleParam
handle = record {
  kind = HandleKind.persistent;
  is_mut = true;
  layout_ty = plain_type (bytes "Token");
}

abbrev abi_types : List RustType
abi_types = plain_type (bytes "Address") ∷ plain_type (bytes "U256") ∷ []

transfer_split : split_handle_params transfer_inputs ≡ ok (handle ∷ [], abi_types)
unfolding split_handle_params is_handle_param names_handle last_segment str_eq take_handle
    handle_kind has_kind same_kind handle_layout_ty type_arguments is_mut_reference
transfer_split = refl

split_handle_params-ok_example :
    (hs : List RustType) × (transfer_inputs ≡ map typed (hs ++ abi_types))
    × Handles hs
    × NoHandles abi_types
    × (map (λ (h : HandleParam). h.kind) (handle ∷ []) ≡ map handle_kind hs)
    × OneEach (handle ∷ [])
    × (param_names transfer_inputs ≡ map rust_ty_to_solidity abi_types)
split_handle_params-ok_example =
    split_handle_params-ok transfer_inputs (handle ∷ []) abi_types transfer_split

-- What an expansion that succeeds gives.
abbrev expansion : Result SynError Expansion → Expansion
expansion (ok e) = e
expansion (err e) = start

pub token_expansion : Expansion
unfolding expand_contract
token_expansion = expansion (expand_contract upper no_hash token)

pub token_expands : expand_contract upper no_hash token ≡ ok token_expansion
unfolding token_expansion check_at_most_one sites has_attr same_name expand_items expand_item
    expand_constructor split_handle_params is_handle_param names_handle last_segment str_eq
    take_handle handle_kind has_kind same_kind handle_layout_ty type_arguments is_mut_reference
    strip_inert_attrs retained is_inert eth_signature selector_override camel_case join nonempty
    capitalised char_size split param_names rust_ty_to_solidity solidity_type_name signature_text
    Signature.join selector find_selector claim_selector expand_method place_call
token_expands = refl

expand_contract-ordinary_arms_example :
    (token_expansion.dispatch_arms ≡ ordinary_arms upper no_hash token)
    × Distinct token_expansion.dispatch_arms
expand_contract-ordinary_arms_example =
    expand_contract-ordinary_arms upper no_hash token token_expansion token_expands

-- The parser of the one block there is; a token is a number.
abbrev parse : List ℕ → Result (List ℕ) (List ImplItem)
parse tokens = ok token

-- `total: U256, balances: Mapping<Address, U256>`
abbrev fields : List Field
fields =
    record { ident = bytes "total"; ty = plain_type (bytes "U256") }
    ∷ record {
      ident = bytes "balances";
      ty = path false (
          segment (bytes "Mapping")
            (angle (
              type_argument (plain_type (bytes "Address"))
                (type_argument (plain_type (bytes "U256")) no_argument)))
            no_segment);
    }
    ∷ []

abbrev layout_of : Result SynError (List Accessor) → List Accessor
layout_of (ok accessors) = accessors
layout_of (err e) = []

token_layout : List Accessor
unfolding expand_layout
token_layout = layout_of (expand_layout storage (named fields))

token_layout_expands : expand_layout storage (named fields) ≡ ok token_layout
unfolding token_layout fields_from field_accessors mapping_generics last_segment str_eq
    type_arguments guards
token_layout_expands = refl

abbrev total : Field
total = record { ident = bytes "total"; ty = plain_type (bytes "U256") }

expand_layout-at_slot_example :
    (field_accessors storage 0 total ≡ ok (at_slot 0 token_layout)) × (at_slot 2 token_layout ≡ [])
expand_layout-at_slot_example =
    expand_layout-at_slot storage fields token_layout 0 2 total token_layout_expands refl
      (omega arith)
