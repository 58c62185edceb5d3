-- ===== src/Macros/Contract.antt =====
-- `#[contract]`: `expand_contract` of src/target/std-evm-macros/src/contract.rs.
--
-- The tokens that the macro emits are kept as what they say: a method's implementation, the arms of
-- the match over selectors, the calls of the fallback and receive branches, and the constructor.
pub mod Dispatch
pub mod Selectors
pub mod Arms
pub mod Reached
pub mod Adds
pub mod Impls
pub mod Called
pub mod Examples
pub mod Stripped
pub mod Handles
use rustevm.Base.{
  ℕ, Bool, true, false, not, ◌&&◌, ◌||◌, List, [], ◌∷◌, ◌++◌, Option, none, some, if◌then◌else◌, ok,
  err,
}
use rustevm.Base.Results.{◌>>=◌}
use rustevm.Isa.{Str, bytes, str_eq}
use rustevm.Abi.Names.{selector}
use rustevm.Macros.Syntax.{
  RustType, Attr, constructor, payable, fallback, receive, Method, ImplItem, fn, other_item, Syn,
  constructor_output, selector_collision,
}
use rustevm.Macros.Signature.{has_attr, strip_inert_attrs, check_at_most_one, eth_signature}
use rustevm.Macros.Params.{HandleParam, split_handle_params}

-- `impl Method` for a marker type.
pub record MethodImpl : Type 0 where
  pub marker : Str
  pub method : Str
  pub selector_bytes : List ℕ
  pub handles : List HandleParam
  pub args : List RustType
  pub output : Option RustType
  pub guarded : Bool

-- `impl Contract`, whose `deploy` calls the constructor.
pub record ConstructorImpl : Type 0 where
  pub method : Str
  pub handles : List HandleParam
  pub args : List RustType

-- The locals of `expand_contract`, `impl_items` for the methods that are emitted again.
pub record Expansion : Type 0 where
  pub impl_items : List ImplItem
  pub method_impls : List MethodImpl
  pub dispatch_arms : List (List ℕ × Str)
  pub fallback_call : Option Str
  pub receive_call : Option Str
  pub constructor_impl : Option ConstructorImpl
  pub seen_selectors : List (List ℕ × Str)

abbrev pub start : Expansion
start = record {
  impl_items = [];
  method_impls = [];
  dispatch_arms = [];
  fallback_call = none;
  receive_call = none;
  constructor_impl = none;
  seen_selectors = [];
}

abbrev pub method_marker_ident : Str → Str
method_marker_ident name = bytes "__Method_" ++ name

-- `expand_method`; the call expression is the marker's.
unfoldable pub expand_method : Method → List ℕ → Bool → Syn MethodImpl
expand_method method sel is_payable = do
  (handles, abi_types) ← split_handle_params method.inputs
  ok (record {
    marker = method_marker_ident method.ident;
    method = method.ident;
    selector_bytes = sel;
    handles = handles;
    args = abi_types;
    output = method.output;
    guarded = not is_payable;
  })

constructor_of : Method → Option RustType → Syn ConstructorImpl
constructor_of method (some t) = err constructor_output
constructor_of method none = do
  (handles, abi_types) ← split_handle_params method.inputs
  ok (record { method = method.ident; handles = handles; args = abi_types })

unfoldable pub expand_constructor : Method → Syn ConstructorImpl
unfolding constructor_of
expand_constructor method = constructor_of method method.output

-- `seen_selectors.iter().find(..)`, and the match over the arms.
unfoldable pub find_selector : List ℕ → List (List ℕ × Str) → Option Str
find_selector sel [] = none
find_selector sel ((s, name) ∷ seen) = if str_eq s sel then some name else find_selector sel seen

-- A method is emitted again without its inert attributes.
abbrev pub emitted : Expansion → ImplItem → Expansion
emitted e item = record e { impl_items = e.impl_items ++ (item ∷ []) }

-- Refuses a selector that is taken, and takes it.
unfoldable pub claim_selector : Expansion → List ℕ → Str → Option Str → Syn Expansion
claim_selector e sel name (some other) = err (selector_collision other name)
claim_selector e sel name none =
    ok (record e { seen_selectors = e.seen_selectors ++ ((sel, name) ∷ []) })

-- Where the call of a method goes.
unfoldable pub place_call : Expansion → Bool → Bool → List ℕ → Str → Expansion
place_call e true is_receive sel marker = record e { fallback_call = some marker }
place_call e false true sel marker = record e { receive_call = some marker }
place_call e false false sel marker = record e {
  dispatch_arms = e.dispatch_arms ++ ((sel, marker) ∷ []);
}

-- `upper` is `char::to_uppercase`, and `keccak256` the hash of the crate `tiny_keccak`.
module _ (upper : Str → Str) (keccak256 : List ℕ → List ℕ) where
  -- A public method that is no constructor; the tests say whether it is a fallback or a receiver.
  pub expand_public : Expansion → Method → Bool → Bool → Syn Expansion
  expand_public e method is_fallback is_receive = do
    sig_str ← eth_signature upper method
    let sel = selector keccak256 sig_str
    e1 ←
        if is_fallback || is_receive
        then ok e
        else claim_selector e sel method.ident (find_selector sel e.seen_selectors)
    made ← expand_method method sel (has_attr method payable)
    let e2 = record e1 { method_impls = e1.method_impls ++ (made ∷ []) }
    let e3 = place_call e2 is_fallback is_receive sel made.marker
    ok (emitted e3 (fn (strip_inert_attrs method)))

  -- The tests say whether the method is public, and whether it is a constructor, a fallback or a
  -- receiver.
  pub expand_fn : Expansion → Method → Bool → Bool → Bool → Bool → Syn Expansion
  unfolding expand_public
  expand_fn e method false is_constructor is_fallback is_receive =
      ok (emitted e (fn (strip_inert_attrs method)))
  expand_fn e method true true is_fallback is_receive = do
    made ← expand_constructor method
    let e1 = record e { constructor_impl = some made }
    ok (emitted e1 (fn (strip_inert_attrs method)))
  expand_fn e method true false is_fallback is_receive =
      expand_public e method is_fallback is_receive

  unfoldable pub expand_item : Expansion → ImplItem → Syn Expansion
  unfolding expand_fn
  expand_item e (other_item attrs) = ok (emitted e (other_item attrs))
  expand_item e (fn method) =
      expand_fn e method method.public (has_attr method constructor) (has_attr method fallback)
        (has_attr method receive)

  unfoldable pub expand_items : Expansion → List ImplItem → Syn Expansion
  expand_items e [] = ok e
  expand_items e (item ∷ items) = do e1 ← expand_item e item; expand_items e1 items

  unfoldable pub expand_contract : List ImplItem → Syn Expansion
  expand_contract items = do
    _ ← check_at_most_one items constructor
    _ ← check_at_most_one items fallback
    _ ← check_at_most_one items receive
    expand_items start items
