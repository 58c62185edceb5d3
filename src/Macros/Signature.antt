-- ===== src/Macros/Signature.antt =====
-- Attributes and signatures of methods: src/target/std-evm-macros/src/attrs.rs and signature.rs.
pub mod Shape
use rustevm.Base.{
  ℕ, ◌==◌, Bool, true, false, not, ◌||◌, List, [], ◌∷◌, ◌++◌, Option, none, some, if◌then◌else◌,
  any, ok, err,
}
use rustevm.Base.Results.{◌>>=◌}
use rustevm.Isa.{Str, bytes, str_eq}
use rustevm.Abi.Names.{solidity_type_name, camel_case}
use rustevm.Macros.Syntax.{
  RustType, path, reference, other_type, Segments, last_segment, Attr, constructor, payable,
  fallback, receive, selector, other_attr, by_path, Arg, receiver, typed, Method, ImplItem, fn,
  other_item, attribute_argument, bad_selector, duplicate_attribute, Syn,
}

-- `attr.path().is_ident(name)`, for the names of `INERT_ATTR_NAMES`.
unfoldable pub same_name : Attr → Attr → Bool
same_name constructor constructor = true
same_name payable payable = true
same_name fallback fallback = true
same_name receive receive = true
same_name (selector a) (selector b) = true
same_name a b = false

unfoldable pub has_attr : Method → Attr → Bool
unfolding same_name
has_attr method name = any (λ a. same_name name a) method.attrs

-- `s.ends_with(c)`
unfoldable pub ends_with : Str → ℕ → Bool
ends_with [] c = false
ends_with (a ∷ []) c = a == c
ends_with (a ∷ b ∷ s) c = ends_with (b ∷ s) c

-- `s.contains(c)`
unfoldable pub contains : Str → ℕ → Bool
contains s c = any (λ a. a == c) s

is_empty : Str → Bool
is_empty [] = true
is_empty (a ∷ s) = false

unfoldable pub checked_selector : Str → Syn (Option Str)
unfolding is_empty ends_with contains
checked_selector s =
    if (is_empty s || not (contains s b'(')) || not (ends_with s b')')
    then err bad_selector
    else ok (some s)

-- The loop over the attributes.
unfoldable pub selector_override : List Attr → Syn (Option Str)
selector_override [] = ok none
selector_override (selector none ∷ attrs) = err attribute_argument
selector_override (selector (some s) ∷ attrs) = checked_selector s
selector_override (a ∷ attrs) = selector_override attrs

-- Whether an attribute is one of `INERT_ATTR_NAMES`.
unfoldable pub is_inert : Attr → Bool
is_inert other_attr = false
is_inert (by_path a) = false
is_inert a = true

unfoldable pub retained : List Attr → List Attr
unfolding is_inert
retained [] = []
retained (a ∷ attrs) = let rest = retained attrs in if is_inert a then rest else a ∷ rest

unfoldable pub strip_inert_attrs : Method → Method
strip_inert_attrs method = record method { attrs = retained method.attrs }

-- The methods of a block that carry an attribute.
unfoldable pub sites : List ImplItem → Attr → List Str
sites [] name = []
sites (fn method ∷ items) name =
    let rest = sites items name in if has_attr method name then method.ident ∷ rest else rest
sites (other_item attrs ∷ items) name = sites items name

at_most_one : Attr → List Str → Syn (Unit {0})
at_most_one name [] = ok tt
at_most_one name (a ∷ []) = ok tt
at_most_one name (a ∷ b ∷ more) = err (duplicate_attribute name a b)

unfoldable pub check_at_most_one : List ImplItem → Attr → Syn (Unit {0})
unfolding at_most_one
check_at_most_one items name = at_most_one name (sites items name)

-- Whether the last segment of a path has one of the names of the handles.
unfoldable pub names_handle : Segments → Bool
names_handle segments = elim (last_segment segments) [
  | none ↦ false
  | some (ident, _) ↦ str_eq ident (bytes "Storage") || str_eq ident (bytes "TransientStorage")
]

unfoldable pub is_handle_param : RustType → Bool
unfolding names_handle
is_handle_param (reference m t) = is_handle_param t
is_handle_param (path q segments) = names_handle segments
is_handle_param other_type = false

last_ident : Segments → Str
last_ident segments = elim (last_segment segments) [ none ↦ [] | some (ident, _) ↦ ident ]

unfoldable pub rust_ty_to_solidity : RustType → Str
unfolding last_ident
rust_ty_to_solidity (path q segments) = solidity_type_name (last_ident segments)
rust_ty_to_solidity (reference m t) = rust_ty_to_solidity t
rust_ty_to_solidity other_type = bytes "bytes32"

-- The names of the parameters that are not handles.
unfoldable pub param_names : List Arg → List Str
param_names [] = []
param_names (receiver ∷ args) = param_names args
param_names (typed t ∷ args) =
    let rest = param_names args in if is_handle_param t then rest else rust_ty_to_solidity t ∷ rest

-- `params.join(",")`
unfoldable pub join : List Str → Str
join [] = []
join (p ∷ []) = p
join (p ∷ q ∷ params) = p ++ (b',' ∷ join (q ∷ params))

unfoldable pub signature_text : Str → List Str → Str
signature_text name params = name ++ (b'(' ∷ (join params ++ (b')' ∷ [])))

-- `upper` is `char::to_uppercase`.
unfoldable pub eth_signature : (Str → Str) → Method → Syn Str
eth_signature upper method = do
  found ← selector_override method.attrs
  ok (elim found [
    | none ↦ signature_text (camel_case upper method.ident) (param_names method.inputs)
    | some sig ↦ sig
  ])
