-- ===== src/Macros/Params.antt =====
-- Splitting a method's parameters: `split_handle_params` and what it calls in
-- src/target/std-evm-macros/src/contract.rs.
pub mod OneEach
pub mod Sorted
use rustevm.Base.{
  ℕ, Bool, true, false, not, List, [], ◌∷◌, ◌++◌, Option, none, some, if◌then◌else◌, any, ok, err,
}
use rustevm.Base.Results.{◌>>=◌}
use rustevm.Isa.{Str, bytes, str_eq}
use rustevm.Macros.Syntax.{
  RustType, path, reference, other_type, Segments, Arguments, no_arguments, parenthesized, angle,
  last_segment, type_arguments, Arg, receiver, typed, HandleKind, persistent, transient, Syn,
  self_receiver, duplicate_handle, late_handle, not_a_handle, no_layout, several_layouts,
}
use rustevm.Macros.Signature.{is_handle_param}

pub record HandleParam : Type 0 where
  pub kind : HandleKind
  pub is_mut : Bool
  pub layout_ty : RustType

unfoldable pub same_kind : HandleKind → HandleKind → Bool
same_kind persistent persistent = true
same_kind transient transient = true
same_kind a b = false

path_kind : Segments → HandleKind
path_kind segments = elim (last_segment segments) [
  | none ↦ persistent
  | some (ident, _) ↦ if str_eq ident (bytes "TransientStorage") then transient else persistent
]

-- `handle_kind`, which returns no error.
unfoldable pub handle_kind : RustType → HandleKind
unfolding path_kind
handle_kind (reference m t) = handle_kind t
handle_kind (path q segments) = path_kind segments
handle_kind other_type = persistent

one_type : HandleKind → List RustType → Syn RustType
one_type kind [] = err (no_layout kind)
one_type kind (t ∷ []) = ok t
one_type kind (t ∷ u ∷ more) = err (several_layouts kind)

angle_type : HandleKind → Arguments → Syn RustType
unfolding one_type
angle_type kind (angle args) = one_type kind (type_arguments args)
angle_type kind no_arguments = err (no_layout kind)
angle_type kind parenthesized = err (no_layout kind)

segment_type : HandleKind → Option (Str × Arguments) → Syn RustType
unfolding angle_type
segment_type kind none = err (not_a_handle kind)
segment_type kind (some (_, args)) = angle_type kind args

inner_type : HandleKind → RustType → Syn RustType
unfolding segment_type
inner_type kind (path q segments) = segment_type kind (last_segment segments)
inner_type kind (reference m t) = err (not_a_handle kind)
inner_type kind other_type = err (not_a_handle kind)

unfoldable pub handle_layout_ty : RustType → HandleKind → Syn RustType
unfolding inner_type
handle_layout_ty (reference m t) kind = inner_type kind t
handle_layout_ty (path q segments) kind = inner_type kind (path q segments)
handle_layout_ty other_type kind = inner_type kind other_type

unfoldable pub is_mut_reference : RustType → Bool
is_mut_reference (reference m t) = m
is_mut_reference t = false

unfoldable pub has_kind : List HandleParam → HandleKind → Bool
unfolding same_kind
has_kind handles kind = any (λ h. same_kind h.kind kind) handles

pub is_empty : List RustType → Bool
is_empty [] = true
is_empty (t ∷ ts) = false

-- A handle parameter, after those so far.
unfoldable pub take_handle : List HandleParam → List RustType → RustType → Syn HandleParam
unfolding has_kind is_empty is_mut_reference
take_handle handles abi_types t =
    let kind = handle_kind t in
    if has_kind handles kind
    then err (duplicate_handle kind)
    else if not (is_empty abi_types)
    then err (late_handle kind)
    else do
      layout_ty ← handle_layout_ty t kind
      ok (record { kind = kind; is_mut = is_mut_reference t; layout_ty = layout_ty })

abbrev pub Split : Type 0
Split = List HandleParam × List RustType

-- The loop over the parameters, with the handles and the other types so far.
unfoldable pub split_from : List HandleParam → List RustType → List Arg → Syn Split
split_from handles abi_types [] = ok (handles, abi_types)
split_from handles abi_types (receiver ∷ args) = err self_receiver
split_from handles abi_types (typed t ∷ args) = elim (is_handle_param t) [
  | false ↦ split_from handles (abi_types ++ (t ∷ [])) args
  | true ↦ do
    handle ← take_handle handles abi_types t
    split_from (handles ++ (handle ∷ [])) abi_types args
]

unfoldable pub split_handle_params : List Arg → Syn Split
unfolding split_from
split_handle_params inputs = split_from [] [] inputs
