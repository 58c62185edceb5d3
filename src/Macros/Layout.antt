-- ===== src/Macros/Layout.antt =====
-- Slots and accessors: src/target/std-evm-macros/src/layout.rs.
pub mod Slots
use rustevm.Base.{
  ℕ, zero, suc, ◌+◌, Bool, true, false, not, ◌&&◌, List, [], ◌∷◌, ◌++◌, Option, none, some,
  if◌then◌else◌, ok, err,
}
use rustevm.Base.Results.{◌>>=◌}
use rustevm.Isa.{Str, bytes, str_eq}
use rustevm.Macros.Syntax.{
  RustType, path, reference, other_type, Segments, no_segment, segment, Arguments, no_arguments,
  parenthesized, angle, last_segment, type_arguments, Syn, named_fields, mapping_arguments,
  two_arguments,
}

-- `Flavor`: which macro is expanded decides the types that the accessors name.
pub data Flavor : Type 0 where
  storage transient_storage : Flavor

-- Only transient fields get guards.
unfoldable pub guards : Flavor → Bool
guards storage = false
guards transient_storage = true

pub record Field : Type 0 where
  pub ident : Str
  pub ty : RustType

pub data Fields : Type 0 where
  named : List Field → Fields
  unnamed : Fields

-- What the body of an accessor does with its slot.
pub data Action : Type 0 where
  read_slot write_slot : RustType → Action
  view_map view_map_mut : RustType → RustType → Action
  view_nested view_nested_mut : RustType → RustType → RustType → Action
  acquire_guard : Action

pub record Accessor : Type 0 where
  pub name : Str
  pub action : Action
  pub slot : ℕ

is_bool_path : Segments → Bool
is_bool_path no_segment = false
is_bool_path (segment ident no_arguments no_segment) = str_eq ident (bytes "bool")
is_bool_path (segment ident args rest) = false

unfoldable pub is_bool : RustType → Bool
unfolding is_bool_path
is_bool (path qself segments) = not qself && is_bool_path segments
is_bool t = false

two_types : List RustType → Syn (Option (RustType × RustType))
two_types (k ∷ v ∷ []) = ok (some (k, v))
two_types ts = err two_arguments

map_types : Arguments → Syn (Option (RustType × RustType))
unfolding two_types
map_types (angle args) = two_types (type_arguments args)
map_types no_arguments = err mapping_arguments
map_types parenthesized = err mapping_arguments

segment_types : Option (Str × Arguments) → Syn (Option (RustType × RustType))
unfolding map_types
segment_types none = ok none
segment_types (some (ident, args)) =
    if not (str_eq ident (bytes "Mapping")) then ok none else map_types args

unfoldable pub mapping_generics : RustType → Syn (Option (RustType × RustType))
unfolding segment_types
mapping_generics (path q segments) = segment_types (last_segment segments)
mapping_generics (reference m t) = ok none
mapping_generics other_type = ok none

abbrev pub accessor : Str → Action → ℕ → Accessor
accessor name action slot = record { name = name; action = action; slot = slot }

-- The getter and the setter of a plain field, with a guard if it is a transient flag.
plain_accessors : Flavor → ℕ → Field → List Accessor
plain_accessors flavor slot field =
    accessor field.ident (read_slot field.ty) slot
    ∷ accessor (bytes "set_" ++ field.ident) (write_slot field.ty) slot
    ∷ (if guards flavor && is_bool field.ty
        then accessor (field.ident ++ bytes "_guard") acquire_guard slot ∷ []
        else [])

mapping_accessors : ℕ → Field → RustType → RustType → Option (RustType × RustType) → List Accessor
mapping_accessors slot field k v none =
    accessor field.ident (view_map k v) slot
    ∷ accessor (field.ident ++ bytes "_mut") (view_map_mut k v) slot
    ∷ []
mapping_accessors slot field k v (some (k2, v2)) =
    accessor field.ident (view_nested k k2 v2) slot
    ∷ accessor (field.ident ++ bytes "_mut") (view_nested_mut k k2 v2) slot
    ∷ []

accessors_for : Flavor → ℕ → Field → Option (RustType × RustType) → Syn (List Accessor)
unfolding plain_accessors mapping_accessors
accessors_for flavor slot field none = ok (plain_accessors flavor slot field)
accessors_for flavor slot field (some (k, v)) = do
  inner ← mapping_generics v
  ok (mapping_accessors slot field k v inner)

unfoldable pub field_accessors : Flavor → ℕ → Field → Syn (List Accessor)
unfolding accessors_for
field_accessors flavor slot field = do
  generics ← mapping_generics field.ty
  accessors_for flavor slot field generics

-- The loop over the fields, `i` of which are done.
unfoldable pub fields_from : Flavor → ℕ → List Field → Syn (List Accessor)
fields_from flavor i [] = ok []
fields_from flavor i (field ∷ fields) = do
  own ← field_accessors flavor i field
  rest ← fields_from flavor (i + 1) fields
  ok (own ++ rest)

unfoldable pub expand_layout : Flavor → Fields → Syn (List Accessor)
unfolding fields_from
expand_layout flavor (named fields) = fields_from flavor 0 fields
expand_layout flavor unnamed = err named_fields
