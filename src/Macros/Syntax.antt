-- ===== src/Macros/Syntax.antt =====
-- The part of the crate `syn`'s syntax tree that src/target/std-evm-macros reads, with the errors
-- that the macros report.
use rustevm.Base.{Bool, List, [], ◌∷◌, Option, none, some, Result}
use rustevm.Isa.{Str}

mutual
  -- A path may begin by a qualified self type.
  pub data RustType : Type 0 where
    path : Bool → Segments → RustType
    reference : Bool → RustType → RustType
    other_type : RustType

  pub data Segments : Type 0 where
    no_segment : Segments
    segment : Str → Arguments → Segments → Segments

  pub data Arguments : Type 0 where
    no_arguments parenthesized : Arguments
    angle : GenericArguments → Arguments

  pub data GenericArguments : Type 0 where
    no_argument : GenericArguments
    type_argument : RustType → GenericArguments → GenericArguments
    other_argument : GenericArguments → GenericArguments

-- `segments.last()`
unfoldable pub last_segment : Segments → Option (Str × Arguments)
last_segment no_segment = none
last_segment (segment ident args no_segment) = some (ident, args)
last_segment (segment ident args (segment ident' args' rest)) =
    last_segment (segment ident' args' rest)

-- The arguments that are types.
unfoldable pub type_arguments : GenericArguments → List RustType
type_arguments no_argument = []
type_arguments (type_argument t args) = t ∷ type_arguments args
type_arguments (other_argument args) = type_arguments args

-- `#[selector(..)]` holds the string literal of its argument, or none where it does not parse.
-- `by_path` is an attribute that a path of several segments names, as in `#[std_evm::payable]`; it is
-- not `is_ident`. Another attribute than the crate's own is `other_attr`.
pub data Attr : Type 0 where
  constructor payable fallback receive : Attr
  selector : Option Str → Attr
  other_attr : Attr
  by_path : Attr → Attr

pub data Arg : Type 0 where
  receiver : Arg
  typed : RustType → Arg

-- A function of an `impl` block.
pub record Method : Type 0 where
  pub ident : Str
  pub public : Bool
  pub attrs : List Attr
  pub inputs : List Arg
  pub output : Option RustType

pub data ImplItem : Type 0 where
  fn : Method → ImplItem
  other_item : List Attr → ImplItem

pub data HandleKind : Type 0 where
  persistent transient : HandleKind

-- The errors that the expansions return.
pub data SynError : Type 0 where
  attribute_argument bad_selector constructor_output : SynError
  duplicate_attribute : Attr → Str → Str → SynError
  selector_collision : Str → Str → SynError
  self_receiver : SynError
  duplicate_handle late_handle not_a_handle no_layout several_layouts : HandleKind → SynError
  named_fields mapping_arguments two_arguments : SynError

abbrev pub Syn : Type 0 → Type 0
Syn A = Result SynError A
