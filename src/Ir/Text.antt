-- ===== src/Ir/Text.antt =====
-- Text output of the intermediate representation: the `Display` of a type, a repair and a signature
-- (types.rs), of effects (effect.rs), of the handles (entity.rs), and of an error (ir.rs).
pub mod Flags
use rustevm.Base.{ℕ, true, false, List, [], ◌∷◌, ◌++◌, if◌then◌else◌}
use rustevm.Base.Format.{decimal}
use rustevm.Isa.{Str, bytes}
use rustevm.Ir.Types.{IntTy, Ty, int, ptr, Repair, mask_to, sext_to, Signature}
use rustevm.Ir.Effect.{
  Effects, reads_memory, writes_memory, reads_storage, writes_storage, reads_transient,
  writes_transient, reads_context, logs, external, contains, is_pure,
}
use rustevm.Ir.Inst.{Value, Inst, Block, Func}
use rustevm.Ir.Error.{
  IrError, no_current_block, already_terminated, unknown_mnemonic, reserved_opcode,
  signature_mismatch, already_defined, undefined, no_entry,
}

unfoldable pub type_text : Ty → Str
unfolding decimal
type_text ptr = bytes "ptr"
type_text (int ty) = (if ty.signed then bytes "i" else bytes "u") ++ decimal ty.bits

unfoldable pub repair_text : Repair → Str
unfolding decimal
repair_text Repair.none = bytes "norepair"
repair_text (mask_to width) = bytes "mask" ++ decimal width
repair_text (sext_to width) = bytes "sext" ++ decimal width

-- The loop over the types after the first.
more_types : List Ty → Str
unfolding type_text
more_types [] = []
more_types (t ∷ ts) = bytes ", " ++ type_text t ++ more_types ts

types_text : List Ty → Str
unfolding more_types type_text
types_text [] = []
types_text (t ∷ ts) = type_text t ++ more_types ts

returns_text : List Ty → Str
unfolding types_text type_text
returns_text [] = []
returns_text (one ∷ []) = bytes " -> " ++ type_text one
returns_text (one ∷ (other ∷ rest)) =
    bytes " -> (" ++ types_text (one ∷ (other ∷ rest)) ++ bytes ")"

unfoldable pub signature_text : Signature → Str
unfolding types_text returns_text
signature_text sig = bytes "(" ++ types_text sig.params ++ bytes ")" ++ returns_text sig.returns

abbrev pub names : List (Effects × Str)
names =
    (reads_memory, bytes "rmem")
    ∷ (writes_memory, bytes "wmem")
    ∷ (reads_storage, bytes "rsto")
    ∷ (writes_storage, bytes "wsto")
    ∷ (reads_transient, bytes "rtra")
    ∷ (writes_transient, bytes "wtra")
    ∷ (reads_context, bytes "rctx")
    ∷ (logs, bytes "log")
    ∷ (external, bytes "extern")
    ∷ []

-- The loop over the names; the first that is written has no bar before it.
named_effects : Effects → Str → List (Effects × Str) → Str
unfolding contains
named_effects e bar [] = []
named_effects e bar ((effect, name) ∷ rest) =
    if contains e effect
    then bar ++ name ++ named_effects e (bytes "|") rest
    else named_effects e bar rest

unfoldable pub effects_text : Effects → Str
unfolding is_pure named_effects
effects_text e = if is_pure e then bytes "pure" else named_effects e [] names

unfoldable pub value_text : Value → Str
unfolding decimal
value_text v = bytes "v" ++ decimal v

unfoldable pub inst_text : Inst → Str
unfolding decimal
inst_text i = bytes "i" ++ decimal i

unfoldable pub block_text : Block → Str
unfolding decimal
block_text b = bytes "block" ++ decimal b

unfoldable pub func_text : Func → Str
unfolding decimal
func_text f = bytes "@f" ++ decimal f

-- The em dash.
abbrev dash : Str
dash = 0xe2 ∷ 0x80 ∷ 0x94 ∷ []

unfoldable pub ir_error_text : IrError → Str
unfolding block_text func_text
ir_error_text no_current_block =
    bytes "no block is being built "
    ++ dash
    ++ bytes " the last one was terminated; `switch_to` another"
ir_error_text (already_terminated block) = block_text block ++ bytes " already ends in a terminator"
ir_error_text (unknown_mnemonic m) = bytes "unknown opcode `" ++ m ++ bytes "`"
ir_error_text (reserved_opcode m reason) =
    bytes "`" ++ m ++ bytes "` cannot be emitted as a raw opcode: " ++ reason
ir_error_text (signature_mismatch func name) =
    bytes "the body given for `"
    ++ name
    ++ bytes "` ("
    ++ func_text func
    ++ bytes ") does not match its declared signature"
ir_error_text (already_defined func name) =
    bytes "`" ++ name ++ bytes "` (" ++ func_text func ++ bytes ") is already defined"
ir_error_text (undefined func name) =
    bytes "`" ++ name ++ bytes "` (" ++ func_text func ++ bytes ") was declared but never defined"
ir_error_text no_entry = bytes "the module has no entry function"
