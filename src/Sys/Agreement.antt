-- ===== src/Sys/Agreement.antt =====
-- The bindings of src/target/evm-sys and the opcode table.
use rustevm.Base.{
  ℕ, ◌*◌, ◌≡◌, refl, Bool, true, false, ◌&&◌, Option, none, some, List, [], ◌∷◌, ◌++◌, ltb, leb,
  ◌==◌, length, same_bool, all, if◌then◌else◌,
}
use rustevm.Isa.{Str, str_eq, OpSpec, OpForm, simple, op_form, opcodes, InTable, all-InTable}
use rustevm.Sys.Binding.{
  ParamTy, word, u8, u16, u32, u64, u128, Returns, nothing, never, gives, Binding, binding,
}
use rustevm.Sys.Bindings.{
  opcodes_of_account, opcodes_of_arithmetic, opcodes_of_bitwise, opcodes_of_block, opcodes_of_call,
  opcodes_of_calldata, opcodes_of_context, opcodes_of_control, opcodes_of_hash, opcodes_of_log,
  opcodes_of_memory, opcodes_of_storage,
}
use rustevm.Sys.Stack.{
  push_bindings, push_wide_bindings, dup_bindings_low, dup_bindings_high, swap_bindings_low,
  swap_bindings_high,
}

-- Every binding of the crate.
unfoldable pub bindings : List Binding
unfolding binding opcodes_of_account opcodes_of_arithmetic opcodes_of_bitwise opcodes_of_block
    opcodes_of_call opcodes_of_calldata opcodes_of_context opcodes_of_control opcodes_of_hash
    opcodes_of_log opcodes_of_memory opcodes_of_storage push_bindings push_wide_bindings
    dup_bindings_low dup_bindings_high swap_bindings_low swap_bindings_high
bindings =
    opcodes_of_account ++ opcodes_of_arithmetic ++ opcodes_of_bitwise ++ opcodes_of_block
    ++ opcodes_of_call ++ opcodes_of_calldata ++ opcodes_of_context ++ opcodes_of_control
    ++ opcodes_of_hash ++ opcodes_of_log ++ opcodes_of_memory ++ opcodes_of_storage ++ push_bindings
    ++ push_wide_bindings ++ dup_bindings_low ++ dup_bindings_high ++ swap_bindings_low
    ++ swap_bindings_high

unfoldable pub find_binding : Str → List Binding → Option Binding
find_binding opcode [] = none
find_binding opcode (b ∷ rest) =
    let later = find_binding opcode rest in if str_eq b.opcode opcode then some b else later

-- The bytes of a type.
pub size_of : ParamTy → ℕ
size_of u8 = 1
size_of u16 = 2
size_of u32 = 4
size_of u64 = 8
size_of u128 = 16
size_of word = 32

-- An immediate of `n` bytes is a single parameter of the smallest type that holds it.
pub takes_immediate : ℕ → List ParamTy → Bool
unfolding size_of
takes_immediate n [] = n == 0
takes_immediate n (ty ∷ []) = leb n (size_of ty) && ltb (size_of ty) (2 * n)
takes_immediate n (ty ∷ (other ∷ rest)) = false

pub results : Returns → ℕ
results nothing = 0
results never = 0
results (gives ty) = 1

pub is_never : Returns → Bool
is_never nothing = false
is_never never = true
is_never (gives ty) = false

-- The signature that the row asks for. A binding of `DUPn` or `SWAPn` gives the new top alone.
pub matches_form : OpForm → OpSpec → Binding → Bool
unfolding takes_immediate results is_never
matches_form simple spec b =
    (length b.params == spec.stack_in)
    && ((results b.returns == spec.stack_out) && same_bool (is_never b.returns) spec.is_terminating)
matches_form (OpForm.push n) spec b =
    takes_immediate n b.params && (results b.returns == spec.stack_out)
matches_form (OpForm.dup n) spec b = (length b.params == spec.stack_in) && (results b.returns == 1)
matches_form (OpForm.swap n) spec b = (length b.params == spec.stack_in) && (results b.returns == 1)

bound : OpSpec → Option Binding → Bool
unfolding matches_form
bound spec none = false
bound spec (some b) = matches_form (op_form spec) spec b

bound-some :
    (spec : OpSpec) (o : Option Binding)
    → bound spec o ≡ true
    → (b : Binding) × (o ≡ some b) × (matches_form (op_form spec) spec b ≡ true)
unfolding bound
bound-some spec none h = cc
bound-some spec (some b) h = (b, refl, h)

all_bound : all (λ spec. bound spec (find_binding spec.mnemonic bindings)) opcodes ≡ true
unfolding bound find_binding bindings opcodes op_form str_eq
all_bound = refl

-- Every row of the opcode table has a binding, whose parameters and result are what the row takes
-- from the stack and leaves on it: the operands and the result, with a function that never returns
-- where the row terminates; for a push, an immediate of the smallest type that holds it; for a dup or
-- a swap, the operands, and the new top alone. There are as many bindings as rows.
pub find_binding-bindings :
    (spec : OpSpec)
    → InTable spec
    → ((b : Binding) × (find_binding spec.mnemonic bindings ≡ some b)
        × (matches_form (op_form spec) spec b ≡ true))
      × (length bindings ≡ length opcodes)
unfolding bindings opcodes
find_binding-bindings spec row = (
  bound-some spec (find_binding spec.mnemonic bindings)
      (all-InTable (λ s. bound s (find_binding s.mnemonic bindings)) spec all_bound row),
  refl,
)
