-- ===== src/Macros/Contract/Handles.antt =====
-- The call that `expand_method` and `expand_constructor` of src/target/std-evm-macros/src/contract.rs
-- emit, run: the closures around it bind handles, which src/target/std-evm/src/storage/handle.rs makes.
pub mod Names
pub mod Bound
pub mod Passed
mod Examples
use rustevm.Base.{
  ℕ, zero, suc, ◌+◌, Bool, true, false, List, [], ◌∷◌, ◌++◌, map, Option, none, some, if◌then◌else◌,
  length,
}
use rustevm.Base.Format.{decimal}
use rustevm.Isa.{Str, bytes, str_eq}
use rustevm.Std.Handles.{
  Storage, TransientStorage, with_storage, with_storage_mut, with_transient_storage,
  with_transient_storage_mut,
}
use rustevm.Macros.Syntax.{RustType, HandleKind, persistent, transient}
use rustevm.Macros.Params.{HandleParam}

unfoldable pub binding : HandleKind → Str
binding persistent = bytes "storage"
binding transient = bytes "transient"

-- The names `arg{i}`, `n` of them from `i` on.
unfoldable pub arg_pats_from : ℕ → ℕ → List Str
unfolding decimal
arg_pats_from i zero = []
arg_pats_from i (suc n) = (bytes "arg" ++ decimal i) ∷ arg_pats_from (i + 1) n

unfoldable pub arg_pat_idents : ℕ → List Str
unfolding arg_pats_from
arg_pat_idents n = arg_pats_from 0 n

-- A function of `std-evm` that the emitted code calls with a closure.
pub data With : Type 0 where
  storage storage_mut transient_storage transient_storage_mut : With

-- The emitted code: the call of the method with the names that it passes, in closures.
pub data Code : Type 0 where
  inner_call : List Str → Code
  closure : With → RustType → Str → Code → Code

unfoldable pub with_of : HandleKind → Bool → With
with_of persistent false = storage
with_of persistent true = storage_mut
with_of transient false = transient_storage
with_of transient true = transient_storage_mut

-- The fold from the last handle to the first.
unfoldable pub wrap_with_handles : List HandleParam → Code → Code
unfolding with_of binding
wrap_with_handles [] inner = inner
wrap_with_handles (h ∷ handles) inner =
    closure (with_of h.kind h.is_mut) h.layout_ty (binding h.kind) (wrap_with_handles handles inner)

unfoldable pub call_body : List HandleParam → List RustType → Code
unfolding wrap_with_handles binding arg_pat_idents
call_body handles abi_types = wrap_with_handles handles (
    inner_call
      (map (λ (h : HandleParam). binding h.kind) handles ++ arg_pat_idents (length abi_types)))

-- What a name of the emitted code stands for.
pub data Local (V : Type 0) : Type 0 where
  handle : Storage RustType → Local V
  transient_handle : TransientStorage RustType → Local V
  value : V → Local V

module _ {V : Type 0} where
  -- The innermost binding of the name.
  unfoldable pub lookup : List (Str × Local V) → Str → Option (Local V)
  lookup [] name = none
  lookup ((other, local) ∷ env) name = if str_eq other name then some local else lookup env name

  -- `let (arg0, arg1, ..) = args`
  unfoldable pub bind_args : List Str → List V → List (Str × Local V)
  bind_args [] vs = []
  bind_args (name ∷ names) [] = []
  bind_args (name ∷ names) (v ∷ vs) = (name, value v) ∷ bind_args names vs

  -- What the method is called with.
  unfoldable pub run : List (Str × Local V) → Code → List (Option (Local V))
  unfolding lookup with_storage with_storage_mut with_transient_storage with_transient_storage_mut
  run env (inner_call names) = map (lookup env) names
  run env (closure storage t name body) = with_storage t (λ h. run ((name, handle h) ∷ env) body)
  run env (closure storage_mut t name body) =
      with_storage_mut t (λ h. run ((name, handle h) ∷ env) body)
  run env (closure transient_storage t name body) =
      with_transient_storage t (λ h. run ((name, transient_handle h) ∷ env) body)
  run env (closure transient_storage_mut t name body) =
      with_transient_storage_mut t (λ h. run ((name, transient_handle h) ∷ env) body)
