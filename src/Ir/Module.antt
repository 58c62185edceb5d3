-- ===== src/Ir/Module.antt =====
-- A whole program: `Module` of src/backend/evm-codegen/src/ir/module.rs. `none` is a panic, and `same`
-- is the derived equality of `Signature`.
pub mod Declared
pub mod Verified
mod Examples
use rustevm.Base.{
  ℕ, zero, suc, ◌+◌, Bool, true, false, not, Option, none, some, List, [], ◌∷◌, ◌++◌, ◌>>=◌, ltb,
  ◌==◌, same_bool, ◌&&◌, if◌then◌else◌, length, get_elem?, set, Result, ok, err,
}
use rustevm.Ir.Error.{IrError}
use mathlib.Core.Option
use rustevm.Ir.Func.{Function, handle, handles_from}
use rustevm.Ir.Inst.{Func}
use rustevm.Ir.Types.{IntTy, Ty, int, ptr, Signature}
use rustevm.Isa.{Str, Fork}

-- The derived `PartialEq`.
unfoldable pub same_type : Ty → Ty → Bool
same_type (int a) (int b) = (a.bits == b.bits) && same_bool a.signed b.signed
same_type (int a) ptr = false
same_type ptr (int b) = false
same_type ptr ptr = true

unfoldable pub same_types : List Ty → List Ty → Bool
unfolding same_type
same_types [] [] = true
same_types [] (b ∷ bs) = false
same_types (a ∷ xs) [] = false
same_types (a ∷ xs) (b ∷ bs) = same_type a b && same_types xs bs

unfoldable pub same : Signature → Signature → Bool
unfolding same_types
same a b = same_types a.params b.params && same_types a.returns b.returns

pub record Module : Type 0 where
  pub fork : Fork
  pub names : List Str
  pub sigs : List Signature
  pub funcs : List (Option Function)
  pub entry : Option Func

unfoldable pub new : Fork → Module
new fork = record { fork = fork; names = []; sigs = []; funcs = []; entry = none }

unfoldable pub declare : Module → Str → Signature → Module × Func
unfolding handle
declare m name sig = (
  record m {
    names = m.names ++ (name ∷ []);
    sigs = m.sigs ++ (sig ∷ []);
    funcs = m.funcs ++ (none ∷ []);
  },
  handle (length m.names),
)

unfoldable pub is_some {ℓ} : {A : Type ℓ} → Option A → Bool
is_some none = false
is_some (some a) = true

attach : Module → Func → Function → Option (Result IrError Module)
unfolding is_some
attach m func body = do
  old ← get_elem? m.funcs func
  name ← get_elem? m.names func
  some (
      if is_some old
      then err (IrError.already_defined func name)
      else ok (record m { funcs = set m.funcs func (some body) }))

unfoldable pub define : Module → Func → Function → Option (Result IrError Module)
unfolding same attach
define m func body = do
  sig ← get_elem? m.sigs func
  name ← get_elem? m.names func
  if same body.sig sig
      then attach m func body
      else some (err (IrError.signature_mismatch func name))

unfoldable pub set_entry : Module → Func → Module
set_entry m func = record m { entry = some func }

unfoldable pub signature : Module → Func → Option Signature
signature m func = get_elem? m.sigs func

unfoldable pub name_of : Module → Func → Option Str
name_of m func = get_elem? m.names func

-- The body, if there is one.
unfoldable pub get : Module → Func → Option (Option Function)
get m func = get_elem? m.funcs func

unfoldable pub len : Module → ℕ
len m = length m.names

unfoldable pub is_empty : Module → Bool
is_empty m = length m.names == 0

-- A write through the reference that `get_mut` returns.
unfoldable pub update_func : Module → Func → (Function → Function) → Option Module
update_func m func change = do
  body ← get_elem? m.funcs func
  some (record m { funcs = set m.funcs func (Option.map change body) })

unfoldable pub declared : Module → List Func
unfolding handles_from
declared m = handles_from 0 (length m.names)

unfoldable pub has_func : Module → Func → Bool
has_func m func = ltb func (length m.names)

abbrev pub Verdict : Type 0
Verdict = Result IrError (Unit {0})

-- The loop of `verify`, over `count` functions from `start` on.
unfoldable pub verify_from : Module → ℕ → ℕ → Option (Verdict)
unfolding get handle
verify_from m start zero = some (ok tt)
verify_from m start (suc count) = do
  body ← get m (handle start)
  elim body [
    | none ↦ do
      name ← get_elem? m.names (handle start)
      some (err (IrError.undefined (handle start) name))
    | some f ↦ verify_from m (start + 1) count
  ]

-- The end of `verify`.
unfoldable pub conclude : Verdict → Option Func → Verdict
conclude (err e) entry = err e
conclude (ok u) none = err IrError.no_entry
conclude (ok u) (some f) = ok u

unfoldable pub verify : Module → Option Verdict
unfolding verify_from conclude
verify m = do checked ← verify_from m 0 (length m.names); some (conclude checked m.entry)
