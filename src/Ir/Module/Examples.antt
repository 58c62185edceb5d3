-- ===== src/Ir/Module/Examples.antt =====
-- A module of src/backend/evm-codegen/src/ir/module.rs with two functions.
use rustevm.Base.{◌≡◌, ◌↔◌, refl, arith, none, some, List, [], ◌∷◌}
use rustevm.Ir.Func.{Function, handle}
use rustevm.Ir.Func.Params.{entry_only}
use rustevm.Ir.Module.{
  Module, new, verify, len, declare, define, attach, same, same_types, same_type, is_some,
  set_entry, update_func,
}
use rustevm.Ir.Module.Declared.{Call, run, step}
use rustevm.Ir.Module.Verified.{verify_iff, IsComplete, passed}
use rustevm.Ir.Types.{u256, Signature}
use rustevm.Isa.{bytes, cancun}

abbrev sig : Signature
sig = record { params = u256 ∷ []; returns = [] }

abbrev body : Function
body = entry_only (bytes "f") sig [] []

abbrev renamed : Function → Function
renamed f = record f { name = bytes "h" }

abbrev calls : List Call
calls =
    Call.declare (bytes "f") sig
    ∷ Call.declare (bytes "g") sig
    ∷ Call.define 0 body
    ∷ Call.set_entry 0
    ∷ Call.get_mut 0 renamed
    ∷ []

abbrev half : Module
half = record {
  fork = cancun;
  names = bytes "f" ∷ bytes "g" ∷ [];
  sigs = sig ∷ sig ∷ [];
  funcs = some (renamed body) ∷ none ∷ [];
  entry = some 0;
}

calls-run : run calls (new cancun) ≡ some half
unfolding run step update_func new declare define attach same same_types same_type is_some set_entry
    handle
calls-run = refl

verify_iff_example : (verify half ≡ passed) ↔ IsComplete half
unfolding len
verify_iff_example =
    verify_iff cancun calls half (tt, (tt, (tt, (tt, (λ f. refl, tt))))) calls-run (omega arith)
