-- ===== src/Ir/Func/Params.antt =====
-- The calling convention that the head of src/backend/evm-codegen/src/ir/func.rs states.
use native.Mathlib.Nat.{mod-eq_of_lt}
use mathlib.Core.List.{append-nil, append_assoc}
use rustevm.Base.{
  ℕ, ◌+◌, ◌%◌, ◌^◌, ◌≤◌, ◌<◌, ◌≡◌, refl, sym, ap, ◌∙◌, Option, some, List, [], ◌∷◌, ◌++◌, ◌>>=◌,
  arith, length, length-append,
}
use rustevm.Ir.Func.{
  Function, ValueData, ValueDef, default_block, append_param, append_params, new, handle,
  narrow_index, create_block, push_value, update_block, add_param,
}
use rustevm.Ir.Inst.{Value}
use rustevm.Ir.Types.{Ty, Signature}
use rustevm.Isa.{Str}

-- The values `start`, `start + 1` and so on, one for each type.
abbrev pub count_from : ℕ → List Ty → List Value
count_from start [] = []
count_from start (ty ∷ tys) = start ∷ count_from (start + 1) tys

-- The arena's entries for parameters of the entry block.
abbrev pub param_values : ℕ → List Ty → List ValueData
param_values start [] = []
param_values start (ty ∷ tys) =
    record { ty = ty; def = ValueDef.param 0 start } ∷ param_values (start + 1) tys

module _ (name : Str) (sig : Signature) where
  -- A function that has an entry block and its parameters only.
  abbrev pub entry_only : List Value → List ValueData → Function
  entry_only params values = record {
    name = name;
    sig = sig;
    entry = 0;
    insts = [];
    values = values;
    blocks = record default_block { params = params } ∷ [];
  }

  append_param-entry :
      (params : List Value) (values : List ValueData) (ty : Ty)
      → length params ≡ length values
      → length params < 2 ^ 16
      → append_param (entry_only params values) 0 ty
        ≡ some (
          entry_only
              (params ++ (length values ∷ []))
              (values ++ (record { ty = ty; def = ValueDef.param 0 (length values) } ∷ [])),
          length values,
        )
  unfolding append_param push_value update_block add_param handle narrow_index
  append_param-entry params values ty same fit = rw (sym same, small_index, small_value) refl
    where
      small_index : length params % 2 ^ 16 ≡ length params
      small_index = mod-eq_of_lt fit

      small_value : length params % 2 ^ 32 ≡ length params
      small_value = mod-eq_of_lt (omega arith)

  append_params-entry :
      (tys : List Ty) (params : List Value) (values : List ValueData)
      → length params ≡ length values
      → length params + length tys ≤ 2 ^ 16
      → append_params (entry_only params values) 0 tys
        ≡ some (
            entry_only
              (params ++ count_from (length values) tys)
              (values ++ param_values (length values) tys))
  unfolding append_params
  append_params-entry [] params values same fit = rw (append-nil params, append-nil values) refl
  append_params-entry (ty ∷ tys) params values same fit =
      ap (λ (o : Option (Function × Value)). do (f', v) ← o; append_params f' 0 tys)
        (append_param-entry params values ty same (omega arith))
      ∙ append_params-entry tys (params ++ (length values ∷ [])) (values ++ (entry_value ∷ []))
          (omega (
            arith,
            length-append params (length values ∷ []),
            length-append values (entry_value ∷ []),
          ))
          (omega (arith, length-append params (length values ∷ [])))
      ∙ (λ i. some (entry_only (more_params i) (more_values i)))
    where
      entry_value : ValueData
      entry_value = record { ty = ty; def = ValueDef.param 0 (length values) }

      next : length (values ++ (entry_value ∷ [])) ≡ length values + 1
      next = length-append values (entry_value ∷ [])

      more_params :
          (params ++ (length values ∷ [])) ++ count_from (length (values ++ (entry_value ∷ []))) tys
          ≡ params ++ count_from (length values) (ty ∷ tys)
      more_params =
          append_assoc params _ _ ∙ ap (λ k. params ++ (length values ∷ count_from k tys)) next

      more_values :
          (values ++ (entry_value ∷ [])) ++ param_values (length (values ++ (entry_value ∷ []))) tys
          ≡ values ++ param_values (length values) (ty ∷ tys)
      more_values =
          append_assoc values _ _ ∙ ap (λ k. values ++ (entry_value ∷ param_values k tys)) next

-- Up to 2^16 parameters, a new function is made without a panic: its entry block is block 0, with one
-- parameter for each of the signature's; these are the values from 0 on, in order, each of the
-- signature's type, and the function holds nothing else.
pub new-entry_only :
    (name : Str) (sig : Signature)
    → length sig.params ≤ 2 ^ 16
    → new name sig
      ≡ some (entry_only name sig (count_from 0 sig.params) (param_values 0 sig.params))
unfolding new create_block handle
new-entry_only name sig fit = append_params-entry name sig sig.params [] [] refl (omega arith)
