-- ===== src/Ir/Func/Fresh.antt =====
-- What `append_inst` of src/backend/evm-codegen/src/ir/func.rs adds to the arenas.
use mathlib.Core.List.{append-nil, append_assoc}
use native.Mathlib.Nat.{mod-eq_of_lt}
use rustevm.Base.{
  ℕ, ◌+◌, ◌%◌, ◌^◌, ◌≤◌, ◌<◌, ◌≡◌, refl, sym, ap, ◌∙◌, Option, some, List, [], ◌∷◌, ◌++◌, ◌>>=◌,
  arith, length, length-append, get_elem?, set, get_elem?-length_append,
}
use rustevm.Ir.Func.{
  Function, ValueData, ValueDef, BlockData, append_inst, push_results, push_value, update_inst,
  update_block, add_inst, add_result, handle, narrow_index,
}
use rustevm.Ir.Func.Params.{count_from}
use rustevm.Ir.Inst.{Value, Inst, Block, InstData}
use rustevm.Ir.Types.{Ty}

-- The arena's entries for the results of an instruction, from the index `index` on.
abbrev pub result_values : Inst → ℕ → List Ty → List ValueData
result_values inst index [] = []
result_values inst index (ty ∷ tys) =
    record { ty = ty; def = ValueDef.result inst index } ∷ result_values inst (index + 1) tys

set-last :
    {A : Type 0} (xs : List A) (x y : A) → set (xs ++ (x ∷ [])) (length xs) y ≡ xs ++ (y ∷ [])
set-last [] x y = refl
set-last (a ∷ xs) x y = ap (λ r. a ∷ r) (set-last xs x y)

-- A body whose last instruction is under construction.
abbrev pub building : Function → List InstData → InstData → List Value → List ValueData → Function
building f insts d ids values = record f {
  insts = insts ++ (record d { results = ids } ∷ []);
  values = values;
}

module _ (f : Function) (insts : List InstData) (d : InstData) where
  push_result-building :
      (ids : List Value) (values : List ValueData) (index : ℕ) (ty : Ty)
      → index < 2 ^ 16
      → length values < 2 ^ 32
      → update_inst
          (push_value
            (building f insts d ids values)
            (record { ty = ty; def = ValueDef.result (length insts) (narrow_index index) })).0
          (length insts)
          (add_result
            (push_value
              (building f insts d ids values)
              (record { ty = ty; def = ValueDef.result (length insts) (narrow_index index) })).1)
        ≡ some (
            building f insts d
              (ids ++ (length values ∷ []))
              (values ++ (record { ty = ty; def = ValueDef.result (length insts) index } ∷ [])))
  unfolding update_inst push_value add_result narrow_index handle
  push_result-building ids values index ty hi hv =
      rw
        (
          get_elem?-length_append insts (record d { results = ids }) [],
          set-last insts (record d { results = ids })
              (record d { results = ids ++ (length values % 2 ^ 32 ∷ []) }),
          small_index,
          small_value,
        )
        refl
    where
      small_index : index % 2 ^ 16 ≡ index
      small_index = mod-eq_of_lt hi

      small_value : length values % 2 ^ 32 ≡ length values
      small_value = mod-eq_of_lt hv

  push_results-building :
      (tys : List Ty) (ids : List Value) (values : List ValueData) (index : ℕ)
      → index + length tys ≤ 2 ^ 16
      → length values + length tys ≤ 2 ^ 32
      → push_results (building f insts d ids values) (length insts) index tys
        ≡ some (
            building f insts d
              (ids ++ count_from (length values) tys)
              (values ++ result_values (length insts) index tys))
  unfolding push_results
  push_results-building [] ids values index hi hv =
      λ i. some (building f insts d (sym (append-nil ids) i) (sym (append-nil values) i))
  push_results-building (ty ∷ tys) ids values index hi hv =
      ap (λ (o : Option Function). do g ← o; push_results g (length insts) (index + 1) tys)
        (push_result-building ids values index ty (omega arith) (omega arith))
      ∙ push_results-building tys (ids ++ (length values ∷ [])) (values ++ (result_value ∷ []))
          (index + 1) (omega arith) (omega (arith, length-append values (result_value ∷ [])))
      ∙ (λ i. some (building f insts d (more_ids i) (more_values i)))
    where
      result_value : ValueData
      result_value = record { ty = ty; def = ValueDef.result (length insts) index }

      next : length (values ++ (result_value ∷ [])) ≡ length values + 1
      next = length-append values (result_value ∷ [])

      more_ids :
          (ids ++ (length values ∷ [])) ++ count_from (length (values ++ (result_value ∷ []))) tys
          ≡ ids ++ count_from (length values) (ty ∷ tys)
      more_ids = append_assoc ids _ _ ∙ ap (λ k. ids ++ (length values ∷ count_from k tys)) next

      more_values :
          (values ++ (result_value ∷ [])) ++ result_values (length insts) (index + 1) tys
          ≡ values ++ result_values (length insts) index (ty ∷ tys)
      more_values = append_assoc values _ _

-- In a block that exists, and while handles and indices fit their widths, an instruction is appended
-- without a panic: it comes last in the arena and in the block, with one fresh value for each result,
-- in order and of the result's type, and nothing else changes.
pub append_inst-fresh :
    (f : Function) (block : Block) (old : BlockData) (d : InstData) (tys : List Ty)
    → get_elem? f.blocks block ≡ some old
    → length f.insts < 2 ^ 32
    → length tys ≤ 2 ^ 16
    → length f.values + length tys ≤ 2 ^ 32
    → append_inst f block d tys
      ≡ some (
        record f {
          insts = f.insts ++ (record d { results = count_from (length f.values) tys } ∷ []);
          values = f.values ++ result_values (length f.insts) 0 tys;
          blocks = set f.blocks block (record old { insts = old.insts ++ (length f.insts ∷ []) });
        },
        length f.insts,
      )
unfolding append_inst handle
append_inst-fresh f block old d tys found hi ht hv = rw small (
    ap
      (λ (o : Option Function). do
        g ← o
        h ← update_block g block (add_inst (length f.insts))
        some (h, length f.insts))
      (push_results-building f f.insts d tys [] f.values 0 (omega arith) hv)
    ∙ unfold update_block add_inst in (rw found refl))
  where
    small : length f.insts % 2 ^ 32 ≡ length f.insts
    small = mod-eq_of_lt hi
