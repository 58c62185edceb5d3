-- ===== src/Ir/Builder/Advances.antt =====
-- What every call on the builder of src/backend/evm-codegen/src/ir/builder.rs keeps.
use mathlib.Core.Path.{subst}
use rustevm.Base.{
  ◌≡◌, refl, ap, ◌∙◌, true, false, Option, none, some, List, >>=-eq-some, some_eq, first_eq,
  Bool-cases, length, inl, inr,
}
use rustevm.Ir.Builder.{
  FunctionBuilder, fail, emit, placeholder, emit_current, terminate_current, emit_into, append_to,
  terminate, end_block, close, is_terminated,
}
use rustevm.Ir.Builder.Ins.{reserved}
use rustevm.Ir.Error.{IrError}
use rustevm.Ir.Func.{Function, append_inst, terminator, results, set_terminator}
use rustevm.Ir.Func.Grows.{Grows, Grows-refl, Grows-trans, append_inst-Grows, set_terminator-Grows}
use rustevm.Ir.Inst.{Value, Block, InstData, Op, Terminator}
use rustevm.Ir.Types.{Ty, Repair}

-- A raw opcode is one that the intermediate representation does not keep to itself.
abbrev pub Allowed : Op → Type 0
Allowed (Op.opcode spec) = reserved spec ≡ none
Allowed _ = Unit

pub record Advances (b b' : FunctionBuilder) : Type 0 where
  pub func : Grows Allowed b.func b'.func
  pub error : (e : IrError) → b.error ≡ some e → b'.error ≡ some e

pub Advances-refl : (b : FunctionBuilder) → Advances b b
Advances-refl b = record { func = Grows-refl Allowed b.func; error = λ e h. h }

pub Advances-trans : (b c d : FunctionBuilder) → Advances b c → Advances c d → Advances b d
Advances-trans b c d h k = record {
  func = Grows-trans Allowed b.func c.func d.func h.func k.func;
  error = λ e x. k.error e (h.error e x);
}

pub fail-Advances : (b : FunctionBuilder) (e : IrError) → Advances b (fail b e)
unfolding fail
fail-Advances b e = record { func = Grows-refl Allowed b.func; error = λ x h. rw h refl }

append_to-Advances :
    (b b' : FunctionBuilder) (block : Block) (d : InstData) (tys : List Ty) (vs : List Value)
    → append_to b block d tys ≡ some (b', vs)
    → Allowed d.op
    → terminator b.func block ≡ some none
    → Advances b b'
unfolding append_to
append_to-Advances b b' block d tys vs e allowed fresh =
    let ((func, inst), made, e1) = >>=-eq-some (append_inst b.func block d tys) _ e in
    let (values, there, e2) = >>=-eq-some (results func inst) _ e1 in
    subst (Advances b) (first_eq e2) (record {
      func = append_inst-Grows Allowed b.func func block d tys inst made allowed fresh;
      error = λ x h. h;
    })

-- The block is open where `is_terminated` says so.
is_terminated-open :
    (f : Function) (block : Block)
    → is_terminated f block ≡ some false
    → terminator f block ≡ some none
unfolding is_terminated
is_terminated-open f block e =
    let (term, there, e1) = >>=-eq-some (terminator f block) _ e in
    there ∙ ap some (open_term term (some_eq e1))
  where
    open_term :
        (term : Option Terminator)
        → elim term [ none ↦ false | some t ↦ true ] ≡ false
        → term ≡ none
    open_term none h = refl
    open_term (some t) h = cc

emit_into-Advances :
    (b b' : FunctionBuilder) (block : Block) (d : InstData) (tys : List Ty) (vs : List Value)
    → emit_into b block d tys ≡ some (b', vs)
    → Allowed d.op
    → Advances b b'
unfolding emit_into
emit_into-Advances b b' block d tys vs e allowed =
    let (ended, there, e1) = >>=-eq-some (is_terminated b.func block) _ e in
    elim (Bool-cases ended) [
      | inl shut ↦
          subst (Advances b) (first_eq (rw shut at e1))
            (fail-Advances b (IrError.already_terminated block))
      | inr fresh ↦
          append_to-Advances b b' block d tys vs (rw fresh at e1) allowed
            (is_terminated-open b.func block (there ∙ ap some fresh))
    ]

module _ (b b' : FunctionBuilder) (d : InstData) (tys : List Ty) (vs late : List Value) where
  current-Advances :
      (current : Option Block)
      → let emitted : Option (FunctionBuilder × List Value) = elim current [
        | none ↦ some (fail b IrError.no_current_block, late)
        | some block ↦ emit_into b block d tys
      ] in
        emitted ≡ some (b', vs) → Allowed d.op → Advances b b'
  current-Advances none e allowed =
      subst (Advances b) (first_eq e) (fail-Advances b IrError.no_current_block)
  current-Advances (some block) e allowed = emit_into-Advances b b' block d tys vs e allowed

  error-Advances :
      (error : Option IrError)
      → let emitted : Option (FunctionBuilder × List Value) = elim error [
        | some x ↦ some (b, late)
        | none ↦ emit_current b d tys
      ] in
        emitted ≡ some (b', vs)
        → (emit_current b d tys ≡ some (b', vs) → Advances b b')
        → Advances b b'
  error-Advances (some x) e k = subst (Advances b) (first_eq e) (Advances-refl b)
  error-Advances none e k = k e

emit_current-Advances :
    (b b' : FunctionBuilder) (d : InstData) (tys : List Ty) (vs : List Value)
    → emit_current b d tys ≡ some (b', vs)
    → Allowed d.op
    → Advances b b'
unfolding emit_current
emit_current-Advances b b' d tys vs e allowed =
    current-Advances b b' d tys vs (placeholder (length tys)) b.current e allowed

pub emit-Advances :
    (b b' : FunctionBuilder) (op : Op) (ty : Ty) (repair : Repair) (args : List Value)
    (tys : List Ty) (vs : List Value)
    → emit b op ty repair args tys ≡ some (b', vs)
    → Allowed op
    → Advances b b'
unfolding emit
emit-Advances b b' op ty repair args tys vs e allowed =
    error-Advances b b' _ tys vs (placeholder (length tys)) b.error e
      (λ h. emit_current-Advances b b' _ tys vs h allowed)

close-Advances :
    (b b' : FunctionBuilder) (block : Block) (term : Terminator)
    → close b block term ≡ some b'
    → terminator b.func block ≡ some none
    → Advances b b'
unfolding close
close-Advances b b' block term e fresh =
    let (func, made, e1) = >>=-eq-some (set_terminator b.func block term) _ e in
    subst (Advances b) (some_eq e1) (record {
      func = set_terminator-Grows Allowed b.func func block term made fresh;
      error = λ x h. h;
    })

end_block-Advances :
    (b b' : FunctionBuilder) (block : Block) (term : Terminator)
    → end_block b block term ≡ some b'
    → Advances b b'
unfolding end_block
end_block-Advances b b' block term e =
    let (ended, there, e1) = >>=-eq-some (is_terminated b.func block) _ e in
    elim (Bool-cases ended) [
      | inl shut ↦
          subst (Advances b) (some_eq (rw shut at e1))
            (fail-Advances b (IrError.already_terminated block))
      | inr fresh ↦
          close-Advances b b' block term (rw fresh at e1)
            (is_terminated-open b.func block (there ∙ ap some fresh))
    ]

module _ (b b' : FunctionBuilder) (term : Terminator) where
  current_end-Advances :
      (current : Option Block)
      → let ended : Option FunctionBuilder = elim current [
        | none ↦ some (fail b IrError.no_current_block)
        | some block ↦ end_block b block term
      ] in
        ended ≡ some b' → Advances b b'
  current_end-Advances none e =
      subst (Advances b) (some_eq e) (fail-Advances b IrError.no_current_block)
  current_end-Advances (some block) e = end_block-Advances b b' block term e

  error_end-Advances :
      (error : Option IrError)
      → let ended : Option FunctionBuilder = elim error [
        | some x ↦ some b
        | none ↦ terminate_current b term
      ] in
        ended ≡ some b' → (terminate_current b term ≡ some b' → Advances b b') → Advances b b'
  error_end-Advances (some x) e k = subst (Advances b) (some_eq e) (Advances-refl b)
  error_end-Advances none e k = k e

pub terminate-Advances :
    (b b' : FunctionBuilder) (term : Terminator) → terminate b term ≡ some b' → Advances b b'
unfolding terminate terminate_current
terminate-Advances b b' term e =
    error_end-Advances b b' term b.error e (current_end-Advances b b' term b.current)

-- A change of the function that leaves the error alone.
pub func-Advances :
    (b : FunctionBuilder) (func : Function)
    → Grows Allowed b.func func
    → Advances b (record b { func = func })
func-Advances b func h = record { func = h; error = λ x k. k }
