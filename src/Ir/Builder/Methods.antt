-- ===== src/Ir/Builder/Methods.antt =====
-- The methods of src/backend/evm-codegen/src/ir/builder.rs, one after the other.
use mathlib.Core.Path.{subst}
use rustevm.Base.{
  ℕ, ◌≡◌, refl, Option, none, some, List, [], ◌∷◌, ◌>>=◌, >>=-eq-some, some_eq, first_eq, get_elem?,
  replicate,
}
use rustevm.Ir.Builder.{FunctionBuilder, emit, fail}
use rustevm.Ir.Builder.Advances.{Allowed, Advances, fail-Advances, emit-Advances}
use rustevm.Ir.Builder.Ins.{
  Made, unary_op, Unary, unary, checked, Checked, checked_op, overflow, effect_op, convert, Store,
  write_op, write, memcopy, call, reserved, emit_opcode, raw_opcode, opcode, opcode_void,
}
use rustevm.Ir.Error.{IrError}
use rustevm.Ir.Func.{value_type, handle}
use rustevm.Ir.Inst.{Value, Func, Op, default_repair}
use rustevm.Ir.Types.{Ty, Repair, bool, u256, Signature}
use rustevm.Isa.{Str, OpSpec, by_mnemonic}

module _ (b b' : FunctionBuilder) where
  unary_op-Advances :
      (op : Op) (ty : Ty) (args : List Value) (v : Value)
      → unary_op b op ty args ≡ some (b', v)
      → Allowed op
      → Advances b b'
  unfolding unary_op
  unary_op-Advances op ty args v e allowed =
      let ((b1, vs), made, e1) =
        >>=-eq-some (emit b op ty (default_repair op ty) args (ty ∷ [])) _ e in
      let (r, there, e2) = >>=-eq-some (get_elem? vs 0) _ e1 in
      subst (Advances b) (first_eq e2) (emit-Advances b b1 op ty _ args _ vs made allowed)

  pub unary-Advances : (u : Unary) (v : Value) → unary b u ≡ some (b', v) → Advances b b'
  unfolding unary
  unary-Advances (Unary.iconst ty imm) v e = unary_op-Advances _ ty _ v e tt
  unary-Advances (Unary.add ty x y) v e = unary_op-Advances _ ty _ v e tt
  unary-Advances (Unary.sub ty x y) v e = unary_op-Advances _ ty _ v e tt
  unary-Advances (Unary.mul ty x y) v e = unary_op-Advances _ ty _ v e tt
  unary-Advances (Unary.div ty x y) v e = unary_op-Advances _ ty _ v e tt
  unary-Advances (Unary.rem ty x y) v e = unary_op-Advances _ ty _ v e tt
  unary-Advances (Unary.exp ty x y) v e = unary_op-Advances _ ty _ v e tt
  unary-Advances (Unary.and ty x y) v e = unary_op-Advances _ ty _ v e tt
  unary-Advances (Unary.or ty x y) v e = unary_op-Advances _ ty _ v e tt
  unary-Advances (Unary.xor ty x y) v e = unary_op-Advances _ ty _ v e tt
  unary-Advances (Unary.shl ty x y) v e = unary_op-Advances _ ty _ v e tt
  unary-Advances (Unary.shr ty x y) v e = unary_op-Advances _ ty _ v e tt
  unary-Advances (Unary.sar ty x y) v e = unary_op-Advances _ ty _ v e tt
  unary-Advances (Unary.not ty x) v e = unary_op-Advances _ ty _ v e tt
  unary-Advances (Unary.icmp c x y) v e = unary_op-Advances _ _ _ v e tt
  unary-Advances (Unary.select ty c x y) v e = unary_op-Advances _ ty _ v e tt
  unary-Advances (Unary.alloca n) v e = unary_op-Advances _ _ _ v e tt
  unary-Advances (Unary.load ty x) v e = unary_op-Advances _ ty _ v e tt
  unary-Advances (Unary.sload ty x) v e = unary_op-Advances _ ty _ v e tt
  unary-Advances (Unary.tload ty x) v e = unary_op-Advances _ ty _ v e tt

  checked-Advances :
      (op : Op) (ty : Ty) (x y : Value) (v : Value × Value)
      → checked b op ty x y ≡ some (b', v)
      → Allowed op
      → Advances b b'
  unfolding checked
  checked-Advances op ty x y v e allowed =
      let ((b1, vs), made, e1) = >>=-eq-some (emit b op ty _ _ (ty ∷ bool ∷ [])) _ e in
      let (r, there, e2) = >>=-eq-some (get_elem? vs 0) _ e1 in
      let (o, there', e3) = >>=-eq-some (get_elem? vs 1) _ e2 in
      subst (Advances b) (first_eq e3) (emit-Advances b b1 op ty _ _ _ vs made allowed)

  pub overflow-Advances :
      (c : Checked) (ty : Ty) (x y : Value) (v : Value × Value)
      → overflow b c ty x y ≡ some (b', v)
      → Advances b b'
  unfolding overflow checked_op
  overflow-Advances Checked.add_overflow ty x y v e = checked-Advances _ ty x y v e tt
  overflow-Advances Checked.sub_overflow ty x y v e = checked-Advances _ ty x y v e tt
  overflow-Advances Checked.mul_overflow ty x y v e = checked-Advances _ ty x y v e tt

  effect_op-Advances :
      (op : Op) (ty : Ty) (args : List Value)
      → effect_op b op ty args ≡ some b'
      → Allowed op
      → Advances b b'
  unfolding effect_op
  effect_op-Advances op ty args e allowed =
      let ((b1, vs), made, e1) = >>=-eq-some (emit b op ty Repair.none args []) _ e in
      subst (Advances b) (some_eq e1) (emit-Advances b b1 op ty _ args _ vs made allowed)

  pub convert-Advances :
      (to : Ty) (value v : Value) → convert b to value ≡ some (b', v) → Advances b b'
  unfolding convert
  convert-Advances to value v e =
      let (from, typed, e1) = >>=-eq-some (value_type b.func value) _ e in
      let ((b1, vs), made, e2) = >>=-eq-some (emit b Op.convert to _ _ (to ∷ [])) _ e1 in
      let (r, there, e3) = >>=-eq-some (get_elem? vs 0) _ e2 in
      subst (Advances b) (first_eq e3) (emit-Advances b b1 _ to _ _ _ vs made tt)

  write_op-Allowed : (kind : Store) → Allowed (write_op kind)
  unfolding write_op
  write_op-Allowed Store.store = tt
  write_op-Allowed Store.sstore = tt
  write_op-Allowed Store.tstore = tt

  pub write-Advances :
      (kind : Store) (place value : Value) → write b kind place value ≡ some b' → Advances b b'
  unfolding write
  write-Advances kind place value e =
      let (ty, typed, e1) = >>=-eq-some (value_type b.func value) _ e in
      effect_op-Advances (write_op kind) ty _ e1 (write_op-Allowed kind)

  pub memcopy-Advances : (dst src len : Value) → memcopy b dst src len ≡ some b' → Advances b b'
  unfolding memcopy
  memcopy-Advances dst src len e = effect_op-Advances _ _ _ e tt

  pub call-Advances :
      (callee : Func) (sig : Signature) (args vs : List Value)
      → call b callee sig args ≡ some (b', vs)
      → Advances b b'
  unfolding call
  call-Advances callee sig args vs e = emit-Advances b b' _ _ _ args _ vs e tt

module _ (b b' : FunctionBuilder) (spec : OpSpec) (ty : Ty) (args : List Value) (tys : List Ty)
    (r : Option (List Value)) where
  emitted-Advances :
      let made : Made (Option (List Value)) = do
        (b1, values) ← emit b (Op.opcode spec) ty Repair.none args tys
        some (b1, some values)
      in made ≡ some (b', r) → reserved spec ≡ none → Advances b b'
  emitted-Advances e allowed =
      let ((b1, vs), made, e1) =
        >>=-eq-some (emit b (Op.opcode spec) ty Repair.none args tys) _ e in
      subst (Advances b) (first_eq e1) (emit-Advances b b1 _ ty _ args tys vs made allowed)

  reserved-Advances :
      (reason : Option Str) (emitted : Made (Option (List Value)))
      → let made : Made (Option (List Value)) = elim reason [
        | some why ↦ some (fail b (IrError.reserved_opcode spec.mnemonic why), none)
        | none ↦ emitted
      ] in
        made ≡ some (b', r)
        → (emitted ≡ some (b', r) → reason ≡ none → Advances b b')
        → Advances b b'
  reserved-Advances (some why) emitted e k = subst (Advances b) (first_eq e) (fail-Advances b _)
  reserved-Advances none emitted e k = k e refl

emit_opcode-Advances :
    (b b' : FunctionBuilder) (spec : OpSpec) (ty : Ty) (args : List Value) (results : ℕ)
    (r : Option (List Value))
    → emit_opcode b spec ty args results ≡ some (b', r)
    → Advances b b'
unfolding emit_opcode
emit_opcode-Advances b b' spec ty args results r e =
    reserved-Advances b b' spec ty args [] r (reserved spec) _ e
      (emitted-Advances b b' spec ty args (replicate results ty) r)

known-Advances :
    (b b' : FunctionBuilder) (mnemonic : Str) (row : Option OpSpec)
    (emitted : OpSpec → Made (Option (List Value))) (r : Option (List Value))
    → let made : Made (Option (List Value)) = elim row [
      | none ↦ some (fail b (IrError.unknown_mnemonic mnemonic), none)
      | some spec ↦ emitted spec
    ] in
      made ≡ some (b', r)
      → ((spec : OpSpec) → emitted spec ≡ some (b', r) → Advances b b')
      → Advances b b'
known-Advances b b' mnemonic none emitted r e k =
    subst (Advances b) (first_eq e) (fail-Advances b _)
known-Advances b b' mnemonic (some spec) emitted r e k = k spec e

raw_opcode-Advances :
    (b b' : FunctionBuilder) (mnemonic : Str) (ty : Ty) (args : List Value) (results : ℕ)
    (r : Option (List Value))
    → raw_opcode b mnemonic ty args results ≡ some (b', r)
    → Advances b b'
unfolding raw_opcode
raw_opcode-Advances b b' mnemonic ty args results r e =
    known-Advances b b' mnemonic (by_mnemonic mnemonic) (λ spec. emit_opcode b spec ty args results)
      r e (λ spec h. emit_opcode-Advances b b' spec ty args results r h)

pub opcode-Advances :
    (b b' : FunctionBuilder) (mnemonic : Str) (ty : Ty) (args : List Value) (v : Value)
    → opcode b mnemonic ty args ≡ some (b', v)
    → Advances b b'
unfolding opcode
opcode-Advances b b' mnemonic ty args v e =
    let ((b1, made), raw, e1) = >>=-eq-some (raw_opcode b mnemonic ty args 1) _ e in
    let (result, there, e2) =
      >>=-eq-some (elim made [ some rs ↦ get_elem? rs 0 | none ↦ some (handle 0) ]) _ e1 in
    subst (Advances b) (first_eq e2) (raw_opcode-Advances b b1 mnemonic ty args 1 made raw)

pub opcode_void-Advances :
    (b b' : FunctionBuilder) (mnemonic : Str) (args : List Value)
    → opcode_void b mnemonic args ≡ some b'
    → Advances b b'
unfolding opcode_void
opcode_void-Advances b b' mnemonic args e =
    let ((b1, made), raw, e1) = >>=-eq-some (raw_opcode b mnemonic u256 args 0) _ e in
    subst (Advances b) (some_eq e1) (raw_opcode-Advances b b1 mnemonic u256 args 0 made raw)
