-- ===== src/Ir/Builder/Finished.antt =====
-- What a program of calls on the builder of src/backend/evm-codegen/src/ir/builder.rs keeps, and what
-- `finish` hands out.
use mathlib.Core.Path.{subst}
use rustevm.Base.{
  ℕ, zero, suc, ◌≡◌, refl, Option, none, some, List, [], ◌∷◌, ◌>>=◌, >>=-eq-some, some_eq, first_eq,
  get_elem?, err,
}
use rustevm.Ir.Builder
use rustevm.Ir.Builder.{FunctionBuilder, finish, new}
use rustevm.Ir.Builder.Advances.{
  Allowed, Advances, Advances-refl, Advances-trans, func-Advances, terminate-Advances,
}
use rustevm.Ir.Builder.Methods.{
  unary-Advances, overflow-Advances, convert-Advances, write-Advances, memcopy-Advances,
  call-Advances, opcode-Advances, opcode_void-Advances,
}
use rustevm.Ir.Builder.Ins.{Made}
use rustevm.Ir.Builder.Run.{Call, after, step, run}
use rustevm.Ir.Error.{IrError}
use rustevm.Ir.Func
use rustevm.Ir.Func.{Function, BlockData}
use rustevm.Ir.Func.Grows.{
  Grows-refl, Grows-trans, create_block-Grows, append_params-Grows, set_block_kind-Grows,
  set_note-Grows,
}
use rustevm.Ir.Func.Kept.{AllKept, Kept}
use rustevm.Ir.Inst.{Inst, Block, Terminator}
use rustevm.Ir.Types.{Ty, Signature}
use rustevm.Isa.{Str}

after-Advances :
    {A : Type 0} (b b' : FunctionBuilder) (made : Made A)
    → after made ≡ some b'
    → ((b1 : FunctionBuilder) (v : A) → made ≡ some (b1, v) → Advances b b1)
    → Advances b b'
unfolding after
after-Advances b b' made e k =
    let ((b1, v), done, e1) = >>=-eq-some made _ e in subst (Advances b) (some_eq e1) (k b1 v done)

note_last-Advances :
    (b b' : FunctionBuilder) (text : Str) (last : Option Inst)
    → let noted : Option FunctionBuilder = elim last [
      | none ↦ some b
      | some inst ↦ do func ← Func.set_note b.func inst text; some (record b { func = func })
    ] in
      noted ≡ some b' → Advances b b'
note_last-Advances b b' text none e = subst (Advances b) (some_eq e) (Advances-refl b)
note_last-Advances b b' text (some inst) e =
    let (func, made, e1) = >>=-eq-some (Func.set_note b.func inst text) _ e in
    subst (Advances b) (some_eq e1)
      (func-Advances b func (set_note-Grows Allowed b.func func inst text made))

create_block_with-Advances :
    (b b' : FunctionBuilder) (params : List Ty) (block : Block)
    → Builder.create_block_with b params ≡ some (b', block)
    → Advances b b'
unfolding Builder.create_block_with
create_block_with-Advances b b' params block e =
    let (func, made, e1) =
      >>=-eq-some
        (Func.append_params (Func.create_block b.func).0 (Func.create_block b.func).1 params) _ e in
    subst (Advances b) (first_eq e1) (
      func-Advances b func (
        Grows-trans Allowed b.func _ func (create_block-Grows Allowed b.func)
          (append_params-Grows Allowed _ func _ params made)))

step-Advances : (c : Call) (b b' : FunctionBuilder) → step c b ≡ some b' → Advances b b'
unfolding step
step-Advances Call.create_block b b' e =
    subst (Advances b) (some_eq e)
      (unfold Builder.create_block in (func-Advances b _ (create_block-Grows Allowed b.func)))
step-Advances (Call.create_block_with params) b b' e =
    after-Advances b b' _ e (λ b1 block made. create_block_with-Advances b b1 params block made)
step-Advances (Call.set_block_kind block kind) b b' e =
    unfold Builder.set_block_kind in
    let (func, made, e1) = >>=-eq-some (Func.set_block_kind b.func block kind) _ e in
    subst (Advances b) (some_eq e1)
      (func-Advances b func (set_block_kind-Grows Allowed b.func func block kind made))
step-Advances (Call.switch_to block) b b' e =
    subst (Advances b) (some_eq e)
      (unfold Builder.switch_to in (record { func = Grows-refl Allowed b.func; error = λ x h. h }))
step-Advances (Call.note text) b b' e =
    unfold Builder.note in (note_last-Advances b b' text b.last e)
step-Advances (Call.terminate term) b b' e = terminate-Advances b b' term e
step-Advances (Call.unary u) b b' e =
    after-Advances b b' _ e (λ b1 v made. unary-Advances b b1 u v made)
step-Advances (Call.overflow c ty x y) b b' e =
    after-Advances b b' _ e (λ b1 v made. overflow-Advances b b1 c ty x y v made)
step-Advances (Call.convert to value) b b' e =
    after-Advances b b' _ e (λ b1 v made. convert-Advances b b1 to value v made)
step-Advances (Call.write kind place value) b b' e = write-Advances b b' kind place value e
step-Advances (Call.memcopy dst src len) b b' e = memcopy-Advances b b' dst src len e
step-Advances (Call.call callee sig args) b b' e =
    after-Advances b b' _ e (λ b1 vs made. call-Advances b b1 callee sig args vs made)
step-Advances (Call.opcode mnemonic ty args) b b' e =
    after-Advances b b' _ e (λ b1 v made. opcode-Advances b b1 mnemonic ty args v made)
step-Advances (Call.opcode_void mnemonic args) b b' e = opcode_void-Advances b b' mnemonic args e

pub run-Advances :
    (calls : List Call) (b b' : FunctionBuilder) → run calls b ≡ some b' → Advances b b'
unfolding run
run-Advances [] b b' e = subst (Advances b) (some_eq e) (Advances-refl b)
run-Advances (c ∷ calls) b b' e =
    let (b1, made, e1) = >>=-eq-some (step c b) _ e in
    Advances-trans b b1 b' (step-Advances c b b1 made) (run-Advances calls b1 b' e1)

-- After an error, further calls that do not panic leave it to `finish`, which returns that error.
pub finish-run_error :
    (calls : List Call) (b b' : FunctionBuilder) (e : IrError)
    → b.error ≡ some e
    → run calls b ≡ some b'
    → finish b' ≡ err e
unfolding finish
finish-run_error calls b b' e failed ran = rw ((run-Advances calls b b' ran).error e failed) refl

AllKept-get_elem? :
    (olds news : List BlockData) (i : ℕ) (old : BlockData)
    → AllKept olds news
    → get_elem? olds i ≡ some old
    → (new : BlockData) × (get_elem? news i ≡ some new) × Kept old new
AllKept-get_elem? [] news i old h e = cc
AllKept-get_elem? (x ∷ olds) (y ∷ news) zero old (h, hs) e =
    let e' : x ≡ old = cc e in (y, refl, subst (λ z. Kept z y) e' h)
AllKept-get_elem? (x ∷ olds) (y ∷ news) (suc i) old (h, hs) e =
    AllKept-get_elem? olds news i old hs e
AllKept-get_elem? (x ∷ olds) [] i old h e = absurd h

-- A block that has its terminator keeps it, and takes no further instruction, whatever calls that do
-- not panic follow.
pub run-ended_block :
    (calls : List Call) (b b' : FunctionBuilder) (block : Block) (old : BlockData) (t : Terminator)
    → run calls b ≡ some b'
    → get_elem? b.func.blocks block ≡ some old
    → old.term ≡ some t
    → (new : BlockData) × (get_elem? b'.func.blocks block ≡ some new)
      × (new.term ≡ some t)
      × (new.insts ≡ old.insts)
run-ended_block calls b b' block old t ran found ended =
    let kept = (run-Advances calls b b' ran).func.blocks in
    let (new, there, k) = AllKept-get_elem? b.func.blocks b'.func.blocks block old kept found in
    let (term, insts) = k t ended in (new, there, term, insts)

-- What a function body is before it has a block.
abbrev bare : Str → Signature → Function
bare name sig = record { name = name; sig = sig; entry = 0; insts = []; values = []; blocks = [] }
