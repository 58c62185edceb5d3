-- ===== src/Ir/Func/Grows.antt =====
-- What every change of a function body keeps: src/backend/evm-codegen/src/ir/func.rs.
use mathlib.Core.Path.{subst}
use rustevm.Base.{
  ℕ, zero, suc, ◌+◌, ◌≡◌, refl, sym, ap, ◌∙◌, none, some, List, [], ◌∷◌, ◌++◌, >>=-eq-some, some_eq,
  first_eq, All, All-append, get_elem?, set, length,
}
use rustevm.Ir.Func.{
  Function, BlockData, ValueData, default_block, create_block, push_value, update_block,
  update_inst, append_param, append_params, push_results, append_inst, add_param, add_inst,
  add_result, terminator, handle, BlockKind, end_with, with_kind, with_note, set_terminator,
  set_block_kind, set_note,
}
use rustevm.Ir.Func.Kept.{
  Kept, AllKept, AllKept-append, AllKept-refl, AllKept-trans, AllKept-set, push_results-blocks,
  open_block-Kept,
}
use rustevm.Ir.Inst.{Value, Inst, Block, InstData, Op, Terminator}
use rustevm.Ir.Types.{Ty}
use rustevm.Isa.{Str}

module _ (Allowed : Op → Type 0) where
  abbrev pub AllAllowed : List InstData → Type 0
  AllAllowed insts = All (λ d. Allowed d.op) insts

  -- Ended blocks stay, the signature stays, and so does a property of every operation.
  pub record Grows (f f' : Function) : Type 0 where
    pub blocks : AllKept f.blocks f'.blocks
    pub sig : f'.sig ≡ f.sig
    pub insts : AllAllowed f.insts → AllAllowed f'.insts

  pub Grows-refl : (f : Function) → Grows f f
  Grows-refl f = record { blocks = AllKept-refl f.blocks; sig = refl; insts = λ h. h }

  pub Grows-trans : (f g h : Function) → Grows f g → Grows g h → Grows f h
  Grows-trans f g h k l = record {
    blocks = AllKept-trans f.blocks g.blocks h.blocks k.blocks l.blocks;
    sig = l.sig ∙ k.sig;
    insts = λ a. l.insts (k.insts a);
  }

  pub create_block-Grows : (f : Function) → Grows f (create_block f).0
  unfolding create_block
  create_block-Grows f = record {
    blocks = AllKept-append f.blocks (default_block ∷ []);
    sig = refl;
    insts = λ h. h;
  }

  push_value-Grows : (f : Function) (d : ValueData) → Grows f (push_value f d).0
  unfolding push_value
  push_value-Grows f d = record { blocks = AllKept-refl f.blocks; sig = refl; insts = λ h. h }

  pub update_block-Grows :
      (f f' : Function) (block : Block) (change : BlockData → BlockData)
      → update_block f block change ≡ some f'
      → ((old : BlockData) → get_elem? f.blocks block ≡ some old → Kept old (change old))
      → Grows f f'
  unfolding update_block
  update_block-Grows f f' block change e k =
      let (old, found, e') = >>=-eq-some (get_elem? f.blocks block) _ e in
      subst (Grows f) (some_eq e') (record {
        blocks = AllKept-set f.blocks block old (change old) found (k old found);
        sig = refl;
        insts = λ h. h;
      })

  AllAllowed-set :
      (ds : List InstData) (i : ℕ) (new : InstData)
      → (Allowed new.op)
      → AllAllowed ds
      → AllAllowed (set ds i new)
  AllAllowed-set [] i new k h = tt
  AllAllowed-set (d ∷ ds) zero new k (h, hs) = (k, hs)
  AllAllowed-set (d ∷ ds) (suc i) new k (h, hs) = (h, AllAllowed-set ds i new k hs)

  AllAllowed-get_elem? :
      (ds : List InstData) (i : ℕ) (d : InstData)
      → get_elem? ds i ≡ some d
      → AllAllowed ds
      → Allowed d.op
  AllAllowed-get_elem? [] i d e h = cc
  AllAllowed-get_elem? (x ∷ ds) zero d e (h, hs) =
      let e' : x ≡ d = cc e in subst (λ (y : InstData). Allowed y.op) e' h
  AllAllowed-get_elem? (x ∷ ds) (suc i) d e (h, hs) = AllAllowed-get_elem? ds i d e hs

  pub update_inst-Grows :
      (f f' : Function) (inst : Inst) (change : InstData → InstData)
      → update_inst f inst change ≡ some f'
      → ((old : InstData) → (change old).op ≡ old.op)
      → Grows f f'
  unfolding update_inst
  update_inst-Grows f f' inst change e k =
      let (old, found, e') = >>=-eq-some (get_elem? f.insts inst) _ e in
      subst (Grows f) (some_eq e') (record {
        blocks = AllKept-refl f.blocks;
        sig = refl;
        insts = λ h.
            AllAllowed-set f.insts inst (change old)
              (subst Allowed (sym (k old)) (AllAllowed-get_elem? f.insts inst old found h)) h;
      })

  push_param-Grows :
      (f f' : Function) (d : ValueData) (block : Block) (v : Value)
      → update_block (push_value f d).0 block (add_param v) ≡ some f'
      → Grows f f'
  unfolding add_param
  push_param-Grows f f' d block v e =
      Grows-trans f (push_value f d).0 f' (push_value-Grows f d) (
        update_block-Grows (push_value f d).0 f' block (add_param v) e (λ old found t h. (h, refl)))

  pub append_param-Grows :
      (f f' : Function) (block : Block) (ty : Ty) (v : Value)
      → append_param f block ty ≡ some (f', v)
      → Grows f f'
  unfolding append_param
  append_param-Grows f f' block ty v e =
      let (old, found, e1) = >>=-eq-some (get_elem? f.blocks block) _ e in
      let (f2, changed, e2) = >>=-eq-some (update_block _ block _) _ e1 in
      subst (Grows f) (first_eq e2) (push_param-Grows f f2 _ block _ changed)

  pub append_params-Grows :
      (f f' : Function) (block : Block) (tys : List Ty)
      → append_params f block tys ≡ some f'
      → Grows f f'
  unfolding append_params
  append_params-Grows f f' block [] e = subst (Grows f) (some_eq e) (Grows-refl f)
  append_params-Grows f f' block (ty ∷ tys) e =
      let ((f1, v), made, e1) = >>=-eq-some (append_param f block ty) _ e in
      Grows-trans f f1 f' (append_param-Grows f f1 block ty v made)
        (append_params-Grows f1 f' block tys e1)

  push_result-Grows :
      (f f' : Function) (d : ValueData) (inst : Inst) (v : Value)
      → update_inst (push_value f d).0 inst (add_result v) ≡ some f'
      → Grows f f'
  unfolding add_result
  push_result-Grows f f' d inst v e =
      Grows-trans f (push_value f d).0 f' (push_value-Grows f d)
        (update_inst-Grows (push_value f d).0 f' inst (add_result v) e (λ old. refl))

  push_results-Grows :
      (f f' : Function) (inst : Inst) (index : ℕ) (tys : List Ty)
      → push_results f inst index tys ≡ some f'
      → Grows f f'
  unfolding push_results
  push_results-Grows f f' inst index [] e = subst (Grows f) (some_eq e) (Grows-refl f)
  push_results-Grows f f' inst index (ty ∷ tys) e =
      let (f1, made, e1) = >>=-eq-some (update_inst _ inst _) _ e in
      Grows-trans f f1 f' (push_result-Grows f f1 _ inst _ made)
        (push_results-Grows f1 f' inst (index + 1) tys e1)

  pub append_inst-Grows :
      (f f' : Function) (block : Block) (d : InstData) (tys : List Ty) (inst : Inst)
      → append_inst f block d tys ≡ some (f', inst)
      → Allowed d.op
      → terminator f block ≡ some none
      → Grows f f'
  unfolding append_inst
  append_inst-Grows f f' block d tys inst e allowed fresh =
      let (f1, made, e1) = >>=-eq-some (push_results _ _ 0 tys) _ e in
      let (f2, changed, e2) = >>=-eq-some (update_block f1 block _) _ e1 in
      let start : Grows f (record f { insts = f.insts ++ (record d { results = [] } ∷ []) }) =
        record {
          blocks = AllKept-refl f.blocks;
          sig = refl;
          insts = λ h. All-append (λ (x : InstData). Allowed x.op) f.insts _ h (allowed, tt);
        } in
      let before = push_results-blocks _ f1 _ 0 tys made in
      subst (Grows f) (first_eq e2) (
        Grows-trans f _ f2 start (
          Grows-trans _ f1 f2 (push_results-Grows _ f1 _ 0 tys made) (
            update_block-Grows f1 f2 block _ changed (λ old found.
              open_block-Kept f block old (add_inst (handle (length f.insts)) old) fresh
                (ap (λ bs. get_elem? bs block) (sym before) ∙ found)))))

  pub set_terminator-Grows :
      (f f' : Function) (block : Block) (term : Terminator)
      → set_terminator f block term ≡ some f'
      → terminator f block ≡ some none
      → Grows f f'
  unfolding set_terminator
  set_terminator-Grows f f' block term e fresh =
      update_block-Grows f f' block (end_with term) e
        (λ old found. open_block-Kept f block old (end_with term old) fresh found)

  pub set_block_kind-Grows :
      (f f' : Function) (block : Block) (kind : BlockKind)
      → set_block_kind f block kind ≡ some f'
      → Grows f f'
  unfolding set_block_kind with_kind
  set_block_kind-Grows f f' block kind e =
      update_block-Grows f f' block (with_kind kind) e (λ old found t h. (h, refl))

  pub set_note-Grows :
      (f f' : Function) (inst : Inst) (note : Str) → set_note f inst note ≡ some f' → Grows f f'
  unfolding set_note with_note
  set_note-Grows f f' inst note e = update_inst-Grows f f' inst (with_note note) e (λ old. refl)
