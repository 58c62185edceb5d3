-- ===== src/Ir/Func/Kept.antt =====
-- Blocks of src/backend/evm-codegen/src/ir/func.rs that have their terminator.
use mathlib.Core.Path.{subst}
use rustevm.Base.{
  ℕ, zero, suc, ◌+◌, ◌≡◌, refl, sym, ap, ◌∙◌, none, some, List, [], ◌∷◌, ◌++◌, >>=-eq-some, some_eq,
  get_elem?, set,
}
use rustevm.Ir.Func.{Function, BlockData, push_value, update_inst, push_results, terminator}
use rustevm.Ir.Inst.{Inst, Block, InstData, Terminator}
use rustevm.Ir.Types.{Ty}

-- A block that has ended stays as it is.
abbrev pub Kept : BlockData → BlockData → Type 0
Kept old new = (t : Terminator) → old.term ≡ some t → (new.term ≡ some t) × (new.insts ≡ old.insts)

abbrev pub AllKept : List BlockData → List BlockData → Type 0
AllKept [] news = Unit
AllKept (old ∷ olds) (new ∷ news) = Kept old new × AllKept olds news
AllKept (old ∷ olds) [] = ⊥

pub AllKept-append : (bs more : List BlockData) → AllKept bs (bs ++ more)
AllKept-append [] more = tt
AllKept-append (b ∷ bs) more = (λ t e. (e, refl), AllKept-append bs more)

pub AllKept-refl : (bs : List BlockData) → AllKept bs bs
AllKept-refl [] = tt
AllKept-refl (b ∷ bs) = (λ t e. (e, refl), AllKept-refl bs)

pub AllKept-trans : (xs bs cs : List BlockData) → AllKept xs bs → AllKept bs cs → AllKept xs cs
AllKept-trans [] bs cs h k = tt
AllKept-trans (a ∷ xs) (b ∷ bs) (c ∷ cs) (h, hs) (k, ks) = (
  λ t e. let (term, insts) = h t e in let (term', insts') = k t term in (term', insts' ∙ insts),
  AllKept-trans xs bs cs hs ks,
)
AllKept-trans (a ∷ xs) [] cs h k = absurd h
AllKept-trans (a ∷ xs) (b ∷ bs) [] h k = absurd k

pub AllKept-set :
    (bs : List BlockData) (i : ℕ) (old new : BlockData)
    → get_elem? bs i ≡ some old
    → Kept old new
    → AllKept bs (set bs i new)
AllKept-set [] i old new e k = tt
AllKept-set (b ∷ bs) zero old new e k =
    let e' : b ≡ old = cc e in (subst (λ x. Kept x new) (sym e') k, AllKept-refl bs)
AllKept-set (b ∷ bs) (suc i) old new e k = (λ t h. (h, refl), AllKept-set bs i old new e k)

none_ne {ℓ} : {A : Type ℓ} {x : A} → ¬ (none ≡ some x)
none_ne e = cc

update_inst-blocks :
    (f f' : Function) (inst : Inst) (change : InstData → InstData)
    → update_inst f inst change ≡ some f'
    → f'.blocks ≡ f.blocks
unfolding update_inst
update_inst-blocks f f' inst change e =
    let (old, found, e') = >>=-eq-some (get_elem? f.insts inst) _ e in
    ap (λ (g : Function). g.blocks) (sym (some_eq e'))

pub push_results-blocks :
    (f f' : Function) (inst : Inst) (index : ℕ) (tys : List Ty)
    → push_results f inst index tys ≡ some f'
    → f'.blocks ≡ f.blocks
unfolding push_results push_value
push_results-blocks f f' inst index [] e = ap (λ (g : Function). g.blocks) (sym (some_eq e))
push_results-blocks f f' inst index (ty ∷ tys) e =
    let (f1, made, e1) = >>=-eq-some (update_inst _ inst _) _ e in
    push_results-blocks f1 f' inst (index + 1) tys e1 ∙ update_inst-blocks _ f1 inst _ made

-- An open block may take an instruction or a terminator.
pub open_block-Kept :
    (f : Function) (block : Block) (old new : BlockData)
    → terminator f block ≡ some none
    → get_elem? f.blocks block ≡ some old
    → Kept old new
unfolding terminator
open_block-Kept f block old new fresh found t e =
    let (b, there, e1) = >>=-eq-some (get_elem? f.blocks block) _ fresh in
    let same : b ≡ old = some_eq (sym there ∙ found) in
    absurd (none_ne (sym (some_eq e1) ∙ ap (λ (x : BlockData). x.term) same ∙ e))
