-- ===== src/Ir/Module/Declared.antt =====
-- Programs of calls on a module of src/backend/evm-codegen/src/ir/module.rs, and the signatures of its
-- bodies.
use rustevm.Base.{
  zero, suc, All, ◌≡◌, refl, sym, ap, ◌∙◌, inl, inr, true, Option, none, some, List, [], ◌∷◌, ◌++◌,
  ◌>>=◌, >>=-eq-some, some_eq, Bool-cases, arith, length, get_elem?, set, Result, ok, err,
  same_bool_eq, ==_iff, length-append,
}
use mathlib.Core.Option
use mathlib.Core.Path.{subst}
use mathlib.Core.Bool.{and-eq-true_iff}
use rustevm.Ir.Error.{IrError}
use rustevm.Ir.Func.{Function}
use rustevm.Ir.Inst.{Func}
use rustevm.Ir.Module
use rustevm.Ir.Module.{
  Module, same_type, same_types, same, new, get, signature, is_some, verify_from, verify, attach,
}
use rustevm.Ir.Types.{IntTy, Ty, int, ptr, Signature}
use rustevm.Isa.{Str}

int_ty_eq : (a b : IntTy) → a.bits ≡ b.bits → a.signed ≡ b.signed → a ≡ b
int_ty_eq a b bits signed = λ i. record { bits = bits i; signed = signed i }

signature_eq : (a b : Signature) → a.params ≡ b.params → a.returns ≡ b.returns → a ≡ b
signature_eq a b params returns = λ i. record { params = params i; returns = returns i }

same_type_eq : (a b : Ty) → same_type a b ≡ true → a ≡ b
unfolding same_type
same_type_eq (int a) (int b) h =
    let (bits, signed) = (and-eq-true_iff _ _).0 h in
    ap int (int_ty_eq a b ((==_iff a.bits b.bits).0 bits) (same_bool_eq a.signed b.signed signed))
same_type_eq (int a) ptr h = cc
same_type_eq ptr (int b) h = cc
same_type_eq ptr ptr h = refl

same_types_eq : (a b : List Ty) → same_types a b ≡ true → a ≡ b
unfolding same_types
same_types_eq [] [] h = refl
same_types_eq [] (b ∷ bs) h = cc
same_types_eq (a ∷ xs) [] h = cc
same_types_eq (a ∷ xs) (b ∷ bs) h = ground (arith, same_type_eq a b, same_types_eq xs bs)

same_eq : (a b : Signature) → same a b ≡ true → a ≡ b
unfolding same
same_eq a b h =
    let (params, returns) = (and-eq-true_iff _ _).0 h in
    signature_eq a b (same_types_eq a.params b.params params)
      (same_types_eq a.returns b.returns returns)

pub data Call : Type 0 where
  declare : Str → Signature → Call
  define : Func → Function → Call
  set_entry : Func → Call
  get_mut : Func → (Function → Function) → Call

-- A call of `get_mut` comes with what its caller writes through the reference, if there is a body.
-- `define` leaves the module as it is where it returns an error.
unfoldable pub step : Call → Module → Option Module
step (declare name sig) m = some (Module.declare m name sig).0
step (define func body) m = do
  r ← Module.define m func body
  some (elim r [ ok m' ↦ m' | err e ↦ m ])
step (set_entry func) m = some (Module.set_entry m func)
step (get_mut func change) m = Module.update_func m func change

unfoldable pub run : List Call → Module → Option Module
run [] m = some m
run (call ∷ calls) m = do m' ← step call m; run calls m'

-- A function that is there has the signature that was declared.
abbrev pub Agrees : Signature → Option Function → Type 0
Agrees sig none = Unit
Agrees sig (some f) = f.sig ≡ sig

abbrev pub AllAgree : List Signature → List (Option Function) → Type 0
AllAgree [] [] = Unit
AllAgree (sig ∷ sigs) (f ∷ funcs) = Agrees sig f × AllAgree sigs funcs
AllAgree [] (f ∷ funcs) = ⊥
AllAgree (sig ∷ sigs) [] = ⊥

abbrev pub IsDeclared : Module → Type 0
IsDeclared m = (length m.names ≡ length m.sigs) × AllAgree m.sigs m.funcs

-- What is written through `get_mut` leaves the signature of the body as it is. The field is public.
abbrev pub KeepsSig : Call → Type 0
KeepsSig (get_mut func change) = (f : Function) → (change f).sig ≡ f.sig
KeepsSig (declare name sig) = Unit
KeepsSig (define func body) = Unit
KeepsSig (set_entry func) = Unit

AllAgree-snoc :
    (sigs : List Signature) (funcs : List (Option Function)) (sig : Signature)
    → AllAgree sigs funcs
    → AllAgree (sigs ++ (sig ∷ [])) (funcs ++ (none ∷ []))
AllAgree-snoc [] [] sig h = (tt, tt)
AllAgree-snoc (s ∷ sigs) (f ∷ funcs) sig (h, hs) = (h, AllAgree-snoc sigs funcs sig hs)
AllAgree-snoc [] (f ∷ funcs) sig h = absurd h
AllAgree-snoc (s ∷ sigs) [] sig h = absurd h

AllAgree-set :
    (sigs : List Signature) (funcs : List (Option Function)) (func : Func) (body : Function)
    → AllAgree sigs funcs
    → get_elem? sigs func ≡ some body.sig
    → AllAgree sigs (set funcs func (some body))
AllAgree-set [] [] func body h e = tt
AllAgree-set (s ∷ sigs) (f ∷ funcs) zero body (h, hs) e = (cc, hs)
AllAgree-set (s ∷ sigs) (f ∷ funcs) (suc func) body (h, hs) e =
    (h, AllAgree-set sigs funcs func body hs e)
AllAgree-set [] (f ∷ funcs) func body h e = absurd h
AllAgree-set (s ∷ sigs) [] func body h e = absurd h

AllAgree-change :
    (sigs : List Signature) (funcs : List (Option Function)) (func : Func)
    (change : Function → Function) (old : Option Function)
    → ((f : Function) → (change f).sig ≡ f.sig)
    → AllAgree sigs funcs
    → get_elem? funcs func ≡ some old
    → AllAgree sigs (set funcs func (Option.map change old))
AllAgree-change [] [] func change old keeps h e = cc
AllAgree-change (s ∷ sigs) (f ∷ funcs) zero change none keeps (h, hs) e = (tt, hs)
AllAgree-change (s ∷ sigs) (f ∷ funcs) zero change (some body) keeps (h, hs) e =
    let e' : f ≡ some body = cc e in (keeps body ∙ subst (Agrees s) e' h, hs)
AllAgree-change (s ∷ sigs) (f ∷ funcs) (suc func) change old keeps (h, hs) e =
    (h, AllAgree-change sigs funcs func change old keeps hs e)
AllAgree-change [] (f ∷ funcs) func change old keeps h e = absurd h
AllAgree-change (s ∷ sigs) [] func change old keeps h e = absurd h

pub AllAgree-length :
    (sigs : List Signature) (funcs : List (Option Function))
    → AllAgree sigs funcs
    → length sigs ≡ length funcs
AllAgree-length [] [] h = refl
AllAgree-length (s ∷ sigs) (f ∷ funcs) (h, hs) = ap suc (AllAgree-length sigs funcs hs)
AllAgree-length [] (f ∷ funcs) h = absurd h
AllAgree-length (s ∷ sigs) [] h = absurd h

pub AllAgree-get_elem? :
    (sigs : List Signature) (funcs : List (Option Function)) (func : Func) (body : Function)
    → AllAgree sigs funcs
    → get_elem? funcs func ≡ some (some body)
    → get_elem? sigs func ≡ some body.sig
AllAgree-get_elem? [] [] func body h e = cc
AllAgree-get_elem? (s ∷ sigs) (f ∷ funcs) zero body (h, hs) e =
    let e' : f ≡ some body = cc e in ap some (sym (subst (Agrees s) e' h))
AllAgree-get_elem? (s ∷ sigs) (f ∷ funcs) (suc func) body (h, hs) e =
    AllAgree-get_elem? sigs funcs func body hs e
AllAgree-get_elem? [] (f ∷ funcs) func body h e = absurd h
AllAgree-get_elem? (s ∷ sigs) [] func body h e = absurd h

ok_eq :
    {m : Module} (m' : Module)
    → ◌≡◌ {A = Option (Result IrError Module)} (some (ok m)) (some (ok m'))
    → m ≡ m'
ok_eq m' e = cc

ok_ne :
    {e : IrError} (m' : Module)
    → ¬ (◌≡◌ {A = Option (Result IrError Module)} (some (err e)) (some (ok m')))
ok_ne m' e = cc

attach-IsDeclared :
    (m m' : Module) (func : Func) (body : Function)
    → IsDeclared m
    → get_elem? m.sigs func ≡ some body.sig
    → attach m func body ≡ some (ok m')
    → IsDeclared m'
unfolding attach
attach-IsDeclared m m' func body (sized, h) row e =
    let (old, _, e1) = >>=-eq-some (get_elem? m.funcs func) _ e in
    let (name, _, e2) = >>=-eq-some (get_elem? m.names func) _ e1 in
    elim (Bool-cases (is_some old)) [
      | inl there ↦ absurd (ok_ne m' (rw there at e2))
      | inr fresh ↦
          subst IsDeclared (ok_eq m' (rw fresh at e2))
            (sized, AllAgree-set m.sigs m.funcs func body h row)
    ]

define-IsDeclared :
    (m m' : Module) (func : Func) (body : Function)
    → IsDeclared m
    → Module.define m func body ≡ some (ok m')
    → IsDeclared m'
unfolding Module.define
define-IsDeclared m m' func body k e =
    let (sig, row, e1) = >>=-eq-some (get_elem? m.sigs func) _ e in
    let (name, _, e2) = >>=-eq-some (get_elem? m.names func) _ e1 in
    elim (Bool-cases (same body.sig sig)) [
      | inl agree ↦
          attach-IsDeclared m m' func body k (row ∙ ap some (sym (same_eq body.sig sig agree)))
            (rw agree at e2)
      | inr differ ↦ absurd (ok_ne m' (rw differ at e2))
    ]

outcome-IsDeclared :
    (m m' : Module) (func : Func) (body : Function) (r : Result IrError Module)
    → IsDeclared m
    → Module.define m func body ≡ some r
    → some (elim r [ ok m1 ↦ m1 | err e ↦ m ]) ≡ some m'
    → IsDeclared m'
outcome-IsDeclared m m' func body (ok m1) k made e =
    subst IsDeclared (some_eq e) (define-IsDeclared m m1 func body k made)
outcome-IsDeclared m m' func body (err x) k made e = subst IsDeclared (some_eq e) k

step-IsDeclared :
    (call : Call) (m m' : Module)
    → KeepsSig call
    → IsDeclared m
    → step call m ≡ some m'
    → IsDeclared m'
unfolding step Module.update_func
step-IsDeclared (declare name sig) m m' keeps (sized, h) e = subst IsDeclared (some_eq e) (
    unfold Module.declare in
    (
      omega (arith, length-append m.names (name ∷ []), length-append m.sigs (sig ∷ [])),
      AllAgree-snoc m.sigs m.funcs sig h,
    ))
step-IsDeclared (define func body) m m' keeps k e =
    let (r, made, e1) = >>=-eq-some (Module.define m func body) _ e in
    outcome-IsDeclared m m' func body r k made e1
step-IsDeclared (set_entry func) m m' keeps k e =
    subst IsDeclared (some_eq e) (unfold Module.set_entry in k)
step-IsDeclared (get_mut func change) m m' keeps (sized, h) e =
    let (old, found, e1) = >>=-eq-some (get_elem? m.funcs func) _ e in
    subst IsDeclared (some_eq e1)
      (sized, AllAgree-change m.sigs m.funcs func change old keeps h found)

pub run-IsDeclared :
    (calls : List Call) (m m' : Module)
    → All KeepsSig calls
    → IsDeclared m
    → run calls m ≡ some m'
    → IsDeclared m'
unfolding run
run-IsDeclared [] m m' keeps k e = subst IsDeclared (some_eq e) k
run-IsDeclared (call ∷ calls) m m' (keeps, rest) k e =
    let (m1, made, e1) = >>=-eq-some (step call m) (run calls) e in
    run-IsDeclared calls m1 m' rest (step-IsDeclared call m m1 keeps k made) e1
