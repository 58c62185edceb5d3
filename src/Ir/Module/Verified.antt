-- ===== src/Ir/Module/Verified.antt =====
-- What `verify` of src/backend/evm-codegen/src/ir/module.rs says of a module that was built by calls.
use native.Mathlib.Nat.{mod-eq_of_lt}
use rustevm.Base.{
  ℕ, All, zero, suc, ◌+◌, ◌^◌, ◌≤◌, ◌<◌, ◌≡◌, ◌≢◌, ◌↔◌, refl, sym, ap, ◌∙◌, inl, inr, Option, none,
  some, ◌>>=◌, >>=-eq-some, Bool-cases, arith, length, get_elem?, ok, err, ◌==◌, ==_iff, List,
}
use rustevm.Ir.Error.{IrError}
use rustevm.Ir.Func.{Function, handle}
use rustevm.Ir.Inst.{Func}
use rustevm.Ir.Module.{Module, new, get, signature, verify_from, verify, len, conclude, Verdict}
use rustevm.Ir.Module.Declared.{Call, run, KeepsSig, IsDeclared, run-IsDeclared, AllAgree-get_elem?}
use rustevm.Isa.{Fork, Str}

-- Every declaration has a body, of the declared signature, and there is an entry point.
abbrev pub IsComplete : Module → Type 0
IsComplete m =
    ((func : Func)
      → func < len m
      → (body : Function) × (get m func ≡ some (some body)) × (signature m func ≡ some body.sig))
    × (m.entry ≢ none)

abbrev HasBody : Module → Func → Type 0
HasBody m func = (body : Function) × (get m func ≡ some (some body))

handle_lt : (i : ℕ) → i < 2 ^ 32 → handle i ≡ i
unfolding handle
handle_lt i h = mod-eq_of_lt h

abbrev pub passed : Option Verdict
passed = some (ok tt)

-- One turn of the loop that does not stop.
body_there :
    (o : Option Function) (name : Option Str) (rest : Option Verdict) (func : Func)
    → let turn : Option Verdict = elim o [
      | none ↦ do name' ← name; some (err (IrError.undefined func name'))
      | some f ↦ rest
    ] in
      turn ≡ passed → (f : Function) × (o ≡ some f) × (rest ≡ passed)
body_there none none rest func e = cc
body_there none (some n) rest func e = cc
body_there (some f) name rest func e = (f, refl, e)

module _ (m : Module) where
  verify_from-HasBody :
      (start count : ℕ)
      → start + count ≤ 2 ^ 32
      → verify_from m start count ≡ passed
      → (func : Func) → start ≤ func
      → func < start + count
      → HasBody m func
  unfolding verify_from
  verify_from-HasBody start zero fit e func low high = absurd (omega arith)
  verify_from-HasBody start (suc count) fit e func low high =
      let (o, found, e1) = >>=-eq-some (get m (handle start)) _ e in
      let (f, there, rest) =
        body_there o (get_elem? m.names (handle start)) (verify_from m (start + 1) count)
          (handle start) e1 in
      elim (Bool-cases (func == start)) [
        | inl here ↦ (
          f,
          ap (get m) ((==_iff func start).0 here ∙ sym (handle_lt start (omega arith)))
              ∙ found
              ∙ ap some there,
        )
        | inr later ↦
            verify_from-HasBody (start + 1) count (omega arith) rest func (ground arith)
              (omega arith)
      ]

  HasBody-verify_from :
      (start count : ℕ)
      → start + count ≤ 2 ^ 32
      → ((func : Func) → start ≤ func → func < start + count → HasBody m func)
      → verify_from m start count ≡ passed
  unfolding verify_from
  HasBody-verify_from start zero fit all = refl
  HasBody-verify_from start (suc count) fit all =
      let (body, found) = all start (omega arith) (omega arith) in
      rw (handle_lt start (omega arith), found)
        (HasBody-verify_from (start + 1) count (omega arith)
          (λ func low high. all func (omega arith) (omega arith)))

conclude-passed :
    (r : Verdict) (entry : Option Func)
    → ◌≡◌ {A = Option Verdict} (some (conclude r entry)) passed
    → (r ≡ ok tt) × (entry ≢ none)
unfolding conclude
conclude-passed (err e) entry h = cc
conclude-passed (ok tt) none h = cc
conclude-passed (ok tt) (some f) h = (refl, λ h. cc)

passed-conclude : (entry : Option Func) → entry ≢ none → conclude (ok tt) entry ≡ ok tt
unfolding conclude
passed-conclude none h = absurd (h refl)
passed-conclude (some f) h = refl

verify-IsComplete : (m : Module) → IsDeclared m → len m ≤ 2 ^ 32 → verify m ≡ passed → IsComplete m
unfolding verify len signature get
verify-IsComplete m (sized, agree) fit e =
    let (r, checked, e1) = >>=-eq-some (verify_from m 0 (length m.names)) _ e in
    let (good, entry) = conclude-passed r m.entry e1 in
    (
      λ func h.
          let (body, found) =
            verify_from-HasBody m 0 (length m.names) (omega arith) (checked ∙ ap some good) func
              (omega arith) (omega arith) in
          (body, found, AllAgree-get_elem? m.sigs m.funcs func body agree found),
      entry,
    )

IsComplete-verify : (m : Module) → len m ≤ 2 ^ 32 → IsComplete m → verify m ≡ passed
unfolding verify len
IsComplete-verify m fit (bodies, entry) =
    let all =
      HasBody-verify_from m 0 (length m.names) (omega arith)
        (λ func low high. let (body, found, _) = bodies func (omega arith) in (body, found)) in
    rw (all, passed-conclude m.entry entry) refl

-- For a module that any calls have built, writes through `get_mut` that leave a body's signature as it
-- is among them, and that holds no more functions than a handle can name, `verify` succeeds exactly if
-- an entry point is set and every declared function has a body with the declared signature.
pub verify_iff :
    (fork : Fork) (calls : List Call) (m : Module)
    → All KeepsSig calls
    → run calls (new fork) ≡ some m
    → len m ≤ 2 ^ 32
    → (verify m ≡ passed) ↔ IsComplete m
unfolding new
verify_iff fork calls m keeps built fit = (
  verify-IsComplete m (run-IsDeclared calls (new fork) m keeps (refl, tt) built) fit,
  IsComplete-verify m fit,
)
