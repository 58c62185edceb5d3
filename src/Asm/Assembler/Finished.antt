-- ===== src/Asm/Assembler/Finished.antt =====
-- What holds of the bytecode that `finish` of asm.rs returns, whatever calls built it.
use rustevm.Base.{
  ℕ, ◌+◌, ◌^◌, ◌<◌, sym, some_eq, >>=-eq-some, ◌≤◌, ◌≡◌, refl, ap, ◌∙◌, ◌⊎◌, inl, inr, Bool, true,
  false, not, ◌&&◌, some, none, List, [], ◌∷◌, arith, length, All, Option-cases, Bool-cases, Result,
  ok, err, ltb,
}
use rustevm.Isa.{Fork}
use rustevm.Asm.Immediate.{IsWord}
use rustevm.Asm.Assembler.{Fixup, AsmError, Asm, new, max_label_offset, is_empty, patch, finish}
use rustevm.Asm.Assembler.Run.{Call, step, run}
use mathlib.Core.Path.{subst}
use rustevm.Asm.Assembler.NextLabel.{
  reserved_by, Room, one_more, label-Room, step-Room, first-Room, rest_room,
}
use rustevm.Asm.Assembler.Chunks.{Chunk, flatten}
use rustevm.Asm.Assembler.Built.{Built, IsBuilt, new-IsBuilt}
use rustevm.Asm.Assembler.Calls.{Keeps, op-IsBuilt, push-Keeps, dup-Keeps, swap-Keeps}
use rustevm.Asm.Assembler.Calls.Labels.{bind-IsBuilt, push_label-IsBuilt}
use rustevm.Asm.Assembler.Finish.{Patched, patch-Outcome}

-- The operand of a `push` is a 32-byte word, as its type says.
abbrev pub Admissible : Call → Type 0
Admissible (Call.push imm) = IsWord imm
Admissible _ = Unit

pub step-Keeps :
    (call : Call) (a : Asm) → Admissible call → Room call a → IsBuilt a → Keeps (step call a)
unfolding step
step-Keeps (Call.op m) a k r b = (_, refl, op-IsBuilt a m b)
step-Keeps (Call.push imm) a k r b = push-Keeps a imm k b
step-Keeps (Call.dup n) a k r b = dup-Keeps a n b
step-Keeps (Call.swap n) a k r b = swap-Keeps a n b
step-Keeps Call.label a k room (cs, b) = (
  one_more a,
  label-Room a room,
  (
    cs,
    record {
      spelled = b.spelled;
      whole = b.whole;
      allowed = b.allowed;
      bound = b.bound;
      referenced = b.referenced;
      apart = b.apart;
    },
  ),
)
step-Keeps (Call.bind l) a k r b = (_, refl, bind-IsBuilt a l b)
step-Keeps (Call.push_label l) a k r b = (_, refl, push_label-IsBuilt a l b)

pub run-Keeps :
    (calls : List Call) (a : Asm)
    → All Admissible calls
    → a.next_label + reserved_by calls < 2 ^ 32
    → IsBuilt a
    → Keeps (run calls a)
unfolding run
run-Keeps [] a k room b = (a, refl, b)
run-Keeps (call ∷ calls) a (k, ks) room b =
    let (a', e, b') = step-Keeps call a k (first-Room call calls a room) b in
    let (a'', e', b'') = run-Keeps calls a' ks (rest_room call calls a a' e room) b' in
    (a'', rw e e', b'')

-- The invariant holds of what calls that return have built.
pub run-IsBuilt :
    (calls : List Call) (a z : Asm)
    → All Admissible calls
    → run calls a ≡ some z
    → IsBuilt a
    → IsBuilt z
unfolding run
run-IsBuilt [] a z k e b = subst IsBuilt (some_eq e) b
run-IsBuilt (call ∷ calls) a z (k, ks) e b =
    let (a1, stepped, later) = >>=-eq-some (step call a) (run calls) e in
    let (a', e', b') = step-Keeps call a k (step-Room call a a1 stepped) b in
    run-IsBuilt calls a1 z ks later (subst IsBuilt (some_eq (sym e' ∙ stepped)) b')

-- Every way in which `finish` ends on a state with the invariant.
abbrev pub Ends : Asm → List Chunk → Type 0
Ends a cs =
    ((e : AsmError) × (finish a ≡ some (err e)))
    ⊎ ((cs' : List Chunk) × (finish a ≡ some (ok (flatten cs')))
        × Patched a.labels a.fixups cs cs'
        × ((length a.code ≤ max_label_offset) ⊎ (a.fixups ≡ [])))

-- The test before the loop.
too_large : Asm → Bool
unfolding is_empty
too_large a = ltb max_label_offset (length a.code) && not (is_empty a.fixups)

too_large-false :
    (a : Asm) → too_large a ≡ false → (length a.code ≤ max_label_offset) ⊎ (a.fixups ≡ [])
unfolding too_large
too_large-false a h = small a.fixups h
  where
    small :
        (fs : List Fixup)
        → (ltb max_label_offset (length a.code) && not (is_empty fs)) ≡ false
        → (length a.code ≤ max_label_offset) ⊎ (fs ≡ [])
    small [] e = inr refl
    small (f ∷ fs) e = inl (ground arith)

pub finish-failed : (a : Asm) (e : AsmError) → a.error ≡ some e → finish a ≡ some (err e)
unfolding finish
finish-failed a e h = rw (finish, h) refl

finish-large :
    (a : Asm)
    → a.error ≡ none
    → too_large a ≡ true
    → finish a ≡ some (err (AsmError.code_too_large_to_address (length a.code)))
unfolding finish too_large
finish-large a fine h = rw (finish, fine) (rw h refl)

finish-patch :
    (a : Asm) → a.error ≡ none → too_large a ≡ false → finish a ≡ patch a.labels a.fixups a.code
unfolding finish too_large
finish-patch a fine h = rw (finish, fine) (rw h refl)

pub finish-Ends : (a : Asm) (cs : List Chunk) → Built a cs → Ends a cs
finish-Ends a cs b = elim (Option-cases a.error) [
  | inr (e, failed) ↦ inl (e, finish-failed a e failed)
  | inl fine ↦ elim (Bool-cases (too_large a)) [
    | inl large ↦ inl (_, finish-large a fine large)
    | inr small ↦
        let begin = finish-patch a fine small ∙ ap (patch a.labels a.fixups) b.spelled in
        elim (patch-Outcome a.labels a.fixups cs b.whole b.referenced b.apart) [
          | inl (l, e, _, _) ↦ inl (AsmError.unbound_label l, begin ∙ e)
          | inr (cs', e, p) ↦ inr (cs', begin ∙ e, p, too_large-false a small)
        ]
  ]
]

-- Whatever the calls and their operands (an immediate being a word of 32 bytes), if they reserve fewer
-- than 2^32 labels, no call panics and `finish` returns: bytecode or an error.
pub finish_total :
    (fork : Fork) (calls : List Call)
    → All Admissible calls
    → reserved_by calls < 2 ^ 32
    → (a : Asm) × (run calls (new fork) ≡ some a)
      × ((r : Result AsmError (List ℕ)) × (finish a ≡ some r))
finish_total fork calls k room =
    let (a, e, (cs, b)) =
      run-Keeps calls (new fork) k (unfold new in omega (arith, room)) (new-IsBuilt fork) in
    (
      a,
      e,
      elim (finish-Ends a cs b) [
        | inl (e', f) ↦ (err e', f)
        | inr (cs', f, _, _) ↦ (ok (flatten cs'), f)
      ],
    )
