-- ===== src/Asm/Assembler/Sticky.antt =====
-- The calls of asm.rs after an error.
use rustevm.Base.{
  ℕ, ◌+◌, ◌^◌, ◌<◌, ◌≡◌, ap, sym, some_eq, >>=-eq-some, ◌∙◌, refl, some, List, [], ◌∷◌, arith, err,
}
use rustevm.Asm.Assembler.{AsmError, Asm, op, push, dup, swap, bind, push_label, finish}
use rustevm.Asm.Assembler.NextLabel.{
  reserves, reserved_by, Room, label-Room, step-Room, first-Room, rest_room,
}
use rustevm.Asm.Assembler.Run.{Call, step, run}

-- The state with some more labels reserved.
abbrev pub reserving : Asm → ℕ → Asm
reserving a n = record a { next_label = a.next_label + n }

step-failed :
    (call : Call) (a : Asm) (e : AsmError)
    → a.error ≡ some e
    → Room call a
    → step call a ≡ some (reserving a (reserves call))
unfolding step op push dup swap bind push_label
step-failed (Call.op m) a e h room = ground arith
step-failed (Call.push imm) a e h room = ground arith
step-failed (Call.dup n) a e h room = ground arith
step-failed (Call.swap n) a e h room = ground arith
step-failed Call.label a e h room = label-Room a room
step-failed (Call.bind l) a e h room = ground arith
step-failed (Call.push_label l) a e h room = ground arith

run-failed :
    (calls : List Call) (a : Asm) (e : AsmError)
    → a.error ≡ some e
    → a.next_label + reserved_by calls < 2 ^ 32
    → run calls a ≡ some (reserving a (reserved_by calls))
unfolding run
run-failed [] a e h room = ap (λ n. some (record a { next_label = n })) (omega arith)
run-failed (call ∷ calls) a e h room =
    let first = step-failed call a e h (first-Room call calls a room) in
    let rest =
      run-failed calls (reserving a (reserves call)) e h
        (rest_room call calls a (reserving a (reserves call)) first room) in
    rw first (rest ∙ ap (λ n. some (record a { next_label = n })) (omega arith))

-- Calls that return keep the error.
pub run-keeps_error :
    (calls : List Call) (a z : Asm) (e : AsmError)
    → a.error ≡ some e
    → run calls a ≡ some z
    → z.error ≡ some e
unfolding run
run-keeps_error [] a z e h r = ap (λ (x : Asm). x.error) (sym (some_eq r)) ∙ h
run-keeps_error (call ∷ calls) a z e h r =
    let (b, stepped, later) = >>=-eq-some (step call a) (run calls) r in
    let kept = some_eq (sym (step-failed call a e h (step-Room call a b stepped)) ∙ stepped) in
    run-keeps_error calls b z e (ap (λ (x : Asm). x.error) (sym kept) ∙ h) later

-- After an error, further calls that reserve labels as long as a `u32` can number them change nothing
-- but the number of reserved labels, which grows by one with each, and `finish` returns that error.
pub finish-run_failed :
    (calls : List Call) (a : Asm) (e : AsmError)
    → a.error ≡ some e
    → a.next_label + reserved_by calls < 2 ^ 32
    → (run calls a ≡ some (reserving a (reserved_by calls)))
      × (finish (reserving a (reserved_by calls)) ≡ some (err e))
unfolding finish
finish-run_failed calls a e h room = (run-failed calls a e h room, rw (finish, h) refl)
