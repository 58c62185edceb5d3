-- ===== src/Testkit/Trace/Rebased.antt =====
-- The depths that `finish` of src/tooling/evm-testkit/src/trace.rs hands out.
use rustevm.Base.{
  ℕ, ◌-◌, min, ◌≡◌, refl, ap, ◌∙◌, Bool-cases, inl, inr, Option, none, some, List, [], ◌∷◌, map,
  All, arith,
}
use rustevm.Testkit.Trace.{
  Step, Event, default, handle_all, charge, charge_loop, charge_frame_openers, min_depth, rebase,
  unwrap_or_zero, finish, opens_frame,
}
use rustevm.Testkit.Trace.Depth.{handle_all-depths}

module _ (depths : ℕ → ℕ) where
  charge-depth :
      (s : Step) (resumed : Option ℕ)
      → s.depth ≡ depths s.frame
      → (charge s resumed).depth ≡ depths (charge s resumed).frame
  unfolding charge
  charge-depth s none h = h
  charge-depth s (some resumed) h = elim (Bool-cases (opens_frame s.opcode)) [
    | inl opens ↦ rw opens h
    | inr stays ↦ rw stays h
  ]

  charge_frame_openers-depth :
      (steps : List Step)
      → All (λ s. s.depth ≡ depths s.frame) steps
      → All (λ s. s.depth ≡ depths s.frame) (charge_frame_openers steps)
  unfolding charge_frame_openers charge_loop
  charge_frame_openers-depth [] h = tt
  charge_frame_openers-depth (s ∷ rest) (h, hs) =
      (charge-depth s ((charge_loop rest).1 s.frame) h, charge_frame_openers-depth rest hs)

  rebase-depth :
      (base : ℕ) (steps : List Step)
      → All (λ s. s.depth ≡ depths s.frame) steps
      → All (λ s. s.depth ≡ depths s.frame - base) (map (rebase base) steps)
  rebase-depth base [] h = tt
  rebase-depth base (s ∷ rest) (h, hs) = (ap (λ d. d - base) h, rebase-depth base rest hs)

less : ℕ → Option ℕ → Option ℕ
less base none = none
less base (some d) = some (d - base)

min_depth-cons :
    (base d : ℕ) (o : Option ℕ)
    → (elim (less base o) [ none ↦ some (d - base) | some e ↦ some (min (d - base) e) ])
      ≡ less base (elim o [ none ↦ some d | some e ↦ some (min d e) ])
unfolding less
min_depth-cons base d none = refl
min_depth-cons base d (some e) = ap some (omega arith)

min_depth-rebase :
    (base : ℕ) (steps : List Step)
    → min_depth (map (rebase base) steps) ≡ less base (min_depth steps)
unfolding less
min_depth-rebase base [] = refl
min_depth-rebase base (s ∷ rest) =
    rw (min_depth-rebase base rest) (min_depth-cons base s.depth (min_depth rest))

less-unwrap_or_zero : (o : Option ℕ) → unwrap_or_zero (less (unwrap_or_zero o) o) ≡ 0
unfolding less
less-unwrap_or_zero none = refl
less-unwrap_or_zero (some d) = omega arith

-- After any callbacks of the machine, matched or not: in the finished trace the depth is a function
-- of the frame, so that the steps of one frame are at one depth, and the shallowest step, if there
-- is any step, is at depth 0.
pub finish-handle_all_depths :
    (events : List Event)
    → ((depths : ℕ → ℕ) × All
          (λ s. s.depth ≡ depths s.frame)
          (finish (handle_all default events)).steps)
      × (unwrap_or_zero (min_depth (finish (handle_all default events)).steps) ≡ 0)
unfolding finish
finish-handle_all_depths events =
    let (depths, placed) = handle_all-depths events in
    let steps = charge_frame_openers (handle_all default events).steps in
    let base = unwrap_or_zero (min_depth steps) in
    (
      (
        λ frame. depths frame - base,
        rebase-depth depths base steps
            (charge_frame_openers-depth depths (handle_all default events).steps placed),
      ),
      ap unwrap_or_zero (min_depth-rebase base steps) ∙ less-unwrap_or_zero (min_depth steps),
    )
