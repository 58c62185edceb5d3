-- ===== src/Testkit/Trace/Depth.antt =====
-- The call depths of the trace of src/tooling/evm-testkit/src/trace.rs.
use rustevm.Base.{
  ℕ, suc, ◌+◌, ◌-◌, ◌≤◌, ◌≡◌, refl, ap, sym, ◌∙◌, true, false, List, [], ◌∷◌, ◌==◌, length, All,
  All-append, All-map, arith, if◌then◌else◌,
}
use rustevm.Testkit.Trace.{
  Step, Tracer, Interpreter, Event, stepped, step_ended, called, call_ended, creating, create_ended,
  default, current_frame, pop, enter_frame, leave_frame, step, step_end, with_cost, update_last,
  handle, handle_all,
}

-- The open frames are some of the frames seen, and each is one deeper than the one it was opened in.
Nested : (ℕ → ℕ) → ℕ → List ℕ → Type 0
Nested depths seen [] = Unit
Nested depths seen (frame ∷ frames) =
    (depths frame ≡ suc (length frames)) × (frame ≤ seen) × Nested depths seen frames

-- The step is at the depth of its frame, and its frame is one of those seen.
Placed : (ℕ → ℕ) → ℕ → Step → Type 0
Placed depths seen s = (s.depth ≡ depths s.frame) × (s.frame ≤ seen)

-- With `depths`, the depth that each frame was opened at.
IsTracked : Tracer → Type 0
unfolding Nested Placed
IsTracked t =
    (depths : ℕ → ℕ) × (t.depth ≡ length t.frames)
    × (depths 0 ≡ 0)
    × Nested depths t.frames_seen t.frames
    × All (Placed depths t.frames_seen) t.steps

-- The depths, with a new frame after those seen.
opened : (ℕ → ℕ) → ℕ → ℕ → ℕ → ℕ
opened depths seen depth frame = if frame == seen + 1 then depth else depths frame

opened_old :
    (depths : ℕ → ℕ) (seen depth frame : ℕ)
    → frame ≤ seen
    → opened depths seen depth frame ≡ depths frame
unfolding opened
opened_old depths seen depth frame h =
    let other : (frame == seen + 1) ≡ false = ground arith in rw other refl

opened_new : (depths : ℕ → ℕ) (seen depth : ℕ) → opened depths seen depth (seen + 1) ≡ depth
unfolding opened
opened_new depths seen depth =
    let same : (seen + 1 == seen + 1) ≡ true = ground arith in rw same refl

Nested-opened :
    (depths : ℕ → ℕ) (seen depth : ℕ) (frames : List ℕ)
    → Nested depths seen frames
    → Nested (opened depths seen depth) (seen + 1) frames
unfolding Nested
Nested-opened depths seen depth [] h = tt
Nested-opened depths seen depth (frame ∷ frames) (at, le, rest) = (
  opened_old depths seen depth frame le ∙ at,
  omega arith,
  Nested-opened depths seen depth frames rest,
)

Placed-opened :
    (depths : ℕ → ℕ) (seen depth : ℕ) (s : Step)
    → Placed depths seen s
    → Placed (opened depths seen depth) (seen + 1) s
unfolding Placed
Placed-opened depths seen depth s (at, le) =
    (at ∙ sym (opened_old depths seen depth s.frame le), omega arith)

enter_frame-IsTracked : (t : Tracer) → IsTracked t → IsTracked (enter_frame t)
unfolding enter_frame IsTracked Nested
enter_frame-IsTracked t (depths, depth, outer, nested, placed) =
    let deeper = suc (length t.frames) in
    (
      opened depths t.frames_seen deeper,
      omega arith,
      opened_old depths t.frames_seen deeper 0 (omega arith) ∙ outer,
      (
        opened_new depths t.frames_seen deeper,
        omega arith,
        Nested-opened depths t.frames_seen deeper t.frames nested,
      ),
      All-map (Placed depths t.frames_seen)
          (Placed (opened depths t.frames_seen deeper) (t.frames_seen + 1))
          (Placed-opened depths t.frames_seen deeper) t.steps placed,
    )

Nested-pop :
    (depths : ℕ → ℕ) (seen : ℕ) (frames : List ℕ)
    → Nested depths seen frames
    → Nested depths seen (pop frames)
unfolding Nested
Nested-pop depths seen [] h = h
Nested-pop depths seen (frame ∷ frames) (at, le, rest) = rest

length-pop : (frames : List ℕ) → length (pop frames) ≡ length frames - 1
length-pop [] = refl
length-pop (frame ∷ frames) = omega arith

leave_frame-IsTracked : (t : Tracer) → IsTracked t → IsTracked (leave_frame t)
unfolding leave_frame IsTracked
leave_frame-IsTracked t (depths, depth, outer, nested, placed) = (
  depths,
  ap (λ d. d - 1) depth ∙ sym (length-pop t.frames),
  outer,
  Nested-pop depths t.frames_seen t.frames nested,
  placed,
)

Nested-current_frame :
    (depths : ℕ → ℕ) (seen : ℕ) (frames : List ℕ)
    → depths 0 ≡ 0
    → Nested depths seen frames
    → (length frames ≡ depths (current_frame frames)) × (current_frame frames ≤ seen)
unfolding Nested
Nested-current_frame depths seen [] outer h = (sym outer, omega arith)
Nested-current_frame depths seen (frame ∷ frames) outer (at, le, rest) = (sym at, le)

step-IsTracked : (t : Tracer) (interp : Interpreter) → IsTracked t → IsTracked (step t interp)
unfolding step IsTracked Placed
step-IsTracked t interp (depths, depth, outer, nested, placed) =
    let (at, le) = Nested-current_frame depths t.frames_seen t.frames outer nested in
    (
      depths,
      depth,
      outer,
      nested,
      All-append (Placed depths t.frames_seen) t.steps _ placed ((depth ∙ at, le), tt),
    )

update_last-Placed :
    (depths : ℕ → ℕ) (seen remaining : ℕ) (steps : List Step)
    → All (Placed depths seen) steps
    → All (Placed depths seen) (update_last (λ s. with_cost (s.gas_remaining - remaining) s) steps)
unfolding Placed
update_last-Placed depths seen remaining [] h = tt
update_last-Placed depths seen remaining (s ∷ []) h = h
update_last-Placed depths seen remaining (s ∷ (r ∷ rest)) (h, hs) =
    (h, update_last-Placed depths seen remaining (r ∷ rest) hs)

step_end-IsTracked :
    (t : Tracer) (interp : Interpreter) → IsTracked t → IsTracked (step_end t interp)
unfolding step_end IsTracked
step_end-IsTracked t interp (depths, depth, outer, nested, placed) = (
  depths,
  depth,
  outer,
  nested,
  update_last-Placed depths t.frames_seen interp.remaining t.steps placed,
)

handle-IsTracked : (t : Tracer) (event : Event) → IsTracked t → IsTracked (handle t event)
unfolding handle
handle-IsTracked t (stepped interp) h = step-IsTracked t interp h
handle-IsTracked t (step_ended interp) h = step_end-IsTracked t interp h
handle-IsTracked t called h = enter_frame-IsTracked t h
handle-IsTracked t call_ended h = leave_frame-IsTracked t h
handle-IsTracked t creating h = enter_frame-IsTracked t h
handle-IsTracked t create_ended h = leave_frame-IsTracked t h

handle_all-IsTracked :
    (t : Tracer) (events : List Event) → IsTracked t → IsTracked (handle_all t events)
unfolding handle_all
handle_all-IsTracked t [] h = h
handle_all-IsTracked t (event ∷ events) h =
    handle_all-IsTracked (handle t event) events (handle-IsTracked t event h)

default-IsTracked : IsTracked default
unfolding IsTracked Nested
default-IsTracked = (λ frame. 0, refl, refl, tt, tt)

-- In the steps recorded over any callbacks, the depth is a function of the frame.
pub handle_all-depths :
    (events : List Event)
    → (depths : ℕ → ℕ) × All (λ s. s.depth ≡ depths s.frame) (handle_all default events).steps
unfolding IsTracked Placed
handle_all-depths events =
    let (depths, depth, outer, nested, placed) =
      handle_all-IsTracked default events default-IsTracked in
    (
      depths,
      All-map (Placed depths (handle_all default events).frames_seen)
          (λ s. s.depth ≡ depths s.frame) (λ s h. h.0) (handle_all default events).steps placed,
    )
