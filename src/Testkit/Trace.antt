-- ===== src/Testkit/Trace.antt =====
-- The instruction trace: src/tooling/evm-testkit/src/trace.rs. Its text is in Testkit/Text.antt.
--
-- The stack of open frames has the innermost first. A word of the machine's stack is a number.
pub mod Depth
pub mod Charge
pub mod Rebased
mod Examples
use rustevm.Base.{
  ℕ, zero, suc, ◌+◌, ◌-◌, min, Bool, true, false, Option, none, some, List, [], ◌∷◌, ◌++◌, ◌==◌,
  map, if◌then◌else◌,
}
use rustevm.Isa.{Str, bytes, OpSpec, OpCategory, by_byte}

pub record Step : Type 0 where
  pub depth : ℕ
  pub frame : ℕ
  pub pc : ℕ
  pub opcode : ℕ
  pub mnemonic : Str
  pub gas_remaining : ℕ
  pub gas_cost : ℕ
  pub stack : List ℕ

pub record Trace : Type 0 where
  pub steps : List Step

pub record Tracer : Type 0 where
  pub steps : List Step
  pub depth : ℕ
  pub frames : List ℕ
  pub frames_seen : ℕ

-- What a callback reads of `revm`'s interpreter.
pub record Interpreter : Type 0 where
  pub pc : ℕ
  pub opcode : ℕ
  pub remaining : ℕ
  pub stack : List ℕ

-- `Tracer::default()`.
abbrev pub default : Tracer
default = record { steps = []; depth = 0; frames = []; frames_seen = 0 }

unfoldable pub enter_frame : Tracer → Tracer
enter_frame t =
    let seen = t.frames_seen + 1 in
    record { steps = t.steps; depth = t.depth + 1; frames = seen ∷ t.frames; frames_seen = seen }

-- `Vec::pop`, whose answer is not used.
abbrev pub pop : List ℕ → List ℕ
pop [] = []
pop (frame ∷ frames) = frames

unfoldable pub leave_frame : Tracer → Tracer
leave_frame t = record {
  steps = t.steps;
  depth = t.depth - 1;
  frames = pop t.frames;
  frames_seen = t.frames_seen;
}

-- `self.frames.last().copied().unwrap_or(0)`
abbrev pub current_frame : List ℕ → ℕ
current_frame [] = 0
current_frame (frame ∷ frames) = frame

-- `by_byte(opcode).map_or("INVALID", |spec| spec.mnemonic)`
unfoldable pub mnemonic_of : ℕ → Str
mnemonic_of opcode = elim (by_byte opcode) [ none ↦ bytes "INVALID" | some spec ↦ spec.mnemonic ]

unfoldable pub step : Tracer → Interpreter → Tracer
unfolding mnemonic_of
step t interp =
    let seen : Step = record {
      depth = t.depth;
      frame = current_frame t.frames;
      pc = interp.pc;
      opcode = interp.opcode;
      mnemonic = mnemonic_of interp.opcode;
      gas_remaining = interp.remaining;
      gas_cost = 0;
      stack = interp.stack;
    } in
    record {
      steps = t.steps ++ (seen ∷ []);
      depth = t.depth;
      frames = t.frames;
      frames_seen = t.frames_seen;
    }

abbrev pub with_cost : ℕ → Step → Step
with_cost cost s = record {
  depth = s.depth;
  frame = s.frame;
  pc = s.pc;
  opcode = s.opcode;
  mnemonic = s.mnemonic;
  gas_remaining = s.gas_remaining;
  gas_cost = cost;
  stack = s.stack;
}

-- An assignment through `last_mut`.
abbrev pub update_last : (Step → Step) → List Step → List Step
update_last f [] = []
update_last f (s ∷ []) = f s ∷ []
update_last f (s ∷ (r ∷ rest)) = s ∷ update_last f (r ∷ rest)

unfoldable pub step_end : Tracer → Interpreter → Tracer
step_end t interp = record {
  steps = update_last (λ s. with_cost (s.gas_remaining - interp.remaining) s) t.steps;
  depth = t.depth;
  frames = t.frames;
  frames_seen = t.frames_seen;
}

-- The callbacks of the inspector. All `call`s and `create`s are let through.
pub data Event : Type 0 where
  stepped step_ended : Interpreter → Event
  called call_ended creating create_ended : Event

unfoldable pub handle : Tracer → Event → Tracer
unfolding step step_end enter_frame leave_frame
handle t (stepped interp) = step t interp
handle t (step_ended interp) = step_end t interp
handle t called = enter_frame t
handle t call_ended = leave_frame t
handle t creating = enter_frame t
handle t create_ended = leave_frame t

unfoldable pub handle_all : Tracer → List Event → Tracer
unfolding handle
handle_all t [] = t
handle_all t (event ∷ events) = handle_all (handle t event) events

abbrev pub is_call : OpCategory → Bool
is_call OpCategory.call = true
is_call OpCategory.arithmetic = false
is_call OpCategory.comparison = false
is_call OpCategory.bitwise = false
is_call OpCategory.storage = false
is_call OpCategory.memory = false
is_call OpCategory.context = false
is_call OpCategory.block = false
is_call OpCategory.control = false
is_call OpCategory.stack_manip = false
is_call OpCategory.log = false
is_call OpCategory.terminating = false

-- `by_byte(opcode).is_some_and(|spec| spec.category == OpCategory::Call)`
unfoldable pub opens_frame : ℕ → Bool
opens_frame opcode = elim (by_byte opcode) [ none ↦ false | some spec ↦ is_call spec.category ]

-- The body of the loop's `if`.
unfoldable pub charge : Step → Option ℕ → Step
unfolding opens_frame
charge s none = s
charge s (some resumed_at) =
    if opens_frame s.opcode then with_cost (s.gas_remaining - resumed_at) s else s

-- The loop from the last step to the first, with the `HashMap` it builds.
unfoldable pub charge_loop : List Step → List Step × (ℕ → Option ℕ)
unfolding charge
charge_loop [] = ([], λ frame. none)
charge_loop (s ∷ rest) =
    let (done, next_in_frame) = charge_loop rest in
    (
      charge s (next_in_frame s.frame) ∷ done,
      λ frame. if frame == s.frame then some s.gas_remaining else next_in_frame frame,
    )

unfoldable pub charge_frame_openers : List Step → List Step
unfolding charge_loop
charge_frame_openers steps = (charge_loop steps).0

-- `self.steps.iter().map(|s| s.depth).min()`
abbrev pub min_depth : List Step → Option ℕ
min_depth [] = none
min_depth (s ∷ rest) = elim (min_depth rest) [ none ↦ some s.depth | some d ↦ some (min s.depth d) ]

-- `s.depth -= base`. No depth is below `base`.
abbrev pub rebase : ℕ → Step → Step
rebase base s = record {
  depth = s.depth - base;
  frame = s.frame;
  pc = s.pc;
  opcode = s.opcode;
  mnemonic = s.mnemonic;
  gas_remaining = s.gas_remaining;
  gas_cost = s.gas_cost;
  stack = s.stack;
}

abbrev pub unwrap_or_zero : Option ℕ → ℕ
unwrap_or_zero none = 0
unwrap_or_zero (some d) = d

unfoldable pub finish : Tracer → Trace
unfolding charge_frame_openers
finish t =
    let steps = charge_frame_openers t.steps in
    let base = unwrap_or_zero (min_depth steps) in record { steps = map (rebase base) steps }
