-- ===== src/Testkit/Trace/Examples.antt =====
-- A call, its callee's step and the caller's next, for the model of
-- src/tooling/evm-testkit/src/trace.rs.
use rustevm.Base.Format.{lower_hex}
use rustevm.Testkit.Text.{step_text}
use rustevm.Base.{◌++◌, ℕ, ◌≡◌, refl, List, [], ◌∷◌, All, map}
use rustevm.Isa.{bytes, opcodes, by_byte}
use rustevm.Testkit.Trace.{
  Step, Interpreter, Event, stepped, step_ended, called, call_ended, default, handle_all,
  opens_frame, charge_frame_openers, min_depth, unwrap_or_zero, finish,
}
use rustevm.Testkit.Trace.Charge.{settled, charge_frame_openers-settled}
use rustevm.Testkit.Trace.Rebased.{finish-handle_all_depths}

abbrev at : ℕ → ℕ → ℕ → Interpreter
at pc opcode remaining = record { pc = pc; opcode = opcode; remaining = remaining; stack = [] }

-- `CALL`, that hands 6300 of its 10000 on, a `STOP` in the callee, and the caller's `STOP`.
abbrev events : List Event
events =
    called
    ∷ stepped (at 0 0xf1 10000)
    ∷ called
    ∷ stepped (at 0 0x00 6300)
    ∷ step_ended (at 0 0x00 6300)
    ∷ call_ended
    ∷ step_ended (at 0 0xf1 9900)
    ∷ stepped (at 1 0x00 7400)
    ∷ step_ended (at 1 0x00 7400)
    ∷ call_ended
    ∷ []

abbrev recorded : List Step
recorded = (handle_all default events).steps

costs : map (λ s. s.gas_cost) (finish (handle_all default events)).steps ≡ 2600 ∷ 0 ∷ 0 ∷ []
unfolding finish charge_frame_openers handle_all opens_frame by_byte opcodes
costs = refl

depths : map (λ s. s.depth) (finish (handle_all default events)).steps ≡ 0 ∷ 1 ∷ 0 ∷ []
unfolding finish charge_frame_openers handle_all opens_frame by_byte opcodes
depths = refl

-- A line of the trace, with words written as `ruint` does.
line :
    step_text
      (λ w. bytes "0x" ++ lower_hex w)
      (record {
        depth = 1;
        frame = 2;
        pc = 31;
        opcode = 0x01;
        mnemonic = bytes "ADD";
        gas_remaining = 97500;
        gas_cost = 3;
        stack = 6 ∷ 5 ∷ 4 ∷ 3 ∷ 2 ∷ 255 ∷ [];
      })
    ≡ bytes "  001f  ADD              97500     3  0xff 0x2 0x3 0x4 0x5 "
      ++ (0xe2 ∷ 0x80 ∷ 0xa6 ∷ [])
      ++ bytes "+1"
unfolding step_text lower_hex
line = refl

charge_frame_openers-settled_example : charge_frame_openers recorded ≡ settled recorded
charge_frame_openers-settled_example = charge_frame_openers-settled recorded

finish-handle_all_depths_example :
    ((depths : ℕ → ℕ) × All
        (λ s. s.depth ≡ depths s.frame)
        (finish (handle_all default events)).steps)
    × (unwrap_or_zero (min_depth (finish (handle_all default events)).steps) ≡ 0)
finish-handle_all_depths_example = finish-handle_all_depths events
