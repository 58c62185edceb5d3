-- ===== src/Testkit/Text.antt =====
-- Text output of the test kit: the `Display` of a step and of a trace
-- (src/tooling/evm-testkit/src/trace.rs), and of an outcome (outcome.rs).
--
-- How a word, a reason to halt and an address are written is an argument: `ruint` and `revm` do it.
use mathlib.Core.List.{reverse}
use rustevm.Base.{
  ℕ, zero, suc, ◌-◌, Option, none, some, List, [], ◌∷◌, ◌++◌, ltb, if◌then◌else◌, length, take,
}
use rustevm.Base.Format.{decimal, lower_hex, pad_left, pad_right, hex_bytes}
use rustevm.Isa.{Str, bytes}
use rustevm.Testkit.Outcome.{
  Attempt, panic, absent, present, ◌>>=◌, Status, success, revert, halt, Outcome, revert_reason,
}
use rustevm.Testkit.Trace.{Step, Trace}

abbrev stack_shown : ℕ
stack_shown = 5

-- `"  ".repeat(depth)`
indent : ℕ → Str
indent zero = []
indent (suc depth) = bytes "  " ++ indent depth

-- The horizontal ellipsis.
abbrev ellipsis : Str
ellipsis = 0xe2 ∷ 0x80 ∷ 0xa6 ∷ []

-- The em dash.
abbrev dash : Str
dash = 0xe2 ∷ 0x80 ∷ 0x94 ∷ []

module _ (word_text : ℕ → Str) where
  -- The loop over the words that are shown, with a space between two.
  shown_words : List ℕ → Str
  shown_words [] = []
  shown_words (w ∷ []) = word_text w
  shown_words (w ∷ (v ∷ rest)) = word_text w ++ bytes " " ++ shown_words (v ∷ rest)

  -- The top of the stack is its last item, and is written first.
  stack_text : List ℕ → Str
  unfolding shown_words decimal
  stack_text [] = bytes "-"
  stack_text (w ∷ rest) =
      let stack = w ∷ rest in
      shown_words (take stack_shown (reverse stack))
      ++ (if ltb stack_shown (length stack)
          then bytes " " ++ ellipsis ++ bytes "+" ++ decimal (length stack - stack_shown)
          else [])

  unfoldable pub step_text : Step → Str
  unfolding indent stack_text decimal lower_hex pad_left pad_right
  step_text s =
      indent s.depth
      ++ pad_left b'0' 4 (lower_hex s.pc)
      ++ bytes "  "
      ++ pad_right 12 s.mnemonic
      ++ bytes " "
      ++ pad_left b' ' 9 (decimal s.gas_remaining)
      ++ bytes " "
      ++ pad_left b' ' 5 (decimal s.gas_cost)
      ++ bytes "  "
      ++ stack_text s.stack

  steps_text : List Step → Str
  unfolding step_text
  steps_text [] = []
  steps_text (s ∷ rest) = step_text s ++ (b'\n' ∷ steps_text rest)

  unfoldable pub trace_text : Trace → Str
  unfolding steps_text
  trace_text trace =
      bytes "  pc  op                 gas  cost  stack (top first)"
      ++ (b'\n' ∷ steps_text trace.steps)

  module _ {Halt Address : Type 0} (halt_debug : Halt → Str) (address_text : Address → Str) where
    -- `revert_reason` may panic, and then so does the text.
    status_text : Status Halt → List ℕ → Attempt Str
    status_text success output = present (bytes "success")
    status_text revert output = elim (revert_reason output) [
      | panic ↦ panic
      | absent ↦ present (bytes "revert")
      | present reason ↦ present (bytes "revert: " ++ reason)
    ]
    status_text (halt reason) output = present (bytes "halt: " ++ halt_debug reason)

    output_text : List ℕ → Str
    unfolding hex_bytes
    output_text [] = []
    output_text (b ∷ bs) = (b'\n' ∷ bytes "output: 0x") ++ hex_bytes (b ∷ bs)

    created_text : Option Address → Str
    created_text none = []
    created_text (some address) = (b'\n' ∷ bytes "created: ") ++ address_text address

    traced_text : Option Trace → Str
    unfolding trace_text
    traced_text none =
        (b'\n' ∷ bytes "(no trace ") ++ dash ++ bytes " build the Testkit with `.tracing()`)"
    traced_text (some trace) = b'\n' ∷ trace_text trace

    unfoldable pub outcome_text : {Log : Type 0} → Outcome Halt Log Address Trace → Attempt Str
    unfolding status_text output_text created_text traced_text decimal
    outcome_text o = do
      status ← status_text o.status o.output
      present (
          status
          ++ bytes " (gas "
          ++ decimal o.gas_used
          ++ bytes ")"
          ++ output_text o.output
          ++ created_text o.created_at
          ++ traced_text o.trace)
