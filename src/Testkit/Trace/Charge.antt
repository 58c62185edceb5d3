-- ===== src/Testkit/Trace/Charge.antt =====
-- What `charge_frame_openers` of src/tooling/evm-testkit/src/trace.rs does to the cost of a step.
use rustevm.Base.{
  ℕ, ◌-◌, ◌≡◌, refl, sym, ap, ◌∙◌, inl, inr, Bool, true, false, Option, none, some, List, [], ◌∷◌,
  ◌==◌, any, all, same_bool, same_bool_eq, if◌then◌else◌, Option-cases, Bool-cases, ==_iff,
}
use mathlib.Core.Bool.{and-eq-true_iff}
use rustevm.Isa.{OpSpec, by_byte, by_byte_sound, opcodes, all-InTable}
use rustevm.Testkit.Trace.{Step, is_call, opens_frame, charge, charge_loop, charge_frame_openers}

-- `CREATE`, `CALL`, `CALLCODE`, `DELEGATECALL`, `CREATE2` and `STATICCALL`.
abbrev pub openers : List ℕ
openers = 0xf0 ∷ 0xf1 ∷ 0xf2 ∷ 0xf4 ∷ 0xf5 ∷ 0xfa ∷ []

abbrev pub is_opener : ℕ → Bool
is_opener opcode = any (λ b. opcode == b) openers

-- The gas that is left at the first of the steps that ran in the frame.
pub resumed_at : ℕ → List Step → Option ℕ
resumed_at frame [] = none
resumed_at frame (s ∷ rest) =
    if frame == s.frame then some s.gas_remaining else resumed_at frame rest

-- The cost of a step whose frame goes on at some gas.
abbrev pub cost_until : Step → Option ℕ → ℕ
cost_until s none = s.gas_cost
cost_until s (some resumed) = s.gas_remaining - resumed

-- Each step is charged on its own, from the steps that ran after it.
pub settled : List Step → List Step
unfolding resumed_at
settled [] = []
settled (s ∷ rest) =
    record s {
      gas_cost = if is_opener s.opcode then cost_until s (resumed_at s.frame rest) else s.gas_cost;
    }
    ∷ settled rest

-- The rows of the category of calls are the openers.
row_agrees : OpSpec → Bool
row_agrees spec = same_bool (is_call spec.category) (is_opener spec.byte)

every_row : all row_agrees opcodes ≡ true
unfolding row_agrees opcodes
every_row = refl

has_row : ℕ → Bool
has_row c = elim (by_byte c) [ none ↦ false | some spec ↦ true ]

openers_have_rows : all has_row openers ≡ true
unfolding has_row by_byte opcodes
openers_have_rows = refl

-- A byte without a row is none of the bytes that have one.
no_opener :
    (opcode : ℕ) (bytes : List ℕ)
    → by_byte opcode ≡ none
    → all has_row bytes ≡ true
    → any (λ b. opcode == b) bytes ≡ false
unfolding has_row
no_opener opcode [] absent rows = refl
no_opener opcode (c ∷ bytes) absent rows =
    let (row, later) = (and-eq-true_iff (has_row c) (all has_row bytes)).0 rows in
    elim (Bool-cases (opcode == c)) [
      | inl same ↦
          absurd
            (clash (ap has_row (sym ((==_iff opcode c).0 same)) ∙ rw (has_row, absent) refl) row)
      | inr other ↦ rw other (no_opener opcode bytes absent later)
    ]
  where
    clash : {b : Bool} → b ≡ false → b ≡ true → ⊥
    clash p q = cc

opens_frame-is_opener : (opcode : ℕ) → opens_frame opcode ≡ is_opener opcode
unfolding opens_frame row_agrees
opens_frame-is_opener opcode = elim (Option-cases (by_byte opcode)) [
  | inl absent ↦ rw (opens_frame, absent) (sym (no_opener opcode openers absent openers_have_rows))
  | inr (spec, row) ↦
      let (same, there) = by_byte_sound opcode spec row in
      rw (opens_frame, row)
        (same_bool_eq (is_call spec.category) (is_opener spec.byte)
            (all-InTable row_agrees spec every_row there)
          ∙ ap is_opener same)
]

-- The charge of a step is the cost that is said for it.
charge-cost :
    (s : Step) (next : Option ℕ)
    → charge s next
      ≡ record s { gas_cost = if is_opener s.opcode then cost_until s next else s.gas_cost }
unfolding charge
charge-cost s none = elim (Bool-cases (is_opener s.opcode)) [
  | inl opens ↦ rw opens refl
  | inr other ↦ rw other refl
]
charge-cost s (some resumed) = elim (Bool-cases (is_opener s.opcode)) [
  | inl opens ↦ rw (opens_frame-is_opener s.opcode, opens) refl
  | inr other ↦ rw (opens_frame-is_opener s.opcode, other) refl
]

charge_loop-resumed_at :
    (steps : List Step) (frame : ℕ) → (charge_loop steps).1 frame ≡ resumed_at frame steps
unfolding charge_loop resumed_at
charge_loop-resumed_at [] frame = refl
charge_loop-resumed_at (s ∷ rest) frame = rw (charge_loop-resumed_at rest frame) refl

-- The single backward loop with its map of frames gives every step the cost that it has on its own,
-- and changes nothing else: a step whose opcode is CREATE, CALL, CALLCODE, DELEGATECALL, CREATE2 or
-- STATICCALL costs the gas between it and the next step that ran in its own frame, and any other
-- step, or one that no step of its frame follows, keeps its cost.
pub charge_frame_openers-settled : (steps : List Step) → charge_frame_openers steps ≡ settled steps
unfolding charge_frame_openers charge_loop settled
charge_frame_openers-settled [] = refl
charge_frame_openers-settled (s ∷ rest) =
    rw (charge_loop-resumed_at rest s.frame, charge_frame_openers-settled rest)
      (ap (λ r. r ∷ settled rest) (charge-cost s (resumed_at s.frame rest)))
