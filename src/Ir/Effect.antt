-- ===== src/Ir/Effect.antt =====
-- What an operation can observe or disturb: src/backend/evm-codegen/src/ir/effect.rs.
pub mod Flags
pub mod Rows
use Prim.Native.Nat.{bit_and, bit_or}
use rustevm.Base.{ℕ, Bool, not, ◌||◌, ◌==◌, if◌then◌else◌}
use rustevm.Isa.{OpSpec, OpCategory}

abbrev pub Effects : Type 0
Effects = ℕ

abbrev pub pure_effects : Effects
pure_effects = 0

abbrev pub reads_memory : Effects
reads_memory = 0x01

abbrev pub writes_memory : Effects
writes_memory = 0x02

abbrev pub reads_storage : Effects
reads_storage = 0x04

abbrev pub writes_storage : Effects
writes_storage = 0x08

abbrev pub reads_transient : Effects
reads_transient = 0x10

abbrev pub writes_transient : Effects
writes_transient = 0x20

abbrev pub reads_context : Effects
reads_context = 0x40

abbrev pub logs : Effects
logs = 0x80

abbrev pub external : Effects
external = 0x100

abbrev pub all_effects : Effects
all_effects = 0x1ff

unfoldable pub union : Effects → Effects → Effects
union e f = bit_or e f

unfoldable pub contains : Effects → Effects → Bool
contains e f = bit_and e f == f

unfoldable pub intersects : Effects → Effects → Bool
intersects e f = not (bit_and e f == 0)

unfoldable pub is_pure : Effects → Bool
is_pure e = e == 0

unfoldable pub is_removable : Effects → Bool
unfolding is_pure
is_removable e = is_pure e

-- The inner `match spec.category`.
unfoldable pub of_category : OpCategory → Effects
unfolding union
of_category OpCategory.arithmetic = pure_effects
of_category OpCategory.comparison = pure_effects
of_category OpCategory.bitwise = pure_effects
of_category OpCategory.stack_manip = pure_effects
of_category OpCategory.context = reads_context
of_category OpCategory.block = reads_context
of_category OpCategory.memory = union reads_memory writes_memory
of_category OpCategory.storage = union reads_storage writes_storage
of_category OpCategory.log = union logs reads_memory
of_category OpCategory.call = union (union external reads_memory) writes_memory
of_category OpCategory.control = all_effects
of_category OpCategory.terminating = all_effects

unfoldable pub of_opcode : OpSpec → Effects
unfolding union of_category
of_opcode spec =
    let byte = spec.byte in
    if byte == 0x20
    then reads_memory
    else if byte == 0x51
    then reads_memory
    else if byte == 0x52 || byte == 0x53
    then writes_memory
    else if byte == 0x59
    then reads_memory
    else if byte == 0x5e
    then union reads_memory writes_memory
    else if byte == 0x37 || byte == 0x39 || byte == 0x3c || byte == 0x3e
    then union reads_context writes_memory
    else if byte == 0x54
    then reads_storage
    else if byte == 0x55
    then writes_storage
    else if byte == 0x5c
    then reads_transient
    else if byte == 0x5d
    then writes_transient
    else of_category spec.category
