-- ===== src/Std/Lock.antt =====
-- Guards in transient storage: `TransientGuard` and `ReentrancyLock` of
-- src/target/std-evm/src/storage/transient.rs.
--
-- A guard is a value that its scope drops; a state machine says when that may be.
pub mod Exclusion
use rustevm.Base.{ℕ, List, [], ◌∷◌, Bool, true, false, Option, none, some, if◌then◌else◌}
use rustevm.Abi.Word.{U256}
use rustevm.Std.Machine.{Machine}
use rustevm.Std.Value.{bool, read_from_transient, write_to_transient}

-- `keccak256("std_evm.reentrancy_lock")`
abbrev pub lock_slot : U256
lock_slot =
    0x30 ∷ 0xd3 ∷ 0x35 ∷ 0xfe ∷ 0x93 ∷ 0x63 ∷ 0xe1 ∷ 0x30 ∷ 0x34 ∷ 0x4a ∷ 0xba ∷ 0x98 ∷ 0x8f ∷ 0x03
    ∷ 0x0a ∷ 0x18 ∷ 0x7d ∷ 0x71 ∷ 0xdf ∷ 0xf2 ∷ 0xf1 ∷ 0xcb ∷ 0xda ∷ 0x9b ∷ 0x4d ∷ 0x15 ∷ 0x58
    ∷ 0x6f ∷ 0xac ∷ 0xd9 ∷ 0x32 ∷ 0xda ∷ []

module _ (M : Machine) where
  -- `TransientGuard::acquire`, and its `drop`.
  unfoldable pub guard_acquire : M.State → U256 → M.State
  guard_acquire s slot = write_to_transient M bool s slot true

  unfoldable pub guard_drop : M.State → U256 → M.State
  guard_drop s slot = write_to_transient M bool s slot false

  unfoldable pub is_locked : M.State → Bool
  is_locked s = read_from_transient M bool s lock_slot

  -- `ReentrancyLock::acquire`; `none` is the panic "reentrant call".
  unfoldable pub acquire : M.State → Option M.State
  unfolding is_locked
  acquire s = if is_locked s then none else some (write_to_transient M bool s lock_slot true)

  -- `ReentrancyLock::drop`
  unfoldable pub release : M.State → M.State
  release s = write_to_transient M bool s lock_slot false
