-- ===== src/Std/Slots.antt =====
-- Typed slots and mappings: src/target/std-evm/src/storage/slot.rs, mapping.rs, and the slot of
-- transient.rs.
pub mod Isolated
pub mod Mapped
use rustevm.Base.{ℕ}
use rustevm.Abi.Word.{U256, u256_from_u64}
use rustevm.Std.Machine.{Machine}
use rustevm.Std.Value.{
  StorageType, StorageValue, KeyType, StorageKey, to_bytes, read_from, write_to,
  read_from_transient, write_to_transient,
}

-- A `Slot`, a `TransientSlot`, or a view of a mapping is the word of its place.
unfoldable pub slot_new : ℕ → U256
slot_new slot = u256_from_u64 slot

module _ (M : Machine) where
  unfoldable pub read : (t : StorageType) → M.State → U256 → StorageValue t
  read t s slot = read_from M t s slot

  unfoldable pub write : (t : StorageType) → M.State → U256 → StorageValue t → M.State
  write t s slot v = write_to M t s slot v

  unfoldable pub transient_read : (t : StorageType) → M.State → U256 → StorageValue t
  transient_read t s slot = read_from_transient M t s slot

  unfoldable pub transient_write : (t : StorageType) → M.State → U256 → StorageValue t → M.State
  transient_write t s slot v = write_to_transient M t s slot v

  -- The place of a key, with the memory that the hash leaves behind.
  unfoldable pub derived_slot : (k : KeyType) → M.State → U256 → StorageKey k → U256 × M.State
  derived_slot k s base key =
      let hashed = M.mstore (M.mstore s 0 (to_bytes k key)) 32 base in
      (M.keccak256 hashed 0 64, hashed)

  unfoldable pub get :
      (k : KeyType) (t : StorageType) → M.State → U256 → StorageKey k → StorageValue t × M.State
  get k t s slot key =
      let (place, hashed) = derived_slot k s slot key in (read_from M t hashed place, hashed)

  unfoldable pub set :
      (k : KeyType) (t : StorageType) → M.State → U256 → StorageKey k → StorageValue t → M.State
  set k t s slot key v =
      let (place, hashed) = derived_slot k s slot key in write_to M t hashed place v

  unfoldable pub transient_get :
      (k : KeyType) (t : StorageType) → M.State → U256 → StorageKey k → StorageValue t × M.State
  transient_get k t s slot key =
      let (place, hashed) = derived_slot k s slot key in
      (read_from_transient M t hashed place, hashed)

  unfoldable pub transient_set :
      (k : KeyType) (t : StorageType) → M.State → U256 → StorageKey k → StorageValue t → M.State
  transient_set k t s slot key v =
      let (place, hashed) = derived_slot k s slot key in write_to_transient M t hashed place v
