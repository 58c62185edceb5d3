-- ===== src/Std/Value.antt =====
-- Values in slots: src/target/std-evm/src/storage/value.rs, and their transient counterparts in
-- src/target/std-evm/src/storage/transient.rs.
pub mod Stored
use rustevm.Base.{ℕ, ◌≡◌, Bool, true, false, not, List, ◌++◌, if◌then◌else◌, drop, replicate}
use rustevm.Isa.{str_eq}
use rustevm.Abi.Word.{Word, U256, IsArray, u256_zero, u256_from_u64}
use rustevm.Std.Machine.{Machine}

-- The types that implement `StorageValue`, which are those that implement `TransientValue`.
pub data StorageType : Type 0 where
  u256 address bool : StorageType

abbrev pub StorageValue : StorageType → Type 0
StorageValue u256 = U256
StorageValue address = List ℕ
StorageValue bool = Bool

-- The types that implement `StorageKey`.
pub data KeyType : Type 0 where
  u256 address : KeyType

abbrev pub StorageKey : KeyType → Type 0
StorageKey KeyType.u256 = U256
StorageKey KeyType.address = List ℕ

-- `word[12..].copy_from_slice(..)` on a zero word
unfoldable pub padded : List ℕ → Word
padded bytes = replicate 12 0 ++ bytes

unfoldable pub to_bytes : (t : KeyType) → StorageKey t → Word
unfolding padded
to_bytes KeyType.u256 key = key
to_bytes KeyType.address key = padded key

-- `if *self { U256::from_u64(1) } else { U256::ZERO }`
unfoldable pub bool_word : Bool → U256
bool_word b = if b then u256_from_u64 1 else u256_zero

module _ (M : Machine) where
  unfoldable pub read_from : (t : StorageType) → M.State → U256 → StorageValue t
  read_from StorageType.u256 s slot = M.sload s slot
  read_from StorageType.address s slot = drop 12 (M.sload s slot)
  read_from bool s slot = not (str_eq (M.sload s slot) u256_zero)

  unfoldable pub write_to : (t : StorageType) → M.State → U256 → StorageValue t → M.State
  unfolding padded bool_word
  write_to StorageType.u256 s slot v = M.sstore s slot v
  write_to StorageType.address s slot v = M.sstore s slot (padded v)
  write_to bool s slot v = M.sstore s slot (bool_word v)

  unfoldable pub read_from_transient : (t : StorageType) → M.State → U256 → StorageValue t
  read_from_transient StorageType.u256 s slot = M.tload s slot
  read_from_transient StorageType.address s slot = drop 12 (M.tload s slot)
  read_from_transient bool s slot = not (str_eq (M.tload s slot) u256_zero)

  unfoldable pub write_to_transient : (t : StorageType) → M.State → U256 → StorageValue t → M.State
  unfolding padded bool_word
  write_to_transient StorageType.u256 s slot v = M.tstore s slot v
  write_to_transient StorageType.address s slot v = M.tstore s slot (padded v)
  write_to_transient bool s slot v = M.tstore s slot (bool_word v)
