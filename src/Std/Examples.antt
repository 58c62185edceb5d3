-- ===== src/Std/Examples.antt =====
-- A machine, and instances for the models of src/target/std-evm.
use rustevm.Base.{
  ℕ, ◌<◌, ◌≡◌, ◌≢◌, ◌⊎◌, refl, ap, true, false, none, some, inl, List, ◌++◌, ◌==◌, if◌then◌else◌,
  length, replicate, arith,
}
use rustevm.Base.Bytes.{to_be_bytes}
use rustevm.Isa.{str_eq}
use rustevm.Abi.Word.{Word, U256, IsArray, u256_from_u64, u256_zero}
use rustevm.Std.Machine.{Machine, IsLawful}
use rustevm.Std.Value.{u256, bool, KeyType, to_bytes, read_from_transient, write_to_transient}
use rustevm.Std.Slots.{slot_new, read, write, transient_read, get, set}
use rustevm.Std.Slots.Isolated.{preimage, read-write}
use rustevm.Std.Slots.Mapped.{get-set}
use rustevm.Std.Lock.{lock_slot, is_locked, acquire}
use rustevm.Std.Lock.Exclusion.{
  Config, config, Reach, here, next, take_lock, acquire_exclusive, acquire_again,
}

record Memory : Type 0 where
  slots : U256 → U256
  transients : U256 → U256
  words : ℕ → U256

-- Its hash is no hash: it keeps the bytes, so that it has no collisions.
abbrev toy_hash : List ℕ → Word
toy_hash bs = bs

abbrev toy : Machine
toy = record {
  State = Memory;
  sload = λ m k. m.slots k;
  sstore = λ m k v. record m { slots = λ j. if str_eq k j then v else m.slots j };
  tload = λ m k. m.transients k;
  tstore = λ m k v. record m { transients = λ j. if str_eq k j then v else m.transients j };
  mstore = λ m o w. record m { words = λ p. if o == p then w else m.words p };
  keccak256 = λ m o n. toy_hash (m.words 0 ++ m.words 32);
}

toy-IsLawful : IsLawful toy toy_hash
toy-IsLawful = record {
  sload-sstore = λ s k v j. refl;
  tload-tstore = λ s k v j. refl;
  sload-tstore = λ s k v j. refl;
  tload-sstore = λ s k v j. refl;
  sload-mstore = λ s o w j. refl;
  tload-mstore = λ s o w j. refl;
  keccak256-mstore = λ s a b. refl;
}

abbrev empty : Memory
empty = record {
  slots = λ k. replicate 32 0;
  transients = λ k. replicate 32 0;
  words = λ o. replicate 32 0;
}

read-write_example :
    (let after = write toy bool empty (slot_new 3) true in
      (read toy bool after (slot_new 3) ≡ true)
      × (read toy u256 after (slot_new 4) ≡ read toy u256 empty (slot_new 4))
      × (transient_read toy u256 after (slot_new 4) ≡ transient_read toy u256 empty (slot_new 4))
      × (transient_read toy u256 after (slot_new 3) ≡ transient_read toy u256 empty (slot_new 3)))
read-write_example =
    read-write toy toy_hash toy-IsLawful empty bool u256 3 4 true (omega arith) (omega arith)
      (omega arith)

abbrev alice : List ℕ
alice = replicate 20 7

abbrev bob : List ℕ
bob = replicate 20 8

twenty : (b : ℕ) → b < 256 → IsArray 20 (replicate 20 b)
twenty b h = record { sized = refl; of_bytes = omega arith }

alice-ne-bob : alice ≢ bob
alice-ne-bob e = cc

not_a_slot : toy_hash (preimage KeyType.address (slot_new 2) alice) ≢ slot_new 0
unfolding slot_new u256_from_u64 to_bytes to_be_bytes
not_a_slot e = absurd (omega (arith, ap length e))

get-set_example :
    (let after = set toy KeyType.address u256 empty (slot_new 2) alice (slot_new 50) in
      ((get toy KeyType.address u256 after (slot_new 2) alice).0 ≡ slot_new 50)
      × ((get toy KeyType.address u256 after (slot_new 2) bob).0
          ≡ (get toy KeyType.address u256 empty (slot_new 2) bob).0)
      × (read toy u256 after (slot_new 0) ≡ read toy u256 empty (slot_new 0)))
get-set_example =
    get-set toy toy_hash toy-IsLawful KeyType.address KeyType.address u256 u256 empty (slot_new 2)
      (slot_new 2) alice bob (slot_new 50) 0 (twenty 7 (omega arith)) (twenty 8 (omega arith))
      (inl alice-ne-bob) (λ e. e) not_a_slot

starts_free : is_locked toy empty ≡ false
unfolding is_locked read_from_transient u256_zero str_eq
starts_free = refl

abbrev locked : Memory
locked = write_to_transient toy bool empty lock_slot true

lock_taken : acquire toy empty ≡ some locked
unfolding acquire read_from_transient u256_zero str_eq
lock_taken = refl

abbrev held : Config toy
held = config toy locked 1

held_reached : Reach toy (config toy empty 0) held
held_reached = next here (take_lock empty locked 0 lock_taken)

acquire_exclusive_example :
    ((held.guards ≡ 0) × (s' : Memory) × (acquire toy locked ≡ some s'))
    ⊎ ((held.guards ≡ 1) × (acquire toy locked ≡ none))
acquire_exclusive_example =
    acquire_exclusive toy toy_hash toy-IsLawful empty held starts_free held_reached

acquire_again_example :
    (e : Config toy) × (s' : Memory) × Reach toy held e × (acquire toy e.state ≡ some s')
acquire_again_example = acquire_again toy toy_hash toy-IsLawful empty held starts_free held_reached
