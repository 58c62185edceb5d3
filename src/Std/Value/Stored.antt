-- ===== src/Std/Value/Stored.antt =====
-- A value that is written is read back: src/target/std-evm/src/storage/value.rs and transient.rs.
use rustevm.Base.{ℕ, ◌≡◌, refl, ap, ◌≢◌, Bool, true, false, not, List, drop}
use rustevm.Base.Bytes.{to_be_bytes}
use rustevm.Isa.{str_eq, str_eq_refl, str_eq_ne}
use rustevm.Abi.Word.{U256, u256_zero, u256_from_u64, Word}
use rustevm.Std.Machine.{Machine, IsLawful}
use rustevm.Std.Value.{
  StorageType, u256, address, bool, StorageValue, padded, bool_word, read_from, write_to,
  read_from_transient, write_to_transient,
}

bool_word_set : (b : Bool) → not (str_eq (bool_word b) u256_zero) ≡ b
unfolding bool_word u256_from_u64 u256_zero str_eq to_be_bytes
bool_word_set true = refl
bool_word_set false = refl

module _ (M : Machine) (hash : List ℕ → Word) (lawful : IsLawful M hash) (s : M.State) where
  sload_written : (slot v : U256) → M.sload (M.sstore s slot v) slot ≡ v
  sload_written slot v = rw (lawful.sload-sstore s slot v slot, str_eq_refl slot)

  tload_written : (slot v : U256) → M.tload (M.tstore s slot v) slot ≡ v
  tload_written slot v = rw (lawful.tload-tstore s slot v slot, str_eq_refl slot)

  pub read_from-write_to :
      (t : StorageType) (slot : U256) (v : StorageValue t)
      → read_from M t (write_to M t s slot v) slot ≡ v
  unfolding read_from write_to
  read_from-write_to u256 slot v = sload_written slot v
  read_from-write_to address slot v = rw (sload_written slot (padded v)) (unfold padded in refl)
  read_from-write_to bool slot v = rw (sload_written slot (bool_word v)) (bool_word_set v)

  pub read_from_transient-write_to_transient :
      (t : StorageType) (slot : U256) (v : StorageValue t)
      → read_from_transient M t (write_to_transient M t s slot v) slot ≡ v
  unfolding read_from_transient write_to_transient
  read_from_transient-write_to_transient u256 slot v = tload_written slot v
  read_from_transient-write_to_transient address slot v =
      rw (tload_written slot (padded v)) (unfold padded in refl)
  read_from_transient-write_to_transient bool slot v =
      rw (tload_written slot (bool_word v)) (bool_word_set v)

-- What a typed read returns depends only on the word in the slot.
module _ (M : Machine) (s s' : M.State) (u : StorageType) (slot : U256) where
  pub read_from_same :
      M.sload s slot ≡ M.sload s' slot → read_from M u s slot ≡ read_from M u s' slot
  unfolding read_from
  read_from_same e = elim u as (λ u. read_from M u s slot ≡ read_from M u s' slot) [
    | u256 ↦ e
    | address ↦ ap (drop 12) e
    | bool ↦ ap (λ w. not (str_eq w u256_zero)) e
  ]

  pub read_from_transient_same :
      M.tload s slot ≡ M.tload s' slot
      → read_from_transient M u s slot ≡ read_from_transient M u s' slot
  unfolding read_from_transient
  read_from_transient_same e =
      elim u as (λ u. read_from_transient M u s slot ≡ read_from_transient M u s' slot) [
        | u256 ↦ e
        | address ↦ ap (drop 12) e
        | bool ↦ ap (λ w. not (str_eq w u256_zero)) e
      ]

-- A write leaves the other slots of its store, and the other store, as they were.
module _ (M : Machine) (hash : List ℕ → Word) (lawful : IsLawful M hash) (s : M.State) where
  sload_other : (slot v j : U256) → slot ≢ j → M.sload (M.sstore s slot v) j ≡ M.sload s j
  sload_other slot v j h = rw (lawful.sload-sstore s slot v j, str_eq_ne slot j h)

  tload_other : (slot v j : U256) → slot ≢ j → M.tload (M.tstore s slot v) j ≡ M.tload s j
  tload_other slot v j h = rw (lawful.tload-tstore s slot v j, str_eq_ne slot j h)

  pub sload-write_to_other :
      (t : StorageType) (slot : U256) (v : StorageValue t) (j : U256)
      → slot ≢ j
      → M.sload (write_to M t s slot v) j ≡ M.sload s j
  unfolding write_to
  sload-write_to_other u256 slot v j h = sload_other slot v j h
  sload-write_to_other address slot v j h = sload_other slot (padded v) j h
  sload-write_to_other bool slot v j h = sload_other slot (bool_word v) j h

  pub tload-write_to :
      (t : StorageType) (slot : U256) (v : StorageValue t) (j : U256)
      → M.tload (write_to M t s slot v) j ≡ M.tload s j
  unfolding write_to
  tload-write_to u256 slot v j = lawful.tload-sstore s slot v j
  tload-write_to address slot v j = lawful.tload-sstore s slot (padded v) j
  tload-write_to bool slot v j = lawful.tload-sstore s slot (bool_word v) j

  pub tload-write_to_transient_other :
      (t : StorageType) (slot : U256) (v : StorageValue t) (j : U256)
      → slot ≢ j
      → M.tload (write_to_transient M t s slot v) j ≡ M.tload s j
  unfolding write_to_transient
  tload-write_to_transient_other u256 slot v j h = tload_other slot v j h
  tload-write_to_transient_other address slot v j h = tload_other slot (padded v) j h
  tload-write_to_transient_other bool slot v j h = tload_other slot (bool_word v) j h

  pub sload-write_to_transient :
      (t : StorageType) (slot : U256) (v : StorageValue t) (j : U256)
      → M.sload (write_to_transient M t s slot v) j ≡ M.sload s j
  unfolding write_to_transient
  sload-write_to_transient u256 slot v j = lawful.sload-tstore s slot v j
  sload-write_to_transient address slot v j = lawful.sload-tstore s slot (padded v) j
  sload-write_to_transient bool slot v j = lawful.sload-tstore s slot (bool_word v) j
