-- ===== src/Std/Slots/Mapped.antt =====
-- Entries of a mapping: `MappingMut` of src/target/std-evm/src/storage/mapping.rs.
use rustevm.Base.{ℕ, ◌≡◌, sym, ap, ◌∙◌, ◌≢◌, ◌⊎◌, List}
use mathlib.Core.Path.{subst}
use rustevm.Abi.Word.{Word, U256}
use rustevm.Std.Machine.{Machine, IsLawful}
use rustevm.Std.Value.{
  StorageType, StorageValue, KeyType, StorageKey, to_bytes, read_from, write_to,
}
use rustevm.Std.Value.Stored.{read_from-write_to, read_from_same, sload-write_to_other}
use rustevm.Std.Slots.{slot_new, read, derived_slot, get, set}
use rustevm.Std.Slots.Isolated.{preimage, KeyFits, KeysDiffer, preimage_injective}

module _ (M : Machine) (hash : List ℕ → Word) (lawful : IsLawful M hash) where
  place-hash :
      (k : KeyType) (s : M.State) (base : U256) (key : StorageKey k)
      → (derived_slot M k s base key).0 ≡ hash (preimage k base key)
  unfolding derived_slot
  place-hash k s base key = lawful.keccak256-mstore s (to_bytes k key) base

  -- The hash leaves the store alone.
  sload-derived_slot :
      (k : KeyType) (s : M.State) (base : U256) (key : StorageKey k) (j : U256)
      → M.sload (derived_slot M k s base key).1 j ≡ M.sload s j
  unfolding derived_slot
  sload-derived_slot k s base key j =
      lawful.sload-mstore (M.mstore s 0 (to_bytes k key)) 32 base j
      ∙ lawful.sload-mstore s 0 (to_bytes k key) j

  get_lem :
      (k : KeyType) (t : StorageType) (s : M.State) (base : U256) (key : StorageKey k)
      → (get M k t s base key).0 ≡ read_from M t s (hash (preimage k base key))
  unfolding get
  get_lem k t s base key =
      read_from_same M (derived_slot M k s base key).1 s t (derived_slot M k s base key).0
        (sload-derived_slot k s base key (derived_slot M k s base key).0)
      ∙ ap (read_from M t s) (place-hash k s base key)

  read_from-set :
      (k : KeyType) (t : StorageType) (s : M.State) (base : U256) (key : StorageKey k)
      (v : StorageValue t)
      → read_from M t (set M k t s base key v) (hash (preimage k base key)) ≡ v
  unfolding set
  read_from-set k t s base key v =
      let hashed : M.State = (derived_slot M k s base key).1 in
      subst (λ p. read_from M t (write_to M t hashed (derived_slot M k s base key).0 v) p ≡ v)
        (place-hash k s base key)
        (read_from-write_to M hash lawful hashed t (derived_slot M k s base key).0 v)

  sload-set_other :
      (k : KeyType) (t : StorageType) (s : M.State) (base : U256) (key : StorageKey k)
      (v : StorageValue t) (j : U256)
      → hash (preimage k base key) ≢ j
      → M.sload (set M k t s base key v) j ≡ M.sload s j
  unfolding set
  sload-set_other k t s base key v j h =
      sload-write_to_other M hash lawful (derived_slot M k s base key).1 t
        (derived_slot M k s base key).0 v j (λ e. h (sym (place-hash k s base key) ∙ e))
      ∙ sload-derived_slot k s base key j

  -- On a lawful machine, an entry that is set is read back, and setting it changes no entry of the
  -- mapping under another key, no entry of a mapping at another base, whatever the type of its keys,
  -- if the hashes of the two entries' keys and bases do not collide, and no plain slot, if that slot
  -- is not the hash itself. The keys are values that their Rust types hold.
  pub get-set :
      (k k' : KeyType) (t u : StorageType) (s : M.State) (base base' : U256) (key : StorageKey k)
      (key' : StorageKey k') (v : StorageValue t) (a : ℕ)
      → KeyFits k key
      → KeyFits k' key'
      → KeysDiffer k k' key key' ⊎ (base ≢ base')
      → (hash (preimage k base key) ≡ hash (preimage k' base' key')
          → preimage k base key ≡ preimage k' base' key')
      → hash (preimage k base key) ≢ slot_new a
      → (let after = set M k t s base key v in
          ((get M k t after base key).0 ≡ v)
          × ((get M k' u after base' key').0 ≡ (get M k' u s base' key').0)
          × (read M u after (slot_new a) ≡ read M u s (slot_new a)))
  unfolding read
  get-set k k' t u s base base' key key' v a fits fits' differ apart plain =
      let after = set M k t s base key v in
      let entry = hash (preimage k' base' key') in
      let separate : hash (preimage k base key) ≢ entry =
        λ e. preimage_injective k k' base base' key key' fits fits' differ (apart e) in
      (
        get_lem k t after base key ∙ read_from-set k t s base key v,
        get_lem k' u after base' key'
            ∙ read_from_same M after s u entry (sload-set_other k t s base key v entry separate)
            ∙ sym (get_lem k' u s base' key'),
        read_from_same M after s u (slot_new a)
            (sload-set_other k t s base key v (slot_new a) plain),
      )
