-- ===== src/Std/Slots/Isolated.antt =====
-- Reads and writes of typed slots and mappings do not disturb each other:
-- src/target/std-evm/src/storage/slot.rs, mapping.rs and transient.rs.
use rustevm.Base.{
  ℕ, ◌^◌, ◌<◌, ◌≡◌, sym, ap, ◌∙◌, ◌≢◌, ◌⊎◌, inl, inr, List, ◌++◌, length, drop, take, replicate,
  length-append, take-length_eq, drop-length_eq, arith,
}
use rustevm.Base.Bytes.{be_value, be_value-zeros, be_value-to_be_bytes, to_be_bytes}
use rustevm.Abi.Word.{Word, U256, IsArray, u256_from_u64}
use rustevm.Std.Machine.{Machine, IsLawful}
use rustevm.Std.Value.{
  StorageType, StorageValue, KeyType, StorageKey, padded, to_bytes, write_to, write_to_transient,
}
use rustevm.Std.Value.Stored.{
  read_from-write_to, read_from_transient-write_to_transient, read_from_same,
  read_from_transient_same, sload-write_to_other, tload-write_to, tload-write_to_transient_other,
  sload-write_to_transient,
}
use rustevm.Std.Slots.{slot_new, read, write, transient_read, transient_write}

slot_number : (a : ℕ) → a < 2 ^ 64 → be_value (slot_new a) ≡ a
unfolding slot_new u256_from_u64
slot_number a h = be_value-zeros 24 (to_be_bytes 8 a) ∙ be_value-to_be_bytes 8 a (omega arith)

slot_new-ne : (a b : ℕ) → a < 2 ^ 64 → b < 2 ^ 64 → a ≢ b → slot_new a ≢ slot_new b
slot_new-ne a b ha hb h e = h (sym (slot_number a ha) ∙ ap be_value e ∙ slot_number b hb)

module _ (M : Machine) (hash : List ℕ → Word) (lawful : IsLawful M hash) (s : M.State) where
  -- On a lawful machine, what is written to a typed slot is read from it, and the write changes
  -- no read of a slot with another number, persistent or transient, at any type; nor does it change
  -- a transient read of the same number.
  pub read-write :
      (t u : StorageType) (a b : ℕ) (v : StorageValue t)
      → a < 2 ^ 64
      → b < 2 ^ 64
      → a ≢ b
      → (let after = write M t s (slot_new a) v in
          (read M t after (slot_new a) ≡ v)
          × (read M u after (slot_new b) ≡ read M u s (slot_new b))
          × (transient_read M u after (slot_new b) ≡ transient_read M u s (slot_new b))
          × (transient_read M u after (slot_new a) ≡ transient_read M u s (slot_new a)))
  unfolding read write transient_read
  read-write t u a b v ha hb h =
      let after = write_to M t s (slot_new a) v in
      (
        read_from-write_to M hash lawful s t (slot_new a) v,
        read_from_same M after s u (slot_new b) (
            sload-write_to_other M hash lawful s t (slot_new a) v (slot_new b)
              (slot_new-ne a b ha hb h)),
        read_from_transient_same M after s u (slot_new b)
            (tload-write_to M hash lawful s t (slot_new a) v (slot_new b)),
        read_from_transient_same M after s u (slot_new a)
            (tload-write_to M hash lawful s t (slot_new a) v (slot_new a)),
      )

  -- The same for a transient slot.
  pub transient_read-transient_write :
      (t u : StorageType) (a b : ℕ) (v : StorageValue t)
      → a < 2 ^ 64
      → b < 2 ^ 64
      → a ≢ b
      → (let after = transient_write M t s (slot_new a) v in
          (transient_read M t after (slot_new a) ≡ v)
          × (transient_read M u after (slot_new b) ≡ transient_read M u s (slot_new b))
          × (read M u after (slot_new a) ≡ read M u s (slot_new a)))
  unfolding read transient_read transient_write
  transient_read-transient_write t u a b v ha hb h =
      let after = write_to_transient M t s (slot_new a) v in
      (
        read_from_transient-write_to_transient M hash lawful s t (slot_new a) v,
        read_from_transient_same M after s u (slot_new b) (
            tload-write_to_transient_other M hash lawful s t (slot_new a) v (slot_new b)
              (slot_new-ne a b ha hb h)),
        read_from_same M after s u (slot_new a)
            (sload-write_to_transient M hash lawful s t (slot_new a) v (slot_new a)),
      )

-- The bytes that are hashed for a key of a mapping.
abbrev pub preimage : (k : KeyType) → U256 → StorageKey k → List ℕ
preimage k base key = to_bytes k key ++ base

-- A key that its Rust type holds.
abbrev pub KeyFits : (k : KeyType) → StorageKey k → Type 0
KeyFits KeyType.u256 key = IsArray 32 key
KeyFits KeyType.address key = IsArray 20 key

length-to_bytes : (k : KeyType) (key : StorageKey k) → KeyFits k key → length (to_bytes k key) ≡ 32
unfolding to_bytes padded
length-to_bytes KeyType.u256 key h = h.sized
length-to_bytes KeyType.address key h = omega (arith, h.sized, length-append (replicate 12 0) key)

to_bytes_injective :
    (k : KeyType) (key other : StorageKey k) → to_bytes k key ≡ to_bytes k other → key ≡ other
unfolding to_bytes padded
to_bytes_injective KeyType.u256 key other e = e
to_bytes_injective KeyType.address key other e = ap (drop 12) e

-- Two keys of one type that differ. The keys of one mapping have one type.
abbrev pub KeysDiffer : (k k' : KeyType) → StorageKey k → StorageKey k' → Type 0
KeysDiffer KeyType.u256 KeyType.u256 key key' = key ≢ key'
KeysDiffer KeyType.address KeyType.address key key' = key ≢ key'
KeysDiffer KeyType.u256 KeyType.address key key' = ⊥
KeysDiffer KeyType.address KeyType.u256 key key' = ⊥

to_bytes-KeysDiffer :
    (k k' : KeyType) (key : StorageKey k) (key' : StorageKey k')
    → KeysDiffer k k' key key'
    → to_bytes k key ≢ to_bytes k' key'
to_bytes-KeysDiffer KeyType.u256 KeyType.u256 key key' h e =
    h (to_bytes_injective KeyType.u256 key key' e)
to_bytes-KeysDiffer KeyType.address KeyType.address key key' h e =
    h (to_bytes_injective KeyType.address key key' e)
to_bytes-KeysDiffer KeyType.u256 KeyType.address key key' h e = h
to_bytes-KeysDiffer KeyType.address KeyType.u256 key key' h e = h

-- Two keys of a mapping, or two bases with keys of any types, have two preimages.
pub preimage_injective :
    (k k' : KeyType) (base base' : U256) (key : StorageKey k) (key' : StorageKey k')
    → KeyFits k key
    → KeyFits k' key'
    → KeysDiffer k k' key key' ⊎ (base ≢ base')
    → preimage k base key ≢ preimage k' base' key'
preimage_injective k k' base base' key key' h h' (inl differ) e =
    to_bytes-KeysDiffer k k' key key' differ (
      sym (take-length_eq 32 (to_bytes k key) base (length-to_bytes k key h))
      ∙ ap (take 32) e
      ∙ take-length_eq 32 (to_bytes k' key') base' (length-to_bytes k' key' h'))
preimage_injective k k' base base' key key' h h' (inr differ) e = differ (
    sym (drop-length_eq 32 (to_bytes k key) base (length-to_bytes k key h))
    ∙ ap (drop 32) e
    ∙ drop-length_eq 32 (to_bytes k' key') base' (length-to_bytes k' key' h'))
