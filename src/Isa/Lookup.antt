-- ===== src/Isa/Lookup.antt =====
-- The two lookups: src/shared/evm-isa/src/lookup.rs. Each loop walks the table in order.
pub mod Distinct
pub mod Family
use rustevm.Base.{
  ℕ, ◌≡◌, sym, ap, ◌∙◌, inl, inr, Bool-cases, ==_iff, Option, none, some, List, [], ◌∷◌, ◌==◌,
  if◌then◌else◌, Any, Bool, true, all, all-Any,
}
use rustevm.Isa.Spec.{Str, str_eq, str_eq_iff, OpSpec}
use rustevm.Isa.Table.{opcodes}

find_mnemonic : Str → List OpSpec → Option OpSpec
find_mnemonic needle [] = none
find_mnemonic needle (spec ∷ rest) =
    if str_eq spec.mnemonic needle then some spec else find_mnemonic needle rest

find_byte : ℕ → List OpSpec → Option OpSpec
find_byte b [] = none
find_byte b (spec ∷ rest) = if spec.byte == b then some spec else find_byte b rest

-- `spec` is a row of the table.
pub InTable : OpSpec → Type 0
InTable spec = Any (λ row. row ≡ spec) opcodes

unfoldable pub by_mnemonic : Str → Option OpSpec
unfolding find_mnemonic
by_mnemonic name = find_mnemonic name opcodes

unfoldable pub by_byte : ℕ → Option OpSpec
unfolding find_byte
by_byte b = find_byte b opcodes

find_byte_sound :
    (b : ℕ) (rows : List OpSpec) (spec : OpSpec)
    → find_byte b rows ≡ some spec
    → (spec.byte ≡ b) × Any (λ row. row ≡ spec) rows
unfolding find_byte
find_byte_sound b [] spec h = cc
find_byte_sound b (row ∷ rows) spec h = elim (Bool-cases (row.byte == b)) [
  | inl same ↦
      let e : row ≡ spec = cc (rw same at h) in
      (sym (ap (λ (r : OpSpec). r.byte) e) ∙ (==_iff _ _).0 same, inl e)
  | inr other ↦ let (k, m) = find_byte_sound b rows spec (rw other at h) in (k, inr m)
]

find_mnemonic_sound :
    (name : Str) (rows : List OpSpec) (spec : OpSpec)
    → find_mnemonic name rows ≡ some spec
    → (spec.mnemonic ≡ name) × Any (λ row. row ≡ spec) rows
unfolding find_mnemonic
find_mnemonic_sound name [] spec h = cc
find_mnemonic_sound name (row ∷ rows) spec h = elim (Bool-cases (str_eq row.mnemonic name)) [
  | inl same ↦
      let e : row ≡ spec = cc (rw same at h) in
      (sym (ap (λ (r : OpSpec). r.mnemonic) e) ∙ (str_eq_iff _ _).0 same, inl e)
  | inr other ↦ let (k, m) = find_mnemonic_sound name rows spec (rw other at h) in (k, inr m)
]

-- What a lookup finds has the key and is a row of the table.
pub by_byte_sound : (b : ℕ) (spec : OpSpec) → by_byte b ≡ some spec → (spec.byte ≡ b) × InTable spec
unfolding by_byte InTable
by_byte_sound b spec h = find_byte_sound b opcodes spec h

pub by_mnemonic_sound :
    (name : Str) (spec : OpSpec)
    → by_mnemonic name ≡ some spec
    → (spec.mnemonic ≡ name) × InTable spec
unfolding by_mnemonic InTable
by_mnemonic_sound name spec h = find_mnemonic_sound name opcodes spec h

-- A test that holds of the whole table holds of each row.
pub all-InTable :
    (p : OpSpec → Bool) (spec : OpSpec) → all p opcodes ≡ true → InTable spec → p spec ≡ true
unfolding InTable
all-InTable p spec h m = all-Any p opcodes spec h m
