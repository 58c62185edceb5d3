-- ===== src/Isa/Lookup/Distinct.antt =====
-- The keys of the table's rows: lookup.rs over table.rs.
use mathlib.Core.Bool.{and-eq-true_iff}
use mathlib.Core.Path.{subst}
use rustevm.Base.{
  ◌≡◌, refl, sym, Bool, true, false, not, ◌&&◌, some, List, [], ◌∷◌, inl, inr, ◌==◌, all, Any,
  all-Any, arith,
}
use rustevm.Isa.Spec.{str_eq, str_eq_iff, OpSpec}
use rustevm.Isa.Table.{opcodes}
use rustevm.Isa.Lookup.{find_byte, find_mnemonic, by_byte, by_mnemonic, InTable}

distinct_bytes : List OpSpec → Bool
distinct_bytes [] = true
distinct_bytes (row ∷ rows) =
    all (λ other. not (row.byte == other.byte)) rows && distinct_bytes rows

distinct_mnemonics : List OpSpec → Bool
distinct_mnemonics [] = true
distinct_mnemonics (row ∷ rows) =
    all (λ other. not (str_eq row.mnemonic other.mnemonic)) rows && distinct_mnemonics rows

not-true : (b : Bool) → not b ≡ true → b ≡ false
not-true true h = sym h
not-true false h = refl

find_byte_complete :
    (rows : List OpSpec) (spec : OpSpec)
    → distinct_bytes rows ≡ true
    → Any (λ row. row ≡ spec) rows
    → find_byte spec.byte rows ≡ some spec
unfolding distinct_bytes find_byte
find_byte_complete [] spec d m = absurd m
find_byte_complete (row ∷ rows) spec d (inl e) =
    subst (λ (s : OpSpec). find_byte s.byte (row ∷ rows) ≡ some s) e (ground arith)
find_byte_complete (row ∷ rows) spec d (inr m) =
    let (apart, rest) = (and-eq-true_iff _ _).0 d in
    rw (not-true _ (all-Any (λ (other : OpSpec). not (row.byte == other.byte)) rows spec apart m))
      (find_byte_complete rows spec rest m)

find_mnemonic_complete :
    (rows : List OpSpec) (spec : OpSpec)
    → distinct_mnemonics rows ≡ true
    → Any (λ row. row ≡ spec) rows
    → find_mnemonic spec.mnemonic rows ≡ some spec
unfolding distinct_mnemonics find_mnemonic
find_mnemonic_complete [] spec d m = absurd m
find_mnemonic_complete (row ∷ rows) spec d (inl e) =
    subst (λ (s : OpSpec). find_mnemonic s.mnemonic (row ∷ rows) ≡ some s) e
      (rw ((str_eq_iff row.mnemonic row.mnemonic).1 refl) refl)
find_mnemonic_complete (row ∷ rows) spec d (inr m) =
    let (apart, rest) = (and-eq-true_iff _ _).0 d in
    rw
      (not-true _
        (all-Any (λ (other : OpSpec). not (str_eq row.mnemonic other.mnemonic)) rows spec apart m))
      (find_mnemonic_complete rows spec rest m)

opcodes-distinct_bytes : distinct_bytes opcodes ≡ true
unfolding distinct_bytes opcodes
opcodes-distinct_bytes = refl

opcodes-distinct_mnemonics : distinct_mnemonics opcodes ≡ true
unfolding distinct_mnemonics opcodes str_eq
opcodes-distinct_mnemonics = refl

-- Every row of the table is what both lookups find under its byte and under its mnemonic: no two
-- rows share either key.
pub lookup-row :
    (spec : OpSpec)
    → InTable spec
    → (by_byte spec.byte ≡ some spec) × (by_mnemonic spec.mnemonic ≡ some spec)
unfolding by_byte by_mnemonic InTable
lookup-row spec m = (
  find_byte_complete opcodes spec opcodes-distinct_bytes m,
  find_mnemonic_complete opcodes spec opcodes-distinct_mnemonics m,
)
