-- ===== src/Ir/Effect/Flags.antt =====
-- The bit set of src/backend/evm-codegen/src/ir/effect.rs as a set of flags.
use Prim.Native.Nat.{bit_and, max}
use rustevm.Base.{ℕ, ◌≤◌, ◌≡◌, ◌↔◌, true, false, ap, arith, ==_iff}
use rustevm.Base.Bitwise.{digit, digit_lt, digit-bit_and, digit-bit_or, digit-zero, digit_ext}
use rustevm.Ir.Effect.{Effects, union, contains, intersects}

contains_iff : (e f : Effects) → (contains e f ≡ true) ↔ ((i : ℕ) → digit f i ≤ digit e i)
unfolding contains
contains_iff e f = (
  λ h i. omega (arith, digit-bit_and e f i, ap (λ n. digit n i) ((==_iff (bit_and e f) f).0 h)),
  λ h.
      (==_iff (bit_and e f) f).1
        (digit_ext (bit_and e f) f (λ i. omega (arith, digit-bit_and e f i, h i))),
)

digit-union : (e f : Effects) (i : ℕ) → digit (union e f) i ≡ max (digit e i) (digit f i)
unfolding union
digit-union e f i = digit-bit_or e f i

-- A set has every effect of a union exactly if it has every effect of both parts.
pub contains-union_iff :
    (e f g : Effects)
    → (contains e (union f g) ≡ true) ↔ (contains e f ≡ true) × (contains e g ≡ true)
contains-union_iff e f g = (
  λ h.
      let each = (contains_iff e (union f g)).0 h in
      (
        (contains_iff e f).1 (λ i. omega (arith, each i, digit-union f g i)),
        (contains_iff e g).1 (λ i. omega (arith, each i, digit-union f g i)),
      ),
  λ (h, k).
      (contains_iff e (union f g)).1
        (λ i. omega (arith, (contains_iff e f).0 h i, (contains_iff e g).0 k i, digit-union f g i)),
)

-- Two sets do not intersect exactly if no flag is in both.
pub intersects_iff :
    (e f : Effects) → (intersects e f ≡ false) ↔ ((i : ℕ) → (digit e i ≡ 1) → (digit f i ≡ 1) → ⊥)
unfolding intersects
intersects_iff e f = (
  λ h i one other. omega (
    arith,
    digit-bit_and e f i,
    digit-zero i,
    ap (λ n. digit n i) {x = bit_and e f} {y = 0} (ground arith),
    one,
    other,
  ),
  λ apart.
      let none_left : bit_and e f ≡ 0 = digit_ext (bit_and e f) 0 (λ i. shared_none i (apart i)) in
      ground arith,
)
  where
    shared_none :
        (i : ℕ) → ((digit e i ≡ 1) → (digit f i ≡ 1) → ⊥) → digit (bit_and e f) i ≡ digit 0 i
    shared_none i apart =
        grind (arith, digit-bit_and e f i, digit-zero i, digit_lt e i, digit_lt f i, apart)
