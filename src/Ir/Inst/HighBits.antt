-- ===== src/Ir/Inst/HighBits.antt =====
-- The bits of a word from a width on, for the invariant that the head of
-- src/backend/evm-codegen/src/ir/types.rs states.
use native.Mathlib.Nat.{one-le-pow, div-eq_of_lt, div-eq_of_lt-le, lt-div-mul-add, div-mul-le_self}
use rustevm.Base.{
  ℕ, suc, ◌+◌, ◌-◌, ◌*◌, ◌/◌, ◌^◌, ◌≤◌, ◌<◌, ◌≡◌, ap, ◌∙◌, ◌⊎◌, inl, inr, Bool, true, false, arith,
}
use rustevm.Base.Bytes.{pow_add}
use rustevm.Base.Bitwise.{Between}
use rustevm.Ir.Types.Invariant.{word_mod, FitsBits}

-- The bits above bit `b - 1` of a word that is all ones there.
abbrev ones : ℕ → ℕ
ones h = 2 ^ (256 - h) - 1

word_split : (h : ℕ) → h ≤ 256 → word_mod ≡ 2 ^ (256 - h) * 2 ^ h
word_split h le = ap (λ n. 2 ^ n) {x = 256} {y = (256 - h) + h} (omega arith) ∙ pow_add (256 - h) h

word_split_suc : (h : ℕ) → h ≤ 256 → word_mod ≡ suc (ones h) * 2 ^ h
word_split_suc h le =
    word_split h le
    ∙ ap (λ k. k * 2 ^ h) {y = suc (ones h)} (omega (arith, one-le-pow (256 - h) 2 (omega arith)))

suc_mul : (k p : ℕ) → suc k * p ≡ k * p + p
suc_mul k p = omega arith

next : (k p : ℕ) → (k + 1) * p ≡ k * p + p
next k p = omega arith

below : (n w : ℕ) → w / 2 ^ n ≡ 0 → w < 2 ^ n
below n w z = omega (
  arith,
  ap (λ d. d * 2 ^ n) z,
  lt-div-mul-add {a = w} {b = 2 ^ n} (one-le-pow n 2 (omega arith)),
)

to_high :
    (m p k w : ℕ)
    → m ≡ suc k * p
    → 0 < p
    → w < m
    → (w < p) ⊎ (m ≤ w + p)
    → (w / p ≡ 0) ⊎ (w / p ≡ k)
to_high m p k w e pos lt (inl low) = inl (div-eq_of_lt low)
to_high m p k w e pos lt (inr high) = inr (
    div-eq_of_lt-le {k = k} p (omega (arith, e, suc_mul k p))
      (omega (arith, e, suc_mul k p, next k p)))

from_high :
    (m p k w : ℕ)
    → m ≡ suc k * p
    → 0 < p
    → w < m
    → (w / p ≡ 0) ⊎ (w / p ≡ k)
    → (w < p) ⊎ (m ≤ w + p)
from_high m p k w e pos lt (inl z) =
    inl (omega (arith, ap (λ d. d * p) z, lt-div-mul-add {a = w} {b = p} pos))
from_high m p k w e pos lt (inr o) =
    inr (omega (arith, ap (λ d. d * p) o, e, suc_mul k p, div-mul-le_self w p))

-- What an operation on digits makes of high bits that are all zeros or all ones.
between :
    (op : ℕ → ℕ → ℕ) (k x y : ℕ)
    → Between op
    → (x ≡ 0) ⊎ (x ≡ k)
    → (y ≡ 0) ⊎ (y ≡ k)
    → (op x y ≡ 0) ⊎ (op x y ≡ k)
between op k x y h (inl a) (inl b) = inl (ap (λ d. op d y) a ∙ ap (op 0) b ∙ (h 0).0)
between op k x y h (inr a) (inl b) = rw (a, b) (h k).1
between op k x y h (inl a) (inr b) = rw (a, b) (h k).2
between op k x y h (inr a) (inr b) = rw (a, b) (h k).3

module _ (op : ℕ → ℕ → ℕ) (h : Between op)
    (shift : (a b n : ℕ) → op a b / 2 ^ n ≡ op (a / 2 ^ n) (b / 2 ^ n)) where
  zero_high : (n a b : ℕ) → a < 2 ^ n → b < 2 ^ n → op a b < 2 ^ n
  zero_high n a b la lb = below n (op a b) (
      shift a b n
      ∙ ap (λ d. op d (b / 2 ^ n)) (div-eq_of_lt la)
      ∙ ap (op 0) (div-eq_of_lt lb)
      ∙ (h 0).0)

  -- The operation keeps the invariant of a type.
  pub op-FitsBits :
      (signed : Bool) (b x y : ℕ)
      → 1 ≤ b
      → b ≤ 256
      → FitsBits signed b x
      → FitsBits signed b y
      → FitsBits signed b (op x y)
  op-FitsBits false b x y low fit fx fy = zero_high b x y fx fy
  op-FitsBits true b x y low fit (lx, hx) (ly, hy) =
      let lt = zero_high 256 x y lx ly in
      let e = word_split_suc (b - 1) (omega arith) in
      let pos = one-le-pow (b - 1) 2 (omega arith) in
      let k = ones (b - 1) in
      (
        lt,
        from_high word_mod (2 ^ (b - 1)) k (op x y) e pos lt (
            rw (shift x y (b - 1)) (
              between op k (x / 2 ^ (b - 1)) (y / 2 ^ (b - 1)) h
                (to_high word_mod (2 ^ (b - 1)) k x e pos lx hx)
                (to_high word_mod (2 ^ (b - 1)) k y e pos ly hy))),
      )
