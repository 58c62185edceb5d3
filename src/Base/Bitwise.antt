-- ===== src/Base/Bitwise.antt =====
-- The binary digits of the native `bit_and`, `bit_or` and `bit_xor`.
use Prim.Native.Nat.{
  ℕ, zero, suc, ◌+◌, ◌*◌, ◌/◌, ◌%◌, ◌^◌, ◌≤◌, ◌<◌, min, max, digits, bitwise, differ, bit_and,
  bit_or, bit_xor, bit_and-bitwise, bit_or-bitwise, bit_xor-bitwise,
}
use mathlib.Core.Path.{◌≡◌, refl, sym, ap, ◌∙◌}
use mathlib.Core.Logic.{◌⊎◌, inl, inr}
use native.Mathlib.Nat.{pow-succ', div-div-eq-div-mul, div-one}
use native.Mathlib.Omega.{arith}

module _ (z : ℕ → ℕ) (f : ℕ → ℕ → ℕ) where
  digits_zero : (n b : ℕ) → digits z f n 0 b ≡ z b
  digits_zero zero b = refl
  digits_zero (suc n) b = refl

  -- Any count of digits that covers the first number gives the same result.
  digits_enough : (n m a b : ℕ) → a ≤ n → a ≤ m → digits z f n a b ≡ digits z f m a b
  digits_enough n m zero b h k = digits_zero n b ∙ sym (digits_zero m b)
  digits_enough zero m (suc a) b h k = absurd (omega arith)
  digits_enough (suc n) zero (suc a) b h k = absurd (omega arith)
  digits_enough (suc n) (suc m) (suc a) b h k =
      ap (λ d. d * 2 + f (suc a % 2) (b % 2))
        (digits_enough n m (suc a / 2) (b / 2) (omega arith) (omega arith))

  bitwise_step :
      (a b : ℕ)
      → z b ≡ z (b / 2) * 2 + f 0 (b % 2)
      → bitwise z f a b ≡ bitwise z f (a / 2) (b / 2) * 2 + f (a % 2) (b % 2)
  bitwise_step zero b h = h
  bitwise_step (suc a) b h =
      ap (λ d. d * 2 + f (suc a % 2) (b % 2))
        (digits_enough a (suc a / 2) (suc a / 2) (b / 2) (omega arith) (omega arith))

bit_and_eq : (a b : ℕ) → bit_and a b ≡ bitwise (λ _. 0) min a b
bit_and_eq a b = λ i. bit_and-bitwise a b i

bit_or_eq : (a b : ℕ) → bit_or a b ≡ bitwise (λ c. c) max a b
bit_or_eq a b = λ i. bit_or-bitwise a b i

bit_xor_eq : (a b : ℕ) → bit_xor a b ≡ bitwise (λ c. c) differ a b
bit_xor_eq a b = λ i. bit_xor-bitwise a b i

pub bit_and_step : (a b : ℕ) → bit_and a b ≡ bit_and (a / 2) (b / 2) * 2 + min (a % 2) (b % 2)
bit_and_step a b =
    bit_and_eq a b
    ∙ bitwise_step (λ _. 0) min a b (omega arith)
    ∙ ap (λ d. d * 2 + min (a % 2) (b % 2)) (sym (bit_and_eq (a / 2) (b / 2)))

pub bit_or_step : (a b : ℕ) → bit_or a b ≡ bit_or (a / 2) (b / 2) * 2 + max (a % 2) (b % 2)
bit_or_step a b =
    bit_or_eq a b
    ∙ bitwise_step (λ c. c) max a b (omega arith)
    ∙ ap (λ d. d * 2 + max (a % 2) (b % 2)) (sym (bit_or_eq (a / 2) (b / 2)))

-- The digit at place `i`.
unfoldable pub digit : ℕ → ℕ → ℕ
digit a zero = a % 2
digit a (suc i) = digit (a / 2) i

pub digit_lt : (a i : ℕ) → digit a i < 2
unfolding digit
digit_lt a zero = omega arith
digit_lt a (suc i) = digit_lt (a / 2) i

pub digit-bit_and : (a b i : ℕ) → digit (bit_and a b) i ≡ min (digit a i) (digit b i)
unfolding digit
digit-bit_and a b zero = omega (arith, bit_and_step a b)
digit-bit_and a b (suc i) =
    ap (λ n. digit n i) {y = bit_and (a / 2) (b / 2)} (omega (arith, bit_and_step a b))
    ∙ digit-bit_and (a / 2) (b / 2) i

pub digit-bit_or : (a b i : ℕ) → digit (bit_or a b) i ≡ max (digit a i) (digit b i)
unfolding digit
digit-bit_or a b zero = omega (arith, bit_or_step a b)
digit-bit_or a b (suc i) =
    ap (λ n. digit n i) {y = bit_or (a / 2) (b / 2)} (omega (arith, bit_or_step a b))
    ∙ digit-bit_or (a / 2) (b / 2) i

pub digit-zero : (i : ℕ) → digit 0 i ≡ 0
unfolding digit
digit-zero zero = refl
digit-zero (suc i) = digit-zero i

-- Numbers with the same digits are equal; `n` bounds both.
same_digits : (n a b : ℕ) → a ≤ n → b ≤ n → ((i : ℕ) → digit a i ≡ digit b i) → a ≡ b
unfolding digit
same_digits zero a b h k e = omega arith
same_digits (suc n) zero zero h k e = refl
same_digits (suc n) a b h k e =
    omega (arith, same_digits n (a / 2) (b / 2) (omega arith) (omega arith) (λ i. e (suc i)), e 0)

pub digit_ext : (a b : ℕ) → ((i : ℕ) → digit a i ≡ digit b i) → a ≡ b
digit_ext a b e = same_digits (a + b) a b (omega arith) (omega arith) e

pub bit_xor_step : (a b : ℕ) → bit_xor a b ≡ bit_xor (a / 2) (b / 2) * 2 + differ (a % 2) (b % 2)
bit_xor_step a b =
    bit_xor_eq a b
    ∙ bitwise_step (λ c. c) differ a b (omega arith)
    ∙ ap (λ d. d * 2 + differ (a % 2) (b % 2)) (sym (bit_xor_eq (a / 2) (b / 2)))

differ_lt : (x y : ℕ) → x < 2 → y < 2 → differ x y < 2
differ_lt zero y h k = k
differ_lt (suc x) zero h k = h
differ_lt (suc x) (suc y) h k = differ_lt x y (omega arith) (omega arith)

differ_self : (x : ℕ) → differ x x ≡ 0
differ_self zero = refl
differ_self (suc x) = differ_self x

differ_zero : (x : ℕ) → differ x 0 ≡ x
differ_zero zero = refl
differ_zero (suc x) = refl

pub digit-bit_xor : (a b i : ℕ) → digit (bit_xor a b) i ≡ differ (digit a i) (digit b i)
unfolding digit
digit-bit_xor a b zero =
    omega (arith, bit_xor_step a b, differ_lt (a % 2) (b % 2) (omega arith) (omega arith))
digit-bit_xor a b (suc i) =
    ap (λ n. digit n i) {y = bit_xor (a / 2) (b / 2)}
      (omega (arith, bit_xor_step a b, differ_lt (a % 2) (b % 2) (omega arith) (omega arith)))
    ∙ digit-bit_xor (a / 2) (b / 2) i

-- Dividing by a power of two drops digits, and so commutes with an operation on digits.
abbrev Halves : (ℕ → ℕ → ℕ) → Type 0
Halves op = (a b : ℕ) → op a b / 2 ≡ op (a / 2) (b / 2)

div_pow_suc : (a n : ℕ) → a / 2 ^ suc n ≡ a / 2 / 2 ^ n
div_pow_suc a n = ap (λ d. a / d) (pow-succ' 2 n) ∙ sym (div-div-eq-div-mul a 2 (2 ^ n))

shift : (op : ℕ → ℕ → ℕ) → Halves op → (a b n : ℕ) → op a b / 2 ^ n ≡ op (a / 2 ^ n) (b / 2 ^ n)
shift op h a b zero = div-one (op a b) ∙ (λ i. op (sym (div-one a) i) (sym (div-one b) i))
shift op h a b (suc n) =
    div_pow_suc (op a b) n
    ∙ ap (λ d. d / 2 ^ n) (h a b)
    ∙ shift op h (a / 2) (b / 2) n
    ∙ (λ i. op (sym (div_pow_suc a n) i) (sym (div_pow_suc b n) i))

pub shift_and : (a b n : ℕ) → bit_and a b / 2 ^ n ≡ bit_and (a / 2 ^ n) (b / 2 ^ n)
shift_and = shift bit_and (λ a b. omega (arith, bit_and_step a b))

pub shift_or : (a b n : ℕ) → bit_or a b / 2 ^ n ≡ bit_or (a / 2 ^ n) (b / 2 ^ n)
shift_or = shift bit_or (λ a b. omega (arith, bit_or_step a b))

pub shift_xor : (a b n : ℕ) → bit_xor a b / 2 ^ n ≡ bit_xor (a / 2 ^ n) (b / 2 ^ n)
shift_xor =
    shift bit_xor (λ a b.
      omega (arith, bit_xor_step a b, differ_lt (a % 2) (b % 2) (omega arith) (omega arith)))

-- What the operations make of zero and of equal numbers is zero or one of the two.
abbrev pub Between : (ℕ → ℕ → ℕ) → Type 0
Between op =
    (x : ℕ)
    → (op 0 0 ≡ 0)
      × ((op x 0 ≡ 0) ⊎ (op x 0 ≡ x))
      × ((op 0 x ≡ 0) ⊎ (op 0 x ≡ x))
      × ((op x x ≡ 0) ⊎ (op x x ≡ x))

pub bit_and-Between : Between bit_and
bit_and-Between x = (
  digit_ext _ 0 (λ i. omega (arith, digit-bit_and 0 0 i, digit-zero i)),
  inl (digit_ext _ 0 (λ i. omega (arith, digit-bit_and x 0 i, digit-zero i))),
  inl (digit_ext _ 0 (λ i. omega (arith, digit-bit_and 0 x i, digit-zero i))),
  inr (digit_ext _ x (λ i. omega (arith, digit-bit_and x x i))),
)

pub bit_or-Between : Between bit_or
bit_or-Between x = (
  digit_ext _ 0 (λ i. omega (arith, digit-bit_or 0 0 i, digit-zero i)),
  inr (digit_ext _ x (λ i. omega (arith, digit-bit_or x 0 i, digit-zero i))),
  inr (digit_ext _ x (λ i. omega (arith, digit-bit_or 0 x i, digit-zero i))),
  inr (digit_ext _ x (λ i. omega (arith, digit-bit_or x x i))),
)

pub bit_xor-Between : Between bit_xor
bit_xor-Between x = (
  digit_ext _ 0 (λ i. digit-bit_xor 0 0 i ∙ differ_self (digit 0 i) ∙ sym (digit-zero i)),
  inr (
      digit_ext _ x (λ i.
        digit-bit_xor x 0 i
        ∙ ap (λ d. differ (digit x i) d) (digit-zero i)
        ∙ differ_zero (digit x i))),
  inr (digit_ext _ x (λ i. digit-bit_xor 0 x i ∙ ap (λ d. differ d (digit x i)) (digit-zero i))),
  inl (digit_ext _ 0 (λ i. digit-bit_xor x x i ∙ differ_self (digit x i) ∙ sym (digit-zero i))),
)
