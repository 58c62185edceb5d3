-- ===== src/Base/Format/Digits.antt =====
-- What the digits of Base/Format.antt denote.
use Prim.Native.Nat.{ℕ, zero, suc, ◌+◌, ◌-◌, ◌*◌, ◌/◌, ◌%◌, ◌≤◌, ◌<◌}
use mathlib.Core.Path.{◌≡◌, refl, sym, ap, ◌∙◌, subst}
use mathlib.Core.Bool.{Bool, true, false, ◌&&◌, ◌||◌}
use mathlib.Core.Logic.{◌⊎◌, inl, inr}
use mathlib.Core.List.{List, [], ◌∷◌, ◌++◌}
use native.Mathlib.Omega.{arith}
use rustevm.Base.Lists.{length, replicate, All, All-append}
use rustevm.Base.Tests.{ltb, leb, ltb→lt, ltb-false, Bool-cases, if◌then◌else◌}
use rustevm.Base.Format.{digit_char, digits_from, decimal, lower_hex, pad_left}

unfoldable pub digit_value : ℕ → ℕ
digit_value c = if ltb c 58 then c - b'0' else c - 87

-- The number that digits denote in a base, behind `n`.
unfoldable pub read_digits : ℕ → ℕ → List ℕ → ℕ
unfolding digit_value
read_digits base n [] = n
read_digits base n (c ∷ cs) = read_digits base (n * base + digit_value c) cs

pub read_digits-snoc :
    (base n : ℕ) (cs : List ℕ) (c : ℕ)
    → read_digits base n (cs ++ (c ∷ [])) ≡ read_digits base n cs * base + digit_value c
unfolding read_digits
read_digits-snoc base n [] c = refl
read_digits-snoc base n (d ∷ cs) c = read_digits-snoc base (n * base + digit_value d) cs c

abbrev IsBase : ℕ → Type 0
IsBase base = (base ≡ 10) ⊎ (base ≡ 16)

digit_value-digit_char : (d : ℕ) → d < 16 → digit_value (digit_char d) ≡ d
unfolding digit_value digit_char
digit_value-digit_char d h = ground arith

-- What division by the base leaves.
div_mod :
    (base n : ℕ)
    → IsBase base
    → (n / base * base + n % base ≡ n) × (n % base < 16) × ((base ≤ n) → n / base < n)
div_mod base n (inl ten) = rw ten (omega arith, omega arith, λ h. omega arith)
div_mod base n (inr sixteen) = rw sixteen (omega arith, omega arith, λ h. omega arith)

small_digit : (base n : ℕ) → IsBase base → n < base → n < 16
small_digit base n (inl ten) h = omega arith
small_digit base n (inr sixteen) h = omega arith

digits_from-last :
    (base fuel n : ℕ) → ltb n base ≡ true → digits_from base (suc fuel) n ≡ digit_char n ∷ []
unfolding digits_from
digits_from-last base fuel n h = rw (digits_from, h) refl

digits_from-more :
    (base fuel n : ℕ)
    → ltb n base ≡ false
    → digits_from base (suc fuel) n
      ≡ digits_from base fuel (n / base) ++ (digit_char (n % base) ∷ [])
unfolding digits_from
digits_from-more base fuel n h = rw (digits_from, h) refl

pub read_digits-digits_from :
    (base fuel n : ℕ)
    → (base ≡ 10) ⊎ (base ≡ 16)
    → n < fuel
    → read_digits base 0 (digits_from base fuel n) ≡ n
unfolding read_digits
read_digits-digits_from base zero n k h = absurd (omega arith)
read_digits-digits_from base (suc fuel) n k h = elim (Bool-cases (ltb n base)) [
  | inl one ↦
      ap (read_digits base 0) (digits_from-last base fuel n one)
      ∙ ap (λ d. 0 * base + d) (digit_value-digit_char n (small_digit base n k (ltb→lt n base one)))
      ∙ zero_times base n
  | inr more ↦
      let (whole, last, less) = div_mod base n k in
      let shorter = less (ltb-false n base more) in
      let before = read_digits-digits_from base fuel (n / base) k (omega arith) in
      ap (read_digits base 0) (digits_from-more base fuel n more)
      ∙ read_digits-snoc base 0 (digits_from base fuel (n / base)) (digit_char (n % base))
      ∙ rw (before, digit_value-digit_char (n % base) last) whole
]
  where
    zero_times : (base n : ℕ) → 0 * base + n ≡ n
    zero_times base n = omega arith

pub read-decimal : (n : ℕ) → read_digits 10 0 (decimal n) ≡ n
unfolding decimal
read-decimal n = read_digits-digits_from 10 (suc n) n (inl refl) (omega arith)

pub read-lower_hex : (n : ℕ) → read_digits 16 0 (lower_hex n) ≡ n
unfolding lower_hex
read-lower_hex n = read_digits-digits_from 16 (suc n) n (inr refl) (omega arith)

-- A lower-case hexadecimal digit.
abbrev pub is_hex_digit : ℕ → Bool
is_hex_digit c = (leb b'0' c && leb c b'9') || (leb b'a' c && leb c b'f')

digit_char-is_hex_digit : (d : ℕ) → d < 16 → is_hex_digit (digit_char d) ≡ true
unfolding digit_char
digit_char-is_hex_digit d h = ground arith

pub digits_from-All :
    (base fuel n : ℕ)
    → (base ≡ 10) ⊎ (base ≡ 16)
    → All (λ c. is_hex_digit c ≡ true) (digits_from base fuel n)
unfolding digits_from
digits_from-All base zero n k = tt
digits_from-All base (suc fuel) n k = elim (Bool-cases (ltb n base)) [
  | inl one ↦
      subst (All (λ c. is_hex_digit c ≡ true)) (sym (digits_from-last base fuel n one))
        (digit_char-is_hex_digit n (small_digit base n k (ltb→lt n base one)), tt)
  | inr more ↦ subst (All (λ c. is_hex_digit c ≡ true)) (sym (digits_from-more base fuel n more)) (
      All-append (λ c. is_hex_digit c ≡ true) (digits_from base fuel (n / base)) _
        (digits_from-All base fuel (n / base) k)
        (digit_char-is_hex_digit (n % base) (div_mod base n k).1, tt))
]

-- A byte in two digits.
pub byte_digits :
    (b : ℕ)
    → b < 256
    → (hi lo : ℕ) × (pad_left b'0' 2 (lower_hex b) ≡ hi ∷ lo ∷ [])
      × (digit_value hi * 16 + digit_value lo ≡ b)
      × (is_hex_digit hi ≡ true)
      × (is_hex_digit lo ≡ true)
unfolding pad_left lower_hex
byte_digits b h = elim (Bool-cases (ltb b 16)) [
  | inl one ↦
      let small = ltb→lt b 16 one in
      (
        b'0',
        digit_char b,
        ap (λ t. replicate (2 - length t) b'0' ++ t) (digits_from-last 16 b b one),
        rw (digit_value-digit_char b small) (unfold digit_value in omega arith),
        refl,
        digit_char-is_hex_digit b small,
      )
  | inr two ↦
      let top : ltb (b / 16) 16 ≡ true = ground arith in
      let top_small = ltb→lt (b / 16) 16 top in
      let low : b % 16 < 16 = omega arith in
      let big = ltb-false b 16 two in
      (
        digit_char (b / 16),
        digit_char (b % 16),
        ap (λ t. replicate (2 - length t) b'0' ++ t) (digits_from-two b big top two),
        rw (digit_value-digit_char (b / 16) top_small, digit_value-digit_char (b % 16) low)
            (omega arith),
        digit_char-is_hex_digit (b / 16) top_small,
        digit_char-is_hex_digit (b % 16) low,
      )
]
  where
    digits_from-two :
        (b : ℕ)
        → 16 ≤ b
        → ltb (b / 16) 16 ≡ true
        → ltb b 16 ≡ false
        → digits_from 16 (suc b) b ≡ digit_char (b / 16) ∷ digit_char (b % 16) ∷ []
    digits_from-two zero big top two = absurd (omega arith)
    digits_from-two (suc k) big top two =
        digits_from-more 16 (suc k) (suc k) two
        ∙ ap (λ t. t ++ (digit_char (suc k % 16) ∷ [])) (digits_from-last 16 k (suc k / 16) top)
