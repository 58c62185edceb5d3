-- ===== src/Base/Bytes.antt =====
-- Byte strings as numbers: Rust's `to_be_bytes`, and the number that a big-endian slice denotes.
use Prim.Native.Nat.{ℕ, zero, suc, ◌+◌, ◌*◌, ◌/◌, ◌%◌, ◌^◌, ◌<◌}
use mathlib.Core.Path.{◌≡◌, refl, sym}
use mathlib.Core.List.{List, [], ◌∷◌, ◌++◌, append_assoc, append-nil}
use native.Mathlib.Nat.{pow-suc, add-zero, add-suc, mul_assoc}
use native.Mathlib.Omega.{arith}
use rustevm.Base.Lists.{
  length, length-append, replicate, replicate_snoc, drop, drop_all, drop-append, All, All-append,
}

abbrev pub IsByte : ℕ → Type 0
IsByte b = b < 256

-- The number that a big-endian slice denotes.
unfoldable pub be_value : List ℕ → ℕ
be_value [] = 0
be_value (b ∷ bs) = b * 256 ^ length bs + be_value bs

-- `v.to_be_bytes()` for an unsigned integer of `n` bytes.
unfoldable pub to_be_bytes : ℕ → ℕ → List ℕ
to_be_bytes zero v = []
to_be_bytes (suc n) v = to_be_bytes n (v / 256) ++ (v % 256 ∷ [])

pub pow_add : (a b : ℕ) → 2 ^ (a + b) ≡ 2 ^ a * 2 ^ b
pow_add a zero = rw add-zero (omega arith)
pow_add a (suc b) = rw (add-suc, pow-suc 2 (a + b), pow-suc 2 b, pow_add a b) (omega arith)

pub pow_256 : (n : ℕ) → 256 ^ suc n ≡ 256 ^ n * 256
pow_256 n = pow-suc 256 n

pub length-to_be_bytes : (n v : ℕ) → length (to_be_bytes n v) ≡ n
unfolding to_be_bytes
length-to_be_bytes zero v = refl
length-to_be_bytes (suc n) v =
    omega (
      arith,
      length-append (to_be_bytes n (v / 256)) (v % 256 ∷ []),
      length-to_be_bytes n (v / 256),
    )

pub to_be_bytes-IsByte : (n v : ℕ) → All IsByte (to_be_bytes n v)
unfolding to_be_bytes
to_be_bytes-IsByte zero v = tt
to_be_bytes-IsByte (suc n) v =
    All-append IsByte (to_be_bytes n (v / 256)) _ (to_be_bytes-IsByte n (v / 256)) (omega arith)

length-snoc {ℓ} : {A : Type ℓ} (xs : List A) (x : A) → length (xs ++ (x ∷ [])) ≡ suc (length xs)
length-snoc xs x = omega (arith, length-append xs (x ∷ []))

be_value-snoc : (bs : List ℕ) (b : ℕ) → be_value (bs ++ (b ∷ [])) ≡ be_value bs * 256 + b
unfolding be_value
be_value-snoc [] b = omega arith
be_value-snoc (x ∷ bs) b =
    rw (length-snoc bs b, pow_256 (length bs), be_value-snoc bs b) (omega arith)

pub be_value-lt : (bs : List ℕ) → All IsByte bs → be_value bs < 256 ^ length bs
unfolding be_value
be_value-lt [] h = omega arith
be_value-lt (b ∷ bs) (h, hs) = grind (arith, pow_256 (length bs), be_value-lt bs hs)

pub be_value-to_be_bytes : (n v : ℕ) → v < 256 ^ n → be_value (to_be_bytes n v) ≡ v
unfolding to_be_bytes
be_value-to_be_bytes zero v h = unfold be_value in omega arith
be_value-to_be_bytes (suc n) v h =
    rw
      (
        be_value-snoc (to_be_bytes n (v / 256)) (v % 256),
        be_value-to_be_bytes n (v / 256) (omega (arith, pow_256 n)),
      )
      (omega arith)

pub be_value-zeros : (n : ℕ) (bs : List ℕ) → be_value (replicate n 0 ++ bs) ≡ be_value bs
unfolding be_value
be_value-zeros zero bs = refl
be_value-zeros (suc n) bs = omega (arith, be_value-zeros n bs)

pub to_be_bytes-zero : (n : ℕ) → to_be_bytes n 0 ≡ replicate n 0
unfolding to_be_bytes
to_be_bytes-zero zero = refl
to_be_bytes-zero (suc n) = rw (to_be_bytes-zero n) (replicate_snoc n)

-- A number that fits in the low bytes leaves the high ones zero.
pub to_be_bytes_small :
    (k n v : ℕ) → v < 256 ^ n → to_be_bytes (k + n) v ≡ replicate k 0 ++ to_be_bytes n v
unfolding to_be_bytes
to_be_bytes_small k zero v h =
    let none_left : v ≡ 0 = omega arith in rw (none_left, add-zero, append-nil) (to_be_bytes-zero k)
to_be_bytes_small k (suc n) v h =
    rw (add-suc, to_be_bytes_small k n (v / 256) (omega (arith, pow_256 n)), append_assoc)

-- The low bytes of a number are those of a narrower integer with the same bits.
pub drop-to_be_bytes : (k n v : ℕ) → drop k (to_be_bytes (k + n) v) ≡ to_be_bytes n v
unfolding to_be_bytes
drop-to_be_bytes k zero v =
    rw (add-zero) (drop_all k (to_be_bytes k v) (omega (arith, length-to_be_bytes k v)))
drop-to_be_bytes k (suc n) v = rw (
  add-suc,
  drop-append k (to_be_bytes (k + n) (v / 256)) (v % 256 ∷ [])
      (omega (arith, length-to_be_bytes (k + n) (v / 256))),
  drop-to_be_bytes k n (v / 256),
)

-- Higher bytes than the width holds are cut off.
pub to_be_bytes-periodic : (n v q : ℕ) → to_be_bytes n (v + q * 256 ^ n) ≡ to_be_bytes n v
unfolding to_be_bytes
to_be_bytes-periodic zero v q = refl
to_be_bytes-periodic (suc n) v q =
    let shift : q * 256 ^ suc n ≡ q * 256 ^ n * 256 =
      rw (pow_256 n) (sym (mul_assoc q (256 ^ n) 256)) in
    let high : (v + q * 256 ^ suc n) / 256 ≡ v / 256 + q * 256 ^ n = omega (arith, shift) in
    let low : (v + q * 256 ^ suc n) % 256 ≡ v % 256 = omega (arith, shift) in
    rw (high, low, to_be_bytes-periodic n (v / 256) q)
