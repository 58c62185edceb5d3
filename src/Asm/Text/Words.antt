-- ===== src/Asm/Text/Words.antt =====
-- Cutting a text at a separator, and bytes out of hexadecimal digits.
use rustevm.Base.{
  ℕ, suc, ◌+◌, ◌*◌, ◌≤◌, ◌≡◌, refl, sym, ap, ◌∙◌, true, false, List, [], ◌∷◌, ◌++◌, leb, ◌==◌,
  arith, if◌then◌else◌, All, All-append, All-map, all,
}
use mathlib.Core.Bool.{and-eq-true_iff}
use mathlib.Core.Path.{subst}
use rustevm.Base.Bytes.{IsByte}
use rustevm.Base.Format.{pad_left, lower_hex, hex_bytes}
use rustevm.Base.Format.Digits.{digit_value, byte_digits, is_hex_digit}
use rustevm.Isa.{Str}

cons_first : ℕ → List Str → List Str
cons_first c [] = (c ∷ []) ∷ []
cons_first c (w ∷ ws) = (c ∷ w) ∷ ws

-- The pieces between the separators.
unfoldable pub words : ℕ → Str → List Str
unfolding cons_first
words sep [] = [] ∷ []
words sep (c ∷ cs) = let rest = words sep cs in if c == sep then [] ∷ rest else cons_first c rest

-- No byte of the text is below the bound.
abbrev pub Above : ℕ → Str → Type 0
Above bound = All (λ c. bound ≤ c)

pub words-next :
    (sep : ℕ) (w rest : Str)
    → Above (suc sep) w
    → words sep (w ++ (sep ∷ rest)) ≡ w ∷ words sep rest
unfolding words cons_first
words-next sep [] rest h = let same : (sep == sep) ≡ true = ground arith in rw same refl
words-next sep (c ∷ w) rest (h, hs) =
    let other : (c == sep) ≡ false = ground arith in rw (other, words-next sep w rest hs) refl

pub words-last : (sep : ℕ) (w : Str) → Above (suc sep) w → words sep w ≡ w ∷ []
unfolding words cons_first
words-last sep [] h = refl
words-last sep (c ∷ w) (h, hs) =
    let other : (c == sep) ≡ false = ground arith in rw (other, words-last sep w hs) refl

unfoldable pub hex_pairs : Str → List ℕ
hex_pairs [] = []
hex_pairs (hi ∷ []) = []
hex_pairs (hi ∷ (lo ∷ cs)) = (digit_value hi * 16 + digit_value lo) ∷ hex_pairs cs

pub hex_pairs-hex_bytes : (bs : List ℕ) → All IsByte bs → hex_pairs (hex_bytes bs) ≡ bs
unfolding hex_pairs hex_bytes
hex_pairs-hex_bytes [] h = refl
hex_pairs-hex_bytes (b ∷ bs) (h, hs) =
    let (hi, lo, digits, value, _, _) = byte_digits b h in
    ap (λ d. hex_pairs (d ++ hex_bytes bs)) digits
    ∙ ap (λ v. v ∷ hex_pairs (hex_bytes bs)) value
    ∙ ap (λ r. b ∷ r) (hex_pairs-hex_bytes bs hs)

hex_digit-Above : (c : ℕ) → is_hex_digit c ≡ true → 33 ≤ c
hex_digit-Above c h = ground arith

pub all-hex_Above : (cs : Str) → All (λ c. is_hex_digit c ≡ true) cs → Above 33 cs
all-hex_Above cs = All-map (λ c. is_hex_digit c ≡ true) (λ c. 33 ≤ c) hex_digit-Above cs

pub hex_bytes-Above : (bs : List ℕ) → All IsByte bs → Above 33 (hex_bytes bs)
unfolding hex_bytes
hex_bytes-Above [] h = tt
hex_bytes-Above (b ∷ bs) (h, hs) =
    let (hi, lo, digits, value, high, low) = byte_digits b h in
    All-append (λ c. 33 ≤ c) (pad_left b'0' 2 (lower_hex b)) (hex_bytes bs)
      (subst (Above 33) (sym digits) (hex_digit-Above hi high, (hex_digit-Above lo low, tt)))
      (hex_bytes-Above bs hs)

-- A test of every byte.
pub all-Above : (cs : Str) → all (λ c. leb 33 c) cs ≡ true → Above 33 cs
all-Above [] h = tt
all-Above (c ∷ cs) h =
    let (first, rest) = (and-eq-true_iff (leb 33 c) (all (λ d. leb 33 d) cs)).0 h in
    (ground arith, all-Above cs rest)
