-- ===== src/Isa/Spec.antt =====
-- One opcode's description: src/shared/evm-isa/src/{category,fork,gas,spec,op_form}.rs, and the
-- `str_eq` of lookup.rs. A `&str` is the list of its bytes.
use mathlib.Core.Bool.{false≢true}
use mathlib.Core.Path.{subst}
use Prim.Native.Char.{code}
use Prim.Native.String.{String}
use rustevm.Base.{
  ℕ, ◌-◌, ◌≡◌, ◌≢◌, refl, sym, ◌∙◌, ◌↔◌, Bool, true, false, not, ◌&&◌, List, [], ◌∷◌, arith, leb,
  ◌==◌, ==_iff, Bool-cases, inl, inr, if◌then◌else◌, length,
}

abbrev pub Str : Type 0
Str = List ℕ

-- The bytes of an ASCII literal.
abbrev pub bytes : String → Str
bytes String.[] = []
bytes (String.◌∷◌ c s) = code c ∷ bytes s

-- `while i < a.len()`: the two slices are walked in step, and have one length.
str_eq_loop : Str → Str → Bool
str_eq_loop [] b = true
str_eq_loop (x ∷ a) [] = false
str_eq_loop (x ∷ a) (y ∷ b) = if x == y then str_eq_loop a b else false

unfoldable pub str_eq : Str → Str → Bool
unfolding str_eq_loop
str_eq a b = if length a == length b then str_eq_loop a b else false

pub data OpCategory : Type 0 where
  arithmetic comparison bitwise storage memory context block control : OpCategory
  stack_manip call log terminating : OpCategory

pub data Fork : Type 0 where
  frontier homestead byzantium constantinople istanbul berlin london shanghai : Fork
  cancun prague : Fork

-- The derived `Ord`: forks compare by their place in the declaration.
unfoldable pub chronology : Fork → ℕ
chronology Fork.frontier = 0
chronology Fork.homestead = 1
chronology Fork.byzantium = 2
chronology Fork.constantinople = 3
chronology Fork.istanbul = 4
chronology Fork.berlin = 5
chronology Fork.london = 6
chronology Fork.shanghai = 7
chronology Fork.cancun = 8
chronology Fork.prague = 9

pub data GasClass : Type 0 where
  zero : GasClass
  fixed : ℕ → GasClass
  cold_warm : ℕ → ℕ → GasClass
  per_word : ℕ → GasClass
  per_byte_of_exponent : ℕ → GasClass
  storage_write memory_expansion complex all : GasClass

pub record OpSpec : Type 0 where
  pub mnemonic : Str
  pub byte : ℕ
  pub stack_in : ℕ
  pub stack_out : ℕ
  pub is_terminating : Bool
  pub gas : GasClass
  pub category : OpCategory
  pub min_fork : Fork

is_pure_category : OpCategory → Bool
is_pure_category OpCategory.arithmetic = true
is_pure_category OpCategory.comparison = true
is_pure_category OpCategory.bitwise = true
is_pure_category _ = false

is_storage : OpCategory → Bool
is_storage OpCategory.storage = true
is_storage _ = false

is_stack_category : OpCategory → Bool
is_stack_category OpCategory.stack_manip = true
is_stack_category _ = false

unfoldable pub is_pure : OpSpec → Bool
unfolding is_pure_category
is_pure spec = is_pure_category spec.category

unfoldable pub reads_storage : OpSpec → Bool
unfolding is_storage
reads_storage spec = is_storage spec.category && not (spec.stack_out == 0)

unfoldable pub writes_storage : OpSpec → Bool
unfolding is_storage
writes_storage spec = is_storage spec.category && spec.stack_out == 0

unfoldable pub is_stack_manip : OpSpec → Bool
unfolding is_stack_category
is_stack_manip spec = is_stack_category spec.category

pub data OpForm : Type 0 where
  simple : OpForm
  push dup swap : ℕ → OpForm

-- `a..=b` holds `x`.
abbrev within : ℕ → ℕ → ℕ → Bool
within a b x = leb a x && leb x b

unfoldable pub op_form : OpSpec → OpForm
op_form spec =
    if spec.byte == 0x5f
    then push 0
    else if within 0x60 0x7f spec.byte
    then push (spec.byte - 0x5f)
    else if within 0x80 0x8f spec.byte
    then dup (spec.byte - 0x7f)
    else if within 0x90 0x9f spec.byte
    then swap (spec.byte - 0x8f)
    else simple

str_eq_loop→eq : (a b : Str) → length a ≡ length b → str_eq_loop a b ≡ true → a ≡ b
unfolding str_eq_loop
str_eq_loop→eq [] [] e h = refl
str_eq_loop→eq [] (y ∷ b) e h = absurd (omega arith)
str_eq_loop→eq (x ∷ a) [] e h = absurd (omega arith)
str_eq_loop→eq (x ∷ a) (y ∷ b) e h = ground (arith, str_eq_loop→eq a b)

str_eq_loop_refl : (a : Str) → str_eq_loop a a ≡ true
unfolding str_eq_loop
str_eq_loop_refl [] = refl
str_eq_loop_refl (x ∷ a) = ground (arith, str_eq_loop_refl a)

pub str_eq_refl : (a : Str) → str_eq a a ≡ true
unfolding str_eq
str_eq_refl a = ground (arith, str_eq_loop_refl a)

str_eq→eq : (a b : Str) → str_eq a b ≡ true → a ≡ b
unfolding str_eq
str_eq→eq a b h = elim (Bool-cases (length a == length b)) [
  | inl same ↦ str_eq_loop→eq a b ((==_iff _ _).0 same) (rw same at h)
  | inr other ↦ absurd (false≢true (rw other at h))
]

-- The byte loop decides equality.
pub str_eq_iff : (a b : Str) → (str_eq a b ≡ true) ↔ (a ≡ b)
str_eq_iff a b = (str_eq→eq a b, λ e. subst (λ c. str_eq a c ≡ true) e (str_eq_refl a))

pub str_eq_ne : (a b : Str) → a ≢ b → str_eq a b ≡ false
str_eq_ne a b h = elim (Bool-cases (str_eq a b)) [
  | inl same ↦ absurd (h ((str_eq_iff a b).0 same))
  | inr other ↦ other
]

pub str_eq_flip : (a b : Str) → str_eq a b ≡ false → str_eq b a ≡ false
str_eq_flip a b h = str_eq_ne b a (λ e. false≢true (sym h ∙ (str_eq_iff a b).1 (sym e)))
