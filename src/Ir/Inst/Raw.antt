-- ===== src/Ir/Inst/Raw.antt =====
-- What the operations of src/backend/evm-codegen/src/ir/inst.rs give before their repair.
use Prim.Native.Nat.{bit_and, bit_or, bit_xor}
use rustevm.Base.{
  ℕ, ◌-◌, ◌/◌, ◌%◌, ◌^◌, ◌<◌, ◌≡◌, ◌⊎◌, Bool, true, false, List, [], ◌∷◌, All, ◌==◌, if◌then◌else◌,
}
use rustevm.Ir.Inst.{Op}
use rustevm.Ir.Types.{Ty, as_int, bool}
use rustevm.Ir.Types.Invariant.{word_mod, Fits}

-- EVM `MOD`: the remainder by zero is zero. `DIV` by zero is zero as here.
abbrev pub evm_mod : ℕ → ℕ → ℕ
evm_mod x y = if y == 0 then 0 else x % y

-- The logical shift to the right.
abbrev pub shift_right : ℕ → ℕ → ℕ
shift_right x s = x / 2 ^ s

abbrev pub Binary : (ℕ → ℕ → ℕ) → List ℕ → ℕ → Type 0
Binary f (x ∷ y ∷ []) w = w ≡ f x y
Binary f _ w = ⊥

-- Any word for a signed type, a given operation for an unsigned one.
abbrev pub Unsigned : Bool → (ℕ → ℕ → ℕ) → List ℕ → ℕ → Type 0
Unsigned true f args w = w < word_mod
Unsigned false f args w = Binary f args w

-- The raw word that the operation may give before its repair. Where the repair is not left out, that
-- may be any word.
abbrev pub Yields : Ty → Op → List ℕ → ℕ → Type 0
Yields ty Op.and args w = Binary bit_and args w
Yields ty Op.or args w = Binary bit_or args w
Yields ty Op.xor args w = Binary bit_xor args w
Yields ty Op.not (x ∷ []) w = w ≡ word_mod - 1 - x
Yields ty Op.not _ w = ⊥
Yields ty Op.div args w = Unsigned (as_int ty).signed (λ x y. x / y) args w
Yields ty Op.rem args w = Unsigned (as_int ty).signed evm_mod args w
Yields ty Op.shr args w = Unsigned (as_int ty).signed shift_right args w
Yields ty Op.select (c ∷ x ∷ y ∷ []) w = (w ≡ x) ⊎ (w ≡ y)
Yields ty Op.select _ w = ⊥
Yields ty (Op.icmp c) args w = w < 2
Yields ty _ args w = w < word_mod

-- The operands that are to fit the result's type.
abbrev pub Operands : Ty → Op → List ℕ → Type 0
Operands ty Op.select (c ∷ xs) = All (Fits ty) xs
Operands ty Op.shr (x ∷ xs) = Fits ty x
Operands ty _ args = All (Fits ty) args

-- The operations whose result `default_repair` is for. A constant, a call and an allocation take a
-- word that is in range elsewhere, a conversion has `for_convert`, a raw opcode has no repair, and a
-- comparison is always made at the type of Booleans.
abbrev pub Repairs : Ty → Op → Type 0
Repairs ty (Op.const imm) = ⊥
Repairs ty (Op.call callee) = ⊥
Repairs ty (Op.alloca size) = ⊥
Repairs ty Op.convert = ⊥
Repairs ty (Op.opcode spec) = ⊥
Repairs ty (Op.icmp c) = ty ≡ bool
Repairs ty _ = Unit
