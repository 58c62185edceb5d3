-- ===== src/Ir/Inst/Sound.antt =====
-- `Op::default_repair` of src/backend/evm-codegen/src/ir/inst.rs against the invariant at the head of
-- types.rs.
use native.Mathlib.Nat.{div-le_self, mod-le}
use mathlib.Core.Path.{subst}
use Prim.Native.Nat.{bit_and, bit_or, bit_xor}
use rustevm.Base.{
  ℕ, ◌-◌, ◌/◌, ◌^◌, ◌≤◌, ◌<◌, ◌≡◌, sym, inl, inr, Bool, true, false, List, [], ◌∷◌, All, arith,
  if◌then◌else◌,
}
use rustevm.Base.Bitwise.{
  bit_and-Between, bit_or-Between, bit_xor-Between, shift_and, shift_or, shift_xor, Between,
}
use rustevm.Ir.Inst.{Op, default_repair, repair_for, narrow}
use rustevm.Ir.Inst.HighBits.{op-FitsBits}
use rustevm.Ir.Inst.Raw.{evm_mod, shift_right, Binary, Unsigned, Yields, Operands, Repairs}
use rustevm.Ir.Types.{IntTy, Ty, as_int, bits, is_signed, is_well_formed, Repair}
use rustevm.Ir.Types.Convert.{mask-RepairedTo, sext-RepairedTo, well_formed_bounds}
use rustevm.Ir.Types.Invariant.{word_mod, FitsBits, Fits, repaired}

abbrev int_of : Bool → ℕ → IntTy
int_of s b = record { bits = b; signed = s }

narrow-FitsBits :
    (s : Bool) (b w : ℕ)
    → 1 ≤ b
    → b ≤ 256
    → w < word_mod
    → FitsBits s b (repaired (narrow (int_of s b)) w)
unfolding narrow
narrow-FitsBits true b w low fit h = (sext-RepairedTo b w low fit h).0
narrow-FitsBits false b w low fit h = (mask-RepairedTo b w h).0

-- The complement of a sign-extended word is sign-extended.
not-FitsBits :
    (s : Bool) (b x w : ℕ)
    → 1 ≤ b
    → b ≤ 256
    → FitsBits s b x
    → w ≡ word_mod - 1 - x
    → FitsBits s b (repaired (repair_for Op.not (int_of s b)) w)
unfolding repair_for repaired
not-FitsBits false b x w low fit h e = narrow-FitsBits false b w low fit (omega (arith, e))
not-FitsBits true b x w low fit (lt, inl under) e = (omega (arith, e), inr (omega (arith, e)))
not-FitsBits true b x w low fit (lt, inr over) e = (omega (arith, e), inl (omega (arith, e)))

abbrev HeadFits : Bool → ℕ → List ℕ → Type 0
HeadFits s b [] = Unit
HeadFits s b (x ∷ xs) = FitsBits s b x

-- An operation that does not leave the range of its first operand.
Unsigned-FitsBits :
    (f : ℕ → ℕ → ℕ) (s : Bool) (b : ℕ) (args : List ℕ) (w : ℕ)
    → ((x y : ℕ) → f x y ≤ x)
    → 1 ≤ b
    → b ≤ 256
    → HeadFits s b args
    → Unsigned s f args w
    → FitsBits s b (repaired (if s then narrow (int_of s b) else Repair.none) w)
unfolding repaired
Unsigned-FitsBits f true b args w le low fit h k = narrow-FitsBits true b w low fit k
Unsigned-FitsBits f false b (x ∷ y ∷ []) w le low fit h e = omega (arith, e, le x y, h)
Unsigned-FitsBits f false b [] w le low fit h e = absurd e
Unsigned-FitsBits f false b (x ∷ []) w le low fit h e = absurd e
Unsigned-FitsBits f false b (x ∷ y ∷ z ∷ args) w le low fit h e = absurd e

evm_mod_le : (x y : ℕ) → evm_mod x y ≤ x
evm_mod_le x y = ground (arith, mod-le x y)

shift_right_le : (x s : ℕ) → shift_right x s ≤ x
shift_right_le x s = div-le_self x (2 ^ s)

module _ (op : ℕ → ℕ → ℕ) (h : Between op)
    (shift : (a b n : ℕ) → op a b / 2 ^ n ≡ op (a / 2 ^ n) (b / 2 ^ n)) (ty : Ty)
    (wf : is_well_formed ty ≡ true) where
  Binary-Fits : (args : List ℕ) (w : ℕ) → All (Fits ty) args → Binary op args w → Fits ty w
  unfolding is_signed as_int bits
  Binary-Fits (x ∷ y ∷ []) w (fx, (fy, u)) e =
      let (low, fit) = well_formed_bounds ty wf in
      subst (Fits ty) (sym e) (op-FitsBits op h shift (is_signed ty) (bits ty) x y low fit fx fy)
  Binary-Fits [] w k e = absurd e
  Binary-Fits (x ∷ []) w k e = absurd e
  Binary-Fits (x ∷ y ∷ z ∷ args) w k e = absurd e

head-HeadFits :
    (ty : Ty) (args : List ℕ)
    → All (Fits ty) args
    → HeadFits (as_int ty).signed (as_int ty).bits args
head-HeadFits ty [] h = tt
head-HeadFits ty (x ∷ xs) (h, hs) = h

shr-HeadFits :
    (ty : Ty) (args : List ℕ)
    → Operands ty Op.shr args
    → HeadFits (as_int ty).signed (as_int ty).bits args
shr-HeadFits ty [] h = tt
shr-HeadFits ty (x ∷ xs) h = h

not-Fits :
    (ty : Ty) (args : List ℕ) (w : ℕ)
    → is_well_formed ty ≡ true
    → All (Fits ty) args
    → Yields ty Op.not args w
    → Fits ty (repaired (default_repair Op.not ty) w)
unfolding default_repair bits
not-Fits ty (x ∷ []) w wf (h, u) e =
    let (low, fit) = well_formed_bounds ty wf in
    not-FitsBits (as_int ty).signed (as_int ty).bits x w low fit h e
not-Fits ty [] w wf h e = absurd e
not-Fits ty (x ∷ y ∷ args) w wf h e = absurd e

select-Fits :
    (ty : Ty) (args : List ℕ) (w : ℕ)
    → Operands ty Op.select args
    → Yields ty Op.select args w
    → Fits ty w
select-Fits ty (c ∷ x ∷ y ∷ []) w (hx, (hy, u)) (inl e) = subst (Fits ty) (sym e) hx
select-Fits ty (c ∷ x ∷ y ∷ []) w (hx, (hy, u)) (inr e) = subst (Fits ty) (sym e) hy
select-Fits ty [] w h e = absurd e
select-Fits ty (c ∷ []) w h e = absurd e
select-Fits ty (c ∷ x ∷ []) w h e = absurd e
select-Fits ty (c ∷ x ∷ y ∷ z ∷ args) w h e = absurd e

module _ (ty : Ty) (args : List ℕ) (w : ℕ) (wf : is_well_formed ty ≡ true) where
  narrow-Fits : w < word_mod → Fits ty (repaired (narrow (as_int ty)) w)
  unfolding bits
  narrow-Fits h =
      let (low, fit) = well_formed_bounds ty wf in
      narrow-FitsBits (as_int ty).signed (as_int ty).bits w low fit h

  Unsigned-Fits :
      (f : ℕ → ℕ → ℕ)
      → ((x y : ℕ) → f x y ≤ x)
      → HeadFits (as_int ty).signed (as_int ty).bits args
      → Unsigned (as_int ty).signed f args w
      → Fits ty (repaired (if (as_int ty).signed then narrow (as_int ty) else Repair.none) w)
  unfolding bits
  Unsigned-Fits f le h e =
      let (low, fit) = well_formed_bounds ty wf in
      Unsigned-FitsBits f (as_int ty).signed (as_int ty).bits args w le low fit h e

-- For a well-formed type, an operation with a repair of its own, and operands that fit: the raw word
-- that the operation gives, repaired by its default, fits the type.
pub default_repair-Fits :
    (op : Op) (ty : Ty) (args : List ℕ) (w : ℕ)
    → is_well_formed ty ≡ true
    → Repairs ty op
    → Operands ty op args
    → Yields ty op args w
    → Fits ty (repaired (default_repair op ty) w)
unfolding default_repair repair_for repaired
default_repair-Fits Op.and ty args w wf u h e =
    Binary-Fits bit_and bit_and-Between shift_and ty wf args w h e
default_repair-Fits Op.or ty args w wf u h e =
    Binary-Fits bit_or bit_or-Between shift_or ty wf args w h e
default_repair-Fits Op.xor ty args w wf u h e =
    Binary-Fits bit_xor bit_xor-Between shift_xor ty wf args w h e
default_repair-Fits Op.not ty args w wf u h e = not-Fits ty args w wf h e
default_repair-Fits Op.div ty args w wf u h e =
    Unsigned-Fits ty args w wf (λ x y. x / y) div-le_self (head-HeadFits ty args h) e
default_repair-Fits Op.rem ty args w wf u h e =
    Unsigned-Fits ty args w wf evm_mod evm_mod_le (head-HeadFits ty args h) e
default_repair-Fits Op.shr ty args w wf u h e =
    Unsigned-Fits ty args w wf shift_right shift_right_le (shr-HeadFits ty args h) e
default_repair-Fits Op.select ty args w wf u h e = select-Fits ty args w h e
default_repair-Fits (Op.icmp c) ty args w wf u h e =
    subst (λ t. Fits t w) (sym u) (unfold as_int in e)
default_repair-Fits Op.add ty args w wf u h e = narrow-Fits ty args w wf e
default_repair-Fits Op.sub ty args w wf u h e = narrow-Fits ty args w wf e
default_repair-Fits Op.mul ty args w wf u h e = narrow-Fits ty args w wf e
default_repair-Fits Op.exp ty args w wf u h e = narrow-Fits ty args w wf e
default_repair-Fits Op.add_mod ty args w wf u h e = narrow-Fits ty args w wf e
default_repair-Fits Op.mul_mod ty args w wf u h e = narrow-Fits ty args w wf e
default_repair-Fits Op.add_overflow ty args w wf u h e = narrow-Fits ty args w wf e
default_repair-Fits Op.sub_overflow ty args w wf u h e = narrow-Fits ty args w wf e
default_repair-Fits Op.mul_overflow ty args w wf u h e = narrow-Fits ty args w wf e
default_repair-Fits Op.shl ty args w wf u h e = narrow-Fits ty args w wf e
default_repair-Fits Op.sar ty args w wf u h e = narrow-Fits ty args w wf e
default_repair-Fits Op.extract_byte ty args w wf u h e = narrow-Fits ty args w wf e
default_repair-Fits Op.load ty args w wf u h e = narrow-Fits ty args w wf e
default_repair-Fits Op.store ty args w wf u h e = narrow-Fits ty args w wf e
default_repair-Fits Op.mem_copy ty args w wf u h e = narrow-Fits ty args w wf e
default_repair-Fits Op.s_load ty args w wf u h e = narrow-Fits ty args w wf e
default_repair-Fits Op.s_store ty args w wf u h e = narrow-Fits ty args w wf e
default_repair-Fits Op.t_load ty args w wf u h e = narrow-Fits ty args w wf e
default_repair-Fits Op.t_store ty args w wf u h e = narrow-Fits ty args w wf e
default_repair-Fits (Op.const imm) ty args w wf u h e = absurd u
default_repair-Fits (Op.call callee) ty args w wf u h e = absurd u
default_repair-Fits (Op.alloca size) ty args w wf u h e = absurd u
default_repair-Fits Op.convert ty args w wf u h e = absurd u
default_repair-Fits (Op.opcode spec) ty args w wf u h e = absurd u
