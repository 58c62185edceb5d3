-- ===== src/Asm/Disasm/Walk.antt =====
-- The iterator of disasm.rs as a walk over the code that is left.
use rustevm.Base.{
  ℕ, zero, suc, ◌+◌, ◌-◌, min, ◌≡◌, refl, sym, ap, ◌∙◌, none, some, List, [], ◌∷◌, arith, ltb,
  length, take, drop, get_elem?, length-drop,
}
use native.Mathlib.Nat.{zero-add}
use rustevm.Isa.{by_byte}
use rustevm.Asm.Disasm.{Instruction, wanted, next, collect, disassemble}

-- The first instruction of `b ∷ bs`, which stands at `pc`.
abbrev pub first_ins : ℕ → ℕ → List ℕ → Instruction
first_ins pc b bs =
    let taken = min (wanted (by_byte b)) (length bs) in
    record {
      pc = pc;
      opcode = b;
      spec = by_byte b;
      immediate = take taken bs;
      truncated = ltb taken (wanted (by_byte b));
    }

unfoldable pub walk : ℕ → ℕ → List ℕ → List Instruction
walk zero pc code = []
walk (suc fuel) pc [] = []
walk (suc fuel) pc (b ∷ bs) =
    let taken = min (wanted (by_byte b)) (length bs) in
    first_ins pc b bs ∷ walk fuel (pc + 1 + taken) (drop taken bs)

drop-nil : (n : ℕ) → drop {A = ℕ} n [] ≡ []
drop-nil zero = refl
drop-nil (suc n) = refl

drop-drop : (n m : ℕ) (xs : List ℕ) → drop (n + m) xs ≡ drop m (drop n xs)
drop-drop zero m xs = rw zero-add
drop-drop (suc n) m [] = let e : suc n + m ≡ suc (n + m) = omega arith in rw e (sym (drop-nil m))
drop-drop (suc n) m (x ∷ xs) =
    let e : suc n + m ≡ suc (n + m) = omega arith in rw e (drop-drop n m xs)

get_elem?-drop : (pc : ℕ) (code : List ℕ) → get_elem? code pc ≡ get_elem? (drop pc code) 0
get_elem?-drop zero [] = refl
get_elem?-drop zero (x ∷ xs) = refl
get_elem?-drop (suc pc) [] = refl
get_elem?-drop (suc pc) (x ∷ xs) = get_elem?-drop pc xs

next-drop :
    (code : List ℕ) (pc b : ℕ) (bs : List ℕ)
    → drop pc code ≡ b ∷ bs
    → next (record { code = code; pc = pc })
      ≡ some (
        first_ins pc b bs,
        record { code = code; pc = pc + 1 + min (wanted (by_byte b)) (length bs) },
      )
unfolding next
next-drop code pc b bs e =
    let found : get_elem? code pc ≡ some b = rw (get_elem?-drop pc code, e) refl in
    let behind : drop (pc + 1) code ≡ bs = rw (drop-drop pc 1 code, e) refl in
    let left : length code - (pc + 1) ≡ length bs =
      sym (length-drop (pc + 1) code) ∙ ap length behind in
    rw (next, found) (rw (behind, left) refl)

next-end :
    (code : List ℕ) (pc : ℕ) → drop pc code ≡ [] → next (record { code = code; pc = pc }) ≡ none
unfolding next
next-end code pc e =
    let lost : get_elem? code pc ≡ none = rw (get_elem?-drop pc code, e) refl in
    rw (next, lost) refl

collect-walk :
    (fuel pc : ℕ) (code rest : List ℕ)
    → drop pc code ≡ rest
    → collect fuel (record { code = code; pc = pc }) ≡ walk fuel pc rest
unfolding collect walk
collect-walk zero pc code rest e = refl
collect-walk (suc fuel) pc code [] e = rw (collect, next-end code pc e)
collect-walk (suc fuel) pc code (b ∷ bs) e =
    let taken = min (wanted (by_byte b)) (length bs) in
    let behind : drop (pc + 1 + taken) code ≡ drop taken bs =
      drop-drop (pc + 1) taken code ∙ ap (drop taken) (drop-drop pc 1 code ∙ ap (drop 1) e) in
    rw (collect, next-drop code pc b bs e)
      (ap (λ r. first_ins pc b bs ∷ r)
        (collect-walk fuel (pc + 1 + taken) code (drop taken bs) behind))

pub disassemble-walk : (code : List ℕ) → disassemble code ≡ walk (length code) 0 code
unfolding disassemble
disassemble-walk code = collect-walk (length code) 0 code code refl
