-- ===== src/Macros/Contract/Handles/Names.antt =====
-- The names that the emitted call of contract.rs passes, and how they differ.
use rustevm.Base.{
  ℕ, suc, ◌≤◌, ◌≡◌, ◌≢◌, refl, sym, ap, ◌∙◌, inl, inr, true, false, List, [], ◌∷◌, ◌++◌, arith, All,
  Bool-cases,
}
use rustevm.Base.Format.{decimal}
use rustevm.Base.Format.Digits.{read_digits, read-decimal}
use rustevm.Isa.{Str, bytes, str_eq, str_eq_ne}
use rustevm.Macros.Syntax.{HandleKind, persistent, transient}
use rustevm.Macros.Params.{HandleParam, same_kind}
use rustevm.Macros.Params.OneEach.{count_kind, OneEach}
use rustevm.Macros.Contract.Handles.{binding}

first_byte : Str → ℕ
first_byte [] = 0
first_byte (c ∷ cs) = c

first_differs : (a b : Str) → first_byte a ≢ first_byte b → str_eq a b ≡ false
first_differs a b h = str_eq_ne a b (λ e. h (ap first_byte e))

-- No handle is bound to a name of an argument.
pub bindings-args : (kind : HandleKind) (n : Str) → str_eq (binding kind) (bytes "arg" ++ n) ≡ false
unfolding binding first_byte
bindings-args persistent n = first_differs (bytes "storage") (bytes "arg" ++ n) (λ e. not_equal e)
  where
    not_equal : ◌≡◌ {A = ℕ} 115 97 → ⊥
    not_equal e = omega arith
bindings-args transient n = first_differs (bytes "transient") (bytes "arg" ++ n) (λ e. not_equal e)
  where
    not_equal : ◌≡◌ {A = ℕ} 116 97 → ⊥
    not_equal e = omega arith

number_of : Str → ℕ
number_of (a ∷ (r ∷ (g ∷ digits))) = read_digits 10 0 digits
number_of (a ∷ (r ∷ [])) = 0
number_of (a ∷ []) = 0
number_of [] = 0

-- The names of two arguments differ.
pub args_differ :
    (i j : ℕ) → i ≢ j → str_eq (bytes "arg" ++ decimal i) (bytes "arg" ++ decimal j) ≡ false
unfolding number_of
args_differ i j h =
    str_eq_ne (bytes "arg" ++ decimal i) (bytes "arg" ++ decimal j)
      (λ e. h (sym (read-decimal i) ∙ ap number_of e ∙ read-decimal j))

pub bindings_differ :
    (a b : HandleKind) → same_kind a b ≡ false → str_eq (binding a) (binding b) ≡ false
unfolding binding str_eq same_kind
bindings_differ persistent persistent h = cc
bindings_differ persistent transient h = refl
bindings_differ transient persistent h = refl
bindings_differ transient transient h = cc

-- None of the handles has the kind.
unfoldable pub Without : HandleKind → List HandleParam → Type 0
Without kind = All (λ h. same_kind h.kind kind ≡ false)

pub absent-Without :
    (kind : HandleKind) (hs : List HandleParam) → count_kind kind hs ≤ 0 → Without kind hs
unfolding count_kind Without
absent-Without kind [] h = tt
absent-Without kind (g ∷ hs) h = elim (Bool-cases (same_kind g.kind kind)) [
  | inl same ↦ absurd (one_more (count_kind kind hs) (rw same at h))
  | inr other ↦ (other, absent-Without kind hs (rw other at h))
]
  where
    one_more : (n : ℕ) → suc n ≤ 0 → ⊥
    one_more n h = omega arith

pub same_kind_refl : (kind : HandleKind) → same_kind kind kind ≡ true
unfolding same_kind
same_kind_refl persistent = refl
same_kind_refl transient = refl

-- The first handle is the only one of its kind, and the others are one of each.
module _ (h : HandleParam) (hs : List HandleParam) (one : OneEach (h ∷ hs)) where
  pub rest-Without : Without h.kind hs
  unfolding count_kind
  rest-Without =
      let counted : suc (count_kind h.kind hs) ≤ 1 = rw (same_kind_refl h.kind) at (one h.kind) in
      absent-Without h.kind hs (omega arith)

  pub rest-OneEach : OneEach hs
  unfolding count_kind
  rest-OneEach kind = elim (Bool-cases (same_kind h.kind kind)) [
    | inl same ↦ let counted : suc (count_kind kind hs) ≤ 1 = rw same at (one kind) in omega arith
    | inr other ↦ rw other at (one kind)
  ]
