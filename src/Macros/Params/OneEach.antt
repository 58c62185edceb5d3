-- ===== src/Macros/Params/OneEach.antt =====
-- At most one handle of each kind, as in the handles that `take_handle` of
-- src/target/std-evm-macros/src/contract.rs collects.
use rustevm.Base.{
  ℕ, suc, ◌+◌, ◌≤◌, ◌≡◌, refl, true, false, List, [], ◌∷◌, ◌++◌, if◌then◌else◌, arith, Bool-cases,
  inl, inr,
}
use mathlib.Core.Path.{subst}
use rustevm.Macros.Syntax.{HandleKind, persistent, transient}
use rustevm.Macros.Params.{HandleParam, same_kind, has_kind}

clash : true ≡ false → ⊥
clash h = cc

-- How many handles have a kind.
unfoldable pub count_kind : HandleKind → List HandleParam → ℕ
count_kind kind [] = 0
count_kind kind (h ∷ handles) =
    let rest = count_kind kind handles in if same_kind h.kind kind then suc rest else rest

count_kind-snoc :
    (kind : HandleKind) (handles : List HandleParam) (h : HandleParam)
    → count_kind kind (handles ++ (h ∷ [])) ≡ count_kind kind handles + count_kind kind (h ∷ [])
unfolding count_kind
count_kind-snoc kind [] h = omega arith
count_kind-snoc kind (g ∷ handles) h = elim (Bool-cases (same_kind g.kind kind)) [
  | inl same ↦ rw same (omega (arith, count_kind-snoc kind handles h))
  | inr other ↦ rw other (count_kind-snoc kind handles h)
]

count_kind_absent :
    (kind : HandleKind) (handles : List HandleParam)
    → has_kind handles kind ≡ false
    → count_kind kind handles ≡ 0
unfolding count_kind has_kind
count_kind_absent kind [] h = refl
count_kind_absent kind (g ∷ handles) h = elim (Bool-cases (same_kind g.kind kind)) [
  | inl same ↦ absurd (clash (rw same at h))
  | inr other ↦ rw other (count_kind_absent kind handles (rw other at h))
]

count_one : (kind : HandleKind) (h : HandleParam) → count_kind kind (h ∷ []) ≤ 1
unfolding count_kind
count_one kind h = ground arith

count_other :
    (kind : HandleKind) (h : HandleParam)
    → same_kind h.kind kind ≡ false
    → count_kind kind (h ∷ []) ≡ 0
unfolding count_kind
count_other kind h other = rw other

same_kind_eq : (a b : HandleKind) → same_kind a b ≡ true → a ≡ b
unfolding same_kind
same_kind_eq persistent persistent h = refl
same_kind_eq transient transient h = refl
same_kind_eq persistent transient h = cc
same_kind_eq transient persistent h = cc

-- At most one handle of each kind.
abbrev pub OneEach : List HandleParam → Type 0
OneEach handles = (kind : HandleKind) → count_kind kind handles ≤ 1

pub OneEach-snoc :
    (handles : List HandleParam) (h : HandleParam)
    → OneEach handles
    → has_kind handles h.kind ≡ false
    → OneEach (handles ++ (h ∷ []))
OneEach-snoc handles h one absent kind = elim (Bool-cases (same_kind h.kind kind)) [
  | inl same ↦
      let none_yet =
        count_kind_absent kind handles
          (subst (λ k. has_kind handles k ≡ false) (same_kind_eq h.kind kind same) absent) in
      omega (arith, count_kind-snoc kind handles h, none_yet, count_one kind h)
  | inr other ↦ omega (arith, count_kind-snoc kind handles h, one kind, count_other kind h other)
]
