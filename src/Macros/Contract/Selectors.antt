-- ===== src/Macros/Contract/Selectors.antt =====
-- Lists of arms with different selectors, for `seen_selectors` and the match of
-- src/target/std-evm-macros/src/contract.rs.
use rustevm.Base.{
  ℕ, ◌≡◌, refl, sym, ap, ◌∙◌, false, List, [], ◌∷◌, ◌++◌, map, none, some, Bool-cases, inl, inr,
}
use rustevm.Isa.{Str, str_eq, str_eq_flip}
use rustevm.Macros.Contract.{find_selector}

some_none : {A : Type 0} {a : A} → some a ≡ none → ⊥
some_none h = cc

abbrev pub first_of : List ℕ × Str → List ℕ
first_of (s, name) = s

-- The selectors of a list of arms are different.
abbrev pub Distinct : List (List ℕ × Str) → Type 0
Distinct [] = Unit {0}
Distinct ((s, name) ∷ arms) = (find_selector s arms ≡ none) × Distinct arms

-- Whether a selector is taken depends on the selectors alone.
cons_eq {ℓ} : {A : Type ℓ} {x y : A} {xs ys : List A} → x ∷ xs ≡ y ∷ ys → (x ≡ y) × (xs ≡ ys)
cons_eq e = (cc, cc)

pub find_cons :
    (sel s : List ℕ) (name : Str) (xs : List (List ℕ × Str))
    → find_selector sel ((s, name) ∷ xs) ≡ none
    → (str_eq s sel ≡ false) × (find_selector sel xs ≡ none)
unfolding find_selector
find_cons sel s name xs h = elim (Bool-cases (str_eq s sel)) [
  | inl same ↦ absurd (some_none (rw same at h))
  | inr differ ↦ (differ, rw differ at h)
]

pub find_none_same :
    (sel : List ℕ) (xs ys : List (List ℕ × Str))
    → map first_of xs ≡ map first_of ys
    → find_selector sel xs ≡ none
    → find_selector sel ys ≡ none
unfolding find_selector
find_none_same sel [] [] e h = refl
find_none_same sel [] (y ∷ ys) e h = cc
find_none_same sel (x ∷ xs) [] e h = cc
find_none_same sel ((s, a) ∷ xs) ((s', b) ∷ ys) e h =
    let (differ, later) = find_cons sel s a xs h in
    let (same, rest) = cons_eq e in
    let differ' : str_eq s' sel ≡ false = ap (λ k. str_eq k sel) (sym same) ∙ differ in
    rw differ' (find_none_same sel xs ys rest later)

find_none_snoc :
    (sel : List ℕ) (xs : List (List ℕ × Str)) (s : List ℕ) (name : Str)
    → find_selector sel xs ≡ none
    → str_eq s sel ≡ false
    → find_selector sel (xs ++ ((s, name) ∷ [])) ≡ none
unfolding find_selector
find_none_snoc sel [] s name h differ = rw differ
find_none_snoc sel ((s', a) ∷ xs) s name h differ =
    let (before, later) = find_cons sel s' a xs h in
    rw before (find_none_snoc sel xs s name later differ)

pub Distinct-snoc :
    (xs : List (List ℕ × Str)) (s : List ℕ) (name : Str)
    → Distinct xs
    → find_selector s xs ≡ none
    → Distinct (xs ++ ((s, name) ∷ []))
Distinct-snoc [] s name d h = (unfold find_selector in refl, tt)
Distinct-snoc ((s', a) ∷ xs) s name (fresh, d) h =
    let (differ, later) = find_cons s s' a xs h in
    (find_none_snoc s' xs s name fresh (str_eq_flip s' s differ), Distinct-snoc xs s name d later)
