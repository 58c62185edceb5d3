-- ===== src/Macros/Contract/Reached.antt =====
-- Which method a call reaches: `expand_contract` of src/target/std-evm-macros/src/contract.rs with
-- the `Dispatch` implementation that it emits.
use rustevm.Base.{
  ℕ, ◌≡◌, refl, sym, ap, ◌∙◌, ◌⊎◌, inl, inr, Bool, true, false, ◌&&◌, List, [], ◌∷◌, ◌++◌, Option,
  none, some, if◌then◌else◌, ok, Any, Bool-cases,
}
use mathlib.Core.List.{append-nil, append_assoc}
use mathlib.Core.Path.{subst}
use rustevm.Base.Results.{ok_eq, >>=-eq-ok}
use rustevm.Isa.{Str, str_eq, str_eq_iff, str_eq_refl}
use rustevm.Abi.Names.{selector}
use rustevm.Abi.Word.{U256, u256_zero}
use rustevm.Abi.Value.{AbiType}
use rustevm.Macros.Syntax.{
  RustType, constructor, fallback, receive, Method, ImplItem, fn, other_item,
}
use rustevm.Macros.Signature.{check_at_most_one, eth_signature}
use rustevm.Macros.Contract.{
  Expansion, start, method_marker_ident, find_selector, expand_item, expand_items, expand_contract,
}
use rustevm.Macros.Contract.Selectors.{Distinct}
use rustevm.Macros.Contract.Arms.{
  is_ordinary, arm_of, ordinary_arms, Inv, Tracks, expand_item-Tracks,
}
use rustevm.Macros.Contract.Dispatch.{Body, is_empty, call_expr, match_selector, dispatch}

some_ne_none : {A : Type 0} {a : A} → none ≡ some a → ⊥
some_ne_none h = cc

-- The first arm with a selector is the one that is there.
find_selector-Any :
    (sel : List ℕ) (name : Str) (arms : List (List ℕ × Str))
    → Distinct arms
    → Any (λ a. a ≡ (sel, name)) arms
    → find_selector sel arms ≡ some name
unfolding find_selector
find_selector-Any sel name [] d m = absurd m
find_selector-Any sel name ((s, a) ∷ arms) d (inl e) =
    let same : str_eq s sel ≡ true =
      ap (λ (p : List ℕ × Str). str_eq p.0 sel) e ∙ str_eq_refl sel in
    rw same (ap (λ (p : List ℕ × Str). some p.1) e)
find_selector-Any sel name ((s, a) ∷ arms) (fresh, d) (inr m) =
    let found = find_selector-Any sel name arms d m in
    elim (Bool-cases (str_eq s sel)) [
      | inl same ↦
          let repeated : find_selector s arms ≡ some name =
            ap (λ k. find_selector k arms) ((str_eq_iff s sel).0 same) ∙ found in
          absurd (some_ne_none (sym fresh ∙ repeated))
      | inr other ↦ rw other found
    ]

Any-append_right : {A : Type 0} (P : A → Type 0) (xs ys : List A) → Any P ys → Any P (xs ++ ys)
Any-append_right P [] ys m = m
Any-append_right P (x ∷ xs) ys m = inr (Any-append_right P xs ys m)

module _ (upper : Str → Str) (keccak256 : List ℕ → List ℕ) where
  ordinary_arms-cons :
      (item : ImplItem) (items : List ImplItem)
      → ordinary_arms upper keccak256 (item ∷ items)
        ≡ ordinary_arms upper keccak256 (item ∷ []) ++ ordinary_arms upper keccak256 items
  unfolding ordinary_arms
  ordinary_arms-cons (other_item attrs) items = refl
  ordinary_arms-cons (fn m) items =
      let own : List (List ℕ × Str) =
        if is_ordinary m then arm_of upper keccak256 m (eth_signature upper m) else [] in
      ap (λ r. r ++ ordinary_arms upper keccak256 items) (sym (append-nil own))

  expand_items-Tracks :
      (e e' : Expansion) (items : List ImplItem)
      → expand_items upper keccak256 e items ≡ ok e'
      → Inv upper keccak256 e
      → Tracks upper keccak256 e e' (ordinary_arms upper keccak256 items)
  unfolding expand_items ordinary_arms
  expand_items-Tracks e e' [] h inv =
      subst (λ x. Tracks upper keccak256 e x []) (ok_eq h)
        (record { kept = inv; arms = sym (append-nil e.dispatch_arms) })
  expand_items-Tracks e e' (item ∷ items) h inv =
      let (e1, step, rest) = >>=-eq-ok (expand_item upper keccak256 e item) _ h in
      let first = expand_item-Tracks upper keccak256 e e1 item step inv in
      let later = expand_items-Tracks e1 e' items rest first.kept in
      record {
        kept = later.kept;
        arms =
            later.arms
            ∙ ap (λ r. r ++ ordinary_arms upper keccak256 items) first.arms
            ∙ append_assoc e.dispatch_arms (ordinary_arms upper keccak256 (item ∷ []))
                (ordinary_arms upper keccak256 items)
            ∙ ap (λ r. e.dispatch_arms ++ r) (sym (ordinary_arms-cons item items));
      }

  -- A contract that expands has one arm for each of its ordinary methods, that is, the public ones
  -- that are no constructor, fallback or receiver, in order: the selector of the method's signature
  -- and the method's marker; and no two arms have one selector.
  pub expand_contract-ordinary_arms :
      (items : List ImplItem) (e : Expansion)
      → expand_contract upper keccak256 items ≡ ok e
      → (e.dispatch_arms ≡ ordinary_arms upper keccak256 items) × Distinct e.dispatch_arms
  unfolding expand_contract
  expand_contract-ordinary_arms items e h =
      let (_, _, r1) = >>=-eq-ok (check_at_most_one items constructor) _ h in
      let (_, _, r2) = >>=-eq-ok (check_at_most_one items fallback) _ r1 in
      let (_, _, r3) = >>=-eq-ok (check_at_most_one items receive) _ r2 in
      let tracked = expand_items-Tracks start e items r3 (record { seen = refl; distinct = tt }) in
      (tracked.arms, tracked.kept.distinct)

  own_arm :
      (m : Method) (sig : Str) (items : List ImplItem)
      → is_ordinary m ≡ true
      → eth_signature upper m ≡ ok sig
      → Any
          (λ a. a ≡ (selector keccak256 sig, method_marker_ident m.ident))
          (ordinary_arms upper keccak256 (fn m ∷ items))
  unfolding ordinary_arms arm_of
  own_arm m sig items ordinary signed = rw (ordinary, signed) (inl refl)

  ordinary_arms-Any :
      (items : List ImplItem) (m : Method) (sig : Str)
      → Any (λ item. item ≡ fn m) items
      → is_ordinary m ≡ true
      → eth_signature upper m ≡ ok sig
      → Any
          (λ a. a ≡ (selector keccak256 sig, method_marker_ident m.ident))
          (ordinary_arms upper keccak256 items)
  ordinary_arms-Any [] m sig member ordinary signed = absurd member
  ordinary_arms-Any (item ∷ items) m sig (inl e) ordinary signed =
      subst
        (λ it.
          Any (λ a. a ≡ (selector keccak256 sig, method_marker_ident m.ident))
            (ordinary_arms upper keccak256 (it ∷ items)))
        (sym e) (own_arm m sig items ordinary signed)
  ordinary_arms-Any (item ∷ items) m sig (inr member) ordinary signed =
      rw (ordinary_arms-cons item items) (
        Any-append_right (λ a. a ≡ (selector keccak256 sig, method_marker_ident m.ident))
          (ordinary_arms upper keccak256 (item ∷ [])) (ordinary_arms upper keccak256 items)
          (ordinary_arms-Any items m sig member ordinary signed))

and_false : (b : Bool) → b && false ≡ false
and_false true = refl
and_false false = refl

-- The receiver is passed over.
not_received :
    (n : ℕ) (abi_type : RustType → AbiType) {S : Type 0} (bodies : Str → Body S) (e : Expansion)
    (sel calldata : List ℕ) (value : U256) (s : S) (receiver : Option Str)
    → e.receive_call ≡ receiver
    → (receiver ≡ none) ⊎ ((value ≡ u256_zero) ⊎ (is_empty calldata ≡ false))
    → dispatch n abi_type bodies e sel calldata value s
      ≡ match_selector n abi_type bodies e sel calldata s
unfolding dispatch
not_received n abi_type bodies e sel calldata value s none known open_case = rw known
not_received n abi_type bodies e sel calldata value s (some marker) known (inl absent) =
    absurd (some_ne_none (sym absent))
not_received n abi_type bodies e sel calldata value s (some marker) known (inr (inl zero_value)) =
    let no_value : str_eq value u256_zero ≡ true = (str_eq_iff value u256_zero).1 zero_value in
    rw (known, no_value, and_false (is_empty calldata))
not_received n abi_type bodies e sel calldata value s (some marker) known (inr (inr filled)) =
    rw (known, filled)

module _ (upper : Str → Str) (keccak256 : List ℕ → List ℕ) (n : ℕ) (abi_type : RustType → AbiType)
    {S : Type 0} (bodies : Str → Body S) where
  -- In a contract that expands, a call with the selector of an ordinary method's signature is the
  -- call expression of that method, provided that the contract has no receiver, or the
  -- call brings no value, or its arguments are not empty.
  pub dispatch-is_ordinary :
      (items : List ImplItem) (e : Expansion) (m : Method) (sig : Str) (calldata : List ℕ)
      (value : U256) (s : S)
      → expand_contract upper keccak256 items ≡ ok e
      → Any (λ item. item ≡ fn m) items
      → is_ordinary m ≡ true
      → eth_signature upper m ≡ ok sig
      → (e.receive_call ≡ none) ⊎ ((value ≡ u256_zero) ⊎ (is_empty calldata ≡ false))
      → dispatch n abi_type bodies e (selector keccak256 sig) calldata value s
        ≡ call_expr n abi_type bodies e (method_marker_ident m.ident) calldata s
  unfolding match_selector
  dispatch-is_ordinary items e m sig calldata value s h member ordinary signed open_case =
      let (arms, distinct) = expand_contract-ordinary_arms upper keccak256 items e h in
      let there = ordinary_arms-Any upper keccak256 items m sig member ordinary signed in
      let found =
        find_selector-Any (selector keccak256 sig) (method_marker_ident m.ident) e.dispatch_arms
          distinct
          (subst (Any (λ a. a ≡ (selector keccak256 sig, method_marker_ident m.ident))) (sym arms)
            there) in
      not_received n abi_type bodies e (selector keccak256 sig) calldata value s e.receive_call refl
        open_case
      ∙ rw found
