-- ===== src/Macros/Contract/Impls.antt =====
-- The lookup of a method's implementation among those that `expand_contract` of
-- src/target/std-evm-macros/src/contract.rs emits.
use rustevm.Base.{
  ℕ, ◌≡◌, ◌⊎◌, refl, sym, ap, ◌∙◌, inl, inr, Bool, true, false, not, ◌&&◌, List, [], ◌∷◌, ◌++◌,
  some, ok, Any, Bool-cases, drop,
}
use mathlib.Core.Path.{subst}
use rustevm.Base.Results.{>>=-eq-ok}
use rustevm.Isa.{Str, str_eq, str_eq_iff}
use rustevm.Macros.Syntax.{constructor, fallback, receive, Method, ImplItem, fn, other_item}
use rustevm.Macros.Signature.{has_attr, check_at_most_one}
use rustevm.Macros.Contract.{MethodImpl, Expansion, start, method_marker_ident, expand_contract}
use rustevm.Macros.Contract.Arms.{is_ordinary, expand_method-marker}
use rustevm.Macros.Contract.Dispatch.{find_impl}
use rustevm.Macros.Contract.Adds.{Made, AddsFn, Adds, AddsAll, items-Keeps}

marker_injective : (a b : Str) → method_marker_ident a ≡ method_marker_ident b → a ≡ b
marker_injective a b e = ap (drop 9) e

-- No other method of the block has the method's name, as Rust asks of a block.
abbrev pub HasOwnName : Method → List ImplItem → Type 0
HasOwnName m items =
    (other : Method) → Any (λ item. item ≡ fn other) items → other.ident ≡ m.ident → other ≡ m

-- The name of a method that is made is its own.
Made-marker :
    (m : Method) (impl : MethodImpl) → Made m impl → impl.marker ≡ method_marker_ident m.ident
Made-marker m impl (sel, p, made) = expand_method-marker (λ c. c) (λ bs. bs) m sel p made

own_cases :
    (m : Method) (p c : Bool) (own : List MethodImpl)
    → AddsFn m p c own
    → (own ≡ []) ⊎ ((impl : MethodImpl) × (own ≡ impl ∷ []) × Made m impl)
own_cases m true false own h = inr h
own_cases m true true own h = inl h
own_cases m false c own h = inl h

item_cases :
    (item : ImplItem) (own : List MethodImpl)
    → Adds item own
    → (own ≡ [])
      ⊎ ((m : Method) × (impl : MethodImpl) × (item ≡ fn m) × (own ≡ impl ∷ []) × Made m impl)
item_cases (other_item attrs) own h = inl h
item_cases (fn m) own h = elim (own_cases m m.public (has_attr m constructor) own h) [
  | inl nothing ↦ inl nothing
  | inr (impl, here, made) ↦ inr (m, impl, refl, here, made)
]

-- An implementation in front that belongs to the method, or to another one.
module _ (m : Method) (items : List ImplItem) (own_name : HasOwnName m items) where
  found_in_front :
      (other : Method) (impl : MethodImpl) (rest : List MethodImpl)
      → Any (λ item. item ≡ fn other) items
      → Made other impl
      → (((other ≡ m) → ⊥)
          → (found : MethodImpl) × (find_impl (method_marker_ident m.ident) rest ≡ some found)
            × Made m found)
      → (found : MethodImpl) × (find_impl (method_marker_ident m.ident) (impl ∷ rest) ≡ some found)
        × Made m found
  unfolding find_impl
  found_in_front other impl rest member made later =
      elim (Bool-cases (str_eq impl.marker (method_marker_ident m.ident))) [
        | inl same ↦
            let marked =
              sym (Made-marker other impl made)
              ∙ (str_eq_iff impl.marker (method_marker_ident m.ident)).0 same in
            let it = own_name other member (marker_injective other.ident m.ident marked) in
            (impl, rw same refl, subst (λ (x : Method). Made x impl) it made)
        | inr apart ↦
            let differ : (other ≡ m) → ⊥ = λ e.
              clash apart (
                Made-marker other impl made ∙ ap (λ (x : Method). method_marker_ident x.ident) e) in
            let (found, there, its) = later differ in (found, rw apart there, its)
      ]
    where
      clash : {a b : Str} → str_eq a b ≡ false → a ≡ b → ⊥
      clash {a} {b} apart e = not_both apart ((str_eq_iff a b).1 e)
        where
          not_both : {c : Bool} → c ≡ false → c ≡ true → ⊥
          not_both p q = cc

  Finds : List MethodImpl → Type 0
  Finds added =
      (found : MethodImpl) × (find_impl (method_marker_ident m.ident) added ≡ some found)
      × Made m found

  found_in_rest :
      (items' : List ImplItem) (added : List MethodImpl)
      → ((other : Method)
          → Any (λ item. item ≡ fn other) items'
          → Any (λ item. item ≡ fn other) items)
      → AddsAll items' added
      → Any (λ item. item ≡ fn m) items'
      → m.public ≡ true
      → has_attr m constructor ≡ false
      → Finds added
  unfolding Finds
  found_in_rest [] added inside adds member public plain = absurd member
  found_in_rest (item ∷ items') added inside (own, rest, whole, adds, later) (inl e) public plain =
      let mine : AddsFn m true false own =
        subst (λ p. AddsFn m p false own) public
          (subst (λ c. AddsFn m m.public c own) plain (subst (λ i. Adds i own) e adds)) in
      let (impl, here, made) = mine in
      subst Finds (sym (whole ∙ ap (λ (o : List MethodImpl). o ++ rest) here))
        (found_in_front m impl rest (inside m (inl e)) made (λ differ. absurd (differ refl)))
  found_in_rest (item ∷ items') added inside (own, rest, whole, adds, later) (inr member) public
        plain =
      let behind =
        found_in_rest items' rest (λ other there. inside other (inr there)) later member public
          plain in
      elim (item_cases item own adds) [
        | inl nothing ↦
            subst Finds (sym (whole ∙ ap (λ (o : List MethodImpl). o ++ rest) nothing)) behind
        | inr (other, impl, is_fn, here, made) ↦
            subst Finds (sym (whole ∙ ap (λ (o : List MethodImpl). o ++ rest) here))
              (found_in_front other impl rest (inside other (inl is_fn)) made (λ differ. behind))
      ]

module _ (upper : Str → Str) (keccak256 : List ℕ → List ℕ) where
  -- An ordinary method of a contract that expands has an implementation under its marker, which is
  -- what the macro makes of it, if no other method of the block has its name.
  pub expand_contract-find_impl :
      (items : List ImplItem) (e : Expansion) (m : Method)
      → expand_contract upper keccak256 items ≡ ok e
      → Any (λ item. item ≡ fn m) items
      → HasOwnName m items
      → is_ordinary m ≡ true
      → (impl : MethodImpl) × (find_impl (method_marker_ident m.ident) e.method_impls ≡ some impl)
        × Made m impl
  unfolding expand_contract is_ordinary Finds
  expand_contract-find_impl items e m h member own_name ordinary =
      let (_, _, r1) = >>=-eq-ok (check_at_most_one items constructor) _ h in
      let (_, _, r2) = >>=-eq-ok (check_at_most_one items fallback) _ r1 in
      let (_, _, r3) = >>=-eq-ok (check_at_most_one items receive) _ r2 in
      let (added, whole, adds) = items-Keeps upper keccak256 start e items r3 in
      let (public, plain) =
        public_plain m.public (has_attr m constructor) (not (has_attr m fallback))
          (not (has_attr m receive)) ordinary in
      subst (Finds m items own_name) (sym whole)
        (found_in_rest m items own_name items added (λ other there. there) adds member public plain)
    where
      public_plain : (p c f r : Bool) → (p && not c && f && r) ≡ true → (p ≡ true) × (c ≡ false)
      public_plain true false f r h = (refl, refl)
      public_plain true true f r h = cc
      public_plain false c f r h = cc
