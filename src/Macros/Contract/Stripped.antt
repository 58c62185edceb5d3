-- ===== src/Macros/Contract/Stripped.antt =====
-- The methods that `expand_contract` of src/target/std-evm-macros/src/contract.rs emits again.
use rustevm.Base.{
  ℕ, ◌≡◌, refl, sym, ap, ◌∙◌, inl, inr, Bool, true, false, ◌||◌, List, [], ◌∷◌, ◌++◌, map, Option,
  none, some, if◌then◌else◌, ok, All, any, Bool-cases,
}
use mathlib.Core.List.{append-nil, append_assoc}
use mathlib.Core.Path.{subst}
use rustevm.Base.Results.{ok_eq, >>=-eq-ok}
use rustevm.Isa.{Str}
use rustevm.Abi.Names.{selector}
use rustevm.Macros.Syntax.{
  Attr, constructor, payable, fallback, receive, Method, ImplItem, fn, other_item, Syn,
}
use rustevm.Macros.Signature.{
  has_attr, is_inert, retained, strip_inert_attrs, check_at_most_one, eth_signature,
}
use rustevm.Macros.Contract.{
  Expansion, start, expand_method, expand_constructor, find_selector, claim_selector, place_call,
  expand_public, expand_fn, expand_item, expand_items, expand_contract,
}

abbrev pub stripped : ImplItem → ImplItem
stripped (fn m) = fn (strip_inert_attrs m)
stripped (other_item attrs) = other_item attrs

-- None of the attributes that the macro reads is left on a method. Other items keep theirs.
abbrev pub Clean : ImplItem → Type 0
Clean (fn m) = any is_inert m.attrs ≡ false
Clean (other_item attrs) = Unit {0}

retained-Clean : (attrs : List Attr) → any is_inert (retained attrs) ≡ false
unfolding retained
retained-Clean [] = refl
retained-Clean (a ∷ attrs) = elim (Bool-cases (is_inert a)) [
  | inl inert ↦ rw inert (retained-Clean attrs)
  | inr kept ↦ rw (kept, kept) (retained-Clean attrs)
]

stripped-Clean : (items : List ImplItem) → All Clean (map stripped items)
unfolding strip_inert_attrs
stripped-Clean [] = tt
stripped-Clean (fn m ∷ items) = (retained-Clean m.attrs, stripped-Clean items)
stripped-Clean (other_item attrs ∷ items) = (tt, stripped-Clean items)

place_call-impl_items :
    (e : Expansion) (f r : Bool) (sel : List ℕ) (marker : Str)
    → (place_call e f r sel marker).impl_items ≡ e.impl_items
unfolding place_call
place_call-impl_items e true r sel marker = refl
place_call-impl_items e false true sel marker = refl
place_call-impl_items e false false sel marker = refl

claimed-impl_items :
    (special : Bool) (e : Expansion) (sel : List ℕ) (name : Str) (taken : Option Str)
    {e1 : Expansion}
    → (let r : Syn Expansion = if special then ok e else claim_selector e sel name taken in
        r ≡ ok e1)
    → e1.impl_items ≡ e.impl_items
unfolding claim_selector
claimed-impl_items true e sel name taken h = ap (λ (x : Expansion). x.impl_items) (sym (ok_eq h))
claimed-impl_items false e sel name (some other) h = cc
claimed-impl_items false e sel name none h = ap (λ (x : Expansion). x.impl_items) (sym (ok_eq h))

module _ (upper : Str → Str) (keccak256 : List ℕ → List ℕ) where
  public-impl_items :
      (e e' : Expansion) (m : Method) (f r : Bool)
      → expand_public upper keccak256 e m f r ≡ ok e'
      → e'.impl_items ≡ e.impl_items ++ (fn (strip_inert_attrs m) ∷ [])
  unfolding expand_public
  public-impl_items e e' m f r h =
      let (sig, signed, rest) = >>=-eq-ok (eth_signature upper m) _ h in
      let sel = selector keccak256 sig in
      let taken = find_selector sel e.seen_selectors in
      let (e1, claimed, rest1) =
        >>=-eq-ok (if f || r then ok e else claim_selector e sel m.ident taken) _ rest in
      let (made, built, rest2) = >>=-eq-ok (expand_method m sel (has_attr m payable)) _ rest1 in
      ap (λ (x : Expansion). x.impl_items) (sym (ok_eq rest2))
      ∙ ap (λ r. r ++ (fn (strip_inert_attrs m) ∷ []))
          (place_call-impl_items (record e1 { method_impls = e1.method_impls ++ (made ∷ []) }) f r
              sel made.marker
            ∙ claimed-impl_items (f || r) e sel m.ident taken claimed)

  fn-impl_items :
      (e e' : Expansion) (m : Method) (p c f r : Bool)
      → expand_fn upper keccak256 e m p c f r ≡ ok e'
      → e'.impl_items ≡ e.impl_items ++ (fn (strip_inert_attrs m) ∷ [])
  unfolding expand_fn
  fn-impl_items e e' m false c f r h = ap (λ (x : Expansion). x.impl_items) (sym (ok_eq h))
  fn-impl_items e e' m true true f r h =
      let (made, _, rest) = >>=-eq-ok (expand_constructor m) _ h in
      ap (λ (x : Expansion). x.impl_items) (sym (ok_eq rest))
  fn-impl_items e e' m true false f r h = public-impl_items e e' m f r h

  item-impl_items :
      (e e' : Expansion) (item : ImplItem)
      → expand_item upper keccak256 e item ≡ ok e'
      → e'.impl_items ≡ e.impl_items ++ (stripped item ∷ [])
  unfolding expand_item
  item-impl_items e e' (other_item attrs) h = ap (λ (x : Expansion). x.impl_items) (sym (ok_eq h))
  item-impl_items e e' (fn m) h =
      fn-impl_items e e' m m.public (has_attr m constructor) (has_attr m fallback)
        (has_attr m receive) h

  items-impl_items :
      (e e' : Expansion) (items : List ImplItem)
      → expand_items upper keccak256 e items ≡ ok e'
      → e'.impl_items ≡ e.impl_items ++ map stripped items
  unfolding expand_items
  items-impl_items e e' [] h =
      ap (λ (x : Expansion). x.impl_items) (sym (ok_eq h)) ∙ sym (append-nil e.impl_items)
  items-impl_items e e' (item ∷ items) h =
      let (e1, step, rest) = >>=-eq-ok (expand_item upper keccak256 e item) _ h in
      items-impl_items e1 e' items rest
      ∙ ap (λ r. r ++ map stripped items) (item-impl_items e e1 item step)
      ∙ append_assoc e.impl_items (stripped item ∷ []) (map stripped items)

  -- The block that an expanded contract emits has the items of the block that was given, in order,
  -- public or not, each method without its inert attributes, and no inert attribute is left on
  -- any method.
  pub expand_contract-stripped :
      (items : List ImplItem) (e : Expansion)
      → expand_contract upper keccak256 items ≡ ok e
      → (e.impl_items ≡ map stripped items) × All Clean e.impl_items
  unfolding expand_contract
  expand_contract-stripped items e h =
      let (_, _, r1) = >>=-eq-ok (check_at_most_one items constructor) _ h in
      let (_, _, r2) = >>=-eq-ok (check_at_most_one items fallback) _ r1 in
      let (_, _, r3) = >>=-eq-ok (check_at_most_one items receive) _ r2 in
      let all_items = items-impl_items start e items r3 in
      (all_items, subst (All Clean) (sym all_items) (stripped-Clean items))
