-- ===== src/Macros/Contract/Adds.antt =====
-- What each item adds to the implementations of `Method` that `expand_contract` of
-- src/target/std-evm-macros/src/contract.rs emits.
use rustevm.Base.{
  ℕ, ◌≡◌, refl, sym, ap, ◌∙◌, Bool, true, false, ◌||◌, List, [], ◌∷◌, ◌++◌, Option, none, some,
  if◌then◌else◌, ok,
}
use mathlib.Core.List.{append-nil, append_assoc}
use rustevm.Base.Results.{ok_eq, >>=-eq-ok}
use rustevm.Isa.{Str}
use rustevm.Abi.Names.{selector}
use rustevm.Macros.Syntax.{
  constructor, payable, fallback, receive, Method, ImplItem, fn, other_item, Syn,
}
use rustevm.Macros.Signature.{has_attr, eth_signature}
use rustevm.Macros.Contract.{
  MethodImpl, Expansion, expand_method, expand_constructor, expand_fn, find_selector,
  claim_selector, place_call, expand_public, expand_item, expand_items,
}

-- The implementation is what the macro makes of the method.
abbrev pub Made : Method → MethodImpl → Type 0
Made m impl = (sel : List ℕ) × (p : Bool) × (expand_method m sel p ≡ ok impl)

-- What a method adds; the tests say whether it is public and a constructor.
abbrev pub AddsFn : Method → Bool → Bool → List MethodImpl → Type 0
AddsFn m true false own = (impl : MethodImpl) × (own ≡ impl ∷ []) × Made m impl
AddsFn m true true own = own ≡ []
AddsFn m false c own = own ≡ []

abbrev pub Adds : ImplItem → List MethodImpl → Type 0
Adds (other_item attrs) own = own ≡ []
Adds (fn m) own = AddsFn m m.public (has_attr m constructor) own

abbrev pub AddsAll : List ImplItem → List MethodImpl → Type 0
AddsAll [] added = added ≡ []
AddsAll (item ∷ items) added =
    (own : List MethodImpl) × (rest : List MethodImpl) × (added ≡ own ++ rest)
    × Adds item own
    × AddsAll items rest

place_call-method_impls :
    (e : Expansion) (f r : Bool) (sel : List ℕ) (marker : Str)
    → (place_call e f r sel marker).method_impls ≡ e.method_impls
unfolding place_call
place_call-method_impls e true r sel marker = refl
place_call-method_impls e false true sel marker = refl
place_call-method_impls e false false sel marker = refl

claimed-method_impls :
    (special : Bool) (e : Expansion) (sel : List ℕ) (name : Str) (taken : Option Str)
    {e1 : Expansion}
    → (let r : Syn Expansion = if special then ok e else claim_selector e sel name taken in
        r ≡ ok e1)
    → e1.method_impls ≡ e.method_impls
unfolding claim_selector
claimed-method_impls true e sel name taken h =
    ap (λ (x : Expansion). x.method_impls) (sym (ok_eq h))
claimed-method_impls false e sel name (some other) h = cc
claimed-method_impls false e sel name none h =
    ap (λ (x : Expansion). x.method_impls) (sym (ok_eq h))

-- A step keeps the implementations so far and adds its own.
abbrev pub Keeps : Expansion → Expansion → (List MethodImpl → Type 0) → Type 0
Keeps e e' P = (own : List MethodImpl) × (e'.method_impls ≡ e.method_impls ++ own) × P own

module _ (upper : Str → Str) (keccak256 : List ℕ → List ℕ) where
  public-Keeps :
      (e e' : Expansion) (m : Method) (f r : Bool)
      → expand_public upper keccak256 e m f r ≡ ok e'
      → Keeps e e' (AddsFn m true false)
  unfolding expand_public
  public-Keeps e e' m f r h =
      let (sig, signed, rest) = >>=-eq-ok (eth_signature upper m) _ h in
      let sel = selector keccak256 sig in
      let taken = find_selector sel e.seen_selectors in
      let (e1, claimed, rest1) =
        >>=-eq-ok (if f || r then ok e else claim_selector e sel m.ident taken) _ rest in
      let (made, built, rest2) = >>=-eq-ok (expand_method m sel (has_attr m payable)) _ rest1 in
      (
        made ∷ [],
        ap (λ (x : Expansion). x.method_impls) (sym (ok_eq rest2))
            ∙ place_call-method_impls (record e1 { method_impls = e1.method_impls ++ (made ∷ []) })
                f r sel made.marker
            ∙ ap (λ l. l ++ (made ∷ []))
                (claimed-method_impls (f || r) e sel m.ident taken claimed),
        (made, refl, (sel, has_attr m payable, built)),
      )

  fn-Keeps :
      (e e' : Expansion) (m : Method) (p c f r : Bool)
      → expand_fn upper keccak256 e m p c f r ≡ ok e'
      → Keeps e e' (AddsFn m p c)
  unfolding expand_fn
  fn-Keeps e e' m false c f r h = (
    [],
    ap (λ (x : Expansion). x.method_impls) (sym (ok_eq h)) ∙ sym (append-nil e.method_impls),
    refl,
  )
  fn-Keeps e e' m true true f r h =
      let (made, _, rest) = >>=-eq-ok (expand_constructor m) _ h in
      (
        [],
        ap (λ (x : Expansion). x.method_impls) (sym (ok_eq rest)) ∙ sym (append-nil e.method_impls),
        refl,
      )
  fn-Keeps e e' m true false f r h = public-Keeps e e' m f r h

  item-Keeps :
      (e e' : Expansion) (item : ImplItem)
      → expand_item upper keccak256 e item ≡ ok e'
      → Keeps e e' (Adds item)
  unfolding expand_item
  item-Keeps e e' (other_item attrs) h = (
    [],
    ap (λ (x : Expansion). x.method_impls) (sym (ok_eq h)) ∙ sym (append-nil e.method_impls),
    refl,
  )
  item-Keeps e e' (fn m) h =
      fn-Keeps e e' m m.public (has_attr m constructor) (has_attr m fallback) (has_attr m receive) h

  pub items-Keeps :
      (e e' : Expansion) (items : List ImplItem)
      → expand_items upper keccak256 e items ≡ ok e'
      → Keeps e e' (AddsAll items)
  unfolding expand_items
  items-Keeps e e' [] h = (
    [],
    ap (λ (x : Expansion). x.method_impls) (sym (ok_eq h)) ∙ sym (append-nil e.method_impls),
    refl,
  )
  items-Keeps e e' (item ∷ items) h =
      let (e1, step, later) = >>=-eq-ok (expand_item upper keccak256 e item) _ h in
      let (own, grown, adds) = item-Keeps e e1 item step in
      let (rest, grown', adds') = items-Keeps e1 e' items later in
      (
        own ++ rest,
        grown' ∙ ap (λ r. r ++ rest) grown ∙ append_assoc e.method_impls own rest,
        (own, rest, refl, adds, adds'),
      )
