-- ===== src/Macros/Contract/Arms.antt =====
-- The arms of the match over selectors that `expand_contract` of
-- src/target/std-evm-macros/src/contract.rs emits.
use rustevm.Base.{
  ℕ, ◌≡◌, refl, sym, ap, ◌∙◌, Bool, true, false, not, ◌&&◌, ◌||◌, List, [], ◌∷◌, ◌++◌, map, Option,
  none, some, if◌then◌else◌, ok, err,
}
use mathlib.Core.List.{append-nil, map-append}
use mathlib.Core.Path.{subst}
use rustevm.Base.Results.{ok_eq, >>=-eq-ok}
use rustevm.Isa.{Str}
use rustevm.Abi.Names.{selector}
use rustevm.Macros.Syntax.{
  constructor, payable, fallback, receive, Method, ImplItem, fn, other_item, Syn,
}
use rustevm.Macros.Signature.{has_attr, eth_signature}
use rustevm.Macros.Contract.Selectors.{first_of, Distinct, Distinct-snoc, find_none_same}
use rustevm.Macros.Params.{split_handle_params}
use rustevm.Macros.Contract.{
  MethodImpl, Expansion, method_marker_ident, expand_method, expand_constructor, expand_fn,
  find_selector, claim_selector, place_call, expand_public, expand_item,
}

-- A method that the match over selectors calls.
unfoldable pub is_ordinary : Method → Bool
is_ordinary m =
    m.public
    && not (has_attr m constructor)
    && not (has_attr m fallback)
    && not (has_attr m receive)

module _ (upper : Str → Str) (keccak256 : List ℕ → List ℕ) where
  unfoldable pub arm_of : Method → Syn Str → List (List ℕ × Str)
  arm_of m (ok sig) = (selector keccak256 sig, method_marker_ident m.ident) ∷ []
  arm_of m (err e) = []

  -- The selector and the marker of each ordinary method, in order.
  unfoldable pub ordinary_arms : List ImplItem → List (List ℕ × Str)
  unfolding arm_of
  ordinary_arms [] = []
  ordinary_arms (other_item attrs ∷ items) = ordinary_arms items
  ordinary_arms (fn m ∷ items) =
      let own = if is_ordinary m then arm_of m (eth_signature upper m) else [] in
      own ++ ordinary_arms items

  -- The selectors that are seen are those of the arms, and they are different.
  pub record Inv (e : Expansion) : Type 0 where
    pub seen : map first_of e.seen_selectors ≡ map first_of e.dispatch_arms
    pub distinct : Distinct e.dispatch_arms

  claim-Inv :
      (e : Expansion) (sel : List ℕ) (name : Str) (taken : Option Str) {e1 : Expansion}
      → claim_selector e sel name taken ≡ ok e1
      → (taken ≡ none)
        × (e1.dispatch_arms ≡ e.dispatch_arms)
        × (e1.seen_selectors ≡ e.seen_selectors ++ ((sel, name) ∷ []))
  unfolding claim_selector
  claim-Inv e sel name (some other) h = cc
  claim-Inv e sel name none h = (
    refl,
    ap (λ (x : Expansion). x.dispatch_arms) (sym (ok_eq h)),
    ap (λ (x : Expansion). x.seen_selectors) (sym (ok_eq h)),
  )

  -- What a step does to the arms.
  pub record Tracks (e e' : Expansion) (own : List (List ℕ × Str)) : Type 0 where
    pub kept : Inv e'
    pub arms : e'.dispatch_arms ≡ e.dispatch_arms ++ own

  Tracks-same :
      (e e' : Expansion)
      → Inv e
      → e'.dispatch_arms ≡ e.dispatch_arms
      → e'.seen_selectors ≡ e.seen_selectors
      → Tracks e e' []
  Tracks-same e e' inv arms seen = record {
    kept = record {
      seen = ap (map first_of) seen ∙ inv.seen ∙ ap (map first_of) (sym arms);
      distinct = subst Distinct (sym arms) inv.distinct;
    };
    arms = arms ∙ sym (append-nil e.dispatch_arms);
  }

  Tracks-arm :
      (e e' : Expansion) (sel : List ℕ) (name marker : Str)
      → Inv e
      → find_selector sel e.seen_selectors ≡ none
      → e'.dispatch_arms ≡ e.dispatch_arms ++ ((sel, marker) ∷ [])
      → e'.seen_selectors ≡ e.seen_selectors ++ ((sel, name) ∷ [])
      → Tracks e e' ((sel, marker) ∷ [])
  Tracks-arm e e' sel name marker inv fresh arms seen = record {
    kept = record {
      seen =
          ap (map first_of) seen
          ∙ map-append first_of e.seen_selectors ((sel, name) ∷ [])
          ∙ ap (λ r. r ++ (sel ∷ [])) inv.seen
          ∙ sym (map-append first_of e.dispatch_arms ((sel, marker) ∷ []))
          ∙ ap (map first_of) (sym arms);
      distinct = subst Distinct (sym arms) (
          Distinct-snoc e.dispatch_arms sel marker inv.distinct
            (find_none_same sel e.seen_selectors e.dispatch_arms inv.seen fresh));
    };
    arms = arms;
  }

  pub expand_method-marker :
      (m : Method) (sel : List ℕ) (is_payable : Bool) {made : MethodImpl}
      → expand_method m sel is_payable ≡ ok made
      → made.marker ≡ method_marker_ident m.ident
  unfolding expand_method
  expand_method-marker m sel is_payable h =
      let (params, _, built) = >>=-eq-ok (split_handle_params m.inputs) _ h in
      ap (λ (x : MethodImpl). x.marker) (sym (ok_eq built))

  ordinary-Tracks :
      (e e' : Expansion) (m : Method)
      → expand_public upper keccak256 e m false false ≡ ok e'
      → Inv e
      → Tracks e e' (arm_of m (eth_signature upper m))
  unfolding expand_public place_call arm_of
  ordinary-Tracks e e' m h inv =
      let (sig, signed, rest) = >>=-eq-ok (eth_signature upper m) _ h in
      let sel = selector keccak256 sig in
      let (e1, claimed, rest1) =
        >>=-eq-ok (claim_selector e sel m.ident (find_selector sel e.seen_selectors)) _ rest in
      let (made, built, rest2) = >>=-eq-ok (expand_method m sel (has_attr m payable)) _ rest1 in
      let (fresh, arms, seen) =
        claim-Inv e sel m.ident (find_selector sel e.seen_selectors) claimed in
      let placed : e'.dispatch_arms ≡ e1.dispatch_arms ++ ((sel, made.marker) ∷ []) =
        ap (λ (x : Expansion). x.dispatch_arms) (sym (ok_eq rest2)) in
      let named : e1.dispatch_arms ++ ((sel, made.marker) ∷ [])
          ≡ e.dispatch_arms ++ ((sel, method_marker_ident m.ident) ∷ []) =
        λ i. arms i ++ ((sel, expand_method-marker m sel (has_attr m payable) built i) ∷ []) in
      rw signed (
        Tracks-arm e e' sel m.ident (method_marker_ident m.ident) inv fresh (placed ∙ named)
          (ap (λ (x : Expansion). x.seen_selectors) (sym (ok_eq rest2)) ∙ seen))

  special-Tracks :
      (e e' : Expansion) (m : Method) (is_fallback is_receive : Bool)
      → is_fallback || is_receive ≡ true
      → expand_public upper keccak256 e m is_fallback is_receive ≡ ok e'
      → Inv e
      → Tracks e e' []
  unfolding expand_public place_call
  special-Tracks e e' m true is_receive special h inv =
      let (sig, signed, rest) = >>=-eq-ok (eth_signature upper m) _ h in
      let (made, built, rest2) =
        >>=-eq-ok (expand_method m (selector keccak256 sig) (has_attr m payable)) _ rest in
      Tracks-same e e' inv (ap (λ (x : Expansion). x.dispatch_arms) (sym (ok_eq rest2)))
        (ap (λ (x : Expansion). x.seen_selectors) (sym (ok_eq rest2)))
  special-Tracks e e' m false true special h inv =
      let (sig, signed, rest) = >>=-eq-ok (eth_signature upper m) _ h in
      let (made, built, rest2) =
        >>=-eq-ok (expand_method m (selector keccak256 sig) (has_attr m payable)) _ rest in
      Tracks-same e e' inv (ap (λ (x : Expansion). x.dispatch_arms) (sym (ok_eq rest2)))
        (ap (λ (x : Expansion). x.seen_selectors) (sym (ok_eq rest2)))
  special-Tracks e e' m false false special h inv = cc

  own_arm : Method → Bool → Bool → Bool → Bool → List (List ℕ × Str)
  own_arm m p c f r = if p && not c && not f && not r then arm_of m (eth_signature upper m) else []

  expand_fn-Tracks :
      (e e' : Expansion) (m : Method) (p c f r : Bool)
      → expand_fn upper keccak256 e m p c f r ≡ ok e'
      → Inv e
      → Tracks e e' (own_arm m p c f r)
  unfolding expand_fn own_arm
  expand_fn-Tracks e e' m false c f r h inv =
      Tracks-same e e' inv (ap (λ (x : Expansion). x.dispatch_arms) (sym (ok_eq h)))
        (ap (λ (x : Expansion). x.seen_selectors) (sym (ok_eq h)))
  expand_fn-Tracks e e' m true true f r h inv =
      let (made, _, rest) = >>=-eq-ok (expand_constructor m) _ h in
      Tracks-same e e' inv (ap (λ (x : Expansion). x.dispatch_arms) (sym (ok_eq rest)))
        (ap (λ (x : Expansion). x.seen_selectors) (sym (ok_eq rest)))
  expand_fn-Tracks e e' m true false true r h inv = special-Tracks e e' m true r refl h inv
  expand_fn-Tracks e e' m true false false true h inv = special-Tracks e e' m false true refl h inv
  expand_fn-Tracks e e' m true false false false h inv = ordinary-Tracks e e' m h inv

  pub expand_item-Tracks :
      (e e' : Expansion) (item : ImplItem)
      → expand_item upper keccak256 e item ≡ ok e'
      → Inv e
      → Tracks e e' (ordinary_arms (item ∷ []))
  unfolding expand_item ordinary_arms is_ordinary own_arm
  expand_item-Tracks e e' (other_item attrs) h inv =
      Tracks-same e e' inv (ap (λ (x : Expansion). x.dispatch_arms) (sym (ok_eq h)))
        (ap (λ (x : Expansion). x.seen_selectors) (sym (ok_eq h)))
  expand_item-Tracks e e' (fn m) h inv =
      let own =
        expand_fn-Tracks e e' m m.public (has_attr m constructor) (has_attr m fallback)
          (has_attr m receive) h inv in
      subst (Tracks e e')
        (sym (
          append-nil (
            own_arm m m.public (has_attr m constructor) (has_attr m fallback)
              (has_attr m receive))))
        own
