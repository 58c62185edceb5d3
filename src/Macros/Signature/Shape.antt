-- ===== src/Macros/Signature/Shape.antt =====
-- The shape of the text that `eth_signature` of src/target/std-evm-macros/src/signature.rs returns.
use rustevm.Base.{
  ℕ, ◌≡◌, refl, Bool, true, false, not, ◌||◌, List, [], ◌∷◌, ◌++◌, ◌==◌, ==_iff, Option, none, some,
  if◌then◌else◌, ok, err,
}
use mathlib.Core.Path.{subst}
use rustevm.Base.Results.{ok_eq, >>=-eq-ok}
use rustevm.Isa.{Str}
use rustevm.Abi.Names.{camel_case}
use rustevm.Macros.Syntax.{Attr, constructor, selector, Method, Syn, bad_selector}
use rustevm.Macros.Signature.{
  ends_with, contains, is_empty, checked_selector, selector_override, join, signature_text,
  param_names, eth_signature,
}

-- A full signature: an opening parenthesis somewhere, and a closing one at the end.
abbrev pub Full : Str → Type 0
Full sig = (contains sig b'(' ≡ true) × (ends_with sig b')' ≡ true)

ends_with-snoc : (xs : Str) (c : ℕ) → ends_with (xs ++ (c ∷ [])) c ≡ true
unfolding ends_with
ends_with-snoc [] c = (==_iff c c).1 refl
ends_with-snoc (x ∷ []) c = (==_iff c c).1 refl
ends_with-snoc (x ∷ y ∷ xs) c = ends_with-snoc (y ∷ xs) c

ends_with-cons : (x : ℕ) (xs : Str) (c : ℕ) → ends_with xs c ≡ true → ends_with (x ∷ xs) c ≡ true
unfolding ends_with
ends_with-cons x [] c h = cc
ends_with-cons x (y ∷ xs) c h = h

ends_with-append : (xs ys : Str) (c : ℕ) → ends_with ys c ≡ true → ends_with (xs ++ ys) c ≡ true
ends_with-append [] ys c h = h
ends_with-append (x ∷ xs) ys c h = ends_with-cons x (xs ++ ys) c (ends_with-append xs ys c h)

or_true : (b : Bool) → b || true ≡ true
or_true true = refl
or_true false = refl

contains-middle : (xs : Str) (c : ℕ) (ys : Str) → contains (xs ++ (c ∷ ys)) c ≡ true
unfolding contains
contains-middle [] c ys = rw ((==_iff c c).1 refl)
contains-middle (x ∷ xs) c ys = rw (contains-middle xs c ys) (or_true (x == c))

signature_text-Full : (name : Str) (params : List Str) → Full (signature_text name params)
unfolding signature_text
signature_text-Full name params = (
  contains-middle name b'(' (join params ++ (b')' ∷ [])),
  ends_with-append name (b'(' ∷ (join params ++ (b')' ∷ []))) b')'
      (ends_with-cons b'(' (join params ++ (b')' ∷ [])) b')' (ends_with-snoc (join params) b')')),
)

passed :
    (sig : Str) (empty opened closed : Bool) {found : Str}
    → (let r : Syn (Option Str) =
          if (empty || not opened) || not closed then err bad_selector else ok (some sig) in
        r ≡ ok (some found))
    → (opened ≡ true) × (closed ≡ true) × (sig ≡ found)
passed sig true opened closed h = cc
passed sig false false closed h = cc
passed sig false true false h = cc
passed sig false true true h = (refl, refl, cc)

checked_selector-Full :
    (sig : Str) {found : Str} → checked_selector sig ≡ ok (some found) → Full found
unfolding checked_selector
checked_selector-Full sig h =
    let (opened, closed, same) =
      passed sig (is_empty sig) (contains sig b'(') (ends_with sig b')') h in
    subst Full same (opened, closed)

selector_override-Full :
    (attrs : List Attr) {found : Str} → selector_override attrs ≡ ok (some found) → Full found
unfolding selector_override
selector_override-Full [] h = cc
selector_override-Full (selector none ∷ attrs) h = cc
selector_override-Full (selector (some s) ∷ attrs) h = checked_selector-Full s h
selector_override-Full (constructor ∷ attrs) h = selector_override-Full attrs h
selector_override-Full (a ∷ attrs) h = selector_override-Full attrs h

chosen :
    (upper : Str → Str) (m : Method) (found : Option Str) {sig : Str}
    → selector_override m.attrs ≡ ok found
    → (let r : Syn Str = ok (elim found [
      | none ↦ signature_text (camel_case upper m.ident) (param_names m.inputs)
      | some text ↦ text
    ]) in
        r ≡ ok sig)
    → Full sig
chosen upper m none known h =
    subst Full (ok_eq h) (signature_text-Full (camel_case upper m.ident) (param_names m.inputs))
chosen upper m (some text) known h = subst Full (ok_eq h) (selector_override-Full m.attrs known)

-- The signature that a method's selector is the hash of is a full one, whether it is built from the
-- method's name and parameters or given by an attribute: it has an opening parenthesis and ends in a
-- closing one.
pub eth_signature-Full :
    (upper : Str → Str) (m : Method) (sig : Str) → eth_signature upper m ≡ ok sig → Full sig
unfolding eth_signature
eth_signature-Full upper m sig h =
    let (found, known, rest) = >>=-eq-ok (selector_override m.attrs) _ h in
    chosen upper m found known rest
