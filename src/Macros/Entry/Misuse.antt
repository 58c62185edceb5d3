-- ===== src/Macros/Entry/Misuse.antt =====
-- The inert attributes of std-evm-macros, inside a contract and outside of one.
use rustevm.Base.{none, some, ◌⊎◌, ◌≡◌, refl, true, List, All}
use rustevm.Isa.{Str}
use rustevm.Macros.Syntax.{Attr, ImplItem, fn, other_item}
use rustevm.Macros.Signature.{is_inert}
use rustevm.Macros.Entry.{
  error_beside, inert, constructor, payable, fallback, receive, selector, run_attr,
}

module _ (Token ParseError : Type 0) where
  -- The attribute runs no entry point of the crate.
  abbrev pub Silent : Attr → Type 0
  Silent a =
      (attr item : List Token)
      → run_attr {Token = Token} {ParseError = ParseError} a attr item ≡ none

  -- The attribute is named by a path of several segments.
  abbrev pub IsPath : Attr → Type 0
  IsPath (Attr.by_path a) = Unit
  IsPath Attr.constructor = ⊥
  IsPath Attr.payable = ⊥
  IsPath Attr.fallback = ⊥
  IsPath Attr.receive = ⊥
  IsPath (Attr.selector s) = ⊥
  IsPath Attr.other_attr = ⊥

  -- Every attribute of a method is silent, or named by such a path.
  abbrev pub SilentMethod : ImplItem → Type 0
  SilentMethod (fn m) = All (λ a. Silent a ⊎ IsPath a) m.attrs
  SilentMethod (other_item attrs) = Unit {0}

  -- An attribute of the crate that such a path names gives its item back behind an error.
  pub by_path-run_attr :
      (a : Attr) (attr item : List Token)
      → is_inert a ≡ true
      → (message : Str) × (run_attr {Token = Token} {ParseError = ParseError}
            (Attr.by_path a)
            attr
            item
          ≡ some (error_beside message item))
  unfolding run_attr is_inert inert constructor payable fallback receive selector
  by_path-run_attr Attr.constructor attr item h = (_, refl)
  by_path-run_attr Attr.payable attr item h = (_, refl)
  by_path-run_attr Attr.fallback attr item h = (_, refl)
  by_path-run_attr Attr.receive attr item h = (_, refl)
  by_path-run_attr (Attr.selector s) attr item h = (_, refl)
  by_path-run_attr Attr.other_attr attr item h = cc
  by_path-run_attr (Attr.by_path a) attr item h = cc
