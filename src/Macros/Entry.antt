-- ===== src/Macros/Entry.antt =====
-- The entry points of the attribute macros: src/target/std-evm-macros/src/lib.rs, and `inert` of
-- attrs.rs.
--
-- A token is any type, and the parsers of the crate `syn` are arguments.
pub mod Misuse
use rustevm.Base.{ℕ, Option, none, some, List, [], ◌∷◌, ◌++◌, Result, ok, err}
use rustevm.Isa.{Str, bytes}
use rustevm.Macros.Syntax.{Attr, ImplItem, Syn, SynError}
use rustevm.Macros.Contract.{Expansion, expand_contract}
use rustevm.Macros.Layout.{Fields, Accessor, Flavor, transient_storage, expand_layout}

-- What a macro gives back: an error in place of the item, or before it, or the expansion.
pub data Output (Token ParseError A : Type 0) : Type 0 where
  takes_no_arguments : Str → Output Token ParseError A
  unparsed : ParseError → Output Token ParseError A
  refused : SynError → Output Token ParseError A
  error_beside : Str → List Token → Output Token ParseError A
  expanded : A → Output Token ParseError A

module _ {Token ParseError : Type 0} where
  -- The two matches on results, after the test of the arguments.
  unfoldable pub finished : {A : Type 0} → Syn A → Output Token ParseError A
  finished (ok a) = expanded a
  finished (err e) = refused e

  unfoldable pub parsed :
      {Item A : Type 0} → Result ParseError Item → (Item → Syn A) → Output Token ParseError A
  unfolding finished
  parsed (ok item) expand = finished (expand item)
  parsed (err e) expand = unparsed e

  -- The body that `contract`, `storage` and `transient` share, up to the message.
  unfoldable pub entry :
      {Item A : Type 0}
      → Str
      → (List Token → Result ParseError Item)
      → (Item → Syn A)
      → List Token
      → List Token
      → Output Token ParseError A
  unfolding parsed
  entry message parse expand [] item = parsed (parse item) expand
  entry message parse expand (t ∷ attr) item = takes_no_arguments message

  unfoldable pub contract :
      (Str → Str)
      → (List ℕ → List ℕ)
      → (List Token → Result ParseError (List ImplItem))
      → List Token
      → List Token
      → Output Token ParseError Expansion
  contract upper keccak256 parse =
      entry (bytes "#[contract] takes no arguments") parse (expand_contract upper keccak256)

  unfoldable pub storage :
      (List Token → Result ParseError Fields)
      → List Token
      → List Token
      → Output Token ParseError (List Accessor)
  storage parse = entry (bytes "#[storage] takes no arguments") parse (expand_layout Flavor.storage)

  unfoldable pub transient :
      (List Token → Result ParseError Fields)
      → List Token
      → List Token
      → Output Token ParseError (List Accessor)
  transient parse =
      entry (bytes "#[transient] takes no arguments") parse (expand_layout transient_storage)

  -- The arguments of the attribute are not looked at.
  unfoldable pub inert : {A : Type 0} → Str → List Token → List Token → Output Token ParseError A
  inert name attr item =
      error_beside
        (bytes "`#["
          ++ name
          ++ bytes "]` must be used on a method inside a `#[contract]` impl block")
        item

  unfoldable pub constructor : {A : Type 0} → List Token → List Token → Output Token ParseError A
  constructor attr item = inert (bytes "constructor") attr item

  unfoldable pub payable : {A : Type 0} → List Token → List Token → Output Token ParseError A
  payable attr item = inert (bytes "payable") attr item

  unfoldable pub fallback : {A : Type 0} → List Token → List Token → Output Token ParseError A
  fallback attr item = inert (bytes "fallback") attr item

  unfoldable pub receive : {A : Type 0} → List Token → List Token → Output Token ParseError A
  receive attr item = inert (bytes "receive") attr item

  unfoldable pub selector : {A : Type 0} → List Token → List Token → Output Token ParseError A
  selector attr item = inert (bytes "selector") attr item

  -- The entry point of this crate that the compiler runs for an attribute that it finds on an item,
  -- with the tokens of the attribute and of the item; none for an attribute that is not the crate's.
  unfoldable pub run_attr :
      Attr → List Token → List Token → Option (Output Token ParseError (List Token))
  unfolding constructor payable fallback receive selector
  run_attr Attr.constructor attr item = some (constructor attr item)
  run_attr Attr.payable attr item = some (payable attr item)
  run_attr Attr.fallback attr item = some (fallback attr item)
  run_attr Attr.receive attr item = some (receive attr item)
  run_attr (Attr.selector s) attr item = some (selector attr item)
  run_attr Attr.other_attr attr item = none
  run_attr (Attr.by_path a) attr item = run_attr a attr item
