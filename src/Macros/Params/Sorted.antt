-- ===== src/Macros/Params/Sorted.antt =====
-- What `split_handle_params` of src/target/std-evm-macros/src/contract.rs accepts, and the
-- parameter names that `eth_signature` of signature.rs hashes.
use rustevm.Base.{
  ◌≤◌, ◌≡◌, refl, sym, ap, ◌∙◌, Bool, true, false, not, List, [], ◌∷◌, ◌++◌, map, if◌then◌else◌, ok,
  err, All, arith, Bool-cases, inl, inr,
}
use mathlib.Core.List.{append-nil, append_assoc, map-append}
use mathlib.Core.Path.{subst}
use rustevm.Base.Results.{ok_eq, >>=-eq-ok}
use rustevm.Macros.Syntax.{RustType, Arg, receiver, typed, HandleKind, Syn, SynError}
use rustevm.Macros.Signature.{is_handle_param, rust_ty_to_solidity, param_names}
use rustevm.Macros.Params.{
  HandleParam, Split, handle_kind, has_kind, is_empty, handle_layout_ty, take_handle, split_from,
  split_handle_params,
}
use rustevm.Macros.Params.OneEach.{count_kind, OneEach, OneEach-snoc}

abbrev pub Handles : List RustType → Type 0
Handles ts = All (λ t. is_handle_param t ≡ true) ts

abbrev pub NoHandles : List RustType → Type 0
NoHandles ts = All (λ t. is_handle_param t ≡ false) ts

-- A check that refuses by an error was passed.
pub unless_refused :
    {A : Type 0} (refused : Bool) (e : SynError) (r : Syn A) {a : A}
    → (if refused then err e else r) ≡ ok a
    → (refused ≡ false) × (r ≡ ok a)
unless_refused true e r h = cc
unless_refused false e r h = (refl, h)

empty_types : (ts : List RustType) → not (is_empty ts) ≡ false → ts ≡ []
unfolding is_empty
empty_types [] h = refl
empty_types (t ∷ ts) h = cc

-- What a handle parameter that is taken shows.
take_handle-ok :
    (handles : List HandleParam) (abi_types : List RustType) (t : RustType) {h : HandleParam}
    → take_handle handles abi_types t ≡ ok h
    → (has_kind handles h.kind ≡ false) × (abi_types ≡ []) × (h.kind ≡ handle_kind t)
unfolding take_handle
take_handle-ok handles abi_types t {h = handle} taken =
    let (fresh, after) = unless_refused (has_kind handles (handle_kind t)) _ _ taken in
    let (early, made) = unless_refused (not (is_empty abi_types)) _ _ after in
    let (layout, _, built) = >>=-eq-ok (handle_layout_ty t (handle_kind t)) _ made in
    let kind : handle_kind t ≡ handle.kind = ap (λ (x : HandleParam). x.kind) (ok_eq built) in
    (subst (λ k. has_kind handles k ≡ false) kind fresh, empty_types abi_types early, sym kind)

param_names-handles :
    (hs ns : List RustType)
    → Handles hs
    → NoHandles ns
    → param_names (map typed (hs ++ ns)) ≡ map rust_ty_to_solidity ns
unfolding param_names
param_names-handles [] [] h k = refl
param_names-handles [] (n ∷ ns) h (k, ks) =
    rw k (ap (λ r. rust_ty_to_solidity n ∷ r) (param_names-handles [] ns h ks))
param_names-handles (t ∷ hs) ns (h, rest) k = rw h (param_names-handles hs ns rest k)

nil_cons : {t : RustType} {ts : List RustType} → [] ≡ t ∷ ts → ⊥
nil_cons h = cc

nothing_yet : (kind : HandleKind) → count_kind kind [] ≤ 1
unfolding count_kind
nothing_yet kind = omega arith

-- What the loop adds to the handles and the types so far.
record Sorted (handles : List HandleParam) (abi_types : List RustType) (args : List Arg)
    (handles' : List HandleParam) (abi_types' : List RustType) : Type 0 where
  hs : List RustType
  ns : List RustType
  split : args ≡ map typed (hs ++ ns)
  are_handles : Handles hs
  are_not : NoHandles ns
  kinds :
      map (λ (h : HandleParam). h.kind) handles'
      ≡ map (λ (h : HandleParam). h.kind) handles ++ map handle_kind hs
  types : abi_types' ≡ abi_types ++ ns
  one_each : OneEach handles → OneEach handles'
  late : (t : RustType) (ts : List RustType) → abi_types ≡ t ∷ ts → hs ≡ []

snoc_cons :
    (ts : List RustType) (t : RustType)
    → (u : RustType) × (us : List RustType) × (ts ++ (t ∷ []) ≡ u ∷ us)
snoc_cons [] t = (t, [], refl)
snoc_cons (u ∷ ts) t = (u, ts ++ (t ∷ []), refl)

-- A parameter that is no handle comes first.
Sorted-type :
    (handles : List HandleParam) (abi_types : List RustType) (t : RustType) (args : List Arg)
    (handles' : List HandleParam) (abi_types' : List RustType)
    → is_handle_param t ≡ false
    → Sorted handles (abi_types ++ (t ∷ [])) args handles' abi_types'
    → Sorted handles abi_types (typed t ∷ args) handles' abi_types'
Sorted-type handles abi_types t args handles' abi_types' plain rest =
    let (u, us, full) = snoc_cons abi_types t in
    let no_more : rest.hs ≡ [] = rest.late u us full in
    record {
      hs = [];
      ns = t ∷ rest.ns;
      split =
          ap (λ (r : List Arg). typed t ∷ r)
            (rest.split ∙ ap (λ (r : List RustType). map typed (r ++ rest.ns)) no_more);
      are_handles = tt;
      are_not = (plain, rest.are_not);
      kinds =
          rest.kinds
          ∙ ap
              (λ (r : List RustType).
                map (λ (h : HandleParam). h.kind) handles ++ map handle_kind r)
              no_more;
      types = rest.types ∙ append_assoc abi_types (t ∷ []) rest.ns;
      one_each = rest.one_each;
      late = λ v vs e. refl;
    }

-- A handle comes first.
Sorted-handle :
    (handles : List HandleParam) (t : RustType) (handle : HandleParam) (args : List Arg)
    (handles' : List HandleParam) (abi_types abi_types' : List RustType)
    → is_handle_param t ≡ true
    → take_handle handles abi_types t ≡ ok handle
    → Sorted (handles ++ (handle ∷ [])) abi_types args handles' abi_types'
    → Sorted handles abi_types (typed t ∷ args) handles' abi_types'
Sorted-handle handles t handle args handles' abi_types abi_types' is_handle took rest =
    let (fresh, early, kind) = take_handle-ok handles abi_types t took in
    let kind_of : HandleParam → HandleKind = λ h. h.kind in
    record {
      hs = t ∷ rest.hs;
      ns = rest.ns;
      split = ap (λ (r : List Arg). typed t ∷ r) rest.split;
      are_handles = (is_handle, rest.are_handles);
      are_not = rest.are_not;
      kinds =
          rest.kinds
          ∙ ap (λ r. r ++ map handle_kind rest.hs) (map-append kind_of handles (handle ∷ []))
          ∙ append_assoc (map kind_of handles) (handle.kind ∷ []) (map handle_kind rest.hs)
          ∙ ap (λ k. map kind_of handles ++ (k ∷ map handle_kind rest.hs)) kind;
      types = rest.types;
      one_each = λ one. rest.one_each (OneEach-snoc handles handle one fresh);
      late = λ v vs e. absurd (nil_cons (sym early ∙ e));
    }

Sorted-nil :
    (handles handles' : List HandleParam) (abi_types abi_types' : List RustType)
    → handles ≡ handles'
    → abi_types ≡ abi_types'
    → Sorted handles abi_types [] handles' abi_types'
Sorted-nil handles handles' abi_types abi_types' e e' = record {
  hs = [];
  ns = [];
  split = refl;
  are_handles = tt;
  are_not = tt;
  kinds =
      ap (map (λ (h : HandleParam). h.kind)) (sym e)
      ∙ sym (append-nil (map (λ (h : HandleParam). h.kind) handles));
  types = sym e' ∙ sym (append-nil abi_types);
  one_each = subst OneEach e;
  late = λ v vs e. refl;
}

split_from-Sorted :
    (handles : List HandleParam) (abi_types : List RustType) (args : List Arg)
    (handles' : List HandleParam) (abi_types' : List RustType)
    → split_from handles abi_types args ≡ ok (handles', abi_types')
    → Sorted handles abi_types args handles' abi_types'
unfolding split_from
split_from-Sorted handles abi_types [] handles' abi_types' h =
    let both : (handles, abi_types) ≡ (handles', abi_types') = ok_eq h in
    Sorted-nil handles handles' abi_types abi_types' (ap (λ (p : Split). p.0) both)
      (ap (λ (p : Split). p.1) both)
split_from-Sorted handles abi_types (receiver ∷ args) handles' abi_types' h = cc
split_from-Sorted handles abi_types (typed t ∷ args) handles' abi_types' h =
    elim (Bool-cases (is_handle_param t)) [
      | inl yes_handle ↦
          let (handle, took, rest) =
            >>=-eq-ok (take_handle handles abi_types t) _ (rw (yes_handle, split_from) at h) in
          Sorted-handle handles t handle args handles' abi_types abi_types' yes_handle took
            (split_from-Sorted (handles ++ (handle ∷ [])) abi_types args handles' abi_types' rest)
      | inr plain ↦ Sorted-type handles abi_types t args handles' abi_types' plain (
          split_from-Sorted handles (abi_types ++ (t ∷ [])) args handles' abi_types'
            (rw (plain, split_from) at h))
    ]

-- When a method's parameters are accepted, they are some handles followed by the ABI parameters:
-- the former are returned with their kinds in order, at most one of each kind, the latter are the
-- types returned, and the parameter names that the signature is made of are the Solidity names of
-- exactly these types.
pub split_handle_params-ok :
    (inputs : List Arg) (handles : List HandleParam) (abi_types : List RustType)
    → split_handle_params inputs ≡ ok (handles, abi_types)
    → (hs : List RustType) × (inputs ≡ map typed (hs ++ abi_types))
      × Handles hs
      × NoHandles abi_types
      × (map (λ (h : HandleParam). h.kind) handles ≡ map handle_kind hs)
      × OneEach handles
      × (param_names inputs ≡ map rust_ty_to_solidity abi_types)
unfolding split_handle_params
split_handle_params-ok inputs handles abi_types h =
    let sorted = split_from-Sorted [] [] inputs handles abi_types h in
    let same : sorted.ns ≡ abi_types = sym sorted.types in
    let shape : inputs ≡ map typed (sorted.hs ++ abi_types) =
      sorted.split ∙ ap (λ (r : List RustType). map typed (sorted.hs ++ r)) same in
    let plain : NoHandles abi_types = subst NoHandles same sorted.are_not in
    (
      sorted.hs,
      shape,
      sorted.are_handles,
      plain,
      sorted.kinds,
      sorted.one_each (λ kind. nothing_yet kind),
      ap param_names shape ∙ param_names-handles sorted.hs abi_types sorted.are_handles plain,
    )
