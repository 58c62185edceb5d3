-- ===== src/Macros/Contract/Handles/Passed.antt =====
-- The handles that the emitted call of contract.rs passes, against the types of the method's parameters.
use rustevm.Base.{
  ℕ, ◌≡◌, sym, ap, ◌∙◌, inl, inr, Bool, not, List, [], ◌∷◌, ◌++◌, map, some, ok, length, Pairs,
  Bool-cases, if◌then◌else◌,
}
use mathlib.Core.List.{append-nil, append_assoc}
use mathlib.Core.Path.{subst}
use rustevm.Base.Results.{ok_eq, >>=-eq-ok}
use rustevm.Macros.Syntax.{RustType, Arg, receiver, typed, Method}
use rustevm.Macros.Signature.{is_handle_param}
use rustevm.Macros.Params.{
  HandleParam, Split, handle_kind, is_mut_reference, handle_layout_ty, has_kind, is_empty,
  take_handle, split_from, split_handle_params,
}
use rustevm.Macros.Params.OneEach.{OneEach}
use rustevm.Macros.Params.Sorted.{unless_refused, split_handle_params-ok}
use rustevm.Macros.Contract.{MethodImpl, expand_method}
use rustevm.Macros.Contract.Handles.{arg_pat_idents, call_body, value, bind_args, run}
use rustevm.Macros.Contract.Handles.Bound.{given, run-call_body}

-- The types of the parameters that are handles, in order.
abbrev pub handle_types : List Arg → List RustType
handle_types [] = []
handle_types (receiver ∷ args) = handle_types args
handle_types (typed t ∷ args) =
    let rest = handle_types args in if is_handle_param t then t ∷ rest else rest

-- The handle is of the kind, the mutability and the layout that the type names.
abbrev pub FitsType : RustType → HandleParam → Type 0
FitsType t h =
    (h.kind ≡ handle_kind t)
    × (h.is_mut ≡ is_mut_reference t)
    × (handle_layout_ty t h.kind ≡ ok h.layout_ty)

take_handle-FitsType :
    (handles : List HandleParam) (abi_types : List RustType) (t : RustType) {h : HandleParam}
    → take_handle handles abi_types t ≡ ok h
    → FitsType t h
unfolding take_handle
take_handle-FitsType handles abi_types t {h = handle} taken =
    let (_, after) = unless_refused (has_kind handles (handle_kind t)) _ _ taken in
    let (_, made) = unless_refused (not (is_empty abi_types)) _ _ after in
    let (layout, found, built) = >>=-eq-ok (handle_layout_ty t (handle_kind t)) _ made in
    let kind : handle_kind t ≡ handle.kind = ap (λ (x : HandleParam). x.kind) (ok_eq built) in
    (
      sym kind,
      sym (ap (λ (x : HandleParam). x.is_mut) (ok_eq built)),
      subst (λ k. handle_layout_ty t k ≡ ok handle.layout_ty) kind
          (found
            ∙ ap (λ (l : RustType). ok l) (ap (λ (x : HandleParam). x.layout_ty) (ok_eq built))),
    )

-- What the loop adds to the handles.
split_from-handles :
    (handles : List HandleParam) (abi_types : List RustType) (args : List Arg)
    (handles' : List HandleParam) (abi_types' : List RustType)
    → split_from handles abi_types args ≡ ok (handles', abi_types')
    → (new : List HandleParam) × (handles' ≡ handles ++ new)
      × Pairs FitsType (handle_types args) new
unfolding split_from
split_from-handles handles abi_types [] handles' abi_types' h =
    ([], sym (ap (λ (p : Split). p.0) (ok_eq h)) ∙ sym (append-nil handles), tt)
split_from-handles handles abi_types (receiver ∷ args) handles' abi_types' h = cc
split_from-handles handles abi_types (typed t ∷ args) handles' abi_types' h =
    elim (Bool-cases (is_handle_param t)) [
      | inl yes_handle ↦
          let (handle, took, rest) =
            >>=-eq-ok (take_handle handles abi_types t) _ (rw (yes_handle, split_from) at h) in
          let (new, grown, fits) =
            split_from-handles (handles ++ (handle ∷ [])) abi_types args handles' abi_types' rest in
          (
            handle ∷ new,
            grown ∙ append_assoc handles (handle ∷ []) new,
            rw yes_handle (take_handle-FitsType handles abi_types t took, fits),
          )
      | inr plain ↦
          let (new, grown, fits) =
            split_from-handles handles (abi_types ++ (t ∷ [])) args handles' abi_types'
              (rw (plain, split_from) at h) in
          (new, grown, rw plain fits)
    ]

-- The handles of an implementation are those of the parameters.
pub expand_method-fits :
    (m : Method) (sel : List ℕ) (is_payable : Bool) (impl : MethodImpl)
    → expand_method m sel is_payable ≡ ok impl
    → Pairs FitsType (handle_types m.inputs) impl.handles
unfolding expand_method split_handle_params
expand_method-fits m sel is_payable impl h =
    let ((handles, abi_types), split, built) = >>=-eq-ok (split_handle_params m.inputs) _ h in
    let (new, same, fits) = split_from-handles [] [] m.inputs handles abi_types split in
    subst (Pairs FitsType (handle_types m.inputs))
      (sym same ∙ ap (λ (i : MethodImpl). i.handles) (ok_eq built)) fits

-- The call that the implementation of an accepted method emits passes to the method, in order, a
-- handle for each of its handle parameters, and then the arguments, whichever values these are: the
-- closures around the call bind each name that it passes, none hides another, and each handle is of
-- the kind, the mutability and the layout that the type of its parameter names.
pub expand_method-passes :
    {V : Type 0} (m : Method) (sel : List ℕ) (is_payable : Bool) (impl : MethodImpl) (vs : List V)
    → expand_method m sel is_payable ≡ ok impl
    → length impl.args ≡ length vs
    → (run (bind_args (arg_pat_idents (length impl.args)) vs) (call_body impl.handles impl.args)
        ≡ map (λ h. some (given V h)) impl.handles ++ map (λ v. some (value v)) vs)
      × Pairs FitsType (handle_types m.inputs) impl.handles
unfolding expand_method split_handle_params
expand_method-passes {V} m sel is_payable impl vs h sized =
    let ((handles, abi_types), split, built) = >>=-eq-ok (split_handle_params m.inputs) _ h in
    let (_, _, _, _, _, one, _) = split_handle_params-ok m.inputs handles abi_types split in
    let kept : handles ≡ impl.handles = ap (λ (i : MethodImpl). i.handles) (ok_eq built) in
    (
      run-call_body V impl.handles impl.args vs (subst OneEach kept one) sized,
      expand_method-fits m sel is_payable impl h,
    )
