-- ===== src/Macros/Contract/Handles/Bound.antt =====
-- What the emitted call of contract.rs passes to the method.
use rustevm.Base.{
  ℕ, zero, suc, ◌+◌, ◌<◌, ◌≡◌, ◌≢◌, refl, sym, ap, ◌∙◌, Bool, true, false, List, [], ◌∷◌, ◌++◌, map,
  some, length, arith, All,
}
use mathlib.Core.List.{map-append, map-map}
use mathlib.Core.Path.{subst}
use rustevm.Base.Format.{decimal}
use rustevm.Isa.{Str, bytes, str_eq, str_eq_refl}
use rustevm.Std.Handles.{
  with_storage, with_storage_mut, with_transient_storage, with_transient_storage_mut,
}
use rustevm.Macros.Syntax.{RustType, HandleKind, persistent, transient}
use rustevm.Macros.Params.{HandleParam}
use rustevm.Macros.Params.OneEach.{OneEach}
use rustevm.Macros.Contract.Handles.{
  binding, arg_pats_from, arg_pat_idents, Code, inner_call, closure, with_of, wrap_with_handles,
  call_body, Local, handle, transient_handle, value, lookup, bind_args, run,
}
use rustevm.Macros.Contract.Handles.Names.{
  args_differ, bindings-args, bindings_differ, Without, rest-Without, rest-OneEach,
}

module _ (V : Type 0) where
  -- The handle of a parameter's kind, mutability and layout.
  unfoldable pub handle_of : HandleKind → Bool → RustType → Local V
  handle_of persistent is_mut t = handle (record { layout = t; writable = is_mut })
  handle_of transient is_mut t = transient_handle (record { layout = t; writable = is_mut })

  abbrev pub given : HandleParam → Local V
  given h = handle_of h.kind h.is_mut h.layout_ty

  abbrev Env : Type 0
  Env = List (Str × Local V)

  -- The bindings inside all of the closures.
  bind_all : List HandleParam → Env → Env
  bind_all [] env = env
  bind_all (h ∷ hs) env = bind_all hs ((binding h.kind, given h) ∷ env)

  run-closure :
      (kind : HandleKind) (is_mut : Bool) (t : RustType) (name : Str) (env : Env) (body : Code)
      → run env (closure (with_of kind is_mut) t name body)
        ≡ run ((name, handle_of kind is_mut t) ∷ env) body
  unfolding run with_of handle_of with_storage with_storage_mut with_transient_storage
      with_transient_storage_mut
  run-closure persistent false t name env body = refl
  run-closure persistent true t name env body = refl
  run-closure transient false t name env body = refl
  run-closure transient true t name env body = refl

  run-wrap_with_handles :
      (hs : List HandleParam) (env : Env) (body : Code)
      → run env (wrap_with_handles hs body) ≡ run (bind_all hs env) body
  unfolding wrap_with_handles bind_all
  run-wrap_with_handles [] env body = refl
  run-wrap_with_handles (h ∷ hs) env body =
      run-closure h.kind h.is_mut h.layout_ty (binding h.kind) env (wrap_with_handles hs body)
      ∙ run-wrap_with_handles hs ((binding h.kind, given h) ∷ env) body

  lookup-bind_all :
      (hs : List HandleParam) (env : Env) (name : Str)
      → All (λ h. str_eq (binding h.kind) name ≡ false) hs
      → lookup (bind_all hs env) name ≡ lookup env name
  unfolding bind_all lookup
  lookup-bind_all [] env name h = refl
  lookup-bind_all (g ∷ hs) env name (h, rest) =
      lookup-bind_all hs ((binding g.kind, given g) ∷ env) name rest ∙ rw h refl

  Without-bindings :
      (kind : HandleKind) (hs : List HandleParam)
      → Without kind hs
      → All (λ h. str_eq (binding h.kind) (binding kind) ≡ false) hs
  unfolding Without
  Without-bindings kind [] h = tt
  Without-bindings kind (g ∷ hs) (h, rest) =
      (bindings_differ g.kind kind h, Without-bindings kind hs rest)

  -- Each handle is found under the name of its kind.
  handles_found :
      (hs : List HandleParam) (env : Env)
      → OneEach hs
      → map (λ (h : HandleParam). lookup (bind_all hs env) (binding h.kind)) hs
        ≡ map (λ h. some (given h)) hs
  unfolding bind_all lookup
  handles_found [] env one = refl
  handles_found (h ∷ hs) env one =
      let inner = (binding h.kind, given h) ∷ env in
      let first : lookup (bind_all hs inner) (binding h.kind) ≡ some (given h) =
        lookup-bind_all hs inner (binding h.kind)
          (Without-bindings h.kind hs (rest-Without h hs one))
        ∙ rw (str_eq_refl (binding h.kind)) refl in
      ap (λ r. r ∷ map (λ (g : HandleParam). lookup (bind_all hs inner) (binding g.kind)) hs) first
      ∙ ap (λ r. some (given h) ∷ r) (handles_found hs inner (rest-OneEach h hs one))

  -- A name of another argument in front is passed over.
  args_found_from :
      (i : ℕ) (vs : List V) (j : ℕ) (n : ℕ) (v : V)
      → i < j
      → map
          (lookup (
            (bytes "arg" ++ decimal i, value v) ∷ bind_args (arg_pats_from (i + 1) (length vs)) vs))
          (arg_pats_from j n)
        ≡ map (lookup (bind_args (arg_pats_from (i + 1) (length vs)) vs)) (arg_pats_from j n)
  unfolding arg_pats_from lookup
  args_found_from i vs j zero v h = refl
  args_found_from i vs j (suc n) v h =
      let apart : (i ≢ j) = λ e. absurd (not_less i j h e) in
      rw (args_differ i j apart, args_found_from i vs (j + 1) n v (omega arith)) refl
    where
      not_less : (i j : ℕ) → i < j → i ≡ j → ⊥
      not_less i j h e = omega arith

  args_found :
      (i : ℕ) (vs : List V)
      → map (lookup (bind_args (arg_pats_from i (length vs)) vs)) (arg_pats_from i (length vs))
        ≡ map (λ v. some (value v)) vs
  unfolding arg_pats_from bind_args lookup
  args_found i [] = refl
  args_found i (v ∷ vs) = rw (str_eq_refl (bytes "arg" ++ decimal i)) (
      ap (λ r. some (value v) ∷ r)
        (args_found_from i vs (i + 1) (length vs) v (omega arith) ∙ args_found (i + 1) vs))

  all_bindings-args :
      (hs : List HandleParam) (n : Str)
      → All (λ h. str_eq (binding h.kind) (bytes "arg" ++ n) ≡ false) hs
  all_bindings-args [] n = tt
  all_bindings-args (h ∷ hs) n = (bindings-args h.kind n, all_bindings-args hs n)

  args_inside :
      (hs : List HandleParam) (env : Env) (i n : ℕ)
      → map (lookup (bind_all hs env)) (arg_pats_from i n) ≡ map (lookup env) (arg_pats_from i n)
  unfolding arg_pats_from
  args_inside hs env i zero = refl
  args_inside hs env i (suc n) =
      rw (lookup-bind_all hs env (bytes "arg" ++ decimal i) (all_bindings-args hs (decimal i)))
        (ap (λ r. lookup env (bytes "arg" ++ decimal i) ∷ r) (args_inside hs env (i + 1) n))

  -- The call gets the handles, and then the arguments.
  pub run-call_body :
      (hs : List HandleParam) (ts : List RustType) (vs : List V)
      → OneEach hs
      → length ts ≡ length vs
      → run (bind_args (arg_pat_idents (length ts)) vs) (call_body hs ts)
        ≡ map (λ h. some (given h)) hs ++ map (λ v. some (value v)) vs
  unfolding call_body arg_pat_idents run
  run-call_body hs ts vs one sized =
      let names = arg_pats_from 0 (length ts) in
      let env = bind_args names vs in
      let inside = bind_all hs env in
      let bindings = map (λ (h : HandleParam). binding h.kind) hs in
      run-wrap_with_handles hs env (inner_call (bindings ++ names))
      ∙ map-append (lookup inside) bindings names
      ∙ ap (λ r. r ++ map (lookup inside) names)
          (map-map (lookup inside) (λ (h : HandleParam). binding h.kind) hs
            ∙ handles_found hs env one)
      ∙ ap (λ r. map (λ h. some (given h)) hs ++ r)
          (args_inside hs env 0 (length ts)
            ∙ subst
                (λ n.
                  map (lookup (bind_args (arg_pats_from 0 n) vs)) (arg_pats_from 0 n)
                  ≡ map (λ v. some (value v)) vs)
                (sym sized) (args_found 0 vs))
