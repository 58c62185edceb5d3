-- ===== src/Macros/Layout/Slots.antt =====
-- Which slot each accessor of src/target/std-evm-macros/src/layout.rs uses.
use rustevm.Base.{
  ℕ, zero, suc, ◌+◌, ◌≢◌, ◌≤◌, ◌<◌, ◌≡◌, refl, sym, ap, ◌∙◌, false, ◌&&◌, List, [], ◌∷◌, ◌++◌,
  Option, none, some, if◌then◌else◌, ok, length, get_elem?, All, ◌==◌, arith, ==_iff, some_eq,
  Bool-cases, inl, inr,
}
use mathlib.Core.List.{append-nil}
use mathlib.Core.Path.{subst}
use rustevm.Base.Results.{ok_eq, >>=-eq-ok}
use rustevm.Macros.Syntax.{RustType}
use rustevm.Macros.Layout.{
  Flavor, Field, named, Accessor, guards, is_bool, plain_accessors, mapping_accessors,
  mapping_generics, accessors_for, field_accessors, fields_from, expand_layout,
}

-- The accessors at a slot, in order.
unfoldable pub at_slot : ℕ → List Accessor → List Accessor
at_slot slot [] = []
at_slot slot (a ∷ accessors) =
    let rest = at_slot slot accessors in if a.slot == slot then a ∷ rest else rest

at_slot-append :
    (slot : ℕ) (xs ys : List Accessor)
    → at_slot slot (xs ++ ys) ≡ at_slot slot xs ++ at_slot slot ys
unfolding at_slot
at_slot-append slot [] ys = refl
at_slot-append slot (a ∷ xs) ys = elim (Bool-cases (a.slot == slot)) [
  | inl own ↦ rw (own, at_slot-append slot xs ys)
  | inr other ↦ rw (other, at_slot-append slot xs ys)
]

abbrev Own : ℕ → List Accessor → Type 0
Own slot accessors = All (λ a. a.slot ≡ slot) accessors

at_slot-Own : (slot : ℕ) (xs : List Accessor) → Own slot xs → at_slot slot xs ≡ xs
unfolding at_slot
at_slot-Own slot [] h = refl
at_slot-Own slot (a ∷ xs) (h, hs) = rw ((==_iff a.slot slot).1 h, at_slot-Own slot xs hs)

at_slot_other :
    (slot other : ℕ) (xs : List Accessor) → Own other xs → other ≢ slot → at_slot slot xs ≡ []
unfolding at_slot
at_slot_other slot other [] h differ = refl
at_slot_other slot other (a ∷ xs) (h, hs) differ =
    let passed : (a.slot == slot) ≡ false = ground arith in
    rw passed (at_slot_other slot other xs hs differ)

plain-Own :
    (flavor : Flavor) (slot : ℕ) (field : Field) → Own slot (plain_accessors flavor slot field)
unfolding plain_accessors
plain-Own flavor slot field = elim (Bool-cases (guards flavor && is_bool field.ty)) [
  | inl flag ↦ rw flag (refl, (refl, (refl, tt)))
  | inr plain ↦ rw plain (refl, (refl, tt))
]

mapping-Own :
    (slot : ℕ) (field : Field) (k v : RustType) (inner : Option (RustType × RustType))
    → Own slot (mapping_accessors slot field k v inner)
unfolding mapping_accessors
mapping-Own slot field k v none = (refl, (refl, tt))
mapping-Own slot field k v (some (k2, v2)) = (refl, (refl, tt))

accessors_for-Own :
    (flavor : Flavor) (slot : ℕ) (field : Field) (generics : Option (RustType × RustType))
    {own : List Accessor}
    → accessors_for flavor slot field generics ≡ ok own
    → Own slot own
unfolding accessors_for
accessors_for-Own flavor slot field none h =
    subst (Own slot) (ok_eq h) (plain-Own flavor slot field)
accessors_for-Own flavor slot field (some (k, v)) h =
    let (inner, _, made) = >>=-eq-ok (mapping_generics v) _ h in
    subst (Own slot) (ok_eq made) (mapping-Own slot field k v inner)

field_accessors-Own :
    (flavor : Flavor) (slot : ℕ) (field : Field) {own : List Accessor}
    → field_accessors flavor slot field ≡ ok own
    → Own slot own
unfolding field_accessors
field_accessors-Own flavor slot field h =
    let (generics, _, made) = >>=-eq-ok (mapping_generics field.ty) _ h in
    accessors_for-Own flavor slot field generics made

-- No accessor of later fields is at an earlier slot.
fields_from_later :
    (flavor : Flavor) (i : ℕ) (fields : List Field) {accessors : List Accessor} (slot : ℕ)
    → fields_from flavor i fields ≡ ok accessors
    → slot < i
    → at_slot slot accessors ≡ []
unfolding fields_from
fields_from_later flavor i [] slot h early =
    subst (λ xs. at_slot slot xs ≡ []) (ok_eq h) (unfold at_slot in refl)
fields_from_later flavor i (field ∷ fields) slot h early =
    let (own, mine, rest) = >>=-eq-ok (field_accessors flavor i field) _ h in
    let (others, theirs, made) = >>=-eq-ok (fields_from flavor (i + 1) fields) _ rest in
    subst (λ xs. at_slot slot xs ≡ []) (ok_eq made)
      (rw
        (
          at_slot-append slot own others,
          at_slot_other slot i own (field_accessors-Own flavor i field mine)
              (λ e. absurd (omega arith)),
        )
        (fields_from_later flavor (i + 1) fields slot theirs (omega arith)))

-- The accessors at a slot are those of the field that is that many places after `start`.
field_at :
    (flavor : Flavor) (start slot : ℕ) (fields : List Field) {accessors : List Accessor} (k : ℕ)
    (field : Field)
    → fields_from flavor start fields ≡ ok accessors
    → get_elem? fields k ≡ some field
    → slot ≡ start + k
    → field_accessors flavor slot field ≡ ok (at_slot slot accessors)
unfolding fields_from
field_at flavor start slot [] k field h found e = cc
field_at flavor start slot (first ∷ fields) zero field h found e =
    let (own, mine, rest) = >>=-eq-ok (field_accessors flavor start first) _ h in
    let (others, theirs, made) = >>=-eq-ok (fields_from flavor (start + 1) fields) _ rest in
    let here : slot ≡ start = omega arith in
    let mine_here : Own slot own =
      subst (λ n. Own n own) (sym here) (field_accessors-Own flavor start first mine) in
    let split : at_slot slot (own ++ others) ≡ own =
      rw
        (
          at_slot-append slot own others,
          at_slot-Own slot own mine_here,
          fields_from_later flavor (start + 1) fields slot theirs (omega arith),
        )
        (append-nil own) in
    rw (here, ← some_eq found)
      (mine
        ∙ ap ok (
            sym (subst (λ n. at_slot n (own ++ others) ≡ own) here split)
            ∙ ap (at_slot start) (ok_eq made)))
field_at flavor start slot (first ∷ fields) (suc k) field h found e =
    let (own, mine, rest) = >>=-eq-ok (field_accessors flavor start first) _ h in
    let (others, theirs, made) = >>=-eq-ok (fields_from flavor (start + 1) fields) _ rest in
    let tail = field_at flavor (start + 1) slot fields k field theirs found (omega arith) in
    let split : at_slot slot (own ++ others) ≡ at_slot slot others = rw (
      at_slot-append slot own others,
      at_slot_other slot start own (field_accessors-Own flavor start first mine)
          (λ e'. absurd (omega arith)),
    ) in
    tail ∙ ap ok (sym split ∙ ap (at_slot slot) (ok_eq made))

beyond :
    (flavor : Flavor) (start slot : ℕ) (fields : List Field) {accessors : List Accessor}
    → fields_from flavor start fields ≡ ok accessors
    → start + length fields ≤ slot
    → at_slot slot accessors ≡ []
unfolding fields_from
beyond flavor start slot [] h far =
    subst (λ xs. at_slot slot xs ≡ []) (ok_eq h) (unfold at_slot in refl)
beyond flavor start slot (first ∷ fields) h far =
    let (own, mine, rest) = >>=-eq-ok (field_accessors flavor start first) _ h in
    let (others, theirs, made) = >>=-eq-ok (fields_from flavor (start + 1) fields) _ rest in
    subst (λ xs. at_slot slot xs ≡ []) (ok_eq made)
      (rw
        (
          at_slot-append slot own others,
          at_slot_other slot start own (field_accessors-Own flavor start first mine)
              (λ e. absurd (omega arith)),
        )
        (beyond flavor (start + 1) slot fields theirs (omega arith)))

-- In an expanded layout, the accessors that use the slot of number `i` are those of the field at
-- place `i` of the struct and no others, and no accessor uses a slot past the last field's.
pub expand_layout-at_slot :
    (flavor : Flavor) (fields : List Field) (accessors : List Accessor) (i past : ℕ) (field : Field)
    → expand_layout flavor (named fields) ≡ ok accessors
    → get_elem? fields i ≡ some field
    → length fields ≤ past
    → (field_accessors flavor i field ≡ ok (at_slot i accessors)) × (at_slot past accessors ≡ [])
unfolding expand_layout
expand_layout-at_slot flavor fields accessors i past field h found far = (
  field_at flavor 0 i fields i field h found (omega arith),
  beyond flavor 0 past fields h (omega arith),
)
