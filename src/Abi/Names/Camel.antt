-- ===== src/Abi/Names/Camel.antt =====
-- What `camel_case` of src/target/std-evm-abi/src/types.rs returns.
use rustevm.Base.{
  ℕ, zero, suc, take, drop, ◌≡◌, refl, true, false, not, List, [], ◌∷◌, ◌++◌, ◌==◌, all, All,
  Bool-cases, inl, inr, arith,
}
use mathlib.Core.List.{append-nil}
use mathlib.Core.Bool.{and-eq-true_iff}
use rustevm.Isa.{Str}
use rustevm.Abi.Names.{
  underscore, char_size, split, cons_to_first, nonempty, capitalised, capitalised_all, join,
  camel_case, Plain,
}

Plain-append : (a b : Str) → Plain a → Plain b → Plain (a ++ b)
Plain-append [] b h k = k
Plain-append (c ∷ a) b h k =
    let (first, rest) = (and-eq-true_iff _ _).0 h in
    (and-eq-true_iff _ _).1 (first, Plain-append a b rest k)

take-Plain : (n : ℕ) (cs : Str) → Plain cs → Plain (take n cs)
take-Plain zero cs h = refl
take-Plain (suc n) [] h = refl
take-Plain (suc n) (c ∷ cs) h =
    let (first, rest) = (and-eq-true_iff _ _).0 h in
    (and-eq-true_iff _ _).1 (first, take-Plain n cs rest)

drop-Plain : (n : ℕ) (cs : Str) → Plain cs → Plain (drop n cs)
drop-Plain zero cs h = h
drop-Plain (suc n) [] h = refl
drop-Plain (suc n) (c ∷ cs) h = drop-Plain n cs ((and-eq-true_iff _ _).0 h).1

cons_to_first-Plain :
    (c : ℕ) (segments : List Str)
    → not (c == underscore) ≡ true
    → All Plain segments
    → All Plain (cons_to_first c segments)
unfolding cons_to_first
cons_to_first-Plain c [] h hs = ((and-eq-true_iff _ _).1 (h, refl), tt)
cons_to_first-Plain c (segment ∷ segments) h (k, ks) = ((and-eq-true_iff _ _).1 (h, k), ks)

split-Plain : (cs : Str) → All Plain (split underscore cs)
unfolding split
split-Plain [] = (refl, tt)
split-Plain (c ∷ cs) = elim (Bool-cases (c == underscore)) [
  | inl here ↦ rw here (refl, split-Plain cs)
  | inr other ↦
      let kept : not (c == underscore) ≡ true = rw other in
      rw other (cons_to_first-Plain c (split underscore cs) kept (split-Plain cs))
]

nonempty-Plain : (segments : List Str) → All Plain segments → All Plain (nonempty segments)
unfolding nonempty
nonempty-Plain [] h = tt
nonempty-Plain ([] ∷ segments) (h, hs) = nonempty-Plain segments hs
nonempty-Plain ((c ∷ cs) ∷ segments) (h, hs) = (h, nonempty-Plain segments hs)

module _ (upper : Str → Str) (upper-Plain : (c : Str) → Plain c → Plain (upper c)) where
  capitalised-Plain : (segment : Str) → Plain segment → Plain (capitalised upper segment)
  unfolding capitalised
  capitalised-Plain [] h = refl
  capitalised-Plain (c ∷ cs) h =
      let size = char_size c in
      Plain-append (upper (take size (c ∷ cs))) (drop size (c ∷ cs))
        (upper-Plain (take size (c ∷ cs)) (take-Plain size (c ∷ cs) h)) (drop-Plain size (c ∷ cs) h)

  capitalised_all-Plain :
      (segments : List Str) → All Plain segments → Plain (capitalised_all upper segments)
  unfolding capitalised_all
  capitalised_all-Plain [] h = refl
  capitalised_all-Plain (segment ∷ segments) (h, hs) =
      Plain-append (capitalised upper segment) (capitalised_all upper segments)
        (capitalised-Plain segment h) (capitalised_all-Plain segments hs)

  join-Plain : (segments : List Str) → All Plain segments → Plain (join upper segments)
  unfolding join
  join-Plain [] h = refl
  join-Plain (segment ∷ segments) (h, hs) =
      Plain-append segment (capitalised_all upper segments) h (capitalised_all-Plain segments hs)

  camel_case_segments : (ident : Str) → Plain (camel_case upper ident)
  unfolding camel_case
  camel_case_segments ident =
      join-Plain (nonempty (split underscore ident))
        (nonempty-Plain (split underscore ident) (split-Plain ident))

split-Plain_one : (cs : Str) → Plain cs → split underscore cs ≡ cs ∷ []
unfolding split cons_to_first
split-Plain_one [] h = refl
split-Plain_one (c ∷ cs) h =
    let (first, rest) =
      (and-eq-true_iff (not (c == underscore)) (all (λ b. not (b == underscore)) cs)).0 h in
    let other : (c == underscore) ≡ false = ground arith in rw (other, split-Plain_one cs rest)

join_one : (upper : Str → Str) (cs : Str) → join upper (nonempty (cs ∷ [])) ≡ cs
unfolding join nonempty capitalised_all
join_one upper [] = refl
join_one upper (c ∷ cs) = append-nil (c ∷ cs)

camel_case_fixed-Plain : (upper : Str → Str) (cs : Str) → Plain cs → camel_case upper cs ≡ cs
unfolding camel_case
camel_case_fixed-Plain upper cs h = rw (split-Plain_one cs h) (join_one upper cs)

-- For an `upper` that makes no underscore of a character that is none: the camel-case name of any
-- identifier has no underscore, and it is its own camel-case name.
pub camel_case-Plain :
    (upper : Str → Str) (ident : Str)
    → ((c : Str) → Plain c → Plain (upper c))
    → Plain (camel_case upper ident)
      × (camel_case upper (camel_case upper ident) ≡ camel_case upper ident)
camel_case-Plain upper ident upper-Plain =
    let plain = camel_case_segments upper upper-Plain ident in
    (plain, camel_case_fixed-Plain upper (camel_case upper ident) plain)
