-- ===== src/Abi/Tuple/Layout.antt =====
-- Where `encode_tuple` of src/target/std-evm-abi/src/codec.rs puts each component.
use rustevm.Base.{
  ℕ, ◌+◌, ◌≡◌, refl, sym, ap, ◌∙◌, List, [], ◌∷◌, ◌++◌, length, length-append, arith,
}
use mathlib.Core.List.{append_assoc, append-nil}
use mathlib.Core.Path.{subst}
use rustevm.Abi.Codec.{word_from_usize}
use rustevm.Abi.Codec.Reads.{length-word_from_usize}
use rustevm.Abi.Codec.Stands.{Stands}
use rustevm.Abi.Tuple.{
  Component, static, dynamic, head_length, head_size, encode_from, encode_tuple,
}

-- The head with `placed` bytes of the tail before it, and the tail.
unfoldable pub heads : ℕ → ℕ → List Component → List ℕ
heads size placed [] = []
heads size placed (static b ∷ cs) = b ++ heads size placed cs
heads size placed (dynamic b ∷ cs) =
    word_from_usize (size + placed) ++ heads size (placed + length b) cs

unfoldable pub tails : List Component → List ℕ
tails [] = []
tails (static b ∷ cs) = tails cs
tails (dynamic b ∷ cs) = b ++ tails cs

pub encode_from_lem :
    (size : ℕ) (head tail : List ℕ) (cs : List Component)
    → encode_from size head tail cs ≡ (head ++ heads size (length tail) cs) ++ (tail ++ tails cs)
unfolding encode_from heads tails
encode_from_lem size head tail [] = rw (append-nil head, append-nil tail)
encode_from_lem size head tail (static b ∷ cs) =
    rw (encode_from_lem size (head ++ b) tail cs, append_assoc head b (heads size (length tail) cs))
encode_from_lem size head tail (dynamic b ∷ cs) =
    let word = word_from_usize (size + length tail) in
    rw (
      encode_from_lem size (head ++ word) (tail ++ b) cs,
      length-append tail b,
      append_assoc head word (heads size (length tail + length b) cs),
      append_assoc tail b (tails cs),
    )

pub length-heads :
    (size placed : ℕ) (cs : List Component) → length (heads size placed cs) ≡ head_size cs
unfolding heads head_size head_length
length-heads size placed [] = refl
length-heads size placed (static b ∷ cs) =
    omega (arith, length-append b (heads size placed cs), length-heads size placed cs)
length-heads size placed (dynamic b ∷ cs) = omega (
  arith,
  length-append (word_from_usize (size + placed)) (heads size (placed + length b) cs),
  length-word_from_usize (size + placed),
  length-heads size (placed + length b) cs,
)

-- Where a component with its head slot at `offset` stands: a static one in the slot, a dynamic one
-- where the slot points.
abbrev pub Placed : List ℕ → ℕ → Component → Type 0
Placed input offset (static b) = Stands input offset b
Placed input offset (dynamic b) =
    (ptr : ℕ) × Stands input offset (word_from_usize ptr) × Stands input ptr b

abbrev pub AllPlaced : List ℕ → ℕ → List Component → Type 0
AllPlaced input offset [] = Unit {0}
AllPlaced input offset (c ∷ cs) =
    Placed input offset c × AllPlaced input (offset + head_length c) cs

-- The invariant of the loop: `size` is where the tail starts.
AllPlaced-from :
    (input head tail rest : List ℕ) (size : ℕ) (cs : List Component)
    → input ≡ ((head ++ heads size (length tail) cs) ++ (tail ++ tails cs)) ++ rest
    → size ≡ length (head ++ heads size (length tail) cs)
    → AllPlaced input (length head) cs
unfolding heads tails head_length
AllPlaced-from input head tail rest size [] split at = tt
AllPlaced-from input head tail rest size (static b ∷ cs) split at =
    let following = heads size (length tail) cs in
    let moved : (head ++ b) ++ following ≡ head ++ (b ++ following) =
      append_assoc head b following in
    (
      record {
        before = head;
        after = following ++ ((tail ++ tails cs) ++ rest);
        split = split ∙ simp (append_assoc);
        starts = refl;
      },
      subst (λ k. AllPlaced input k cs) (length-append head b)
          (AllPlaced-from input (head ++ b) tail rest size cs (split ∙ simp (append_assoc))
            (at ∙ ap length (sym moved))),
    )
AllPlaced-from input head tail rest size (dynamic b ∷ cs) split at =
    let word = word_from_usize (size + length tail) in
    let following = heads size (length tail + length b) cs in
    let sized = length-word_from_usize (size + length tail) in
    (
      (
        size + length tail,
        record {
          before = head;
          after = following ++ ((tail ++ (b ++ tails cs)) ++ rest);
          split = split ∙ simp (append_assoc);
          starts = refl;
        },
        record {
          before = (head ++ (word ++ following)) ++ tail;
          after = tails cs ++ rest;
          split = split ∙ simp (append_assoc);
          starts =
              length-append (head ++ (word ++ following)) tail ∙ ap (λ k. k + length tail) (sym at);
        },
      ),
      subst (λ k. AllPlaced input k cs) (omega (arith, length-append head word, sized))
          (AllPlaced-from input (head ++ word) (tail ++ b) rest size cs
            (split ∙ simp (append_assoc, length-append)) (at ∙ simp (append_assoc, length-append))),
    )

pub encode_tuple-AllPlaced :
    (cs : List Component) (rest : List ℕ) → AllPlaced (encode_tuple cs ++ rest) 0 cs
unfolding encode_tuple
encode_tuple-AllPlaced cs rest =
    AllPlaced-from (encode_tuple cs ++ rest) [] [] rest (head_size cs) cs
      (ap (λ bs. bs ++ rest) (encode_from_lem (head_size cs) [] [] cs))
      (sym (length-heads (head_size cs) 0 cs))
