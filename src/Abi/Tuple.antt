-- ===== src/Abi/Tuple.antt =====
-- The head and tail layout of a tuple: `Component` and `encode_tuple` of
-- src/target/std-evm-abi/src/codec.rs.
pub mod Layout
use rustevm.Base.{ℕ, ◌+◌, List, [], ◌∷◌, ◌++◌, length}
use rustevm.Abi.Codec.{word_from_usize}

pub data Component : Type 0 where
  static : List ℕ → Component
  dynamic : List ℕ → Component

-- What a component takes in the head.
unfoldable pub head_length : Component → ℕ
head_length (static b) = length b
head_length (dynamic b) = 32

-- `components.iter().map(..).sum()`
unfoldable pub head_size : List Component → ℕ
head_size [] = 0
head_size (c ∷ cs) = head_length c + head_size cs

-- The loop over the components, with `head` and `tail` so far.
unfoldable pub encode_from : ℕ → List ℕ → List ℕ → List Component → List ℕ
encode_from size head tail [] = head ++ tail
encode_from size head tail (static b ∷ cs) = encode_from size (head ++ b) tail cs
encode_from size head tail (dynamic b ∷ cs) =
    encode_from size (head ++ word_from_usize (size + length tail)) (tail ++ b) cs

unfoldable pub encode_tuple : List Component → List ℕ
unfolding encode_from
encode_tuple components = encode_from (head_size components) [] [] components
