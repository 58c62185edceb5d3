-- ===== src/Abi/Revert.antt =====
-- Revert payloads: src/target/std-evm-abi/src/revert.rs.
use rustevm.Base.{ℕ, List, [], ◌∷◌, ◌++◌}
use rustevm.Abi.Word.{U256}
use rustevm.Abi.Tuple.{encode_tuple}
use rustevm.Abi.Value.{to_component, string, u256}

abbrev pub error_selector : List ℕ
error_selector = 0x08 ∷ 0xc3 ∷ 0x79 ∷ 0xa0 ∷ []

abbrev pub panic_selector : List ℕ
panic_selector = 0x4e ∷ 0x48 ∷ 0x7b ∷ 0x71 ∷ []

unfoldable pub encode_error : List ℕ → List ℕ
encode_error reason = error_selector ++ encode_tuple (to_component string reason ∷ [])

unfoldable pub encode_panic : U256 → List ℕ
encode_panic code = panic_selector ++ encode_tuple (to_component u256 code ∷ [])
