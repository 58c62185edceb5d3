-- ===== src/Std/Machine.antt =====
-- The machine that src/target/std-evm runs on, behind the bindings of src/target/evm-sys: their
-- bodies are the code generator's, so the machine is a parameter with the documented behaviour of
-- its instructions.
use rustevm.Base.{ℕ, ◌≡◌, List, ◌++◌, if◌then◌else◌}
use rustevm.Isa.{str_eq}
use rustevm.Abi.Word.{Word, U256}

pub record Machine : Type 1 where
  pub State : Type 0
  pub sload : State → U256 → U256
  pub sstore : State → U256 → U256 → State
  pub tload : State → U256 → U256
  pub tstore : State → U256 → U256 → State
  pub mstore : State → ℕ → U256 → State
  pub keccak256 : State → ℕ → ℕ → U256

-- The instructions: two stores of words that nothing else changes, and a hash of two words of the
-- memory.
pub record IsLawful (M : Machine) (hash : List ℕ → Word) : Type 0 where
  pub sload-sstore :
      (s : M.State) (k v j : U256)
      → M.sload (M.sstore s k v) j ≡ (if str_eq k j then v else M.sload s j)
  pub tload-tstore :
      (s : M.State) (k v j : U256)
      → M.tload (M.tstore s k v) j ≡ (if str_eq k j then v else M.tload s j)
  pub sload-tstore : (s : M.State) (k v j : U256) → M.sload (M.tstore s k v) j ≡ M.sload s j
  pub tload-sstore : (s : M.State) (k v j : U256) → M.tload (M.sstore s k v) j ≡ M.tload s j
  pub sload-mstore : (s : M.State) (o : ℕ) (w j : U256) → M.sload (M.mstore s o w) j ≡ M.sload s j
  pub tload-mstore : (s : M.State) (o : ℕ) (w j : U256) → M.tload (M.mstore s o w) j ≡ M.tload s j
  pub keccak256-mstore :
      (s : M.State) (a b : U256) → M.keccak256 (M.mstore (M.mstore s 0 a) 32 b) 0 64 ≡ hash (a ++ b)
