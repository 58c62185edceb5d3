-- ===== src/Sys/Stack.antt =====
-- The bindings of src/target/evm-sys/src/opcode/stack.rs.
use rustevm.Base.{false, List, [], ◌∷◌, replicate}
use rustevm.Isa.{bytes}
use rustevm.Sys.Binding.{Binding, word, u8, u16, u32, u64, u128, gives, binding}

-- PUSH0 to PUSH16
unfoldable pub push_bindings : List Binding
unfolding binding
push_bindings =
    binding (bytes "PUSH0") (bytes "push0") false [] (gives word)
    ∷ binding (bytes "PUSH1") (bytes "push1") false (u8 ∷ []) (gives word)
    ∷ binding (bytes "PUSH2") (bytes "push2") false (u16 ∷ []) (gives word)
    ∷ binding (bytes "PUSH3") (bytes "push3") false (u32 ∷ []) (gives word)
    ∷ binding (bytes "PUSH4") (bytes "push4") false (u32 ∷ []) (gives word)
    ∷ binding (bytes "PUSH5") (bytes "push5") false (u64 ∷ []) (gives word)
    ∷ binding (bytes "PUSH6") (bytes "push6") false (u64 ∷ []) (gives word)
    ∷ binding (bytes "PUSH7") (bytes "push7") false (u64 ∷ []) (gives word)
    ∷ binding (bytes "PUSH8") (bytes "push8") false (u64 ∷ []) (gives word)
    ∷ binding (bytes "PUSH9") (bytes "push9") false (u128 ∷ []) (gives word)
    ∷ binding (bytes "PUSH10") (bytes "push10") false (u128 ∷ []) (gives word)
    ∷ binding (bytes "PUSH11") (bytes "push11") false (u128 ∷ []) (gives word)
    ∷ binding (bytes "PUSH12") (bytes "push12") false (u128 ∷ []) (gives word)
    ∷ binding (bytes "PUSH13") (bytes "push13") false (u128 ∷ []) (gives word)
    ∷ binding (bytes "PUSH14") (bytes "push14") false (u128 ∷ []) (gives word)
    ∷ binding (bytes "PUSH15") (bytes "push15") false (u128 ∷ []) (gives word)
    ∷ binding (bytes "PUSH16") (bytes "push16") false (u128 ∷ []) (gives word)
    ∷ []

-- PUSH17 to PUSH32
unfoldable pub push_wide_bindings : List Binding
unfolding binding
push_wide_bindings =
    binding (bytes "PUSH17") (bytes "push17") false (word ∷ []) (gives word)
    ∷ binding (bytes "PUSH18") (bytes "push18") false (word ∷ []) (gives word)
    ∷ binding (bytes "PUSH19") (bytes "push19") false (word ∷ []) (gives word)
    ∷ binding (bytes "PUSH20") (bytes "push20") false (word ∷ []) (gives word)
    ∷ binding (bytes "PUSH21") (bytes "push21") false (word ∷ []) (gives word)
    ∷ binding (bytes "PUSH22") (bytes "push22") false (word ∷ []) (gives word)
    ∷ binding (bytes "PUSH23") (bytes "push23") false (word ∷ []) (gives word)
    ∷ binding (bytes "PUSH24") (bytes "push24") false (word ∷ []) (gives word)
    ∷ binding (bytes "PUSH25") (bytes "push25") false (word ∷ []) (gives word)
    ∷ binding (bytes "PUSH26") (bytes "push26") false (word ∷ []) (gives word)
    ∷ binding (bytes "PUSH27") (bytes "push27") false (word ∷ []) (gives word)
    ∷ binding (bytes "PUSH28") (bytes "push28") false (word ∷ []) (gives word)
    ∷ binding (bytes "PUSH29") (bytes "push29") false (word ∷ []) (gives word)
    ∷ binding (bytes "PUSH30") (bytes "push30") false (word ∷ []) (gives word)
    ∷ binding (bytes "PUSH31") (bytes "push31") false (word ∷ []) (gives word)
    ∷ binding (bytes "PUSH32") (bytes "push32") false (word ∷ []) (gives word)
    ∷ []

-- DUP1 to DUP14
unfoldable pub dup_bindings_low : List Binding
unfolding binding
dup_bindings_low =
    binding (bytes "DUP1") (bytes "dup1") false (word ∷ []) (gives word)
    ∷ binding (bytes "DUP2") (bytes "dup2") false (word ∷ word ∷ []) (gives word)
    ∷ binding (bytes "DUP3") (bytes "dup3") false (word ∷ word ∷ word ∷ []) (gives word)
    ∷ binding (bytes "DUP4") (bytes "dup4") false (word ∷ word ∷ word ∷ word ∷ []) (gives word)
    ∷ binding (bytes "DUP5") (bytes "dup5") false (word ∷ word ∷ word ∷ word ∷ word ∷ [])
        (gives word)
    ∷ binding (bytes "DUP6") (bytes "dup6") false (word ∷ word ∷ word ∷ word ∷ word ∷ word ∷ [])
        (gives word)
    ∷ binding (bytes "DUP7") (bytes "dup7") false
        (word ∷ word ∷ word ∷ word ∷ word ∷ word ∷ word ∷ []) (gives word)
    ∷ binding (bytes "DUP8") (bytes "dup8") false (replicate 8 word) (gives word)
    ∷ binding (bytes "DUP9") (bytes "dup9") false (replicate 9 word) (gives word)
    ∷ binding (bytes "DUP10") (bytes "dup10") false (replicate 10 word) (gives word)
    ∷ binding (bytes "DUP11") (bytes "dup11") false (replicate 11 word) (gives word)
    ∷ binding (bytes "DUP12") (bytes "dup12") false (replicate 12 word) (gives word)
    ∷ binding (bytes "DUP13") (bytes "dup13") false (replicate 13 word) (gives word)
    ∷ binding (bytes "DUP14") (bytes "dup14") false (replicate 14 word) (gives word)
    ∷ []

-- DUP15 to DUP16
unfoldable pub dup_bindings_high : List Binding
unfolding binding
dup_bindings_high =
    binding (bytes "DUP15") (bytes "dup15") false (replicate 15 word) (gives word)
    ∷ binding (bytes "DUP16") (bytes "dup16") false (replicate 16 word) (gives word)
    ∷ []

-- SWAP1 to SWAP13
unfoldable pub swap_bindings_low : List Binding
unfolding binding
swap_bindings_low =
    binding (bytes "SWAP1") (bytes "swap1") false (word ∷ word ∷ []) (gives word)
    ∷ binding (bytes "SWAP2") (bytes "swap2") false (word ∷ word ∷ word ∷ []) (gives word)
    ∷ binding (bytes "SWAP3") (bytes "swap3") false (word ∷ word ∷ word ∷ word ∷ []) (gives word)
    ∷ binding (bytes "SWAP4") (bytes "swap4") false (word ∷ word ∷ word ∷ word ∷ word ∷ [])
        (gives word)
    ∷ binding (bytes "SWAP5") (bytes "swap5") false (word ∷ word ∷ word ∷ word ∷ word ∷ word ∷ [])
        (gives word)
    ∷ binding (bytes "SWAP6") (bytes "swap6") false
        (word ∷ word ∷ word ∷ word ∷ word ∷ word ∷ word ∷ []) (gives word)
    ∷ binding (bytes "SWAP7") (bytes "swap7") false (replicate 8 word) (gives word)
    ∷ binding (bytes "SWAP8") (bytes "swap8") false (replicate 9 word) (gives word)
    ∷ binding (bytes "SWAP9") (bytes "swap9") false (replicate 10 word) (gives word)
    ∷ binding (bytes "SWAP10") (bytes "swap10") false (replicate 11 word) (gives word)
    ∷ binding (bytes "SWAP11") (bytes "swap11") false (replicate 12 word) (gives word)
    ∷ binding (bytes "SWAP12") (bytes "swap12") false (replicate 13 word) (gives word)
    ∷ binding (bytes "SWAP13") (bytes "swap13") false (replicate 14 word) (gives word)
    ∷ []

-- SWAP14 to SWAP16
unfoldable pub swap_bindings_high : List Binding
unfolding binding
swap_bindings_high =
    binding (bytes "SWAP14") (bytes "swap14") false (replicate 15 word) (gives word)
    ∷ binding (bytes "SWAP15") (bytes "swap15") false (replicate 16 word) (gives word)
    ∷ binding (bytes "SWAP16") (bytes "swap16") false (replicate 17 word) (gives word)
    ∷ []
