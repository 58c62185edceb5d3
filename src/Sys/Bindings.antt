-- ===== src/Sys/Bindings.antt =====
-- The bindings of src/target/evm-sys/src/opcode, but for those of stack.rs, one definition for each
-- file.
use rustevm.Base.{true, false, List, [], ◌∷◌}
use rustevm.Isa.{bytes}
use rustevm.Sys.Binding.{Binding, word, u32, nothing, never, gives, binding}

-- account.rs
unfoldable pub opcodes_of_account : List Binding
unfolding binding
opcodes_of_account =
    binding (bytes "BALANCE") (bytes "balance") false (word ∷ []) (gives word)
    ∷ binding (bytes "EXTCODESIZE") (bytes "extcodesize") false (word ∷ []) (gives word)
    ∷ binding (bytes "EXTCODECOPY") (bytes "extcodecopy") true (word ∷ u32 ∷ u32 ∷ u32 ∷ []) nothing
    ∷ binding (bytes "EXTCODEHASH") (bytes "extcodehash") false (word ∷ []) (gives word)
    ∷ binding (bytes "CODESIZE") (bytes "codesize") false [] (gives word)
    ∷ binding (bytes "CODECOPY") (bytes "codecopy") true (u32 ∷ u32 ∷ u32 ∷ []) nothing
    ∷ binding (bytes "SELFDESTRUCT") (bytes "selfdestruct") true (word ∷ []) never
    ∷ []

-- arithmetic.rs
unfoldable pub opcodes_of_arithmetic : List Binding
unfolding binding
opcodes_of_arithmetic =
    binding (bytes "ADD") (bytes "add") false (word ∷ word ∷ []) (gives word)
    ∷ binding (bytes "MUL") (bytes "mul") false (word ∷ word ∷ []) (gives word)
    ∷ binding (bytes "SUB") (bytes "sub") false (word ∷ word ∷ []) (gives word)
    ∷ binding (bytes "DIV") (bytes "div") false (word ∷ word ∷ []) (gives word)
    ∷ binding (bytes "SDIV") (bytes "sdiv") false (word ∷ word ∷ []) (gives word)
    ∷ binding (bytes "MOD") (bytes "mod_") false (word ∷ word ∷ []) (gives word)
    ∷ binding (bytes "SMOD") (bytes "smod") false (word ∷ word ∷ []) (gives word)
    ∷ binding (bytes "ADDMOD") (bytes "addmod") false (word ∷ word ∷ word ∷ []) (gives word)
    ∷ binding (bytes "MULMOD") (bytes "mulmod") false (word ∷ word ∷ word ∷ []) (gives word)
    ∷ binding (bytes "EXP") (bytes "exp") false (word ∷ word ∷ []) (gives word)
    ∷ binding (bytes "SIGNEXTEND") (bytes "signextend") false (word ∷ word ∷ []) (gives word)
    ∷ []

-- bitwise.rs
unfoldable pub opcodes_of_bitwise : List Binding
unfolding binding
opcodes_of_bitwise =
    binding (bytes "LT") (bytes "lt") false (word ∷ word ∷ []) (gives word)
    ∷ binding (bytes "GT") (bytes "gt") false (word ∷ word ∷ []) (gives word)
    ∷ binding (bytes "SLT") (bytes "slt") false (word ∷ word ∷ []) (gives word)
    ∷ binding (bytes "SGT") (bytes "sgt") false (word ∷ word ∷ []) (gives word)
    ∷ binding (bytes "EQ") (bytes "eq") false (word ∷ word ∷ []) (gives word)
    ∷ binding (bytes "ISZERO") (bytes "iszero") false (word ∷ []) (gives word)
    ∷ binding (bytes "AND") (bytes "and") false (word ∷ word ∷ []) (gives word)
    ∷ binding (bytes "OR") (bytes "or") false (word ∷ word ∷ []) (gives word)
    ∷ binding (bytes "XOR") (bytes "xor") false (word ∷ word ∷ []) (gives word)
    ∷ binding (bytes "NOT") (bytes "not") false (word ∷ []) (gives word)
    ∷ binding (bytes "BYTE") (bytes "byte") false (word ∷ word ∷ []) (gives word)
    ∷ binding (bytes "SHL") (bytes "shl") false (word ∷ word ∷ []) (gives word)
    ∷ binding (bytes "SHR") (bytes "shr") false (word ∷ word ∷ []) (gives word)
    ∷ binding (bytes "SAR") (bytes "sar") false (word ∷ word ∷ []) (gives word)
    ∷ []

-- block.rs
unfoldable pub opcodes_of_block : List Binding
unfolding binding
opcodes_of_block =
    binding (bytes "BLOCKHASH") (bytes "blockhash") true (word ∷ []) (gives word)
    ∷ binding (bytes "COINBASE") (bytes "coinbase") true [] (gives word)
    ∷ binding (bytes "TIMESTAMP") (bytes "timestamp") true [] (gives word)
    ∷ binding (bytes "NUMBER") (bytes "number") true [] (gives word)
    ∷ binding (bytes "PREVRANDAO") (bytes "prevrandao") true [] (gives word)
    ∷ binding (bytes "GASLIMIT") (bytes "gaslimit") true [] (gives word)
    ∷ binding (bytes "CHAINID") (bytes "chainid") true [] (gives word)
    ∷ binding (bytes "BASEFEE") (bytes "basefee") true [] (gives word)
    ∷ binding (bytes "BLOBHASH") (bytes "blobhash") true (word ∷ []) (gives word)
    ∷ binding (bytes "BLOBBASEFEE") (bytes "blobbasefee") true [] (gives word)
    ∷ []

-- call.rs
unfoldable pub opcodes_of_call : List Binding
unfolding binding
opcodes_of_call =
    binding (bytes "CALL") (bytes "call") true (word ∷ word ∷ word ∷ u32 ∷ u32 ∷ u32 ∷ u32 ∷ [])
      (gives u32)
    ∷ binding (bytes "STATICCALL") (bytes "staticcall") true
        (word ∷ word ∷ u32 ∷ u32 ∷ u32 ∷ u32 ∷ []) (gives u32)
    ∷ binding (bytes "DELEGATECALL") (bytes "delegatecall") true
        (word ∷ word ∷ u32 ∷ u32 ∷ u32 ∷ u32 ∷ []) (gives u32)
    ∷ binding (bytes "CALLCODE") (bytes "callcode") true
        (word ∷ word ∷ word ∷ u32 ∷ u32 ∷ u32 ∷ u32 ∷ []) (gives u32)
    ∷ binding (bytes "CREATE") (bytes "create") true (word ∷ u32 ∷ u32 ∷ []) (gives word)
    ∷ binding (bytes "CREATE2") (bytes "create2") true (word ∷ u32 ∷ u32 ∷ word ∷ []) (gives word)
    ∷ []

-- calldata.rs
unfoldable pub opcodes_of_calldata : List Binding
unfolding binding
opcodes_of_calldata =
    binding (bytes "CALLDATALOAD") (bytes "calldataload") true (word ∷ []) (gives word)
    ∷ binding (bytes "CALLDATASIZE") (bytes "calldatasize") true [] (gives word)
    ∷ binding (bytes "CALLDATACOPY") (bytes "calldatacopy") true (u32 ∷ u32 ∷ u32 ∷ []) nothing
    ∷ binding (bytes "RETURNDATASIZE") (bytes "returndatasize") true [] (gives word)
    ∷ binding (bytes "RETURNDATACOPY") (bytes "returndatacopy") true (u32 ∷ u32 ∷ u32 ∷ []) nothing
    ∷ []

-- context.rs
unfoldable pub opcodes_of_context : List Binding
unfolding binding
opcodes_of_context =
    binding (bytes "ADDRESS") (bytes "address") false [] (gives word)
    ∷ binding (bytes "CALLER") (bytes "caller") false [] (gives word)
    ∷ binding (bytes "CALLVALUE") (bytes "callvalue") false [] (gives word)
    ∷ binding (bytes "ORIGIN") (bytes "origin") false [] (gives word)
    ∷ binding (bytes "GAS") (bytes "gas") false [] (gives word)
    ∷ binding (bytes "GASPRICE") (bytes "gasprice") false [] (gives word)
    ∷ binding (bytes "SELFBALANCE") (bytes "selfbalance") false [] (gives word)
    ∷ []

-- control.rs
unfoldable pub opcodes_of_control : List Binding
unfolding binding
opcodes_of_control =
    binding (bytes "RETURN") (bytes "ret") true (u32 ∷ u32 ∷ []) never
    ∷ binding (bytes "REVERT") (bytes "revert") true (u32 ∷ u32 ∷ []) never
    ∷ binding (bytes "STOP") (bytes "stop") true [] never
    ∷ binding (bytes "INVALID") (bytes "invalid") true [] never
    ∷ binding (bytes "PC") (bytes "pc") true [] (gives word)
    ∷ binding (bytes "JUMP") (bytes "jump") true (word ∷ []) nothing
    ∷ binding (bytes "JUMPI") (bytes "jumpi") true (word ∷ word ∷ []) nothing
    ∷ binding (bytes "JUMPDEST") (bytes "jumpdest") false [] nothing
    ∷ binding (bytes "POP") (bytes "pop") false (word ∷ []) nothing
    ∷ []

-- hash.rs
unfoldable pub opcodes_of_hash : List Binding
unfolding binding
opcodes_of_hash =
    binding (bytes "KECCAK256") (bytes "keccak256") true (u32 ∷ u32 ∷ []) (gives word) ∷ []

-- log.rs
unfoldable pub opcodes_of_log : List Binding
unfolding binding
opcodes_of_log =
    binding (bytes "LOG0") (bytes "log0") true (u32 ∷ u32 ∷ []) nothing
    ∷ binding (bytes "LOG1") (bytes "log1") true (u32 ∷ u32 ∷ word ∷ []) nothing
    ∷ binding (bytes "LOG2") (bytes "log2") true (u32 ∷ u32 ∷ word ∷ word ∷ []) nothing
    ∷ binding (bytes "LOG3") (bytes "log3") true (u32 ∷ u32 ∷ word ∷ word ∷ word ∷ []) nothing
    ∷ binding (bytes "LOG4") (bytes "log4") true (u32 ∷ u32 ∷ word ∷ word ∷ word ∷ word ∷ [])
        nothing
    ∷ []

-- memory.rs
unfoldable pub opcodes_of_memory : List Binding
unfolding binding
opcodes_of_memory =
    binding (bytes "MLOAD") (bytes "mload") true (u32 ∷ []) (gives word)
    ∷ binding (bytes "MSTORE") (bytes "mstore") true (u32 ∷ word ∷ []) nothing
    ∷ binding (bytes "MSTORE8") (bytes "mstore8") true (u32 ∷ word ∷ []) nothing
    ∷ binding (bytes "MCOPY") (bytes "mcopy") true (u32 ∷ u32 ∷ u32 ∷ []) nothing
    ∷ binding (bytes "MSIZE") (bytes "msize") true [] (gives word)
    ∷ []

-- storage.rs
unfoldable pub opcodes_of_storage : List Binding
unfolding binding
opcodes_of_storage =
    binding (bytes "SLOAD") (bytes "sload") true (word ∷ []) (gives word)
    ∷ binding (bytes "SSTORE") (bytes "sstore") true (word ∷ word ∷ []) nothing
    ∷ binding (bytes "TLOAD") (bytes "tload") true (word ∷ []) (gives word)
    ∷ binding (bytes "TSTORE") (bytes "tstore") true (word ∷ word ∷ []) nothing
    ∷ []
