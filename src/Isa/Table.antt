-- ===== src/Isa/Table.antt =====
-- The canonical opcode table: src/shared/evm-isa/src/table.rs, one definition for each section.
use rustevm.Base.{ℕ, ◌+◌, Bool, true, false, List, [], ◌∷◌, ◌++◌}
use rustevm.Isa.Spec.{
  Str, bytes, OpSpec, OpCategory, arithmetic, comparison, bitwise, storage, memory, context, block,
  control, stack_manip, call, log, terminating,
}
use rustevm.Isa.Spec.{
  Fork, frontier, homestead, byzantium, constantinople, istanbul, london, shanghai, cancun,
  GasClass, zero, fixed, cold_warm, per_word, per_byte_of_exponent, storage_write, memory_expansion,
  complex, all,
}

op : Str → ℕ → ℕ → ℕ → Bool → GasClass → OpCategory → Fork → OpSpec
op mnemonic byte stack_in stack_out is_terminating gas category min_fork = record {
  mnemonic = mnemonic;
  byte = byte;
  stack_in = stack_in;
  stack_out = stack_out;
  is_terminating = is_terminating;
  gas = gas;
  category = category;
  min_fork = min_fork;
}

push_spec : Str → ℕ → OpSpec
unfolding op
push_spec mnemonic n = op mnemonic (0x5f + n) 0 1 false (fixed 3) stack_manip frontier

dup_spec : Str → ℕ → OpSpec
unfolding op
dup_spec mnemonic n = op mnemonic (0x7f + n) n (n + 1) false (fixed 3) stack_manip frontier

swap_spec : Str → ℕ → OpSpec
unfolding op
swap_spec mnemonic n = op mnemonic (0x8f + n) (n + 1) (n + 1) false (fixed 3) stack_manip frontier

stop_arithmetic : List OpSpec
stop_arithmetic =
    op (bytes "STOP") 0x00 0 0 true zero terminating frontier
    ∷ op (bytes "ADD") 0x01 2 1 false (fixed 3) arithmetic frontier
    ∷ op (bytes "MUL") 0x02 2 1 false (fixed 5) arithmetic frontier
    ∷ op (bytes "SUB") 0x03 2 1 false (fixed 3) arithmetic frontier
    ∷ op (bytes "DIV") 0x04 2 1 false (fixed 5) arithmetic frontier
    ∷ op (bytes "SDIV") 0x05 2 1 false (fixed 5) arithmetic frontier
    ∷ op (bytes "MOD") 0x06 2 1 false (fixed 5) arithmetic frontier
    ∷ op (bytes "SMOD") 0x07 2 1 false (fixed 5) arithmetic frontier
    ∷ op (bytes "ADDMOD") 0x08 3 1 false (fixed 8) arithmetic frontier
    ∷ op (bytes "MULMOD") 0x09 3 1 false (fixed 8) arithmetic frontier
    ∷ op (bytes "EXP") 0x0a 2 1 false (per_byte_of_exponent 50) arithmetic frontier
    ∷ op (bytes "SIGNEXTEND") 0x0b 2 1 false (fixed 5) arithmetic frontier
    ∷ []

comparison_bitwise : List OpSpec
comparison_bitwise =
    op (bytes "LT") 0x10 2 1 false (fixed 3) comparison frontier
    ∷ op (bytes "GT") 0x11 2 1 false (fixed 3) comparison frontier
    ∷ op (bytes "SLT") 0x12 2 1 false (fixed 3) comparison frontier
    ∷ op (bytes "SGT") 0x13 2 1 false (fixed 3) comparison frontier
    ∷ op (bytes "EQ") 0x14 2 1 false (fixed 3) comparison frontier
    ∷ op (bytes "ISZERO") 0x15 1 1 false (fixed 3) comparison frontier
    ∷ op (bytes "AND") 0x16 2 1 false (fixed 3) bitwise frontier
    ∷ op (bytes "OR") 0x17 2 1 false (fixed 3) bitwise frontier
    ∷ op (bytes "XOR") 0x18 2 1 false (fixed 3) bitwise frontier
    ∷ op (bytes "NOT") 0x19 1 1 false (fixed 3) bitwise frontier
    ∷ op (bytes "BYTE") 0x1a 2 1 false (fixed 3) bitwise frontier
    ∷ op (bytes "SHL") 0x1b 2 1 false (fixed 3) bitwise constantinople
    ∷ op (bytes "SHR") 0x1c 2 1 false (fixed 3) bitwise constantinople
    ∷ op (bytes "SAR") 0x1d 2 1 false (fixed 3) bitwise constantinople
    ∷ []

hashing : List OpSpec
hashing = op (bytes "KECCAK256") 0x20 2 1 false (per_word 6) memory frontier ∷ []

environmental : List OpSpec
environmental =
    op (bytes "ADDRESS") 0x30 0 1 false (fixed 2) context frontier
    ∷ op (bytes "BALANCE") 0x31 1 1 false (cold_warm 2600 100) context frontier
    ∷ op (bytes "ORIGIN") 0x32 0 1 false (fixed 2) context frontier
    ∷ op (bytes "CALLER") 0x33 0 1 false (fixed 2) context frontier
    ∷ op (bytes "CALLVALUE") 0x34 0 1 false (fixed 2) context frontier
    ∷ op (bytes "CALLDATALOAD") 0x35 1 1 false (fixed 3) context frontier
    ∷ op (bytes "CALLDATASIZE") 0x36 0 1 false (fixed 2) context frontier
    ∷ op (bytes "CALLDATACOPY") 0x37 3 0 false (per_word 3) context frontier
    ∷ op (bytes "CODESIZE") 0x38 0 1 false (fixed 2) context frontier
    ∷ op (bytes "CODECOPY") 0x39 3 0 false (per_word 3) context frontier
    ∷ op (bytes "GASPRICE") 0x3a 0 1 false (fixed 2) context frontier
    ∷ op (bytes "EXTCODESIZE") 0x3b 1 1 false (cold_warm 2600 100) context frontier
    ∷ op (bytes "EXTCODECOPY") 0x3c 4 0 false complex context frontier
    ∷ op (bytes "RETURNDATASIZE") 0x3d 0 1 false (fixed 2) context byzantium
    ∷ op (bytes "RETURNDATACOPY") 0x3e 3 0 false (per_word 3) context byzantium
    ∷ op (bytes "EXTCODEHASH") 0x3f 1 1 false (cold_warm 2600 100) context constantinople
    ∷ []

block_information : List OpSpec
block_information =
    op (bytes "BLOCKHASH") 0x40 1 1 false (fixed 20) block frontier
    ∷ op (bytes "COINBASE") 0x41 0 1 false (fixed 2) block frontier
    ∷ op (bytes "TIMESTAMP") 0x42 0 1 false (fixed 2) block frontier
    ∷ op (bytes "NUMBER") 0x43 0 1 false (fixed 2) block frontier
    ∷ op (bytes "PREVRANDAO") 0x44 0 1 false (fixed 2) block frontier
    ∷ op (bytes "GASLIMIT") 0x45 0 1 false (fixed 2) block frontier
    ∷ op (bytes "CHAINID") 0x46 0 1 false (fixed 2) block istanbul
    ∷ op (bytes "SELFBALANCE") 0x47 0 1 false (fixed 5) context istanbul
    ∷ op (bytes "BASEFEE") 0x48 0 1 false (fixed 2) block london
    ∷ op (bytes "BLOBHASH") 0x49 1 1 false (fixed 3) block cancun
    ∷ op (bytes "BLOBBASEFEE") 0x4a 0 1 false (fixed 2) block cancun
    ∷ []

stack_memory : List OpSpec
stack_memory =
    op (bytes "POP") 0x50 1 0 false (fixed 2) stack_manip frontier
    ∷ op (bytes "MLOAD") 0x51 1 1 false memory_expansion memory frontier
    ∷ op (bytes "MSTORE") 0x52 2 0 false memory_expansion memory frontier
    ∷ op (bytes "MSTORE8") 0x53 2 0 false memory_expansion memory frontier
    ∷ op (bytes "SLOAD") 0x54 1 1 false (cold_warm 2100 100) storage frontier
    ∷ op (bytes "SSTORE") 0x55 2 0 false storage_write storage frontier
    ∷ op (bytes "JUMP") 0x56 1 0 false (fixed 8) control frontier
    ∷ op (bytes "JUMPI") 0x57 2 0 false (fixed 10) control frontier
    ∷ op (bytes "PC") 0x58 0 1 false (fixed 2) control frontier
    ∷ op (bytes "MSIZE") 0x59 0 1 false (fixed 2) memory frontier
    ∷ op (bytes "GAS") 0x5a 0 1 false (fixed 2) context frontier
    ∷ op (bytes "JUMPDEST") 0x5b 0 0 false (fixed 1) control frontier
    ∷ op (bytes "TLOAD") 0x5c 1 1 false (fixed 100) storage cancun
    ∷ op (bytes "TSTORE") 0x5d 2 0 false (fixed 100) storage cancun
    ∷ op (bytes "MCOPY") 0x5e 3 0 false (per_word 3) memory cancun
    ∷ op (bytes "PUSH0") 0x5f 0 1 false (fixed 2) stack_manip shanghai
    ∷ []

push_rows : List OpSpec
push_rows =
    push_spec (bytes "PUSH1") 1
    ∷ push_spec (bytes "PUSH2") 2
    ∷ push_spec (bytes "PUSH3") 3
    ∷ push_spec (bytes "PUSH4") 4
    ∷ push_spec (bytes "PUSH5") 5
    ∷ push_spec (bytes "PUSH6") 6
    ∷ push_spec (bytes "PUSH7") 7
    ∷ push_spec (bytes "PUSH8") 8
    ∷ push_spec (bytes "PUSH9") 9
    ∷ push_spec (bytes "PUSH10") 10
    ∷ push_spec (bytes "PUSH11") 11
    ∷ push_spec (bytes "PUSH12") 12
    ∷ push_spec (bytes "PUSH13") 13
    ∷ push_spec (bytes "PUSH14") 14
    ∷ push_spec (bytes "PUSH15") 15
    ∷ push_spec (bytes "PUSH16") 16
    ∷ push_spec (bytes "PUSH17") 17
    ∷ push_spec (bytes "PUSH18") 18
    ∷ push_spec (bytes "PUSH19") 19
    ∷ push_spec (bytes "PUSH20") 20
    ∷ push_spec (bytes "PUSH21") 21
    ∷ push_spec (bytes "PUSH22") 22
    ∷ push_spec (bytes "PUSH23") 23
    ∷ push_spec (bytes "PUSH24") 24
    ∷ push_spec (bytes "PUSH25") 25
    ∷ push_spec (bytes "PUSH26") 26
    ∷ push_spec (bytes "PUSH27") 27
    ∷ push_spec (bytes "PUSH28") 28
    ∷ push_spec (bytes "PUSH29") 29
    ∷ push_spec (bytes "PUSH30") 30
    ∷ push_spec (bytes "PUSH31") 31
    ∷ push_spec (bytes "PUSH32") 32
    ∷ []

dup_rows : List OpSpec
dup_rows =
    dup_spec (bytes "DUP1") 1
    ∷ dup_spec (bytes "DUP2") 2
    ∷ dup_spec (bytes "DUP3") 3
    ∷ dup_spec (bytes "DUP4") 4
    ∷ dup_spec (bytes "DUP5") 5
    ∷ dup_spec (bytes "DUP6") 6
    ∷ dup_spec (bytes "DUP7") 7
    ∷ dup_spec (bytes "DUP8") 8
    ∷ dup_spec (bytes "DUP9") 9
    ∷ dup_spec (bytes "DUP10") 10
    ∷ dup_spec (bytes "DUP11") 11
    ∷ dup_spec (bytes "DUP12") 12
    ∷ dup_spec (bytes "DUP13") 13
    ∷ dup_spec (bytes "DUP14") 14
    ∷ dup_spec (bytes "DUP15") 15
    ∷ dup_spec (bytes "DUP16") 16
    ∷ []

swap_rows : List OpSpec
swap_rows =
    swap_spec (bytes "SWAP1") 1
    ∷ swap_spec (bytes "SWAP2") 2
    ∷ swap_spec (bytes "SWAP3") 3
    ∷ swap_spec (bytes "SWAP4") 4
    ∷ swap_spec (bytes "SWAP5") 5
    ∷ swap_spec (bytes "SWAP6") 6
    ∷ swap_spec (bytes "SWAP7") 7
    ∷ swap_spec (bytes "SWAP8") 8
    ∷ swap_spec (bytes "SWAP9") 9
    ∷ swap_spec (bytes "SWAP10") 10
    ∷ swap_spec (bytes "SWAP11") 11
    ∷ swap_spec (bytes "SWAP12") 12
    ∷ swap_spec (bytes "SWAP13") 13
    ∷ swap_spec (bytes "SWAP14") 14
    ∷ swap_spec (bytes "SWAP15") 15
    ∷ swap_spec (bytes "SWAP16") 16
    ∷ []

log_rows : List OpSpec
log_rows =
    op (bytes "LOG0") 0xa0 2 0 false complex log frontier
    ∷ op (bytes "LOG1") 0xa1 3 0 false complex log frontier
    ∷ op (bytes "LOG2") 0xa2 4 0 false complex log frontier
    ∷ op (bytes "LOG3") 0xa3 5 0 false complex log frontier
    ∷ op (bytes "LOG4") 0xa4 6 0 false complex log frontier
    ∷ []

system_rows : List OpSpec
system_rows =
    op (bytes "CREATE") 0xf0 3 1 false complex call frontier
    ∷ op (bytes "CALL") 0xf1 7 1 false complex call frontier
    ∷ op (bytes "CALLCODE") 0xf2 7 1 false complex call frontier
    ∷ op (bytes "RETURN") 0xf3 2 0 true zero terminating frontier
    ∷ op (bytes "DELEGATECALL") 0xf4 6 1 false complex call homestead
    ∷ op (bytes "CREATE2") 0xf5 4 1 false complex call constantinople
    ∷ op (bytes "STATICCALL") 0xfa 6 1 false complex call byzantium
    ∷ op (bytes "REVERT") 0xfd 2 0 true zero terminating byzantium
    ∷ op (bytes "INVALID") 0xfe 0 0 true all terminating frontier
    ∷ op (bytes "SELFDESTRUCT") 0xff 1 0 true complex terminating frontier
    ∷ []

unfoldable pub opcodes : List OpSpec
unfolding op push_spec dup_spec swap_spec stop_arithmetic comparison_bitwise hashing environmental
    block_information stack_memory push_rows dup_rows swap_rows log_rows system_rows
opcodes =
    stop_arithmetic
    ++ (comparison_bitwise
        ++ (hashing
            ++ (environmental
                ++ (block_information
                    ++ (stack_memory
                        ++ (push_rows
                            ++ (dup_rows ++ (swap_rows ++ (log_rows ++ system_rows)))))))))
