-- ===== src/Lib.antt =====
-- Verification of the rustevm compiler backend and its opcode table.
--
-- The program compiles Rust contracts to EVM bytecode. Its parts, and the files that model them:
--
-- * The instruction set, src/shared/evm-isa/src: the opcode table, its two lookups, and the operand
--   form of an opcode. Isa/Spec.antt has the record `OpSpec` and its enums (category.rs, fork.rs,
--   gas.rs, spec.rs, op_form.rs), Isa/Table.antt the rows (table.rs), Isa/Lookup.antt `by_mnemonic`
--   and `by_byte` (lookup.rs). Everything else asks this part for opcodes.
-- * The assembler, src/backend/evm-codegen/src/asm.rs. Asm/Immediate.antt has the 32-byte immediate,
--   Asm/Assembler.antt the record `Asm` with one function for each method, and
--   Asm/Assembler/Run.antt the programs of calls on it. Asm/Assembler/Program/Asks.antt says which
--   instruction each call asks for, whatever the layout of the code.
-- * The disassembler, src/backend/evm-codegen/src/asm/disasm.rs, in Asm/Disasm.antt: `next` is the
--   iterator's step, `disassemble` runs it to its end, `jumpdests` keeps the jump targets.
--   Asm/Text.antt writes listings and errors, and Asm/Text/Reader.antt reads a listing.
-- * The intermediate representation, src/backend/evm-codegen/src/ir. Ir/Types.antt has the value
--   types and the width repair (types.rs), Ir/Effect.antt the effects (effect.rs), Ir/Inst.antt
--   operations and terminators (inst.rs), with the raw words of the operations in
--   Ir/Inst/Raw.antt, Ir/Func.antt the arenas of a function (func.rs, and the handles of entity.rs),
--   Ir/Builder.antt and Ir/Builder/Ins.antt the builder over them (builder.rs), Ir/Error.antt its
--   errors (ir.rs), Ir/Module.antt a module of functions (module.rs). Ir/Builder/Run.antt and
--   Ir/Module/Declared.antt have the programs of calls on the two. Ir/Text.antt has the text of types,
--   signatures, effects, handles and errors.
-- * The contract ABI, src/target/std-evm-abi. Abi/Word.antt has words (word.rs), Abi/Codec.antt the
--   readers and byte strings, Abi/Tuple.antt the head and tail layout, Abi/Value.antt the types with an
--   encoding (codec.rs, and address.rs of src/target/std-evm), Abi/Names.antt the Solidity names and
--   selectors (types.rs, selector.rs), Abi/Revert.antt the revert payloads (revert.rs).
-- * The contract library, src/target/std-evm. Std/Value.antt, Std/Slots.antt and Std/Lock.antt have
--   typed values in slots, mappings, and the guards (storage/value.rs, slot.rs, mapping.rs,
--   transient.rs); its dispatch (method.rs, dispatch.rs) is run in Macros/Contract/Dispatch.antt, and
--   called by a caller that encodes by the ABI in Macros/Contract/Called.antt, through the
--   implementation that Macros/Contract/Impls.antt finds. Std/Handles.antt has the
--   storage handles (storage/handle.rs), which the code around a method binds in
--   Macros/Contract/Handles.antt.
-- * The contract macros, src/target/std-evm-macros. Macros/Signature.antt has attributes and signatures
--   (attrs.rs, signature.rs), Macros/Params.antt the splitting of parameters and Macros/Contract.antt
--   the expansion of a contract (contract.rs), Macros/Layout.antt the slots of a struct (layout.rs),
--   Macros/Entry.antt the attributes' entry points (lib.rs). The signatures come from the ABI, and the
--   emitted code decodes and encodes by it.
-- * The bindings of the opcodes, src/target/evm-sys and src/target/evm-sys-macros: Sys/Bindings.antt
--   and Sys/Stack.antt have each binding as its signature, and Sys/Agreement.antt the whole list, which
--   stands beside the opcode table.
-- * The test kit, src/tooling/evm-testkit. Testkit/Outcome.antt has the result of a transaction
--   (outcome.rs), Testkit/Link.antt the initcode around a contract (link.rs), which is assembled by the
--   assembler above, Testkit/Trace.antt the tracer (trace.rs), Testkit/Harness.antt the harness that
--   plants, deploys and calls contracts (harness.rs, fork.rs), and Testkit/Text.antt the text of a trace
--   and of an outcome.
--
-- How the model stands to the code:
--
-- * A `&str` and a `&[u8]` are lists of bytes; a `usize` is a number of no fixed width; casts to
--   `u8`, `u16` and `u32` are written out as remainders, and an addition on a number of a fixed width
--   that overflows panics, as in a debug build. The label map of the assembler is an association list,
--   and a label is the index inside `Label`, a `u32`.
-- * A method that mutates `self` takes the state and returns it. Where the source can panic (an
--   `expect`, a slice index) the result is an `Option`, and `none` is the panic; a Rust `Result` is
--   `Result` of Base/Tests.antt.
-- * The disassembler's iterator runs on fuel, the number of bytes of the code. Each step takes a byte
--   at least, so that is enough.
-- * The handles of the intermediate representation are `u32` and an index inside a definition is
--   `u16`; both casts are written out. The builder's methods that differ only in the operation are
--   one function over a type of their names, and a call returns the builder and its result.
-- * Base.antt and its children have the shared names, lists, big-endian numbers, and the text of
--   numbers as `format!` writes it (Base/Format.antt).
-- * The hash Keccak-256 (the crate tiny_keccak) and `char::to_uppercase`, on the bytes of a `char`, are
--   arguments of what uses them. The compiler's resolution of names in emitted code is a pair of
--   arguments too: the type that a written type names, and the method that a path names. The syntax tree of the crate syn is a set of data types in Macros/Syntax.antt with what the
--   macros read of it, and the tokens that they emit are kept as what they say. The machine under the
--   storage library is a record of its instructions with their documented laws, in Std/Machine.antt.
--   What revm reports to the test kit is the type `ExecutionResult` of Testkit/Outcome.antt, the
--   callbacks that it makes are a list of `Event`s of Testkit/Trace.antt, and revm itself is the record
--   `Revm` of Testkit/Harness.antt, with the documented laws of its database in a child of that.
-- * The number of bytes of a `usize` is an argument `n` of the decoders; the host of the test kit has
--   eight. The loop of `deployer` runs on fuel, and three rounds of it are enough.
--
-- Not modelled: the rustc shim, which has no code generation yet, and the derived `Debug` of what no
-- message prints.
pub mod Base
pub mod Isa
pub mod Abi
pub mod Asm
pub mod Ir
pub mod Std
pub mod Sys
pub mod Macros
pub mod Testkit
