-- ===== src/Testkit/Link.antt =====
-- Initcode around runtime code: src/tooling/evm-testkit/src/link.rs.
--
-- `none` is a panic of the assembler, or the end of the fuel of the loop.
pub mod Prologue
pub mod Converges
use rustevm.Base.{
  ℕ, zero, suc, Bool, true, false, Option, none, some, ◌>>=◌, List, ◌++◌, ◌==◌, length, Result, ok,
  err,
}
use rustevm.Isa.{Fork, bytes}
use rustevm.Asm.Immediate.{from_int}
use rustevm.Asm.Assembler.{AsmError, Asm, new, push, dup, op, finish}

unfoldable pub assemble_prologue : ℕ → ℕ → Fork → Option (Result AsmError (List ℕ))
assemble_prologue len offset fork = do
  a1 ← push (new fork) (from_int 8 len)
  a2 ← dup a1 1
  a3 ← push a2 (from_int 8 offset)
  a4 ← push a3 (from_int 1 0)
  a5 ← push (op a4 (bytes "CODECOPY")) (from_int 1 0)
  finish (op a5 (bytes "RETURN"))

-- The loop to a fixpoint of the prologue's length.
unfoldable pub deployer_from : ℕ → List ℕ → Fork → ℕ → Option (Result AsmError (List ℕ))
deployer_from zero runtime fork offset = none
deployer_from (suc fuel) runtime fork offset = do
  assembled ← assemble_prologue (length runtime) offset fork
  elim assembled [
    | err e ↦ some (err e)
    | ok prologue ↦ elim (length prologue == offset) [
      | true ↦ some (ok (prologue ++ runtime))
      | false ↦ deployer_from fuel runtime fork (length prologue)
    ]
  ]

unfoldable pub deployer : ℕ → List ℕ → Fork → Option (Result AsmError (List ℕ))
unfolding deployer_from
deployer fuel runtime fork = deployer_from fuel runtime fork 0
