-- ===== src/Testkit/Harness/Deploys.antt =====
-- Transactions of src/tooling/evm-testkit/src/harness.rs.
use rustevm.Base.{
  ℕ, ◌≡◌, refl, ap, ◌∙◌, Bool, true, false, Option, none, some, List, ◌++◌, length, ok,
}
use rustevm.Testkit.Outcome.{
  Attempt, panic, absent, present, ExecutionResult, Outcome, called, created, reverted, halted, new,
}
use rustevm.Testkit.Link.{assemble_prologue}
use rustevm.Testkit.Link.Converges.{deployer-assemble_prologue}
use rustevm.Testkit.Trace.{Trace}
use rustevm.Testkit.Harness.{
  Revm, Testkit, TxEnv, SpecId, spec_id, Answer, outcome_of, transact, with_tracing, deploy,
  deploy_runtime,
}

module _ (R : Revm) where
  -- Deploying a runtime code never panics in the assembler: it runs as initcode the code behind a
  -- prologue, the one that is assembled for this code and for an offset that is its own length.
  pub deploy_runtime-deploy :
      (tk : Testkit R) (runtime : List ℕ)
      → (prologue : List ℕ) × (deploy_runtime R tk runtime ≡ deploy R tk (prologue ++ runtime))
        × (assemble_prologue (length runtime) (length prologue) tk.fork ≡ some (ok prologue))
  unfolding deploy_runtime
  deploy_runtime-deploy tk runtime =
      let (prologue, assembled, own_length) = deployer-assemble_prologue 0 runtime tk.fork in
      (prologue, rw assembled refl, own_length)

  -- An inspector that lets all calls through changes neither the result nor the database.
  abbrev pub IsTransparent : Type 0
  IsTransparent =
      (spec : SpecId) (db : R.Db) (tx : TxEnv)
      → ((R.inspect_tx_commit spec db tx).0 ≡ (R.transact_commit spec db tx).0)
        × ((R.inspect_tx_commit spec db tx).1 ≡ (R.transact_commit spec db tx).1)

  untraced : Outcome R.Halt R.Log ℕ Trace → Outcome R.Halt R.Log ℕ Trace
  untraced o = record o { trace = none }

  -- The outcome less its trace, and the database.
  pub observed : Answer R → Attempt (Outcome R.Halt R.Log ℕ Trace × R.Db)
  unfolding untraced
  observed panic = panic
  observed absent = absent
  observed (present (o, tk)) = present (untraced o, tk.db)

  untraced-new :
      (result : ExecutionResult R.Halt R.Log ℕ) (trace : Option Trace)
      → untraced (new result trace) ≡ untraced (new result none)
  unfolding untraced new
  untraced-new (called gas logs out) trace = refl
  untraced-new (created gas logs out at) trace = refl
  untraced-new (reverted gas logs out) trace = refl
  untraced-new (halted gas logs reason) trace = refl

  observed-outcome_of :
      (result : Option (ExecutionResult R.Halt R.Log ℕ)) (trace : Option Trace)
      (tk other : Testkit R)
      → tk.db ≡ other.db
      → observed (outcome_of R result trace tk) ≡ observed (outcome_of R result none other)
  unfolding observed
  observed-outcome_of none trace tk other h = refl
  observed-outcome_of (some result) trace tk other h = rw (untraced-new result trace, h) refl

  traced : Bool → Testkit R → Testkit R
  traced b tk = record tk { tracing = b }

  transact-traced :
      (transparent : IsTransparent) (tk : Testkit R) (tx : TxEnv)
      → observed (transact R (traced true tk) tx) ≡ observed (transact R (traced false tk) tx)
  unfolding transact traced
  transact-traced transparent tk tx =
      let (same_result, same_db) = transparent (spec_id tk.fork) tk.db tx in
      observed-outcome_of (R.inspect_tx_commit (spec_id tk.fork) tk.db tx).0 _ _
        (record (traced false tk) { db = (R.transact_commit (spec_id tk.fork) tk.db tx).1 }) same_db
      ∙ ap
          (λ r. observed (
            outcome_of R r none
              (record (traced false tk) { db = (R.transact_commit (spec_id tk.fork) tk.db tx).1 })))
          same_result

  traced_either :
      (b : Bool) (tk : Testkit R) (tx : TxEnv)
      → observed (transact R (traced true tk) tx) ≡ observed (transact R (traced false tk) tx)
      → observed (transact R (traced true tk) tx) ≡ observed (transact R (traced b tk) tx)
  traced_either true tk tx h = refl
  traced_either false tk tx h = h

  -- If an inspector that lets all calls through changes nothing, then tracing changes nothing but the
  -- trace: a transaction panics or not, and has the outcome and the database, that it has without.
  pub transact-with_tracing :
      (transparent : IsTransparent) (tk : Testkit R) (tx : TxEnv)
      → observed (transact R (with_tracing R tk) tx) ≡ observed (transact R tk tx)
  unfolding with_tracing traced
  transact-with_tracing transparent tk tx =
      traced_either tk.tracing tk tx (transact-traced transparent tk tx)
