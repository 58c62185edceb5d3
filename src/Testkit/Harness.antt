-- ===== src/Testkit/Harness.antt =====
-- The harness: src/tooling/evm-testkit/src/harness.rs and fork.rs.
--
-- The virtual machine and its database are `revm`'s, a parameter. An address is its 160-bit number,
-- a `U256` too. A method that takes `&mut self` gives the harness back.
pub mod Accounts
pub mod Deploys
mod Examples
use rustevm.Base.{
  ℕ, zero, suc, ◌-◌, ◌^◌, Bool, true, false, Option, none, some, List, [], ◌∷◌, Result, ok, err,
  if◌then◌else◌,
}
use rustevm.Isa.{Fork}
use rustevm.Asm.Assembler.{AsmError, Asm, finish}
use rustevm.Testkit.Outcome.{Attempt, panic, absent, present, ExecutionResult, Outcome, new, ◌>>=◌}
use rustevm.Testkit.Link.{deployer}
use rustevm.Testkit.Trace.{Trace, Event, default, handle_all}
use rustevm.Testkit.Trace

-- The variants of `revm`'s `SpecId` that `spec_id` names.
pub data SpecId : Type 0 where
  frontier homestead byzantium petersburg istanbul berlin london shanghai cancun prague : SpecId

unfoldable pub spec_id : Fork → SpecId
spec_id Fork.frontier = SpecId.frontier
spec_id Fork.homestead = SpecId.homestead
spec_id Fork.byzantium = SpecId.byzantium
spec_id Fork.constantinople = SpecId.petersburg
spec_id Fork.istanbul = SpecId.istanbul
spec_id Fork.berlin = SpecId.berlin
spec_id Fork.london = SpecId.london
spec_id Fork.shanghai = SpecId.shanghai
spec_id Fork.cancun = SpecId.cancun
spec_id Fork.prague = SpecId.prague

-- The fields of `revm`'s `AccountInfo`.
pub record AccountInfo (Hash Bytecode : Type 0) : Type 0 where
  pub balance : ℕ
  pub nonce : ℕ
  pub code_hash : Hash
  pub code : Option Bytecode

-- `TxKind`.
pub data TxKind : Type 0 where
  call_to : ℕ → TxKind
  create : TxKind

-- The fields of a `TxEnv` that are set; `build_fill` fills in the others.
pub record TxEnv : Type 0 where
  pub caller : ℕ
  pub kind : TxKind
  pub data_bytes : List ℕ
  pub gas_limit : ℕ
  pub gas_price : ℕ

-- What the harness calls of `revm`. The two ways to run a transaction take the spec, and answer the
-- result, none for a transaction that validation rejects, and the database after the commit. The
-- inspected one has the callbacks made too.
pub record Revm : Type 1 where
  pub Db : Type 0
  pub Hash : Type 0
  pub Bytecode : Type 0
  pub Halt : Type 0
  pub Log : Type 0
  pub empty_db : Db
  pub empty_account : AccountInfo Hash Bytecode
  pub basic : Db → ℕ → Option (AccountInfo Hash Bytecode)
  pub insert_account_info : Db → ℕ → AccountInfo Hash Bytecode → Db
  pub storage : Db → ℕ → ℕ → ℕ
  pub insert_account_storage : Db → ℕ → ℕ → ℕ → Db
  pub new_legacy : List ℕ → Bytecode
  pub original_bytes : Bytecode → List ℕ
  pub hash_slow : Bytecode → Hash
  pub transact_commit : SpecId → Db → TxEnv → Option (ExecutionResult Halt Log ℕ) × Db
  pub inspect_tx_commit :
      SpecId → Db → TxEnv → Option (ExecutionResult Halt Log ℕ) × Db × List Event

abbrev pub default_gas_limit : ℕ
default_gas_limit = 30000000

abbrev pub contract_address : ℕ
contract_address = 0xc0de0

abbrev pub caller_address : ℕ
caller_address = 0xca11

-- The loop of `deployer` has no bound in the code.
abbrev pub deployer_fuel : ℕ
deployer_fuel = 3

module _ (R : Revm) where
  pub record Testkit : Type 0 where
    pub fork : Fork
    pub db : R.Db
    pub caller : ℕ
    pub gas_limit : ℕ
    pub tracing : Bool

  abbrev pub Answer : Type 0
  Answer = Attempt (Outcome R.Halt R.Log ℕ Trace × Testkit)

  -- `unwrap_or_default`, on an account.
  abbrev pub account_or_default :
      Option (AccountInfo R.Hash R.Bytecode) → AccountInfo R.Hash R.Bytecode
  account_or_default none = R.empty_account
  account_or_default (some info) = info

  -- The bytes of a code, none without a code.
  abbrev pub bytes_of_code : Option R.Bytecode → List ℕ
  bytes_of_code none = []
  bytes_of_code (some bytecode) = R.original_bytes bytecode

  unfoldable pub account : Testkit → ℕ → AccountInfo R.Hash R.Bytecode
  account tk at = account_or_default (R.basic tk.db at)

  unfoldable pub update_account :
      Testkit → ℕ → (AccountInfo R.Hash R.Bytecode → AccountInfo R.Hash R.Bytecode) → Testkit
  unfolding account
  update_account tk at f = record tk { db = R.insert_account_info tk.db at (f (account tk at)) }

  unfoldable pub storage_at : Testkit → ℕ → ℕ → ℕ
  storage_at tk at slot = R.storage tk.db at slot

  unfoldable pub balance : Testkit → ℕ → ℕ
  unfolding account
  balance tk of = (account tk of).balance

  unfoldable pub code : Testkit → ℕ → List ℕ
  unfolding account
  code tk at = bytes_of_code (account tk at).code

  unfoldable pub set_storage : Testkit → ℕ → ℕ → ℕ → Testkit
  set_storage tk at slot value = record tk { db = R.insert_account_storage tk.db at slot value }

  unfoldable pub set_balance : Testkit → ℕ → ℕ → Testkit
  unfolding update_account
  set_balance tk of amount = update_account tk of (λ info. record info { balance = amount })

  unfoldable pub set_code : Testkit → ℕ → List ℕ → Testkit
  unfolding update_account
  set_code tk at bs =
      let bytecode = R.new_legacy bs in
      update_account tk at
        (λ info. record info { code_hash = R.hash_slow bytecode; code = some bytecode })

  unfoldable pub new_testkit : Fork → Testkit
  unfolding set_balance
  new_testkit fork =
      set_balance
        (record {
          fork = fork;
          db = R.empty_db;
          caller = caller_address;
          gas_limit = default_gas_limit;
          tracing = false;
        })
        caller_address (2 ^ 256 - 1)

  unfoldable pub with_tracing : Testkit → Testkit
  with_tracing tk = record tk { tracing = true }

  unfoldable pub with_gas_limit : Testkit → ℕ → Testkit
  with_gas_limit tk limit = record tk { gas_limit = limit }

  unfoldable pub with_caller : Testkit → ℕ → Testkit
  with_caller tk caller = record tk { caller = caller }

  -- `result.unwrap_or_else(|e| panic!(…))`, and the outcome.
  abbrev pub outcome_of : Option (ExecutionResult R.Halt R.Log ℕ) → Option Trace → Testkit → Answer
  outcome_of none trace tk = panic
  outcome_of (some result) trace tk = present (new result trace, tk)

  unfoldable pub transact : Testkit → TxEnv → Answer
  unfolding spec_id
  transact tk tx =
      if tk.tracing
      then (let (result, db, events) = R.inspect_tx_commit (spec_id tk.fork) tk.db tx in
          outcome_of result (some (Trace.finish (handle_all default events)))
            (record tk { db = db }))
      else (let (result, db) = R.transact_commit (spec_id tk.fork) tk.db tx in
          outcome_of result none (record tk { db = db }))

  unfoldable pub call : Testkit → ℕ → List ℕ → Answer
  unfolding transact
  call tk to calldata = transact tk (record {
    caller = tk.caller;
    kind = call_to to;
    data_bytes = calldata;
    gas_limit = tk.gas_limit;
    gas_price = 0;
  })

  unfoldable pub deploy : Testkit → List ℕ → Answer
  unfolding transact
  deploy tk initcode = transact tk (record {
    caller = tk.caller;
    kind = create;
    data_bytes = initcode;
    gas_limit = tk.gas_limit;
    gas_price = 0;
  })

  unfoldable pub run_with : Testkit → List ℕ → List ℕ → Answer
  unfolding set_code call
  run_with tk bs calldata = call (set_code tk contract_address bs) contract_address calldata

  unfoldable pub run : Testkit → List ℕ → Answer
  unfolding run_with
  run tk bs = run_with tk bs []

  -- `asm.finish().unwrap_or_else(|e| panic!(…))`. The assembler may itself panic.
  abbrev pub assembled_or_panic : Option (Result AsmError (List ℕ)) → Attempt (List ℕ)
  assembled_or_panic none = panic
  assembled_or_panic (some (err e)) = panic
  assembled_or_panic (some (ok bs)) = present bs

  unfoldable pub run_asm : Testkit → Asm → Answer
  unfolding run
  run_asm tk asm = do bs ← assembled_or_panic (finish asm); run tk bs

  unfoldable pub deploy_runtime : Testkit → List ℕ → Answer
  unfolding deploy
  deploy_runtime tk runtime = do
    initcode ← assembled_or_panic (deployer deployer_fuel runtime tk.fork)
    deploy tk initcode
