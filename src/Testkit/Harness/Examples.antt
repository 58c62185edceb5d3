-- ===== src/Testkit/Harness/Examples.antt =====
-- A machine that runs nothing, for the model of src/tooling/evm-testkit/src/harness.rs.
use rustevm.Base.{
  ℕ, ◌≡◌, refl, Bool, true, Option, none, some, List, [], ◌∷◌, ◌==◌, ==_iff, if◌then◌else◌,
}
use rustevm.Isa.{cancun}
use rustevm.Testkit.Outcome.{ExecutionResult, called}
use rustevm.Testkit.Harness.{
  Revm, AccountInfo, Testkit, TxEnv, call_to, balance, code, storage_at, set_code, new_testkit,
}
use rustevm.Testkit.Harness.Accounts.{IsLawful, set_code-reads}

record Database : Type 0 where
  infos : ℕ → Option (AccountInfo ℕ (List ℕ))
  slots : ℕ → ℕ → ℕ

abbrev accepted : Option (ExecutionResult Bool Bool ℕ)
accepted = some (called 21000 [] [])

abbrev idle : Revm
idle = record {
  Db = Database;
  Hash = ℕ;
  Bytecode = List ℕ;
  Halt = Bool;
  Log = Bool;
  empty_db = record { infos = λ at. none; slots = λ at slot. 0 };
  empty_account = record { balance = 0; nonce = 0; code_hash = 0; code = none };
  basic = λ db at. db.infos at;
  insert_account_info =
      λ db at info. record db { infos = λ a. if at == a then some info else db.infos a };
  storage = λ db at slot. db.slots at slot;
  insert_account_storage = λ db at slot value. record db {
    slots = λ a s. if at == a then (if slot == s then value else db.slots a s) else db.slots a s;
  };
  new_legacy = λ bs. bs;
  original_bytes = λ code. code;
  hash_slow = λ code. 1;
  transact_commit = λ spec db tx. (accepted, db);
  inspect_tx_commit = λ spec db tx. (accepted, db, []);
}

same_place : {A : Type 0} (at : ℕ) (a b : A) → (if at == at then a else b) ≡ a
same_place at a b = let same : (at == at) ≡ true = (==_iff at at).1 refl in rw same refl

idle-IsLawful : IsLawful idle
idle-IsLawful = record {
  basic-insert_same = λ db at info. (info, same_place at (some info) (db.infos at), refl, refl);
  basic-insert_other = λ db at other info ne. rw ne refl;
  storage-insert_account_info = λ db at info of slot. refl;
  original_bytes-new_legacy = λ bs. refl;
}

abbrev fresh : Testkit idle
fresh = new_testkit idle cancun

set_code-reads_example :
    (code idle (set_code idle fresh 5 (0xfe ∷ [])) 5
      ≡ (if 5 == 5 then 0xfe ∷ [] else code idle fresh 5))
    × (balance idle (set_code idle fresh 5 (0xfe ∷ [])) 5 ≡ balance idle fresh 5)
    × (storage_at idle (set_code idle fresh 5 (0xfe ∷ [])) 5 0 ≡ storage_at idle fresh 5 0)
set_code-reads_example = set_code-reads idle idle-IsLawful fresh 5 (0xfe ∷ []) 5 0

abbrev tx : TxEnv
tx = record { caller = 1; kind = call_to 5; data_bytes = []; gas_limit = 100000; gas_price = 0 }
