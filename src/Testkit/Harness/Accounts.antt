-- ===== src/Testkit/Harness/Accounts.antt =====
-- The accounts that `update_account` of src/tooling/evm-testkit/src/harness.rs writes.
use rustevm.Base.{
  ℕ, ◌≡◌, refl, ap, sym, ◌∙◌, false, Bool-cases, inl, inr, some, List, ◌==◌, ==_iff, if◌then◌else◌,
}
use rustevm.Testkit.Harness.{
  Revm, AccountInfo, Testkit, account_or_default, bytes_of_code, account, update_account, balance,
  code, storage_at, set_balance, set_code,
}

-- `revm`'s in-memory database: an account reads back as it was inserted, but for its hash, which
-- may be filled in, and another as before; and a plain bytecode keeps the bytes that it was made of.
-- What a read caches is not observed.
pub record IsLawful (R : Revm) : Type 0 where
  pub basic-insert_same :
      (db : R.Db) (at : ℕ) (info : AccountInfo R.Hash R.Bytecode)
      → (kept : AccountInfo R.Hash R.Bytecode) × (R.basic (R.insert_account_info db at info) at
          ≡ some kept)
        × (kept.balance ≡ info.balance)
        × (kept.code ≡ info.code)
  pub basic-insert_other :
      (db : R.Db) (at other : ℕ) (info : AccountInfo R.Hash R.Bytecode)
      → (at == other) ≡ false
      → R.basic (R.insert_account_info db at info) other ≡ R.basic db other
  pub storage-insert_account_info :
      (db : R.Db) (at : ℕ) (info : AccountInfo R.Hash R.Bytecode) (of slot : ℕ)
      → R.storage (R.insert_account_info db at info) of slot ≡ R.storage db of slot
  pub original_bytes-new_legacy : (bs : List ℕ) → R.original_bytes (R.new_legacy bs) ≡ bs

module _ (R : Revm) (lawful : IsLawful R) (tk : Testkit R) (at : ℕ) where
  module _ (f : AccountInfo R.Hash R.Bytecode → AccountInfo R.Hash R.Bytecode) where
    account-update_same :
        ((account R (update_account R tk at f) at).balance ≡ (f (account R tk at)).balance)
        × ((account R (update_account R tk at f) at).code ≡ (f (account R tk at)).code)
    unfolding account update_account
    account-update_same =
        let (kept, reads, same_balance, same_code) =
          lawful.basic-insert_same tk.db at (f (account R tk at)) in
        let found = ap (account_or_default R) reads in
        (ap (λ a. a.balance) found ∙ same_balance, ap (λ a. a.code) found ∙ same_code)

    account-update_other :
        (other : ℕ)
        → (at == other) ≡ false
        → account R (update_account R tk at f) other ≡ account R tk other
    unfolding account update_account
    account-update_other other ne =
        ap (account_or_default R)
          (lawful.basic-insert_other tk.db at other (f (account R tk at)) ne)

    -- What is read of an account, from what is read at the place of the update and elsewhere.
    read-update {ℓ} :
        {B : Type ℓ} (read : AccountInfo R.Hash R.Bytecode → B) (new_value : B) (other : ℕ)
        → read (account R (update_account R tk at f) at) ≡ new_value
        → read (account R (update_account R tk at f) other)
          ≡ (if at == other then new_value else read (account R tk other))
    read-update read new_value other reads = elim (Bool-cases (at == other)) [
      | inl same ↦ let eq : at ≡ other = (==_iff at other).0 same in rw (same, sym eq) reads
      | inr ne ↦ rw ne (ap read (account-update_other other ne))
    ]

  same_at : {B : Type 0} (g : ℕ → B) (other : ℕ) → (if at == other then g at else g other) ≡ g other
  same_at g other = elim (Bool-cases (at == other)) [
    | inl same ↦ let eq : at ≡ other = (==_iff at other).0 same in rw same (ap g eq)
    | inr ne ↦ rw ne refl
  ]

  -- On a lawful database, after `set_code` at one address: the code of every account is as before, but
  -- the new one at that address, and every balance and every slot of storage is as before.
  pub set_code-reads :
      (bs : List ℕ) (other slot : ℕ)
      → (code R (set_code R tk at bs) other ≡ (if at == other then bs else code R tk other))
        × (balance R (set_code R tk at bs) other ≡ balance R tk other)
        × (storage_at R (set_code R tk at bs) other slot ≡ storage_at R tk other slot)
  unfolding code set_code balance storage_at update_account
  set_code-reads bs other slot =
      let bytecode = R.new_legacy bs in
      let f : AccountInfo R.Hash R.Bytecode → AccountInfo R.Hash R.Bytecode =
        λ info. record info { code_hash = R.hash_slow bytecode; code = some bytecode } in
      let (kept_balance, new_code) = account-update_same f in
      (
        read-update f (λ a. bytes_of_code R a.code) bs other
            (ap (bytes_of_code R) new_code ∙ lawful.original_bytes-new_legacy bs),
        read-update f (λ a. a.balance) (balance R tk at) other kept_balance
            ∙ same_at (balance R tk) other,
        lawful.storage-insert_account_info tk.db at (f (account R tk at)) other slot,
      )

  -- On a lawful database, after `set_balance` at one address: the balance of every account is as
  -- before, but the new one at that address, and every code and every slot of storage is as before.
  pub set_balance-reads :
      (amount other slot : ℕ)
      → (balance R (set_balance R tk at amount) other
          ≡ (if at == other then amount else balance R tk other))
        × (code R (set_balance R tk at amount) other ≡ code R tk other)
        × (storage_at R (set_balance R tk at amount) other slot ≡ storage_at R tk other slot)
  unfolding code set_balance balance storage_at update_account
  set_balance-reads amount other slot =
      let f : AccountInfo R.Hash R.Bytecode → AccountInfo R.Hash R.Bytecode =
        λ info. record info { balance = amount } in
      let (new_balance, kept_code) = account-update_same f in
      (
        read-update f (λ a. a.balance) amount other new_balance,
        read-update f (λ a. bytes_of_code R a.code) (code R tk at) other
              (ap (bytes_of_code R) kept_code)
            ∙ same_at (code R tk) other,
        lawful.storage-insert_account_info tk.db at (f (account R tk at)) other slot,
      )
