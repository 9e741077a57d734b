-- ===== src/Runtime/Bank.antt =====
-- crates/tao-runtime/src/bank.rs: the execution of transactions over the account store. The Solana
-- virtual machine is a parameter; the state of a bank is its account store.
pub mod Signature
pub mod Clean
use tao.Common.{
  ℕ, zero, suc, ◌+◌, ◌-◌, ◌^◌, Bool, true, false, Option, none, some, List, [], ◌∷◌, ◌++◌, nat_beq,
  if◌then◌else◌, length, min,
}
use tao.Common.Keys.{nat_eq, list_eq}
use tao.Consensus.Bytes.{Bytes}
use tao.Database.Accounts.{AccountModel, AccountsDb}
use tao.Database.Accounts as Accounts

abbrev pub u64_max : ℕ
u64_max = 2 ^ 64 - 1

pub data BankError : Type 0 where
  bad_signature missing_header history_pruned below_pruned : BankError

pub data Result {ℓ} (A : Type ℓ) : Type ℓ where
  ok : A → Result A
  err : BankError → Result A

-- What the machine returns: all accounts of the transaction after it, or those that are rolled back to.
pub data Processed (Account : Type 0) : Type 0 where
  succeeded : List (Bytes × Account) → ℕ → Processed Account
  failed : List (Bytes × Account) → ℕ → Processed Account
  fees_only : List (Bytes × Account) → ℕ → Processed Account
  dropped : Processed Account

pub record TxOutcome : Type 0 where
  pub succeeded : Bool
  pub fee : ℕ

-- `builtins` are the sysvars, the system program and the loaders that `new` writes.
pub record Svm (Tx Account : Type 0) : Type 0 where
  pub accounts : AccountModel Account
  pub verify : Tx → Bool
  pub is_writable : Tx → ℕ → Bool
  pub process : (Bytes → Option Account) → Tx → Processed Account
  pub builtins : List (Bytes × Account)

-- The accounts at the writable places, from place i on.
pub writable {ℓ} : {A : Type ℓ} → (ℕ → Bool) → ℕ → List A → List A
writable is_writable i [] = []
writable is_writable i (a ∷ accounts) =
    let rest = writable is_writable (i + 1) accounts in if is_writable i then a ∷ rest else rest

abbrev pub Bank : Type 0 → Type 0
Bank Account = AccountsDb Account

module _ {Tx Account : Type 0} (m : Svm Tx Account) where
  unfoldable pub install : Bank Account → List (Bytes × Account) → Bank Account
  install db [] = db
  install db (b ∷ builtins) = install (Accounts.set db b.0 b.1) builtins

  unfoldable pub new : Bank Account → Bank Account
  new db = install db m.builtins

  pub commit_rollback : Bank Account → List (Bytes × Account) → Bank Account
  commit_rollback bank changes =
      if nat_beq (length changes) 0 then bank else Accounts.commit m.accounts bank changes

  unfoldable pub apply_result : Bank Account → Tx → Processed Account → Bank Account × TxOutcome
  apply_result bank tx (succeeded accounts fee) = (
    Accounts.commit m.accounts bank (writable (m.is_writable tx) 0 accounts),
    record { succeeded = true; fee = fee },
  )
  apply_result bank tx (failed rollback fee) =
      (commit_rollback bank rollback, record { succeeded = false; fee = fee })
  apply_result bank tx (fees_only rollback fee) =
      (commit_rollback bank rollback, record { succeeded = false; fee = fee })
  apply_result bank tx dropped = (bank, record { succeeded = false; fee = 0 })

  -- A transaction with a bad signature is not processed. The conversion of the transaction, which
  -- panics on one that does not sanitize, is taken as a part of the machine, which always answers.
  unfoldable pub execute_transaction : Bank Account → Tx → Result (Bank Account × TxOutcome)
  execute_transaction bank tx =
      if m.verify tx
      then ok (apply_result bank tx (m.process (Accounts.get bank) tx))
      else err bad_signature

  pub balance : Bank Account → Bytes → ℕ
  balance bank pubkey = elim (Accounts.get bank pubkey) [
    | none ↦ 0
    | some account ↦ m.accounts.lamports account
  ]

  -- `unwrap_or_else(|| AccountSharedData::new(0, 0, &system))`
  abbrev pub or_new : Option Account → Account
  or_new none = m.accounts.new_system 0
  or_new (some account) = account

  -- The sum stops at the greatest u64.
  pub credit : Bank Account → Bytes → ℕ → Bank Account
  credit bank pubkey lamports =
      let account = or_new (Accounts.get bank pubkey) in
      if nat_beq lamports 0
      then bank
      else Accounts.set bank pubkey
          (m.accounts.set_lamports account (min (m.accounts.lamports account + lamports) u64_max))

  pub airdrop : Bank Account → Bytes → ℕ → Bank Account
  airdrop bank pubkey lamports = credit bank pubkey lamports

  -- The loop of `execute_block`: the fees so far, and the outcomes in the order of the transactions.
  pub execute_all : Bank Account → ℕ → List Tx → Bank Account × ℕ × List TxOutcome
  execute_all bank fees [] = (bank, fees, [])
  execute_all bank fees (tx ∷ txs) = elim (execute_transaction bank tx) [
    | ok (bank', outcome) ↦
        let (end, total, outcomes) = execute_all bank' (min (fees + outcome.fee) u64_max) txs in
        (end, total, outcome ∷ outcomes)
    | err e ↦
        let (end, total, outcomes) = execute_all bank fees txs in
        (end, total, record { succeeded = false; fee = 0 } ∷ outcomes)
  ]

  -- The fees and the outcomes; the state root is that of the store.
  pub execute_block : Bank Account → List Tx → Bytes → ℕ → Bank Account × ℕ × List TxOutcome
  execute_block bank txs miner block_reward =
      let (end, fees, outcomes) = execute_all bank 0 txs in
      (credit end miner (min (block_reward + fees) u64_max), fees, outcomes)

  pub executed : List TxOutcome → ℕ
  executed [] = 0
  executed (o ∷ outcomes) = let rest = executed outcomes in if o.succeeded then rest + 1 else rest
