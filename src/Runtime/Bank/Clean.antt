-- ===== src/Runtime/Bank/Clean.antt =====
-- A bank has each account once and no empty one, whatever it executes.
use tao.Common.{
  ℕ, ◌≡◌, sym, List, [], ◌∷◌, inl, inr, Bool-cases, length, nat_beq, All, min, ◌+◌, false, refl,
  arith,
}
use tao.Consensus.Bytes.{Bytes}
use tao.Database.Accounts.{get, set}
use tao.Database.Accounts.Restore.{IsClean, IsAlive, insert-IsClean, commit-IsClean}
use tao.Runtime.Bank.{
  Svm, Bank, Processed, succeeded, failed, fees_only, dropped, TxOutcome, ok, writable, install,
  commit_rollback, apply_result, execute_transaction, credit, airdrop, or_new, u64_max,
}

-- What is asked of the machine: a balance that is set is read back, and none of the accounts that it
-- installs is empty.
pub record IsSound {Tx Account : Type 0} (m : Svm Tx Account) : Type 0 where
  pub new_lamports : (n : ℕ) → m.accounts.lamports (m.accounts.new_system n) ≡ n
  pub set_lamports :
      (account : Account) (n : ℕ) → m.accounts.lamports (m.accounts.set_lamports account n) ≡ n
  pub builtins_alive : All (λ b. IsAlive m.accounts b.1) m.builtins

module _ {Tx Account : Type 0} (m : Svm Tx Account) where
  pub install-IsClean :
      (db : Bank Account) (builtins : List (Bytes × Account))
      → All (λ b. IsAlive m.accounts b.1) builtins
      → IsClean m.accounts db
      → IsClean m.accounts (install m db builtins)
  unfolding install set
  install-IsClean db [] a d = d
  install-IsClean db (b ∷ builtins) (here, a) d =
      install-IsClean (set db b.0 b.1) builtins a (insert-IsClean m.accounts b.0 b.1 db here d)

  commit_rollback-IsClean :
      (bank : Bank Account) (changes : List (Bytes × Account))
      → IsClean m.accounts bank
      → IsClean m.accounts (commit_rollback m bank changes)
  unfolding commit_rollback
  commit_rollback-IsClean bank changes d = elim (Bool-cases (nat_beq (length changes) 0)) [
    | inl e ↦ rw e d
    | inr e ↦ rw e (commit-IsClean m.accounts bank changes d)
  ]

  apply_result-IsClean :
      (bank : Bank Account) (tx : Tx) (p : Processed Account)
      → IsClean m.accounts bank
      → IsClean m.accounts (apply_result m bank tx p).0
  unfolding apply_result
  apply_result-IsClean bank tx (succeeded accounts fee) d =
      commit-IsClean m.accounts bank (writable (m.is_writable tx) 0 accounts) d
  apply_result-IsClean bank tx (failed rollback fee) d = commit_rollback-IsClean bank rollback d
  apply_result-IsClean bank tx (fees_only rollback fee) d = commit_rollback-IsClean bank rollback d
  apply_result-IsClean bank tx dropped d = d

  pub execute_transaction-IsClean :
      (bank after : Bank Account) (tx : Tx) (outcome : TxOutcome)
      → IsClean m.accounts bank
      → execute_transaction m bank tx ≡ ok (after, outcome)
      → IsClean m.accounts after
  unfolding execute_transaction
  execute_transaction-IsClean bank after tx outcome d e = elim (Bool-cases (m.verify tx)) [
    | inl v ↦
        let done = rw (execute_transaction, v) at e in
        let same : (apply_result m bank tx (m.process (get bank) tx)).0 ≡ after = cc in
        rw (sym same) (apply_result-IsClean bank tx (m.process (get bank) tx) d)
    | inr v ↦ let bad = rw (execute_transaction, v) at e in cc
  ]

  pub airdrop-IsClean :
      IsSound m
      → (bank : Bank Account) (pubkey : Bytes) (lamports : ℕ) → IsClean m.accounts bank
      → IsClean m.accounts (airdrop m bank pubkey lamports)
  unfolding airdrop credit set
  airdrop-IsClean sound bank pubkey lamports d = elim (Bool-cases (nat_beq lamports 0)) [
    | inl e ↦ rw e d
    | inr e ↦
        let account = or_new m (get bank pubkey) in
        let total = min (m.accounts.lamports account + lamports) u64_max in
        let some_left : nat_beq total 0 ≡ false = ground arith in
        let alive : IsAlive m.accounts (m.accounts.set_lamports account total) =
          rw (sound.set_lamports account total, some_left) refl in
        rw e (insert-IsClean m.accounts pubkey _ bank alive d)
  ]
