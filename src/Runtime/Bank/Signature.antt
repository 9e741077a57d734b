-- ===== src/Runtime/Bank/Signature.antt =====
-- A transaction with a bad signature.
use tao.Common.{◌≡◌, refl, false}
use tao.Runtime.Bank.{Svm, Bank, err, execute_transaction, bad_signature}

module _ {Tx Account : Type 0} (m : Svm Tx Account) where
  pub execute_transaction_bad :
      (bank : Bank Account) (tx : Tx)
      → m.verify tx ≡ false
      → execute_transaction m bank tx ≡ err bad_signature
  unfolding execute_transaction
  execute_transaction_bad bank tx b = rw (execute_transaction, b) refl
