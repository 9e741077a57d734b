-- ===== src/Database/Accounts.antt =====
-- crates/tao-database/src/accounts_db.rs: the account store, without its Merkle tree. Errors of RocksDB
-- and of the serialisation of an account are left out; an account is one of solana_account.
pub mod Restore
use tao.Common.{ℕ, Bool, ◌&&◌, Option, List, [], ◌∷◌, nat_beq, if◌then◌else◌, length}
use tao.Common.Keys.{◌==◌, nat_eq, list_eq}
use tao.Common.Maps.{HashMap, lookup, insert}
use tao.Consensus.Bytes.{Bytes}

-- What the code asks of an account of solana_account.
pub record AccountModel (Account : Type 0) : Type 0 where
  pub lamports : Account → ℕ
  pub data_is_empty : Account → Bool
  pub set_lamports : Account → ℕ → Account
  pub new_system : ℕ → Account

-- `batch.delete`
unfoldable pub erase {ℓ} : {V : Type ℓ} → Bytes → HashMap Bytes V → HashMap Bytes V
erase key [] = []
erase key (e ∷ db) = let rest = erase key db in if e.0 == key then rest else e ∷ rest

abbrev pub AccountsDb : Type 0 → Type 0
AccountsDb Account = HashMap Bytes Account

module _ {Account : Type 0} where
  unfoldable pub get : AccountsDb Account → Bytes → Option Account
  get db key = lookup key db

  unfoldable pub set : AccountsDb Account → Bytes → Account → AccountsDb Account
  set db key account = insert key account db

  pub delete : AccountsDb Account → Bytes → AccountsDb Account
  delete db key = erase key db

  -- An account without lamports and data is removed.
  unfoldable pub commit :
      AccountModel Account → AccountsDb Account → List (Bytes × Account) → AccountsDb Account
  commit m db [] = db
  commit m db (c ∷ changes) =
      let gone = nat_beq (m.lamports c.1) 0 && m.data_is_empty c.1 in
      commit m (if gone then erase c.0 db else insert c.0 c.1 db) changes

  unfoldable pub dump : AccountsDb Account → List (Bytes × Account)
  dump db = db

  pub len : AccountsDb Account → ℕ
  len db = length db

  pub is_empty : AccountsDb Account → Bool
  is_empty db = nat_beq (length db) 0
