-- ===== src/Runtime/Genesis.antt =====
-- crates/tao-runtime/src/genesis.rs: the accounts of the genesis file are written to the store. The
-- parser of addresses is a parameter; errors of the database are left out.
mod Again
mod Tests
use tao.Common.{ℕ, zero, ◌+◌, Option, none, some, List, [], ◌∷◌}
use tao.Common.Keys.{nat_eq, list_eq}
use tao.Consensus.Bytes.{Bytes}
use tao.Database.Accounts.{AccountModel, AccountsDb}
use tao.Database.Accounts as Accounts

-- The address is a string of the file, as its bytes.
pub record Allocation : Type 0 where
  pub address : Bytes
  pub lamports : ℕ

pub record GenesisLoad : Type 0 where
  pub created : ℕ
  pub skipped : ℕ

pub data LoadResult : Type 0 where
  loaded : GenesisLoad → LoadResult
  invalid_address : Bytes → LoadResult

module _ {Account : Type 0} (m : AccountModel Account) (from_str : Bytes → Option Bytes) where
  -- The loop: accounts that exist are skipped. What was written before an error stays.
  pub load_from :
      GenesisLoad → AccountsDb Account → List Allocation → AccountsDb Account × LoadResult
  load_from load db [] = (db, loaded load)
  load_from load db (alloc ∷ allocations) = elim (from_str alloc.address) [
    | none ↦ (db, invalid_address alloc.address)
    | some pubkey ↦ elim (Accounts.get db pubkey) [
      | some account ↦ load_from (record load { skipped = load.skipped + 1 }) db allocations
      | none ↦
          load_from (record load { created = load.created + 1 })
            (Accounts.set db pubkey (m.new_system alloc.lamports)) allocations
    ]
  ]

  pub load_allocations : AccountsDb Account → List Allocation → AccountsDb Account × LoadResult
  load_allocations db allocations = load_from (record { created = 0; skipped = 0 }) db allocations
