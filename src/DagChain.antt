-- ===== src/DagChain.antt =====
-- crates/tao-dagvm/src/dag_chain.rs: the block DAG of a node. This file has its state and what it
-- calls: the GHOSTDAG engine, the serialisations of bincode and the clock are parameters.
pub mod Select
pub mod Validate
pub mod Accept
pub mod Snapshot
pub mod Export
pub mod Open
pub mod Mine
pub mod State
pub mod Prune
pub mod Reset
pub mod Codec
pub mod Models
mod Tests
use tao.Common.{ℕ, zero, suc, ◌+◌, ◌*◌, ◌^◌, ◌≡◌, Bool, Option, none, some, List, [], ◌∷◌}
use tao.Common.Int.{ℤ}
use tao.Common.Maps.{HashMap}
use tao.Consensus.Bytes.{Bytes, U256Codec, Hasher}
use tao.Consensus.Target.{Target}
use tao.Consensus.Block.{BlockId, DagBlockHeader, DagBlock, Bincode}
use tao.Database.BlockLog.{LogError}

-- The strings of the source's errors, by the place that makes them.
pub data ChainError : Type 0 where
  invalid_pow no_parents too_many_parents duplicate_parent : ChainError
  too_many_transactions block_too_large merkle_root_mismatch from_the_future : ChainError
  parent_pruned unknown_parent unexpected_target timestamp_regresses : ChainError
  invalid_interlink encode_record decode_record decode_tx snapshot_too_large : ChainError
  empty_proof not_anchored wrong_origin invalid_pow_in_proof not_connected : ChainError
  storage : LogError → ChainError

-- `panicked` stands for a failed assertion or an overflow.
pub data Result {ℓ} (A : Type ℓ) : Type ℓ where
  ok : A → Result A
  err : ChainError → Result A
  panicked : Result A

infixl 5 ◌>>=◌ ◌>>◌
abbrev pub ◌>>=◌ {ℓ κ} : {A : Type ℓ} {B : Type κ} → Result A → (A → Result B) → Result B
ok a >>= f = f a
err e >>= f = err e
panicked >>= f = panicked

abbrev pub ◌>>◌ {ℓ} : {B : Type ℓ} → Result (Unit {0}) → Result B → Result B
m >> k = m >>= λ _. k

-- An early return of an error.
abbrev pub refuse_if : Bool → ChainError → Result (Unit {0})
refuse_if Bool.true e = err e
refuse_if Bool.false e = ok tt

abbrev pub or_panic {ℓ} : {A : Type ℓ} → Option A → Result A
or_panic none = panicked
or_panic (some a) = ok a

abbrev pub or_err {ℓ} : {A : Type ℓ} → Option A → ChainError → Result A
or_err none e = err e
or_err (some a) e = ok a

abbrev pub max_snapshot_bytes : ℕ
max_snapshot_bytes = 256 * 1024 * 1024

abbrev pub max_parents : ℕ
max_parents = 16

abbrev pub max_block_txs : ℕ
max_block_txs = 4096

abbrev pub max_block_tx_bytes : ℕ
max_block_tx_bytes = 1048576

abbrev pub max_timestamp_drift_secs : ℕ
max_timestamp_drift_secs = 600

abbrev pub default_finality_depth : ℕ
default_finality_depth = 100

-- A record of the log: a block, or the snapshot that leads a compacted log.
pub data LogRecord (Account : Type 0) : Type 0 where
  block : DagBlock → LogRecord Account
  snapshot : DagBlockHeader → List (Bytes × Account) → List DagBlockHeader → LogRecord Account

-- What a pruned node sends to a peer: the pruning point, the accounts there, the blocks after it, and
-- the proof of the pruning point.
pub record SyncSnapshot (Account : Type 0) : Type 0 where
  pub origin_header : DagBlockHeader
  pub accounts : List (Bytes × Account)
  pub suffix : List DagBlock
  pub proof : List DagBlockHeader

-- A header from before the state root and the interlink.
pub record LegacyDagBlockHeader : Type 0 where
  pub version : ℕ
  pub parents : List BlockId
  pub timestamp : ℤ
  pub tx_merkle_root : Bytes
  pub target : Target
  pub nonce : ℕ
  pub miner : Bytes

pub record LegacyDagBlock : Type 0 where
  pub header : LegacyDagBlockHeader
  pub transactions : List Bytes

-- What the chain calls. The engine is that of crates/tao-ghostdag: `genesis_dag` is `new` and the
-- first `add_block`.
pub record Externals : Type 1 where
  pub codec : U256Codec
  pub hasher : Hasher
  pub bincode : Bincode
  pub Tx : Type 0
  pub Account : Type 0
  pub deserialize_tx : Bytes → Option Tx
  pub serialize_tx : Tx → Option Bytes
  pub serialize_record : LogRecord Account → Option Bytes
  pub deserialize_record : Bytes → Option (LogRecord Account)
  pub deserialize_legacy : Bytes → Option LegacyDagBlock
  pub serialize_legacy_header : LegacyDagBlockHeader → Option Bytes
  pub deserialize_snapshot : Bytes → Option (SyncSnapshot Account)
  pub serialize_snapshot : SyncSnapshot Account → Option Bytes
  pub Dag : Type 0
  pub genesis_dag : ℕ → BlockId → Dag
  pub add_block : Dag → BlockId → List BlockId → Dag
  pub blue_work : Dag → BlockId → ℕ
  pub dag_tip : Dag → BlockId
  pub selected_parent : Dag → BlockId → BlockId
  pub total_order : Dag → List BlockId
  -- What bincode writes it reads back.
  pub deserialize-serialize :
      (r : LogRecord Account) (b : Bytes)
      → serialize_record r ≡ some b
      → deserialize_record b ≡ some r

-- A finalized snapshot: the accounts after the first `len` blocks of the order, `last_id` the last.
pub record Checkpoint (Account : Type 0) : Type 0 where
  pub len : ℕ
  pub last_id : BlockId
  pub accounts : List (Bytes × Account)

-- `log` is the content of the log file. The directories and the cached bank are left out: the bank
-- that the cache holds is a value of the execution (`State`).
pub record DagChain (x : Externals) : Type 0 where
  pub engine : x.Dag
  pub log : Bytes
  pub tips : List BlockId
  pub blocks : List BlockId
  pub block_txs : HashMap BlockId (List x.Tx)
  pub headers : HashMap BlockId DagBlockHeader
  pub genesis_dag : BlockId
  pub genesis_target : Target
  pub block_time_secs : ℕ
  pub lwma_window : ℕ
  pub k : ℕ
  pub miner : Bytes
  pub reward : ℕ
  pub allocations : List (Bytes × ℕ)
  pub base_accounts : Option (List (Bytes × x.Account))
  pub executed : List BlockId
  pub finality_depth : ℕ
  pub checkpoint : Option (Checkpoint x.Account)
  pub history_pruned : Bool
  pub proof : List DagBlockHeader
  pub bootstrapped : Bool
  pub bootstrap_work : ℕ
  pub original_genesis : BlockId
