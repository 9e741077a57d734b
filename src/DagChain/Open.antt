-- ===== src/DagChain/Open.antt =====
-- `open_with_genesis`: the chain of the genesis, and the replay of the log.
pub mod Replay
pub mod Durable
pub mod Valid
pub mod Adopted
use tao.Common.{ℕ, Bool, false, Option, none, some, List, [], ◌∷◌, ◌^◌, ◌-◌}
use tao.Common.Int.{pos}
use tao.Consensus.Bytes.{Bytes, zero_hash}
use tao.Consensus.Target.{Target}
use tao.Consensus.Block.{BlockId, DagBlock, DagBlockHeader, dag_id, header_version}
use tao.Database.BlockLog as BlockLog
use tao.DagChain.{
  Externals, DagChain, LogRecord, LegacyDagBlock, LegacyDagBlockHeader, Result, ok, err, panicked,
  storage, encode_record, decode_record, default_finality_depth,
}
use tao.DagChain.Accept.{Exec, apply, apply_with_id}
use tao.DagChain.Snapshot.{load_snapshot}

-- The arguments of `open_with_genesis` but the directory.
pub record Config : Type 0 where
  pub k : ℕ
  pub genesis_target : Target
  pub miner : Bytes
  pub reward : ℕ
  pub allocations : List (Bytes × ℕ)
  pub block_time_secs : ℕ
  pub lwma_window : ℕ
  pub genesis_commitment : Bytes

unfoldable pub genesis_header : Config → DagBlockHeader
genesis_header cfg = record {
  version = header_version;
  parents = [];
  timestamp = pos 1750000000;
  tx_merkle_root = zero_hash;
  state_root = cfg.genesis_commitment;
  target = cfg.genesis_target;
  interlink = [];
  nonce = 0;
  miner = zero_hash;
}

-- `open_with_daa` commits to no genesis file; `open` has a fixed target too.
pub without_commitment : Config → Config
without_commitment cfg = record cfg { genesis_commitment = zero_hash }

pub with_fixed_target : Config → Config
with_fixed_target cfg =
    without_commitment (record cfg { block_time_secs = 10; lwma_window = 2 ^ 64 - 1 })

-- A legacy header in the present format.
pub upgrade : LegacyDagBlock → DagBlock
upgrade block = record {
  header = record {
    version = block.header.version;
    parents = block.header.parents;
    timestamp = block.header.timestamp;
    tx_merkle_root = block.header.tx_merkle_root;
    state_root = zero_hash;
    target = block.header.target;
    interlink = [];
    nonce = block.header.nonce;
    miner = block.header.miner;
  };
  transactions = block.transactions;
}

module _ (x : Externals) where
  pub legacy_block_id : LegacyDagBlockHeader → Option BlockId
  legacy_block_id header = elim (x.serialize_legacy_header header) [
    | none ↦ none
    | some bytes ↦ some (x.hasher.blake3 bytes)
  ]

  -- The chain before the replay, over a log with the given content.
  unfoldable pub start : Config → Bytes → DagChain x
  start cfg log =
      let header = genesis_header cfg in
      let genesis_id = dag_id x.hasher x.bincode header in
      record {
        engine = x.genesis_dag cfg.k genesis_id;
        log = log;
        tips = genesis_id ∷ [];
        blocks = genesis_id ∷ [];
        block_txs = [];
        headers = (genesis_id, header) ∷ [];
        genesis_dag = genesis_id;
        genesis_target = cfg.genesis_target;
        block_time_secs = cfg.block_time_secs;
        lwma_window = cfg.lwma_window;
        k = cfg.k;
        miner = cfg.miner;
        reward = cfg.reward;
        allocations = cfg.allocations;
        base_accounts = none;
        executed = [];
        finality_depth = default_finality_depth;
        checkpoint = none;
        history_pruned = false;
        proof = [];
        bootstrapped = false;
        bootstrap_work = 0;
        original_genesis = genesis_id;
      }

  pub apply_legacy : DagChain x → LegacyDagBlock → Exec x
  apply_legacy s block = elim (legacy_block_id block.header) [
    | none ↦ (s, err encode_record)
    | some id ↦ apply_with_id x s (upgrade block) id
  ]

  -- One round of the replay loop.
  pub apply_record : DagChain x → Bytes → Exec x
  apply_record s bytes = elim (x.deserialize_record bytes) [
    | some (LogRecord.snapshot origin_header accounts proof) ↦
        (load_snapshot x s origin_header accounts proof, ok tt)
    | some (LogRecord.block block) ↦ apply x s block
    | none ↦ elim (x.deserialize_legacy bytes) [
      | none ↦ (s, err decode_record)
      | some block ↦ apply_legacy s block
    ]
  ]

  pub replay : DagChain x → List Bytes → Result (DagChain x)
  replay s [] = ok s
  replay s (bytes ∷ records) =
      let (s', result) = apply_record s bytes in
      elim result [ ok _ ↦ replay s' records | err e ↦ err e | panicked ↦ panicked ]

  pub open_with_genesis : Config → Bytes → Result (DagChain x)
  open_with_genesis cfg log = elim (BlockLog.read_all log) [
    | BlockLog.err e ↦ err (storage e)
    | BlockLog.ok records ↦ replay (start cfg log) records
  ]

  pub open_with_daa : Config → Bytes → Result (DagChain x)
  open_with_daa cfg log = open_with_genesis (without_commitment cfg) log

  -- `open`, which is a keyword here
  pub open_fixed : Config → Bytes → Result (DagChain x)
  open_fixed cfg log = open_with_genesis (with_fixed_target cfg) log
