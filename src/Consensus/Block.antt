-- ===== src/Consensus/Block.antt =====
-- crates/tao-consensus/src/block.rs: headers and blocks of the linear chain and of the DAG, and
-- the older DAG formats that are still read. Serialisation (bincode) is a parameter.
use tao.Common.{ℕ, Bool, ◌&&◌, Option, none, some, List, [], nat_beq}
use tao.Common.Int.{ℤ}
use tao.Common.Keys.{◌==◌, nat_eq, list_eq}
use tao.Consensus.Bytes.{Bytes, Hasher, zero_hash}
use tao.Consensus.Target.{Target}

abbrev pub header_version : ℕ
header_version = 1

abbrev pub BlockId : Type 0
BlockId = Bytes

pub record BlockHeader : Type 0 where
  pub version : ℕ
  pub prev_hash : Bytes
  pub height : ℕ
  pub timestamp : ℤ
  pub tx_merkle_root : Bytes
  pub state_root : Bytes
  pub target : Target
  pub nonce : ℕ
  pub miner : Bytes

unfoldable pub is_genesis : BlockHeader → Bool
is_genesis h = nat_beq h.height 0 && h.prev_hash == zero_hash

pub record Block : Type 0 where
  pub header : BlockHeader
  pub transactions : List Bytes

pub record DagBlockHeader : Type 0 where
  pub version : ℕ
  pub parents : List BlockId
  pub timestamp : ℤ
  pub tx_merkle_root : Bytes
  pub state_root : Bytes
  pub target : Target
  pub interlink : List BlockId
  pub nonce : ℕ
  pub miner : Bytes

pub record DagBlock : Type 0 where
  pub header : DagBlockHeader
  pub transactions : List Bytes

pub record LegacyDagBlockV1 : Type 0 where
  pub version : ℕ
  pub parents : List BlockId
  pub timestamp : ℤ
  pub tx_merkle_root : Bytes
  pub target : Target
  pub nonce : ℕ
  pub miner : Bytes
  pub transactions : List Bytes

pub record LegacyDagBlockV2 : Type 0 where
  pub version : ℕ
  pub parents : List BlockId
  pub timestamp : ℤ
  pub tx_merkle_root : Bytes
  pub state_root : Bytes
  pub target : Target
  pub nonce : ℕ
  pub miner : Bytes
  pub transactions : List Bytes

pub from_v1 : LegacyDagBlockV1 → DagBlock
from_v1 value = record {
  header = record {
    version = value.version;
    parents = value.parents;
    timestamp = value.timestamp;
    tx_merkle_root = value.tx_merkle_root;
    state_root = zero_hash;
    target = value.target;
    interlink = [];
    nonce = value.nonce;
    miner = value.miner;
  };
  transactions = value.transactions;
}

pub from_v2 : LegacyDagBlockV2 → DagBlock
from_v2 value = record {
  header = record {
    version = value.version;
    parents = value.parents;
    timestamp = value.timestamp;
    tx_merkle_root = value.tx_merkle_root;
    state_root = value.state_root;
    target = value.target;
    interlink = [];
    nonce = value.nonce;
    miner = value.miner;
  };
  transactions = value.transactions;
}

-- What bincode gives the block types.
pub record Bincode : Type 0 where
  pub serialize_header : BlockHeader → Bytes
  pub serialize_dag_header : DagBlockHeader → Bytes
  pub deserialize_dag_block : Bytes → Option DagBlock
  pub deserialize_v2 : Bytes → Option LegacyDagBlockV2
  pub deserialize_v1 : Bytes → Option LegacyDagBlockV1

module _ (h : Hasher) (c : Bincode) where
  -- `BlockHeader::id`
  unfoldable pub id : BlockHeader → BlockId
  id header = h.blake3 (c.serialize_header header)

  -- `DagBlockHeader::id`
  unfoldable pub dag_id : DagBlockHeader → BlockId
  dag_id header = h.blake3 (c.serialize_dag_header header)

-- `DagBlock::from_bytes`: the current format, then the older ones, newest first.
module _ (c : Bincode) where
  pub from_bytes : Bytes → Option DagBlock
  from_bytes bytes = elim (c.deserialize_dag_block bytes) [
    | some block ↦ some block
    | none ↦ elim (c.deserialize_v2 bytes) [
      | some block ↦ some (from_v2 block)
      | none ↦ elim (c.deserialize_v1 bytes) [
        | some block ↦ some (from_v1 block)
        | none ↦ c.deserialize_dag_block bytes
      ]
    ]
  ]
