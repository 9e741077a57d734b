-- ===== src/DagChain/Models.antt =====
-- Concrete values for the parameters of the chain: a transaction is a number, an account its lamports,
-- and the engine keeps the blocks in the order in which they came.
use tao.Common.{
  ℕ, ◌≡◌, ap, sym, ◌∙◌, Option, none, some, List, [], ◌∷◌, ◌++◌, first, last, replicate,
}
use tao.Common.Keys.{nat_eq, list_eq}
use tao.Consensus.Bytes.{Bytes, be_value, zero_hash}
use tao.Consensus.Models.{codec, hasher, bincode}
use tao.Consensus.Block.{BlockId, DagBlock, dag_id}
use tao.DagChain.{Externals, SyncSnapshot, LogRecord}
use tao.Common.Int.{pos}
use tao.Consensus.Target.{Target}
use tao.Consensus.Merkle.{tx_merkle_root}
use tao.DagChain.{DagChain}
use tao.DagChain.Select.{interlink_for_parent}
use tao.DagChain.Open.{Config, genesis_header, start}
use tao.DagChain.Codec.{snapshot, put_record, get_record, get_record-put}

abbrev first_byte : Bytes → Option ℕ
first_byte [] = none
first_byte (b ∷ rest) = some b

abbrev get_snapshot : Bytes → Option (SyncSnapshot ℕ)
get_snapshot bytes = elim (snapshot.get bytes) [ none ↦ none | some (s, rest) ↦ some s ]

abbrev pub end_of : List BlockId → BlockId
end_of dag = elim (last dag) [ none ↦ zero_hash | some id ↦ id ]

abbrev start_of : List BlockId → BlockId
start_of dag = elim (first dag) [ none ↦ zero_hash | some id ↦ id ]

pub written_as : (r : LogRecord ℕ) (b : Bytes) → some (put_record r) ≡ some b → put_record r ≡ b
written_as r b e = cc

abbrev pub externals : Externals
externals = record {
  codec = codec;
  hasher = hasher;
  bincode = bincode;
  Tx = ℕ;
  Account = ℕ;
  deserialize_tx = first_byte;
  serialize_tx = λ tx. some (tx ∷ []);
  serialize_record = λ r. some (put_record r);
  deserialize_record = get_record;
  deserialize_legacy = λ b. none;
  serialize_legacy_header = λ h. some (h.nonce ∷ []);
  deserialize_snapshot = get_snapshot;
  serialize_snapshot = λ s. some (snapshot.put s []);
  Dag = List BlockId;
  genesis_dag = λ k genesis. genesis ∷ [];
  add_block = λ dag id parents. dag ++ id ∷ [];
  blue_work = λ dag id. be_value id;
  dag_tip = end_of;
  selected_parent = λ dag id. start_of dag;
  total_order = λ dag. dag;
  deserialize-serialize = λ r b e. ap get_record (sym (written_as r b e)) ∙ get_record-put r;
}

-- A target at which the ids of small nonces have level 1 at most.
abbrev pub easy : Target
easy = replicate 27 0 ++ replicate 5 0xff

abbrev pub cfg : Config
cfg = record {
  k = 18;
  genesis_target = easy;
  miner = zero_hash;
  reward = 50;
  allocations = [];
  block_time_secs = 10;
  lwma_window = 16;
  genesis_commitment = zero_hash;
}

abbrev pub started : DagChain externals
started = start externals cfg []

abbrev pub genesis_id : BlockId
genesis_id = dag_id hasher bincode (genesis_header cfg)

abbrev pub child : Bytes → DagBlock
child tx = record {
  header = record {
    version = 1;
    parents = genesis_id ∷ [];
    timestamp = pos 1_750_000_010;
    tx_merkle_root = elim (tx_merkle_root hasher (tx ∷ [])) [ none ↦ [] | some root ↦ root ];
    state_root = zero_hash;
    target = easy;
    interlink = interlink_for_parent externals started genesis_id;
    nonce = 7;
    miner = zero_hash;
  };
  transactions = tx ∷ [];
}

abbrev pub good : DagBlock
good = child (5 ∷ [])

-- Its transaction has no byte.
abbrev pub bad : DagBlock
bad = child []
