-- ===== src/DagChain/Export.antt =====
-- What a node sends of its chain: a stored block, and the snapshot of a pruned node.
use tao.Common.{
  not, ◌&&◌, Option, none, some, List, [], ◌∷◌, reverse, nat_beq, if◌then◌else◌, length, drop,
  ◌>>=◌,
}
use tao.Common.Keys.{nat_eq, list_eq}
use tao.Common.Maps.{lookup, contains_key}
use tao.Consensus.Bytes.{Bytes}
use tao.Consensus.Block.{BlockId, DagBlock}
use tao.DagChain.{Externals, DagChain}

module _ (x : Externals) where
  -- The bytes of the transactions; none of them when one is not serialised.
  unfoldable pub encode_all : List x.Tx → List Bytes → List Bytes
  encode_all [] out = reverse out
  encode_all (tx ∷ txs) out = elim (x.serialize_tx tx) [
    | none ↦ []
    | some bytes ↦ encode_all txs (bytes ∷ out)
  ]

  unfoldable pub get_block : DagChain x → BlockId → Option DagBlock
  get_block s id = do
    header ← lookup id s.headers
    let transactions : List Bytes = elim (lookup id s.block_txs) [
      | none ↦ []
      | some txs ↦ encode_all txs []
    ]
    if nat_beq (length transactions) 0 && contains_key id s.block_txs
        then none
        else some (record { header = header; transactions = transactions })

  -- The blocks that are found, in order.
  unfoldable pub blocks_of : DagChain x → List BlockId → List DagBlock
  blocks_of s [] = []
  blocks_of s (i ∷ is) =
      let rest = blocks_of s is in elim (get_block s i) [ none ↦ rest | some block ↦ block ∷ rest ]

  pub export_snapshot : DagChain x → Option Bytes
  export_snapshot s = if not s.history_pruned then none else do
    origin_header ← lookup s.genesis_dag s.headers
    accounts ← s.base_accounts
    x.serialize_snapshot (record {
      origin_header = origin_header;
      accounts = accounts;
      suffix = blocks_of s (drop 1 (x.total_order s.engine));
      proof = s.proof;
    })
