-- ===== src/DagChain/Mine.antt =====
-- `build_block_at` and `mine_at`: a block on the tips of the chain.
pub mod Parents
pub mod Candidate
mod Tests
use tao.Common.{
  ℕ, zero, suc, ◌+◌, ◌-◌, ◌%◌, ◌^◌, Bool, true, false, not, Option, none, some, List, [], ◌∷◌, ltb,
  if◌then◌else◌, length, take, map,
}
use tao.Common.Keys.{◌==◌, nat_eq, list_eq}
use tao.Common.Int.{ℤ}
use tao.Consensus.Bytes.{Bytes, zero_hash}
use tao.Consensus.Target.{Target, meets_target}
use tao.Consensus.Block.{BlockId, DagBlock, DagBlockHeader, dag_id, header_version}
use tao.Consensus.Merkle.{tx_merkle_root}
use tao.DagChain.{Externals, DagChain, Result, ok, err, panicked, ◌>>=◌, or_panic, max_parents}
use tao.DagChain.Select.{interlink_for_parent, next_target}
use tao.DagChain.Accept.{persist_and_apply}

-- `parents.retain(|p| *p != heaviest)`
pub without : BlockId → List BlockId → List BlockId
without heaviest [] = []
without heaviest (p ∷ ps) =
    let rest = without heaviest ps in if p == heaviest then rest else p ∷ rest

module _ (x : Externals) where
  -- An empty encoding takes the place of a transaction that is not serialised.
  unfoldable pub encode_tx : x.Tx → Bytes
  encode_tx tx = elim (x.serialize_tx tx) [ none ↦ [] | some bytes ↦ bytes ]

  -- All tips, or the heaviest and the first of the others up to the cap.
  unfoldable pub tip_parents : DagChain x → List BlockId
  tip_parents s =
      let heaviest = x.dag_tip s.engine in
      if ltb max_parents (length s.tips)
      then heaviest ∷ take (max_parents - 1) (without heaviest s.tips)
      else s.tips

  -- The header before its nonce is searched.
  unfoldable pub candidate : DagChain x → ℤ → Target → Bytes → DagBlockHeader
  candidate s timestamp target root = record {
    version = header_version;
    parents = tip_parents s;
    timestamp = timestamp;
    tx_merkle_root = root;
    state_root = zero_hash;
    target = target;
    interlink = interlink_for_parent x s (x.dag_tip s.engine);
    nonce = 0;
    miner = s.miner;
  }

  -- The loop that searches the nonce, on fuel: `none` is fuel that does not suffice.
  unfoldable pub search : ℕ → Target → DagBlockHeader → Option DagBlockHeader
  search zero target header = none
  search (suc fuel) target header =
      let rest = search fuel target (record header { nonce = (header.nonce + 1) % 2 ^ 64 }) in
      if meets_target x.codec (dag_id x.hasher x.bincode header) target then some header else rest

  -- `none` within the result is a search without an end.
  unfoldable pub build_block_at : ℕ → DagChain x → List x.Tx → ℤ → Result (Option DagBlock)
  build_block_at fuel s transactions timestamp = do
    let serialized = map encode_tx transactions
    target ← or_panic (next_target x s)
    root ← or_panic (tx_merkle_root x.hasher serialized)
    ok (elim (search fuel target (candidate s timestamp target root)) [
      | none ↦ none
      | some header ↦ some (record { header = header; transactions = serialized })
    ])

  -- What `mine_at` does with the block: its record in the log, and the block in the chain.
  abbrev finish : DagChain x → DagBlock → DagChain x × Result DagBlock
  finish s block =
      let (s', result) = persist_and_apply x s block in
      (s', elim result [ ok _ ↦ ok block | err e ↦ err e | panicked ↦ panicked ])

  -- `none` is a search without an end.
  pub mine_at : ℕ → DagChain x → List x.Tx → ℤ → Option (DagChain x × Result DagBlock)
  mine_at fuel s transactions timestamp = elim (build_block_at fuel s transactions timestamp) [
    | err e ↦ some (s, err e)
    | panicked ↦ some (s, panicked)
    | ok none ↦ none
    | ok (some block) ↦ some (finish s block)
  ]
