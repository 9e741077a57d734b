-- ===== src/DagChain/Validate.antt =====
-- The checks of a received block: those of the block alone, and those against the chain.
use tao.Common.{
  ℕ, ◌+◌, ◌-◌, ◌^◌, Bool, true, false, not, ◌||◌, ◌&&◌, none, some, List, [], ◌∷◌, ltb, nat_beq,
  if◌then◌else◌, length,
}
use tao.Common.Keys.{◌==◌, nat_eq, list_eq, contains}
use tao.Common.Maps.{lookup}
use tao.Common.Int.{ℤ, pos, ◌+ℤ◌, ◌-ℤ◌, ltb_ℤ}
use tao.Consensus.Bytes.{Bytes}
use tao.Consensus.Target.{meets_target}
use tao.Consensus.Block.{BlockId, DagBlock, DagBlockHeader, dag_id}
use tao.Consensus.Merkle.{tx_merkle_root}
use tao.Consensus.Difficulty.{checked_i64}
use tao.DagChain.{
  Externals, DagChain, invalid_pow, no_parents, too_many_parents, duplicate_parent,
  too_many_transactions, block_too_large, merkle_root_mismatch, from_the_future, parent_pruned,
  unknown_parent, unexpected_target, timestamp_regresses, invalid_interlink, Result, ok, err, ◌>>=◌,
  ◌>>◌, refuse_if, or_panic, max_parents, max_block_txs, max_block_tx_bytes,
  max_timestamp_drift_secs,
}
use tao.DagChain.Select.{selected_parent_dag, selected_chain_target, interlink_for_parent}

-- `parents.iter().all(|p| uniq.insert(*p))`
unfoldable pub all_distinct : List BlockId → Bool
all_distinct [] = true
all_distinct (p ∷ ps) = not (contains ps p) && all_distinct ps

unfoldable pub total_bytes : List Bytes → ℕ
total_bytes [] = 0
total_bytes (t ∷ ts) = length t + total_bytes ts

-- `saturating_add` on i64, of a number that is not negative
unfoldable pub saturating_add : ℤ → ℕ → ℤ
saturating_add a n = if ltb_ℤ (pos (2 ^ 63 - 1)) (a +ℤ pos n) then pos (2 ^ 63 - 1) else a +ℤ pos n

-- `parents.iter().all(|p| self.blocks.contains(p))`, and the test for a pruned parent
unfoldable pub all_known : List BlockId → List BlockId → Bool
all_known blocks [] = true
all_known blocks (p ∷ ps) = contains blocks p && all_known blocks ps

unfoldable pub misses_other_than : BlockId → List BlockId → List BlockId → Bool
misses_other_than genesis blocks [] = false
misses_other_than genesis blocks (p ∷ ps) =
    not (p == genesis) && not (contains blocks p) || misses_other_than genesis blocks ps

module _ (x : Externals) where
  -- `now` is the clock's reading.
  unfoldable pub validate_block_intrinsic : ℤ → DagBlock → Result (Unit {0})
  validate_block_intrinsic now block = do
    let header = block.header
    refuse_if (not (meets_target x.codec (dag_id x.hasher x.bincode header) header.target))
        invalid_pow
    refuse_if (nat_beq (length header.parents) 0) no_parents
    refuse_if (ltb max_parents (length header.parents)) too_many_parents
    refuse_if (not (all_distinct header.parents)) duplicate_parent
    refuse_if (ltb max_block_txs (length block.transactions)) too_many_transactions
    refuse_if (ltb max_block_tx_bytes (total_bytes block.transactions)) block_too_large
    root ← or_panic (tx_merkle_root x.hasher block.transactions)
    refuse_if (not (root == header.tx_merkle_root)) merkle_root_mismatch
    refuse_if (ltb_ℤ (saturating_add now max_timestamp_drift_secs) header.timestamp) from_the_future

  unfoldable pub check_parents : DagChain x → List BlockId → Result (Unit {0})
  check_parents s parents =
      if all_known s.blocks parents
      then ok tt
      else if s.history_pruned && misses_other_than s.genesis_dag s.blocks parents
      then err parent_pruned
      else err unknown_parent

  -- A selected parent with no header is not compared.
  unfoldable pub check_timestamp : DagChain x → BlockId → ℤ → Result (Unit {0})
  check_timestamp s sp timestamp = elim (lookup sp s.headers) [
    | none ↦ ok tt
    | some header ↦ do
      earliest ← or_panic (checked_i64 (header.timestamp -ℤ pos max_timestamp_drift_secs))
      refuse_if (ltb_ℤ timestamp earliest) timestamp_regresses
  ]

  -- The checks of `accept` that read the chain.
  unfoldable pub check_context : DagChain x → DagBlockHeader → Result (Unit {0})
  check_context s header = do
    check_parents s header.parents
    let sp = selected_parent_dag x s header.parents
    expected ← or_panic (selected_chain_target x s sp)
    refuse_if (not (header.target == expected)) unexpected_target
    check_timestamp s sp header.timestamp
    refuse_if (not (header.interlink == interlink_for_parent x s sp)) invalid_interlink

  unfoldable pub validate : ℤ → DagChain x → DagBlock → Result (Unit {0})
  validate now s block = do validate_block_intrinsic now block; check_context s block.header
