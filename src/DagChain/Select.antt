-- ===== src/DagChain/Select.antt =====
-- What a block must commit to for its parents: the selected parent, the interlink and the target.
pub mod Interlink
use tao.Common.{
  ℕ, zero, suc, ◌+◌, ◌-◌, ◌^◌, Bool, true, false, ◌||◌, ◌&&◌, Option, none, some, List, [], ◌∷◌,
  ◌++◌, reverse, ltb, leb, nat_beq, min, max, if◌then◌else◌, length, map, ◌>>=◌, ◌>>◌,
}
use tao.Common.Keys.{◌==◌, nat_eq, list_eq}
use tao.Common.Maps.{lookup}
use tao.Common.Int.{pos}
use tao.Consensus.Bytes.{Bytes, zero_hash}
use tao.Consensus.Target.{Target, pow_level}
use tao.Consensus.Block.{BlockId, BlockHeader, DagBlockHeader, dag_id}
use tao.Consensus.Difficulty as Difficulty
use tao.Database.Smt.{key_leb}
use tao.DagChain.{Externals, DagChain}

-- `il[k] = sp` or `il.push(sp)`
abbrev pub set : List BlockId → ℕ → BlockId → List BlockId
set [] k sp = sp ∷ []
set (x ∷ il) zero sp = sp ∷ il
set (x ∷ il) (suc k) sp = x ∷ set il k sp

-- The loop for k in 0..=level, with the rounds left and k: an index past the end is the end.
unfoldable pub point : ℕ → ℕ → BlockId → List BlockId → List BlockId
point zero k sp il = il
point (suc rounds) k sp il = point rounds (k + 1) sp (set il k sp)

-- The linear header that the difficulty code reads.
unfoldable pub as_header : DagBlockHeader → BlockHeader
as_header h = record {
  version = h.version;
  prev_hash = zero_hash;
  height = 0;
  timestamp = h.timestamp;
  tx_merkle_root = zero_hash;
  state_root = zero_hash;
  target = h.target;
  nonce = 0;
  miner = zero_hash;
}

module _ (x : Externals) where
  -- The order by which the selected parent is the last of the greatest.
  unfoldable pub work_leb : x.Dag → BlockId → BlockId → Bool
  work_leb dag a b =
      ltb (x.blue_work dag a) (x.blue_work dag b)
      || nat_beq (x.blue_work dag a) (x.blue_work dag b) && key_leb a b

  unfoldable pub max_by_work : x.Dag → BlockId → List BlockId → BlockId
  max_by_work dag best [] = best
  max_by_work dag best (p ∷ ps) = max_by_work dag (if work_leb dag best p then p else best) ps

  unfoldable pub selected_parent_dag : DagChain x → List BlockId → BlockId
  selected_parent_dag s [] = s.genesis_dag
  selected_parent_dag s (p ∷ ps) = max_by_work s.engine p ps

  unfoldable pub interlink_for_parent : DagChain x → BlockId → List BlockId
  interlink_for_parent s sp = elim (lookup sp s.headers) [
    | none ↦ []
    | some header ↦ point (pow_level x.codec sp header.target + 1) 0 sp header.interlink
  ]

  -- The chain of selected parents from `cur`, newest first, at most `take` of them, down to genesis.
  unfoldable pub walk_selected : x.Dag → BlockId → ℕ → BlockId → List BlockId
  walk_selected dag genesis zero cur = []
  walk_selected dag genesis (suc take) cur = elim (nat_beq take 0 || cur == genesis) [
    | true ↦ cur ∷ []
    | false ↦ cur ∷ walk_selected dag genesis take (x.selected_parent dag cur)
  ]

  -- `filter_map` with the map of headers
  unfoldable pub headers_of : DagChain x → List BlockId → List BlockHeader
  headers_of s [] = []
  headers_of s (i ∷ is) =
      let rest = headers_of s is in
      elim (lookup i s.headers) [ none ↦ rest | some header ↦ as_header header ∷ rest ]

  -- `none` is a panic of the difficulty code.
  unfoldable pub selected_chain_target : DagChain x → BlockId → Option Target
  selected_chain_target s selected_parent = do
    let take = min (s.lwma_window + 1) (2 ^ 64 - 1)
    let chain = reverse (walk_selected s.engine s.genesis_dag take selected_parent)
    params ← Difficulty.new (max s.block_time_secs 1) (max s.lwma_window 2)
    Difficulty.next_target x.codec (headers_of s chain) params s.genesis_target

  unfoldable pub next_target : DagChain x → Option Target
  next_target s = selected_chain_target s (x.dag_tip s.engine)

  pub expected_target : DagChain x → List BlockId → Option Target
  expected_target s parents = selected_chain_target s (selected_parent_dag s parents)
