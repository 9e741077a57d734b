-- ===== src/DagChain/Prune.antt =====
-- `prune`: the chain is anchored anew at a finalized block, and what is below it is dropped.
pub mod Valid
pub mod Rebuild
mod Tests
use tao.Common.{
  ℕ, zero, suc, ◌+◌, ◌-◌, Bool, true, false, not, ◌&&◌, Option, none, some, List, [], ◌∷◌, leb, ltb,
  min, max, if◌then◌else◌, length, take, drop, get_elem?, ◌>>=◌,
}
use tao.Common.Keys.{◌==◌, nat_eq, list_eq, contains}
use tao.Common.Maps.{HashMap, lookup}
use tao.Consensus.Bytes.{Bytes}
use tao.Consensus.Block.{BlockId, DagBlockHeader}
use tao.Database.Accounts as Accounts
use tao.Database.BlockLog.{LogError}
use tao.Database.BlockLog as BlockLog
use tao.Runtime.Bank.{Svm, Bank, BankError, u64_max}
use tao.Runtime.Bank as Bank
use tao.DagChain.{Externals, DagChain, LogRecord}
use tao.DagChain.Accept.{remap_all}
use tao.DagChain.Snapshot.{build_proof_for, cons_record, block_records}
use tao.DagChain.Export.{blocks_of}
use tao.DagChain.State.{State, open_bank, replay_blocks}

-- The errors, by the place that makes them.
pub data PruneError : Type 0 where
  bank : BankError → PruneError
  no_checkpoint before_checkpoint encode : PruneError
  storage : LogError → PruneError

pub data Result {ℓ} (A : Type ℓ) : Type ℓ where
  ok : A → Result A
  err : PruneError → Result A

abbrev from_bank {ℓ} : {A : Type ℓ} → Bank.Result A → Result A
from_bank (Bank.ok a) = ok a
from_bank (Bank.err e) = err (bank e)

abbrev pub is_none {ℓ} : {A : Type ℓ} → Option A → Bool
is_none none = true
is_none (some a) = false

-- The headers of the kept blocks.
pub keep_headers : HashMap BlockId DagBlockHeader → List BlockId → HashMap BlockId DagBlockHeader
keep_headers headers [] = []
keep_headers headers (id ∷ ids) =
    let rest = keep_headers headers ids in
    elim (lookup id headers) [ none ↦ rest | some h ↦ (id, h) ∷ rest ]

module _ (x : Externals) where
  -- The blocks that stay behind the tip: a window and the depth of finality.
  pub retain : DagChain x → ℕ
  retain s = min (s.lwma_window + max s.finality_depth 1) u64_max

  -- The selected chain from a block down to the origin. `none` is a chain that is longer than the fuel.
  pub selected_chain : ℕ → DagChain x → BlockId → Option (List BlockId)
  selected_chain zero s cur = none
  selected_chain (suc fuel) s cur =
      let rest = selected_chain fuel s (x.selected_parent s.engine cur) in
      if cur == s.genesis_dag then some (cur ∷ []) else (rest >>= λ chain. some (cur ∷ chain))

  -- The greatest index from `i` down to 1 with a block of the selected chain.
  pub find_cut : List BlockId → List BlockId → ℕ → Option ℕ
  find_cut chain order zero = none
  find_cut chain order (suc i) =
      let below = find_cut chain order i in
      elim (get_elem? order (suc i)) [
        | none ↦ below
        | some b ↦ if contains chain b then some (suc i) else below
      ]

  -- The pruning point, by its index: `some none` when there is nothing to prune.
  pub cut : DagChain x → Option (Option ℕ)
  cut s =
      let order = x.total_order s.engine in
      let n = length order in
      if leb n (min (retain s + 1) u64_max)
      then some none
      else (selected_chain (n + 1) s (x.dag_tip s.engine) >>= λ chain.
          some (find_cut chain order (min (n - retain s) (n - 1))))

  -- The parents of a kept block: those that were dropped become the pruning point.
  pub kept_parents : BlockId → List BlockId → List BlockId → List BlockId
  kept_parents p kept parents = elim (remap_all x p kept [] parents) [
    | [] ↦ p ∷ []
    | d ∷ ds ↦ d ∷ ds
  ]

  -- The engine over the kept blocks. `none` is a kept block without a header.
  pub readd : DagChain x → BlockId → List BlockId → x.Dag → List BlockId → Option x.Dag
  readd s p kept engine [] = some engine
  readd s p kept engine (id ∷ ids) = lookup id s.headers >>= λ header.
      readd s p kept (x.add_block engine id (kept_parents p kept header.parents)) ids

  pub keep_txs : List BlockId → HashMap BlockId (List x.Tx) → HashMap BlockId (List x.Tx)
  keep_txs kept [] = []
  keep_txs kept (e ∷ txs) =
      let rest = keep_txs kept txs in if contains kept e.0 then e ∷ rest else rest

  module _ (m : Svm x.Tx x.Account) where
    -- The accounts after the blocks up to the pruning point.
    pub base_bank : DagChain x → List BlockId → ℕ → Result (Bank x.Account)
    base_bank s order p_idx =
        let bank0 = open_bank x m s (is_none s.base_accounts && not s.history_pruned) in
        elim s.base_accounts [
          | some base ↦
              from_bank (
                replay_blocks x m s (Accounts.commit m.accounts bank0 base)
                  (take (p_idx + 1) order))
          | none ↦
              if not s.history_pruned
              then from_bank (replay_blocks x m s bank0 (take (p_idx + 1) order))
              else elim s.checkpoint [
                | none ↦ err no_checkpoint
                | some cp ↦
                    let restored = Accounts.commit m.accounts bank0 cp.accounts in
                    if ltb (p_idx + 1) cp.len
                    then err before_checkpoint
                    else if leb cp.len p_idx
                    then from_bank
                        (replay_blocks x m s restored (drop cp.len (take (p_idx + 1) order)))
                    else ok restored
              ]
        ]

    -- The chain anchored at `p` over the new engine, the log replaced.
    pub anchor :
        DagChain x
        → BlockId
        → List BlockId
        → x.Dag
        → Bank x.Account
        → List DagBlockHeader
        → Bytes
        → DagChain x
    anchor s p kept engine base new_proof log = record s {
      engine = engine;
      log = log;
      genesis_dag = p;
      base_accounts = some (Accounts.dump base);
      history_pruned = true;
      checkpoint = none;
      headers = keep_headers s.headers kept;
      block_txs = keep_txs kept s.block_txs;
      blocks = kept;
      executed = [];
      tips = x.dag_tip engine ∷ [];
      proof = new_proof;
    }

    -- The records of the compacted log; a kept block that is not found is left out.
    pub prune_records :
        DagChain x
        → DagBlockHeader
        → Bank x.Account
        → List DagBlockHeader
        → List BlockId
        → Option (List Bytes)
    prune_records s p_header base new_proof suffix =
        cons_record
          (x.serialize_record (LogRecord.snapshot p_header (Accounts.dump base) new_proof))
          (block_records x (blocks_of x s suffix))

    -- The log is replaced before the chain in memory is.
    pub commit_prune :
        State x
        → BlockId
        → List BlockId
        → x.Dag
        → Bank x.Account
        → Option (List Bytes)
        → State x × Result ℕ
    commit_prune st p kept engine base none = (st, err encode)
    commit_prune st p kept engine base (some records) = elim (BlockLog.replace_all records) [
      | BlockLog.err e ↦ (st, err (storage e))
      | BlockLog.ok log ↦ (
        record {
          chain = anchor st.chain p kept engine base (build_proof_for x st.chain p) log;
          bank = none;
        },
        ok (length st.chain.blocks - length kept),
      )
    ]

    -- The chain over the kept blocks: the pruning point and the suffix after it.
    pub prune_kept :
        State x
        → BlockId
        → List BlockId
        → List BlockId
        → Bank x.Account
        → Option (State x × Result ℕ)
    prune_kept st p kept suffix base =
        readd st.chain p kept (x.genesis_dag st.chain.k p) suffix >>= λ engine.
        lookup p st.chain.headers >>= λ p_header. some (
          commit_prune st p kept engine base
            (prune_records st.chain p_header base (build_proof_for x st.chain p) suffix))

    pub prune_to : State x → ℕ → BlockId → Option (State x × Result ℕ)
    prune_to st p_idx p =
        let order = x.total_order st.chain.engine in
        elim (base_bank st.chain order p_idx) [
          | err e ↦ some (st, err e)
          | ok base ↦ prune_kept st p (drop p_idx order) (drop (suc p_idx) order) base
        ]

    pub prune_at : State x → Option ℕ → Option (State x × Result ℕ)
    prune_at st none = some (st, ok 0)
    prune_at st (some p_idx) =
        get_elem? (x.total_order st.chain.engine) p_idx >>= λ p. prune_to st p_idx p

    -- `none` is a panic.
    pub prune : State x → Option (State x × Result ℕ)
    prune st = cut st.chain >>= prune_at st
