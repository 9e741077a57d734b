-- ===== src/DagChain/State.antt =====
-- The execution of the ordered blocks: the virtual state, its cache and checkpoints.
pub mod Replay
pub mod Pruned
pub mod Clean
mod Tests
use tao.Common.{
  ℕ, ◌+◌, ◌-◌, ◌*◌, Bool, true, false, ◌&&◌, ◌||◌, Option, none, some, List, [], ◌∷◌, ltb, leb,
  nat_beq, if◌then◌else◌, length, take, drop, get_elem?,
}
use tao.Common.Keys.{◌==◌, nat_eq, list_eq}
use tao.Common.Maps.{HashMap, lookup}
use tao.Consensus.Bytes.{Bytes}
use tao.Consensus.Block.{BlockId}
use tao.Database.Accounts as Accounts
use tao.Runtime.Bank.{
  Svm, Bank, Result, ok, err, execute_transaction, airdrop, missing_header, history_pruned,
  below_pruned,
}
use tao.Runtime.Bank as Bank
use tao.DagChain.{Externals, DagChain, Checkpoint}

-- `self.executed.as_slice() == &order[..self.executed.len()]`, with the test of the lengths
pub is_prefix : List BlockId → List BlockId → Bool
is_prefix [] order = true
is_prefix (b ∷ executed) [] = false
is_prefix (b ∷ executed) (o ∷ order) = b == o && is_prefix executed order

-- The chain and the cached bank.
pub record State (x : Externals) : Type 0 where
  pub chain : DagChain x
  pub bank : Option (Bank x.Account)

module _ (x : Externals) (m : Svm x.Tx x.Account) where
  unfoldable pub fund : Bank x.Account → List (Bytes × ℕ) → Bank x.Account
  fund db [] = db
  fund db (a ∷ allocations) = fund (Accounts.set db a.0 (m.accounts.new_system a.1)) allocations

  -- The accounts of the genesis, or of the origin after a pruning.
  unfoldable pub seed : DagChain x → Bank x.Account
  seed s = elim s.base_accounts [
    | some base ↦ Accounts.commit m.accounts [] base
    | none ↦ fund [] s.allocations
  ]

  unfoldable pub open_bank : DagChain x → Bool → Bank x.Account
  open_bank s seed_genesis = Bank.new m (if seed_genesis then seed s else [])

  unfoldable pub fresh_bank : DagChain x → Bank x.Account
  fresh_bank s = open_bank s true

  unfoldable pub execute_txs : Bank x.Account → List x.Tx → Result (Bank x.Account)
  execute_txs bank [] = ok bank
  execute_txs bank (tx ∷ txs) = elim (execute_transaction m bank tx) [
    | ok (bank', outcome) ↦ execute_txs bank' txs
    | err e ↦ err e
  ]

  -- The reward goes to the miner of the header.
  unfoldable pub pay : DagChain x → Bank x.Account → BlockId → Result (Bank x.Account)
  pay s bank block = if nat_beq s.reward 0 then ok bank else elim (lookup block s.headers) [
    | none ↦ err missing_header
    | some header ↦ ok (airdrop m bank header.miner s.reward)
  ]

  unfoldable pub replay_block : DagChain x → Bank x.Account → BlockId → Result (Bank x.Account)
  replay_block s bank block = if block == s.genesis_dag then ok bank else elim (pay s bank block) [
    | err e ↦ err e
    | ok paid ↦ elim (lookup block s.block_txs) [ none ↦ ok paid | some txs ↦ execute_txs paid txs ]
  ]

  unfoldable pub replay_blocks :
      DagChain x → Bank x.Account → List BlockId → Result (Bank x.Account)
  replay_blocks s bank [] = ok bank
  replay_blocks s bank (block ∷ blocks) = elim (replay_block s bank block) [
    | ok bank' ↦ replay_blocks s bank' blocks
    | err e ↦ err e
  ]

  -- Transactions were dropped, and there is no base to start from.
  unfoldable pub is_lost : DagChain x → Bool
  is_lost s = s.history_pruned && elim s.base_accounts [ none ↦ true | some base ↦ false ]

  unfoldable pub rebuild_state : DagChain x → Result (Bank x.Account)
  rebuild_state s =
      if is_lost s
      then err history_pruned
      else replay_blocks s (fresh_bank s) (x.total_order s.engine)

  -- The checkpoint when it matches the order.
  pub matching : DagChain x → List BlockId → Option (Checkpoint x.Account)
  matching s order = elim s.checkpoint [
    | none ↦ none
    | some cp ↦ elim (get_elem? order (cp.len - 1)) [
      | none ↦ none
      | some id ↦ if leb cp.len (length order) && id == cp.last_id then some cp else none
    ]
  ]

  pub restore : DagChain x → Checkpoint x.Account → Bank x.Account
  restore s cp = Accounts.commit m.accounts (open_bank s false) cp.accounts

  -- The state of an order that does not extend the one that was executed.
  pub rebuild_from : DagChain x → List BlockId → Result (Bank x.Account)
  rebuild_from s order = elim (matching s order) [
    | some cp ↦ replay_blocks s (restore s cp) (drop cp.len order)
    | none ↦ if is_lost s then err below_pruned else replay_blocks s (fresh_bank s) order
  ]

  pub cp_len : DagChain x → ℕ
  cp_len s = elim s.checkpoint [ none ↦ 0 | some cp ↦ cp.len ]

  -- The bank after the first blocks of the executed order.
  pub bank_at : DagChain x → ℕ → Result (Bank x.Account)
  bank_at s target = elim s.checkpoint [
    | some cp ↦ replay_blocks s (restore s cp) (drop cp.len (take target s.executed))
    | none ↦ replay_blocks s (fresh_bank s) (take target s.executed)
  ]

  -- Whether there are enough blocks after the checkpoint, and the length of the next one.
  pub next_checkpoint : DagChain x → Option ℕ
  next_checkpoint s =
      let target = length s.executed - s.finality_depth in
      if nat_beq s.finality_depth 0
        || ltb (length s.executed) (cp_len s + 2 * s.finality_depth)
        || leb target (cp_len s)
      then none
      else some target

  pub maybe_advance_checkpoint : DagChain x → Result (DagChain x)
  maybe_advance_checkpoint s = elim (next_checkpoint s) [
    | none ↦ ok s
    | some target ↦ elim (bank_at s target) [
      | err e ↦ err e
      | ok bank ↦ elim (get_elem? s.executed (target - 1)) [
        | none ↦ ok s
        | some last_id ↦ ok (record s {
          checkpoint =
              some (record { len = target; last_id = last_id; accounts = Accounts.dump bank });
        })
      ]
    ]
  ]

  -- The bank of the order: the cached one and the blocks after it, or a rebuild.
  pub bank_of : State x → List BlockId → Result (Bank x.Account)
  bank_of st order = elim st.bank [
    | none ↦ rebuild_from st.chain order
    | some bank ↦
        if is_prefix st.chain.executed order
        then replay_blocks st.chain bank (drop (length st.chain.executed) order)
        else rebuild_from st.chain order
  ]

  -- After an error the cached bank is gone.
  pub virtual_state : State x → State x × Result (Bank x.Account)
  virtual_state st =
      let order = x.total_order st.chain.engine in
      elim (bank_of st order) [
        | err e ↦ (record st { bank = none }, err e)
        | ok bank ↦
            let s' = record st.chain { executed = order } in
            elim (maybe_advance_checkpoint s') [
              | err e ↦ (record { chain = s'; bank = some bank }, err e)
              | ok s'' ↦ (record { chain = s''; bank = some bank }, ok bank)
            ]
      ]

  pub remove_txs : HashMap BlockId (List x.Tx) → List BlockId → HashMap BlockId (List x.Tx) × ℕ
  remove_txs txs [] = (txs, 0)
  remove_txs txs (id ∷ ids) = elim (lookup id txs) [
    | none ↦ remove_txs txs ids
    | some found ↦ let (rest, pruned) = remove_txs (Accounts.erase id txs) ids in (rest, pruned + 1)
  ]

  -- The chain without the transactions of the blocks before the checkpoint.
  pub dropped : State x → Checkpoint x.Account → State x
  dropped st cp = record {
    chain = record st.chain {
      block_txs = (remove_txs st.chain.block_txs (take cp.len st.chain.executed)).0;
      history_pruned = true;
      executed = [];
    };
    bank = none;
  }

  -- `none` is the panic of a slice past the end of the executed order. With nothing to drop the map of
  -- transactions is as it was.
  pub prune_at : State x → Checkpoint x.Account → Option (State x × ℕ)
  prune_at st cp =
      let pruned = (remove_txs st.chain.block_txs (take cp.len st.chain.executed)).1 in
      if ltb (length st.chain.executed) cp.len
      then none
      else if nat_beq pruned 0
      then some (st, 0)
      else some (dropped st cp, pruned)

  pub prune_finalized_transactions : State x → Option (State x × ℕ)
  prune_finalized_transactions st = elim st.chain.checkpoint [
    | none ↦ some (st, 0)
    | some cp ↦ prune_at st cp
  ]
