-- ===== src/DagChain/Prune/Tests.antt =====
-- A chain of three blocks whose history is lost, and a call of `prune` on it.
use tao.Common.{
  ℕ, ◌≡◌, refl, true, none, some, List, [], ◌∷◌, ◌++◌, map, arith, last, if◌then◌else◌, Option,
}
use tao.Common.Keys.{◌==◌, nat_eq, list_eq, beq_refl}
use tao.Consensus.Bytes.{zero_hash}
use tao.Consensus.Block.{BlockId, DagBlockHeader}
use tao.Common.Int.{pos}
use tao.DagChain.{Externals, DagChain}
use tao.DagChain.Models.{externals, good, end_of, cfg}
use tao.DagChain.Accept.{store, remap, remap_all}
use tao.DagChain.Accept.Invariant.{Known, IsValid, store-IsValid}
use tao.DagChain.Open.{start}
use tao.DagChain.Open.Valid.{start-IsValid}
use tao.DagChain.State.{
  State, replay_blocks, replay_block, pay, execute_txs, open_bank, fresh_bank, seed, fund, is_lost,
  rebuild_state,
}
use tao.Runtime.Bank.{Svm, Bank, execute_transaction}
use tao.Runtime.Bank as Bank
use tao.Database.Accounts.{dump, set, commit, erase}
use tao.Runtime.Bank.Clean.{IsSound}
use tao.Database.BlockLog.{replace_all, write_all, append}
use tao.DagChain.Export.{blocks_of, get_block, encode_all}
use tao.DagChain.Snapshot.{block_records, build_proof_for, walk_interlinks, header_for}
use tao.Common.Maps.{lookup, insert}
use tao.DagChain.Prune.Rebuild.{prune-rebuild_state}
use tao.DagChain.Prune.{
  no_checkpoint, err, prune, prune_at, prune_to, cut, retain, selected_chain, find_cut, base_bank,
  keep_txs, keep_headers, anchor, prune_kept, commit_prune, readd, kept_parents, prune_records, ok,
  Result,
}
use tao.DagChain.Prune.Valid.{add_blocks, HasOwnTip, Pruned, prune-IsValid}

-- Transactions are signed and move nothing.
abbrev machine : Svm ℕ ℕ
machine = record {
  accounts = record {
    lamports = λ a. a;
    data_is_empty = λ a. true;
    set_lamports = λ a n. n;
    new_system = λ n. n;
  };
  verify = λ tx. true;
  is_writable = λ tx i. true;
  process = λ accounts tx. Bank.dropped;
  builtins = [];
}

-- The engine whose selected parent is the block that came before.
abbrev before_in : List BlockId → BlockId → BlockId
before_in [] id = zero_hash
before_in (a ∷ []) id = a
before_in (a ∷ b ∷ dag) id = let rest = before_in (b ∷ dag) id in if b == id then a else rest

abbrev linear : Externals
linear = record externals { selected_parent = before_in }

last-append : (xs : List BlockId) (a : BlockId) → last (xs ++ a ∷ []) ≡ some a
last-append [] a = refl
last-append (x ∷ []) a = refl
last-append (x ∷ y ∷ ys) a = last-append (y ∷ ys) a

end_of-add_blocks :
    (dag : List BlockId) (e : BlockId) (calls : List (BlockId × List BlockId))
    → end_of dag ≡ e
    → Known (e ∷ map (λ c. c.0) calls) (end_of (add_blocks linear dag calls))
unfolding add_blocks
end_of-add_blocks dag e [] h = rw h ground (arith, beq_refl e)
end_of-add_blocks dag e (c ∷ calls) h =
    let deeper =
      end_of-add_blocks (dag ++ c.0 ∷ []) c.0 calls (rw (end_of, last-append dag c.0) refl) in
    ground arith

own_tip : HasOwnTip linear
own_tip = record { own_tip = λ k p calls. end_of-add_blocks (p ∷ []) p calls refl }

abbrev started : DagChain linear
started = start linear cfg []

abbrev shallow : DagChain linear
shallow = record started {
  engine = started.genesis_dag ∷ (9 ∷ []) ∷ (8 ∷ []) ∷ [];
  lwma_window = 0;
  finality_depth = 1;
  history_pruned = true;
}

shallow-IsValid : IsValid shallow
shallow-IsValid =
    let v = start-IsValid cfg [] in
    record {
      origin = v.origin;
      has_header = v.has_header;
      is_block = v.is_block;
      tips_known = v.tips_known;
      some_tip = v.some_tip;
    }

abbrev deep : State linear
deep = record {
  chain = store linear (store linear shallow good (9 ∷ []) []) good (8 ∷ []) [];
  bank = none;
}

deep-IsValid : IsValid deep.chain
deep-IsValid =
    store-IsValid (store linear shallow good (9 ∷ []) []) good (8 ∷ []) []
      (store-IsValid shallow good (9 ∷ []) [] shallow-IsValid)

-- The pruning point is found, but the history before it is lost.
pruned : prune linear machine deep ≡ some (deep, err no_checkpoint)
unfolding prune prune_at prune_to cut retain selected_chain find_cut base_bank store start
    tao.Consensus.Block.dag_id tao.DagChain.Open.genesis_header
pruned = refl

prune-IsValid_example : IsValid deep.chain × Pruned machine deep deep (err no_checkpoint)
prune-IsValid_example =
    prune-IsValid machine own_tip deep deep (err no_checkpoint) deep-IsValid pruned

-- A chain of four blocks with short ids and its whole history, over which no reward is paid.
abbrev header_after : BlockId → DagBlockHeader
header_after parent = record {
  version = 1;
  parents = parent ∷ [];
  timestamp = pos 0;
  tx_merkle_root = [];
  state_root = [];
  target = [];
  interlink = [];
  nonce = 0;
  miner = [];
}

abbrev whole : ℕ → State linear
whole lamports = record {
  chain = record started {
    genesis_dag = 6 ∷ [];
    engine = (6 ∷ []) ∷ (9 ∷ []) ∷ (8 ∷ []) ∷ (7 ∷ []) ∷ [];
    blocks = (6 ∷ []) ∷ (9 ∷ []) ∷ (8 ∷ []) ∷ (7 ∷ []) ∷ [];
    headers =
        ((6 ∷ []), header_after [])
        ∷ ((9 ∷ []), header_after (6 ∷ []))
        ∷ ((8 ∷ []), header_after (9 ∷ []))
        ∷ ((7 ∷ []), header_after (8 ∷ []))
        ∷ [];
    block_txs = ((9 ∷ []), (5 ∷ [])) ∷ ((8 ∷ []), []) ∷ ((7 ∷ []), (4 ∷ [])) ∷ [];
    lwma_window = 1;
    finality_depth = 1;
    reward = 0;
    allocations = ((3 ∷ []), lamports) ∷ [];
  };
  bank = none;
}

ok_inj : {a b : Bank ℕ} → Bank.ok a ≡ Bank.ok b → a ≡ b
ok_inj e = cc

abbrev state_of : Option (State linear × Result ℕ) → State linear
state_of none = whole 0
state_of (some (st, r)) = st

after : ℕ → State linear
after lamports = state_of (prune linear machine (whole lamports))

-- Two blocks are dropped, the genesis and the next, and two are kept, in their order. An account of
-- the genesis without lamports is lost.
pruned_whole :
    (prune linear machine (whole 50) ≡ some (after 50, ok 2))
    × (linear.total_order (after 50).chain.engine ≡ (after 50).chain.blocks)
    × (rebuild_state linear machine (whole 0).chain ≡ Bank.ok (((3 ∷ []), 0) ∷ []))
    × (rebuild_state linear machine (after 0).chain ≡ Bank.ok [])
unfolding after prune prune_at prune_to prune_kept commit_prune cut retain selected_chain find_cut
    base_bank readd kept_parents prune_records lookup remap remap_all blocks_of get_block encode_all
    block_records build_proof_for walk_interlinks header_for dump replay_blocks replay_block pay
    execute_txs execute_transaction replace_all write_all append start Bank.apply_result open_bank
    Bank.new Bank.install seed fund anchor set insert rebuild_state fresh_bank is_lost commit erase
    keep_txs keep_headers
pruned_whole = (refl, refl, refl, refl)

sound : IsSound machine
sound = record { new_lamports = λ n. refl; set_lamports = λ account n. refl; builtins_alive = tt }

prune-rebuild_state_example :
    rebuild_state linear machine (after 50).chain ≡ rebuild_state linear machine (whole 50).chain
unfolding start
prune-rebuild_state_example =
    prune-rebuild_state linear machine own_tip sound (whole 50) (after 50) (ok 2) pruned_whole.0
      refl refl (omega arith, tt) refl (refl, (refl, (refl, (refl, tt)))) pruned_whole.1
      (λ n bank e. tt)
