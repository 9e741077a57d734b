-- ===== src/DagChain/State/Tests.antt =====
-- A machine that moves nothing, and the theorems at the chain of the genesis.
use tao.Common.{ℕ, ◌%◌, nat_beq, ◌≡◌, refl, true, none, some, [], ◌∷◌, ◌++◌}
use tao.Common.Keys.{nat_eq, list_eq}
use tao.Common.Maps.{lookup}
use tao.Consensus.Block.{dag_id}
use tao.Runtime.Bank.{Svm, Bank, BankError, Result, ok, err}
use tao.Runtime.Bank as Bank
use tao.DagChain.{DagChain}
use tao.DagChain.Models.{externals, started}
use tao.DagChain.Open.{genesis_header, start}
use tao.DagChain.State.{
  State, is_lost, rebuild_state, virtual_state, remove_txs, dropped, prune_at,
  prune_finalized_transactions,
}
use tao.DagChain.State.Replay.{virtual_state-rebuild_state}
use tao.DagChain.State.Pruned.{rebuild_state_bad, prune_again}

-- Even transactions are signed.
abbrev machine : Svm ℕ ℕ
machine = record {
  accounts = record {
    lamports = λ a. a;
    data_is_empty = λ a. true;
    set_lamports = λ a n. n;
    new_system = λ n. n;
  };
  verify = λ tx. nat_beq (tx % 2) 0;
  is_writable = λ tx i. true;
  process = λ accounts tx. Bank.dropped;
  builtins = [];
}

abbrev asked : State externals
asked = record { chain = started; bank = none }

virtual_state-rebuild_state_example :
    (virtual_state externals machine asked).1 ≡ rebuild_state externals machine started
unfolding start is_lost
virtual_state-rebuild_state_example =
    virtual_state-rebuild_state externals machine asked refl refl (λ bank e. cc)

-- The chain with a block of the transaction 5, which is not signed.
abbrev unsigned : DagChain externals
unsigned = record started {
  engine = started.engine ++ (9 ∷ []) ∷ [];
  block_txs = ((9 ∷ []), (5 ∷ [])) ∷ [];
}

rebuild_state_bad_example : (e : BankError) × (rebuild_state externals machine unsigned ≡ err e)
unfolding start dag_id genesis_header lookup
rebuild_state_bad_example =
    rebuild_state_bad externals machine unsigned (started.genesis_dag ∷ []) [] (9 ∷ []) [] [] 5 refl
      refl refl refl

-- A checkpoint of one block, whose transaction can be dropped.
abbrev final : State externals
final = record {
  chain = record unsigned {
    executed = (9 ∷ []) ∷ [];
    checkpoint = some (record { len = 1; last_id = 9 ∷ []; accounts = [] });
  };
  bank = none;
}

prune_again_example :
    prune_finalized_transactions externals machine
      (dropped externals machine final (record { len = 1; last_id = 9 ∷ []; accounts = [] }))
    ≡ none
unfolding prune_finalized_transactions prune_at remove_txs lookup
prune_again_example =
    prune_again externals machine final
      (dropped externals machine final (record { len = 1; last_id = 9 ∷ []; accounts = [] })) 1 refl
      refl
