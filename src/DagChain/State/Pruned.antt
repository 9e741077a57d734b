-- ===== src/DagChain/State/Pruned.antt =====
-- Calls that fail: a second pruning of transactions, and a replay over a transaction with a bad
-- signature.
use tao.Common.{
  ℕ, zero, suc, ◌≡◌, refl, ap, sym, ◌∙◌, true, false, none, some, List, [], ◌∷◌, ◌++◌, length, take,
  ltb, nat_beq, inl, inr, arith, Bool-cases, Option-cases, Option,
}
use tao.Common.Keys.{◌==◌, nat_eq, list_eq}
use tao.Common.Maps.{HashMap, lookup}
use tao.Consensus.Block.{BlockId}
use tao.Runtime.Bank.{
  Svm, Bank, BankError, Result, err, execute_transaction, bad_signature, history_pruned,
}
use tao.Runtime.Bank.Signature.{execute_transaction_bad}
use tao.DagChain.{Externals, DagChain, Checkpoint}
use tao.DagChain.State.{
  State, fresh_bank, execute_txs, pay, replay_block, replay_blocks, is_lost, rebuild_state,
  remove_txs, dropped, prune_at, prune_finalized_transactions,
}
use tao.DagChain.State.Replay.{Result-cases}

module _ (x : Externals) (m : Svm x.Tx x.Account) where
  abbrev Fails : Result (Bank x.Account) → Type 0
  Fails r = (e : BankError) × (r ≡ err e)

  execute_txs_bad :
      (bank : Bank x.Account) (pre post : List x.Tx) (tx : x.Tx)
      → m.verify tx ≡ false
      → Fails (execute_txs x m bank (pre ++ tx ∷ post))
  unfolding execute_txs
  execute_txs_bad bank [] post tx b =
      (bad_signature, rw (execute_txs, execute_transaction_bad m bank tx b) refl)
  execute_txs_bad bank (p ∷ pre) post tx b = elim (Result-cases (execute_transaction m bank p)) [
    | inl (next, e) ↦
        let (f, g) = execute_txs_bad next.0 pre post tx b in (f, rw (execute_txs, e) g)
    | inr (f, e) ↦ (f, rw (execute_txs, e) refl)
  ]

  replay_block_bad :
      (s : DagChain x) (bank : Bank x.Account) (block : BlockId) (pre post : List x.Tx) (tx : x.Tx)
      → (block == s.genesis_dag) ≡ false
      → lookup block s.block_txs ≡ some (pre ++ tx ∷ post)
      → m.verify tx ≡ false
      → Fails (replay_block x m s bank block)
  unfolding replay_block
  replay_block_bad s bank block pre post tx g found b = elim (Result-cases (pay x m s bank block)) [
    | inl (paid, p) ↦
        let (f, h) = execute_txs_bad paid pre post tx b in (f, rw (replay_block, g, p, found) h)
    | inr (f, p) ↦ (f, rw (replay_block, g, p) refl)
  ]

  replay_blocks_bad :
      (s : DagChain x) (bank : Bank x.Account) (before after : List BlockId) (block : BlockId)
      → ((b : Bank x.Account) → Fails (replay_block x m s b block))
      → Fails (replay_blocks x m s bank (before ++ block ∷ after))
  unfolding replay_blocks
  replay_blocks_bad s bank [] after block fails =
      let (f, e) = fails bank in (f, rw (replay_blocks, e) refl)
  replay_blocks_bad s bank (b ∷ before) after block fails =
      elim (Result-cases (replay_block x m s bank b)) [
        | inl (next, e) ↦
            let (f, g) = replay_blocks_bad s next before after block fails in
            (f, rw (replay_blocks, e) g)
        | inr (f, e) ↦ (f, rw (replay_blocks, e) refl)
      ]

  -- With one transaction of a bad signature in a block of the order other than the origin, the
  -- rebuild of the state fails, whatever else the order has.
  pub rebuild_state_bad :
      (s : DagChain x) (before after : List BlockId) (block : BlockId) (pre post : List x.Tx)
      (tx : x.Tx)
      → x.total_order s.engine ≡ before ++ block ∷ after
      → (block == s.genesis_dag) ≡ false
      → lookup block s.block_txs ≡ some (pre ++ tx ∷ post)
      → m.verify tx ≡ false
      → (e : BankError) × (rebuild_state x m s ≡ err e)
  unfolding rebuild_state
  rebuild_state_bad s before after block pre post tx o g found b =
      elim (Bool-cases (is_lost x m s)) [
        | inl l ↦ (history_pruned, rw (rebuild_state, l) refl)
        | inr l ↦
            let (f, e) =
              replay_blocks_bad s (fresh_bank x m s) before after block
                (λ bank. replay_block_bad s bank block pre post tx g found b) in
            (f, rw (rebuild_state, l, o) e)
      ]

  some_pruned :
      (cp : ℕ) (executed : List BlockId) (txs : HashMap BlockId (List x.Tx))
      → nat_beq (remove_txs x m txs (take cp executed)).1 0 ≡ false
      → ltb 0 cp ≡ true
  unfolding remove_txs
  some_pruned zero executed txs e = let bad : true ≡ false = e in cc
  some_pruned (suc cp) executed txs e = ground arith

  abbrev prune_by : State x → Option (Checkpoint x.Account) → Option (State x × ℕ)
  prune_by st o = elim o [ none ↦ some (st, 0) | some cp ↦ prune_at x m st cp ]

  prune_by_lem :
      (st : State x) → prune_finalized_transactions x m st ≡ prune_by st st.chain.checkpoint
  unfolding prune_finalized_transactions
  prune_by_lem st = refl

  prune_dropped :
      (st : State x) (cp : Checkpoint x.Account)
      → st.chain.checkpoint ≡ some cp
      → ltb 0 cp.len ≡ true
      → prune_finalized_transactions x m (dropped x m st cp) ≡ none
  unfolding dropped prune_at
  prune_dropped st cp c more =
      prune_by_lem (dropped x m st cp)
      ∙ ap (prune_by (dropped x m st cp)) c
      ∙ rw (prune_at, more) refl

  some_same : (a b : State x × ℕ) → some a ≡ some b → a ≡ b
  some_same a b e = cc

  -- After a call of `prune_finalized_transactions` that dropped some transactions, a second call at
  -- once, on the state that it left, panics.
  pub prune_again :
      (st st' : State x) (n : ℕ)
      → prune_finalized_transactions x m st ≡ some (st', n)
      → nat_beq n 0 ≡ false
      → prune_finalized_transactions x m st' ≡ none
  unfolding prune_at
  prune_again st st' n done some_n = elim (Option-cases st.chain.checkpoint) [
    | inl c ↦
        let same = some_same (st, 0) (st', n) (sym (prune_by_lem st ∙ ap (prune_by st) c) ∙ done) in
        let bad : true ≡ false = ap (λ r. nat_beq r.1 0) same ∙ some_n in cc
    | inr (cp, c) ↦
        let e : prune_at x m st cp ≡ some (st', n) =
          sym (prune_by_lem st ∙ ap (prune_by st) c) ∙ done in
        let count : ℕ = (remove_txs x m st.chain.block_txs (take cp.len st.chain.executed)).1 in
        elim (Bool-cases (ltb (length st.chain.executed) cp.len)) [
          | inl l ↦ let bad : none ≡ some (st', n) = rw (prune_at, l) at e in cc
          | inr l ↦ elim (Bool-cases (nat_beq count 0)) [
            | inl z ↦
                let same = some_same (st, 0) (st', n) (rw (prune_at, l, z) at e) in
                let bad : true ≡ false = ap (λ r. nat_beq r.1 0) same ∙ some_n in cc
            | inr z ↦
                let same =
                  some_same (dropped x m st cp, count) (st', n) (rw (prune_at, l, z) at e) in
                sym (ap (λ r. prune_finalized_transactions x m r.0) same)
                ∙ prune_dropped st cp c (some_pruned cp.len st.chain.executed st.chain.block_txs z)
          ]
        ]
  ]
