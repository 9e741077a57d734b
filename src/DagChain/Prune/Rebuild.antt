-- ===== src/DagChain/Prune/Rebuild.antt =====
-- A pruning forgets blocks and no state: the chain after it rebuilds the accounts of the chain before.
use mathlib.Core.Path.{subst}
use tao.Common.{
  ◌<◌, ℕ, zero, suc, ◌≡◌, refl, sym, ap, ◌∙◌, true, false, none, some, List, [], ◌∷◌, arith, inl,
  inr, first, take, drop, get_elem?, All, take-append-drop, some_inj,
}
use native.Mathlib.Numerals.{add-one}
use tao.Common.Keys.{◌==◌, nat_eq, list_eq, contains, beq_refl, list_beq_iff}
use tao.Common.Maps.{HashMap, lookup}
use tao.Common.Sets.{Distinct}
use tao.Consensus.Bytes.{Bytes}
use tao.Consensus.Block.{BlockId, DagBlockHeader}
use tao.Database.Accounts.{get}
use tao.Database.Accounts.Restore.{IsClean, commit-dump, insert-same}
use tao.Runtime.Bank.Clean.{IsSound}
use tao.Runtime.Bank.{Svm, Bank}
use tao.Runtime.Bank as Bank
use tao.DagChain.{Externals, DagChain}
use tao.DagChain.State.{
  State, fresh_bank, replay_block, replay_blocks, rebuild_state, is_lost, pay, open_bank, seed,
}
use tao.DagChain.State.Clean.{fresh_bank-IsClean, replay_blocks-IsClean}
use tao.DagChain.State.Replay.{replay_blocks-append, Result-cases}
use tao.DagChain.Prune.{Result, ok, from_bank, base_bank, anchor, keep_txs, prune}
use tao.DagChain.Prune.Valid.{
  HasOwnTip, Pruned, untouched, moved, keep_headers-lookup, prune-Pruned,
}

-- The accounts of the machine are as they were installed.
abbrev pub HasBuiltins : {Tx Account : Type 0} → Svm Tx Account → Bank Account → Type 0
HasBuiltins m bank = All (λ b. get bank b.0 ≡ some b.1) m.builtins

install-same :
    {Tx Account : Type 0} (m : Svm Tx Account) (bank : Bank Account)
    (builtins : List (Bytes × Account))
    → All (λ b. get bank b.0 ≡ some b.1) builtins
    → Bank.install m bank builtins ≡ bank
unfolding Bank.install get tao.Database.Accounts.set
install-same m bank [] h = refl
install-same m bank (b ∷ builtins) (here, h) =
    ap (λ db. Bank.install m db builtins) (insert-same b.0 b.1 bank here)
    ∙ install-same m bank builtins h

contains-drop :
    (n : ℕ) (ids : List BlockId) (a : BlockId)
    → contains ids a ≡ false
    → contains (drop n ids) a ≡ false
contains-drop zero ids a h = h
contains-drop (suc n) [] a h = h
contains-drop (suc n) (i ∷ ids) a h = contains-drop n ids a (ground arith)

Distinct-get_elem :
    (order : List BlockId) (i : ℕ) (p : BlockId)
    → Distinct order
    → get_elem? order i ≡ some p
    → contains (drop (suc i) order) p ≡ false
Distinct-get_elem [] i p d e = cc
Distinct-get_elem (o ∷ order) zero p d e = rw (sym (some_inj e)) d.0
Distinct-get_elem (o ∷ order) (suc i) p d e = Distinct-get_elem order i p d.1 e

Distinct-first :
    (order : List BlockId) (i : ℕ) (origin : BlockId)
    → Distinct order
    → first order ≡ some origin
    → contains (drop (suc i) order) origin ≡ false
Distinct-first [] i origin d e = cc
Distinct-first (o ∷ order) i origin d e = contains-drop i order origin (rw (sym (some_inj e)) d.0)

module _ (x : Externals) where
  keep_txs-lookup :
      (kept : List BlockId) (txs : HashMap BlockId (List x.Tx)) (id : BlockId)
      → contains kept id ≡ true
      → lookup id (keep_txs x kept txs) ≡ lookup id txs
  unfolding keep_txs lookup
  keep_txs-lookup kept [] id h = refl
  keep_txs-lookup kept (e ∷ txs) id h =
      ground (arith, keep_txs-lookup kept txs id h, list_beq_iff e.0 id)

  module _ (m : Svm x.Tx x.Account) where
    -- What the order has after the origin `p` is not the origin, before or after.
    module _ (s : DagChain x) (p : BlockId) (kept : List BlockId) (engine : x.Dag)
        (base : Bank x.Account) (new_proof : List DagBlockHeader) (log : Bytes) where
      abbrev anchored : DagChain x
      anchored = anchor x m s p kept engine base new_proof log

      fresh_bank-anchor :
          IsClean m.accounts base → HasBuiltins m base → fresh_bank x m anchored ≡ base
      unfolding anchor fresh_bank open_bank seed Bank.new
      fresh_bank-anchor clean installed =
          ap (λ db. Bank.install m db m.builtins) (commit-dump m.accounts base clean)
          ∙ install-same m base m.builtins installed

      pay-anchor :
          (bank : Bank x.Account) (b : BlockId)
          → contains kept b ≡ true
          → pay x m anchored bank b ≡ pay x m s bank b
      unfolding anchor pay
      pay-anchor bank b k = rw (pay, keep_headers-lookup s.headers kept b, k) refl

      replay_block-anchor :
          (bank : Bank x.Account) (b : BlockId)
          → contains kept b ≡ true
          → (b == p) ≡ false
          → (b == s.genesis_dag) ≡ false
          → replay_block x m anchored bank b ≡ replay_block x m s bank b
      unfolding anchor replay_block
      replay_block-anchor bank b k not_p not_origin =
          let pays = pay-anchor bank b k in
          let txs : lookup b anchored.block_txs ≡ lookup b s.block_txs =
            keep_txs-lookup kept s.block_txs b k in
          elim (Result-cases (pay x m s bank b)) [
            | inl (paid, e) ↦ rw (replay_block, not_p, not_origin, pays, e, txs) refl
            | inr (f, e) ↦ rw (replay_block, not_p, not_origin, pays, e) refl
          ]

      replay_blocks-anchor :
          (bank : Bank x.Account) (blocks : List BlockId)
          → ((b : BlockId) → contains blocks b ≡ true → contains kept b ≡ true)
          → contains blocks p ≡ false
          → contains blocks s.genesis_dag ≡ false
          → replay_blocks x m anchored bank blocks ≡ replay_blocks x m s bank blocks
      unfolding replay_blocks
      replay_blocks-anchor bank [] among no_p no_origin = refl
      replay_blocks-anchor bank (b ∷ blocks) among no_p no_origin =
          let same =
            replay_block-anchor bank b (among b (ground (arith, list_beq_iff b b)))
              (ground (arith, list_beq_iff b p)) (ground (arith, list_beq_iff b s.genesis_dag)) in
          elim (Result-cases (replay_block x m s bank b)) [
            | inl (next, e) ↦
                rw (replay_blocks, same, e)
                  (replay_blocks-anchor next blocks
                    (λ c h. among c (ground (arith, list_beq_iff b c)))
                    (ground (arith, list_beq_iff b p))
                    (ground (arith, list_beq_iff b s.genesis_dag)))
            | inr (f, e) ↦ rw (replay_blocks, same, e) refl
          ]

    -- The first pruning of a chain starts from the accounts of its genesis.
    base_bank-fresh :
        (s : DagChain x) (order : List BlockId) (i : ℕ) (base : Bank x.Account)
        → s.history_pruned ≡ false
        → s.base_accounts ≡ none
        → base_bank x m s order i ≡ ok base
        → replay_blocks x m s (fresh_bank x m s) (take (suc i) order) ≡ Bank.ok base
    unfolding base_bank fresh_bank
    base_bank-fresh s order i base kept fresh e =
        let chosen : base_bank x m s order i
            ≡ from_bank (replay_blocks x m s (fresh_bank x m s) (take (suc i) order)) =
          simp (base_bank, fresh, kept, add-one) in
        elim (Result-cases (replay_blocks x m s (fresh_bank x m s) (take (suc i) order))) [
          | inl (bank, f) ↦
              let done = sym (rw f at chosen) ∙ e in
              let same : bank ≡ base = cc in rw f (ap Bank.ok same)
          | inr (f, w) ↦ let bad = sym (rw w at chosen) ∙ e in cc
        ]

    rebuild_state-fresh :
        (s : DagChain x)
        → s.history_pruned ≡ false
        → rebuild_state x m s ≡ replay_blocks x m s (fresh_bank x m s) (x.total_order s.engine)
    unfolding rebuild_state is_lost
    rebuild_state-fresh s kept = rw (rebuild_state, is_lost, kept) refl

    replay_blocks-origin :
        (s : DagChain x) (bank : Bank x.Account) (blocks : List BlockId)
        → replay_blocks x m s bank (s.genesis_dag ∷ blocks) ≡ replay_blocks x m s bank blocks
    unfolding replay_blocks replay_block
    replay_blocks-origin s bank blocks =
        let skipped : replay_block x m s bank s.genesis_dag ≡ Bank.ok bank =
          rw (replay_block, beq_refl s.genesis_dag) refl in
        rw (replay_blocks, skipped) refl

    -- The accounts of the anchored chain, replayed from its base.
    rebuild_state-anchor :
        (s : DagChain x) (i : ℕ) (p : BlockId) (base : Bank x.Account) (engine : x.Dag)
        (new_proof : List DagBlockHeader) (log : Bytes)
        → get_elem? (x.total_order s.engine) i ≡ some p
        → Distinct (x.total_order s.engine)
        → first (x.total_order s.engine) ≡ some s.genesis_dag
        → x.total_order engine ≡ p ∷ drop (suc i) (x.total_order s.engine)
        → IsClean m.accounts base
        → HasBuiltins m base
        → rebuild_state x m
            (anchored s p (p ∷ drop (suc i) (x.total_order s.engine)) engine base new_proof log)
          ≡ replay_blocks x m s base (drop (suc i) (x.total_order s.engine))
    unfolding rebuild_state is_lost anchor
    rebuild_state-anchor s i p base engine new_proof log here d origin same clean installed =
        let order = x.total_order s.engine in
        let suffix = drop (suc i) order in
        let fresh = fresh_bank-anchor s p (p ∷ suffix) engine base new_proof log clean installed in
        let blocks =
          replay_blocks-anchor s p (p ∷ suffix) engine base new_proof log base suffix
            (λ b h. ground arith) (Distinct-get_elem order i p d here)
            (Distinct-first order i s.genesis_dag d origin) in
        let after = anchored s p (p ∷ suffix) engine base new_proof log in
        rw (rebuild_state, fresh, same) (replay_blocks-origin after base suffix ∙ blocks)

    -- A full replay goes through the blocks up to the pruning point, and on from their accounts.
    rebuild_state-split :
        (s : DagChain x) (i : ℕ) (base : Bank x.Account)
        → s.history_pruned ≡ false
        → replay_blocks x m s (fresh_bank x m s) (take (suc i) (x.total_order s.engine))
          ≡ Bank.ok base
        → rebuild_state x m s ≡ replay_blocks x m s base (drop (suc i) (x.total_order s.engine))
    rebuild_state-split s i base kept e =
        let order = x.total_order s.engine in
        let split =
          replay_blocks-append x m s (fresh_bank x m s) (take (suc i) order) (drop (suc i) order) in
        rebuild_state-fresh s kept
        ∙ sym (ap (replay_blocks x m s (fresh_bank x m s)) (take-append-drop (suc i) order))
        ∙ rw e at split

    -- For an engine whose tip is its genesis or a block that was added to it and a sound machine: a
    -- pruning of a chain that was not pruned before and has all its transactions leaves a chain
    -- that rebuilds to the same accounts, errors included. This is if the pruning does not panic,
    -- no allocation is of zero lamports, the order before starts with the origin and repeats no
    -- block, the new engine orders the kept blocks as before, and the bank after each first
    -- part of the order has the accounts of the machine as they were installed.
    pub prune-rebuild_state :
        HasOwnTip x
        → IsSound m
        → (st after : State x) (r : Result ℕ) → prune x m st ≡ some (after, r)
        → st.chain.history_pruned ≡ false
        → st.chain.base_accounts ≡ none
        → All (λ a. 0 < a.1) st.chain.allocations
        → first (x.total_order st.chain.engine) ≡ some st.chain.genesis_dag
        → Distinct (x.total_order st.chain.engine)
        → x.total_order after.chain.engine ≡ after.chain.blocks
        → ((n : ℕ) (bank : Bank x.Account)
            → replay_blocks x m st.chain
                (fresh_bank x m st.chain)
                (take n (x.total_order st.chain.engine))
              ≡ Bank.ok bank
            → HasBuiltins m bank)
        → rebuild_state x m after.chain ≡ rebuild_state x m st.chain
    unfolding anchor
    prune-rebuild_state laws sound st after r e kept fresh funded origin d same installed =
        rebuilt (prune-Pruned m laws st after r e)
      where
        order_kept :
            (i : ℕ) (p : BlockId) (base : Bank x.Account) (engine : x.Dag)
            (new_proof : List DagBlockHeader) (log : Bytes)
            → after.chain
              ≡ anchored st.chain p
                  (p ∷ drop (suc i) (x.total_order st.chain.engine))
                  engine
                  base
                  new_proof
                  log
            → x.total_order engine ≡ p ∷ drop (suc i) (x.total_order st.chain.engine)
        order_kept i p base engine new_proof log chain =
            subst (λ c. x.total_order c.engine ≡ c.blocks) chain same

        rebuilt : Pruned m st after r → rebuild_state x m after.chain ≡ rebuild_state x m st.chain
        rebuilt (untouched t) = ap (λ q. rebuild_state x m q.chain) t
        rebuilt (moved i n p base engine new_proof log _ based chain here _ _ _) =
            let prefix =
              base_bank-fresh st.chain (x.total_order st.chain.engine) i base kept fresh based in
            ap (rebuild_state x m) chain
            ∙ rebuild_state-anchor st.chain i p base engine new_proof log here d origin
                (order_kept i p base engine new_proof log chain)
                (replay_blocks-IsClean x m sound st.chain (fresh_bank x m st.chain) base
                  (take (suc i) (x.total_order st.chain.engine))
                  (fresh_bank-IsClean x m sound st.chain funded) prefix)
                (installed (suc i) base prefix)
            ∙ sym (rebuild_state-split st.chain i base kept prefix)
