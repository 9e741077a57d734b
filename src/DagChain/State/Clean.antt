-- ===== src/DagChain/State/Clean.antt =====
-- The replay of blocks keeps each account once, and no empty one.
use tao.Common.{
  ℕ, ◌≡◌, sym, List, [], ◌∷◌, inl, inr, Bool-cases, Option-cases, nat_beq, All, ◌<◌, refl, arith,
  false,
}
use tao.Common.Keys.{◌==◌, nat_eq, list_eq}
use tao.Common.Maps.{lookup}
use tao.Consensus.Bytes.{Bytes}
use tao.Consensus.Block.{BlockId}
use tao.Database.Accounts.{set}
use tao.Database.Accounts.Restore.{
  IsClean, IsAlive, insert-IsClean, commit-IsClean, nothing-IsClean,
}
use tao.Runtime.Bank.{Svm, Bank, ok, execute_transaction, airdrop, new}
use tao.Runtime.Bank.Clean.{IsSound, install-IsClean, execute_transaction-IsClean, airdrop-IsClean}
use tao.DagChain.{Externals, DagChain}
use tao.DagChain.State.{
  fund, seed, open_bank, fresh_bank, execute_txs, pay, replay_block, replay_blocks,
}
use tao.DagChain.State.Replay.{Result-cases}

module _ (x : Externals) (m : Svm x.Tx x.Account) (sound : IsSound m) where
  fund-IsClean :
      (db : Bank x.Account) (allocations : List (Bytes × ℕ))
      → All (λ a. 0 < a.1) allocations
      → IsClean m.accounts db
      → IsClean m.accounts (fund x m db allocations)
  unfolding fund set
  fund-IsClean db [] p d = d
  fund-IsClean db (a ∷ allocations) (here, p) d =
      let some_left : nat_beq a.1 0 ≡ false = ground arith in
      let alive : IsAlive m.accounts (m.accounts.new_system a.1) =
        rw (sound.new_lamports a.1, some_left) refl in
      fund-IsClean (set db a.0 (m.accounts.new_system a.1)) allocations p
        (insert-IsClean m.accounts a.0 (m.accounts.new_system a.1) db alive d)

  seed-IsClean :
      (s : DagChain x) → All (λ a. 0 < a.1) s.allocations → IsClean m.accounts (seed x m s)
  unfolding seed
  seed-IsClean s p = elim (Option-cases s.base_accounts) [
    | inl e ↦ rw (seed, e) (fund-IsClean [] s.allocations p (nothing-IsClean m.accounts))
    | inr (base, e) ↦ rw (seed, e) (commit-IsClean m.accounts [] base (nothing-IsClean m.accounts))
  ]

  pub fresh_bank-IsClean :
      (s : DagChain x) → All (λ a. 0 < a.1) s.allocations → IsClean m.accounts (fresh_bank x m s)
  unfolding fresh_bank open_bank new
  fresh_bank-IsClean s p =
      install-IsClean m (seed x m s) m.builtins sound.builtins_alive (seed-IsClean s p)

  execute_txs-IsClean :
      (bank after : Bank x.Account) (txs : List x.Tx)
      → IsClean m.accounts bank
      → execute_txs x m bank txs ≡ ok after
      → IsClean m.accounts after
  unfolding execute_txs
  execute_txs-IsClean bank after [] d e = let same : bank ≡ after = cc in rw (sym same) d
  execute_txs-IsClean bank after (tx ∷ txs) d e =
      elim (Result-cases (execute_transaction m bank tx)) [
        | inl ((next, outcome), f) ↦
            execute_txs-IsClean next after txs
              (execute_transaction-IsClean m bank next tx outcome d f) (rw (execute_txs, f) at e)
        | inr (w, f) ↦ let bad = rw (execute_txs, f) at e in cc
      ]

  pay-IsClean :
      (s : DagChain x) (bank after : Bank x.Account) (block : BlockId)
      → IsClean m.accounts bank
      → pay x m s bank block ≡ ok after
      → IsClean m.accounts after
  unfolding pay
  pay-IsClean s bank after block d e = elim (Bool-cases (nat_beq s.reward 0)) [
    | inl free ↦ let done = simp (pay, free) at e in let same : bank ≡ after = cc in rw (sym same) d
    | inr paid ↦ elim (Option-cases (lookup block s.headers)) [
      | inl f ↦ let bad = simp (pay, paid, f) at e in cc
      | inr (header, f) ↦
          let done = simp (pay, paid, f) at e in
          let same : airdrop m bank header.miner s.reward ≡ after = cc in
          rw (sym same) (airdrop-IsClean m sound bank header.miner s.reward d)
    ]
  ]

  replay_block-IsClean :
      (s : DagChain x) (bank after : Bank x.Account) (block : BlockId)
      → IsClean m.accounts bank
      → replay_block x m s bank block ≡ ok after
      → IsClean m.accounts after
  unfolding replay_block
  replay_block-IsClean s bank after block d e = elim (Bool-cases (block == s.genesis_dag)) [
    | inl origin ↦
        let done = rw (replay_block, origin) at e in let same : bank ≡ after = cc in rw (sym same) d
    | inr other ↦ elim (Result-cases (pay x m s bank block)) [
      | inr (w, f) ↦ let bad = rw (replay_block, other, f) at e in cc
      | inl (paid, f) ↦
          let kept = pay-IsClean s bank paid block d f in
          elim (Option-cases (lookup block s.block_txs)) [
            | inl g ↦
                let done = rw (replay_block, other, f, g) at e in
                let same : paid ≡ after = cc in rw (sym same) kept
            | inr (txs, g) ↦
                execute_txs-IsClean paid after txs kept (rw (replay_block, other, f, g) at e)
          ]
    ]
  ]

  -- The bank that a replay gives has each account once and no empty one, if the one it starts from is
  -- so and the machine is sound.
  pub replay_blocks-IsClean :
      (s : DagChain x) (bank after : Bank x.Account) (blocks : List BlockId)
      → IsClean m.accounts bank
      → replay_blocks x m s bank blocks ≡ ok after
      → IsClean m.accounts after
  unfolding replay_blocks
  replay_blocks-IsClean s bank after [] d e = let same : bank ≡ after = cc in rw (sym same) d
  replay_blocks-IsClean s bank after (block ∷ blocks) d e =
      elim (Result-cases (replay_block x m s bank block)) [
        | inl (next, f) ↦
            replay_blocks-IsClean s next after blocks (replay_block-IsClean s bank next block d f)
              (rw (replay_blocks, f) at e)
        | inr (w, f) ↦ let bad = rw (replay_blocks, f) at e in cc
      ]
