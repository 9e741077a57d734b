-- ===== src/Mempool/Tests.antt =====
-- The pool on concrete transactions: a number stands for a transaction, zero for an unsigned one.
use tao.Common.{
  ℕ, zero, suc, ◌≡◌, refl, Bool, true, false, none, some, Option, List, [], ◌∷◌, arith, replicate,
}
use tao.Consensus.Bytes.{Bytes}
use tao.Mempool.{Mempool, new, signature, submit, drain}
use tao.Mempool.Liveness.{drains, drains_lem}
use tao.Mempool.Laws.{IsValid, Submitted, new-IsValid, submit_lem}

abbrev signatures : ℕ → List Bytes
signatures zero = []
signatures (suc n) = replicate 64 n ∷ []

submitted : Option (Bool × Mempool ℕ) → Option (Bool × List ℕ)
submitted none = none
submitted (some (added, p)) = some (added, p.txs)

abbrev pool : Mempool ℕ
pool = record { txs = 3 ∷ 5 ∷ []; seen = replicate 64 2 ∷ replicate 64 4 ∷ []; max_size = 2 }

submit_full : submitted (submit signatures pool 7) ≡ some (true, 5 ∷ 7 ∷ [])
unfolding submit submitted signature tao.Mempool.make_room tao.Mempool.evict
submit_full = refl

submit_again : submitted (submit signatures pool 5) ≡ some (false, 3 ∷ 5 ∷ [])
unfolding submit submitted signature
submit_again = refl

submit_unsigned : submitted (submit signatures pool 0) ≡ some (false, 3 ∷ 5 ∷ [])
unfolding submit submitted signature
submit_unsigned = refl

drain_oldest : (drain signatures pool 1).0 ≡ 3 ∷ []
unfolding drain
drain_oldest = refl

pool-IsValid : IsValid signatures pool
unfolding signature
pool-IsValid = record {
  room = omega arith;
  size = omega arith;
  tracks = record {
    keys = pool.seen;
    signed = refl;
    distinct = (refl, (refl, tt));
    holds = λ j. refl;
  };
}

new-IsValid_example : IsValid signatures (new 2)
new-IsValid_example = new-IsValid signatures 2 (omega arith)

submit_lem_example :
    (added : Bool) × (p' : Mempool ℕ) × (submit signatures pool 7 ≡ some (added, p'))
    × IsValid signatures p'
    × Submitted signatures pool 7 added p'
submit_lem_example = submit_lem signatures pool pool-IsValid 7

drains_lem_example :
    ((drains signatures 1 2 pool).0 ≡ 3 ∷ 5 ∷ [])
    × ((drains signatures 1 2 pool).1.txs ≡ [])
    × IsValid signatures (drains signatures 1 2 pool).1
drains_lem_example = drains_lem signatures 1 (omega arith) 2 pool pool-IsValid (omega arith)
