-- ===== src/Mempool/Liveness.antt =====
-- Every transaction of the pool is handed out: drains in a row, as a miner makes them, empty it.
use native.Mathlib.Nat.{suc-mul, zero-mul}
use tao.Common.{
  ℕ, zero, suc, ◌*◌, ◌≤◌, ◌<◌, ◌≡◌, refl, sym, ap, ◌∙◌, List, [], ◌∷◌, ◌++◌, arith, length,
  length-append,
}
use tao.Consensus.Bytes.{Bytes}
use tao.Mempool.{Mempool, drain}
use tao.Mempool.Laws.{IsValid, drain_lem}

module _ {ℓ} {T : Type ℓ} (signatures : T → List Bytes) where
  -- What some drains in a row hand out, and the pool after them.
  unfoldable pub drains : ℕ → ℕ → Mempool T → List T × Mempool T
  drains max_count zero p = ([], p)
  drains max_count (suc n) p =
      let (txs, p') = drain signatures p max_count in
      let (rest, end) = drains max_count n p' in (txs ++ rest, end)

  empty-length : (xs : List T) → length xs ≤ 0 → xs ≡ []
  empty-length [] h = refl
  empty-length (x ∷ xs) h = absurd (omega arith)

  -- From a valid pool, drains of at most a positive number of transactions hand out the whole
  -- queue in its order and leave the pool valid and empty, once there are enough of them for its length.
  pub drains_lem :
      (max_count : ℕ)
      → 0 < max_count
      → (n : ℕ) (p : Mempool T) → IsValid signatures p
      → length p.txs ≤ n * max_count
      → ((drains max_count n p).0 ≡ p.txs)
        × ((drains max_count n p).1.txs ≡ [])
        × IsValid signatures (drains max_count n p).1
  unfolding drains
  drains_lem max_count pos zero p v enough =
      let done = empty-length p.txs (omega (arith, zero-mul max_count, enough)) in
      (sym done, done, v)
  drains_lem max_count pos (suc n) p v enough =
      let (kept, parts, count) = drain_lem signatures p v max_count in
      let step = drain signatures p max_count in
      let fewer : length step.1.txs ≤ n * max_count = omega (
        arith,
        length-append step.0 step.1.txs,
        ap length parts,
        count,
        enough,
        suc-mul n max_count,
      ) in
      let (all, none_left, still) = drains_lem max_count pos n step.1 kept fewer in
      (ap (λ xs. step.0 ++ xs) all ∙ parts, none_left, still)
