-- ===== src/Consensus/Merkle/Duplicate.antt =====
-- A list of odd length and the list with its last transaction repeated have one root.
use tao.Common.{
  ℕ, zero, suc, ◌%◌, ◌≤◌, ◌<◌, ◌≡◌, refl, some, List, [], ◌∷◌, ◌++◌, map, arith, length,
  length-append, length-map, last,
}
use tao.Consensus.Bytes.{Bytes, Hasher}
use tao.Consensus.Merkle.{pad_odd, next_level, reduce, tx_merkle_root}
use tao.Consensus.Merkle.Rounds.{last-some, reduce_step, reduce_fuel, length-next_level}
use mathlib.Core.List.{map-append}

pub pad_odd-repeat :
    (level : List Bytes) (node : Bytes)
    → length level % 2 ≡ 1
    → last level ≡ some node
    → pad_odd level ≡ level ++ node ∷ []
unfolding pad_odd
pad_odd-repeat level node odd e = ground arith

pub pad_odd-even : (level : List Bytes) → length level % 2 ≡ 0 → pad_odd level ≡ level
unfolding pad_odd
pad_odd-even [] even = refl
pad_odd-even (x ∷ xs) even = let (y, e) = last-some x xs in ground (arith, e)

pub last-map :
    (f : Bytes → Bytes) (xs : List Bytes) {y : Bytes}
    → last xs ≡ some y
    → last (map f xs) ≡ some (f y)
last-map f [] e = cc
last-map f (x ∷ []) e = ground arith
last-map f (x ∷ z ∷ xs) e = last-map f (z ∷ xs) e

module _ (h : Hasher) where
  next_level-repeat :
      (level : List Bytes) (node : Bytes)
      → length level % 2 ≡ 1
      → last level ≡ some node
      → next_level h (level ++ node ∷ []) ≡ next_level h level
  unfolding next_level
  next_level-repeat level node odd e =
      rw
        (
          pad_odd-even (level ++ node ∷ []) (omega (arith, length-append level (node ∷ []))),
          pad_odd-repeat level node odd e,
        )
        refl

  reduce-repeat :
      (f : ℕ) (u v : Bytes) (level : List Bytes) (node : Bytes)
      → length level % 2 ≡ 1
      → last (u ∷ v ∷ level) ≡ some node
      → suc (suc (length level)) ≤ f
      → reduce h (suc f) (u ∷ v ∷ level ++ node ∷ []) ≡ reduce h f (u ∷ v ∷ level)
  reduce-repeat zero u v level node odd e enough = absurd (omega arith)
  reduce-repeat (suc f) u v level node odd e enough =
      let n = length-next_level h (u ∷ v ∷ level) in
      rw
        (
          reduce_step h (suc f) u v (level ++ node ∷ []),
          reduce_step h f u v level,
          next_level-repeat (u ∷ v ∷ level) node (omega arith) e,
        )
        (reduce_fuel h (suc f) f (next_level h (u ∷ v ∷ level)) (omega arith) (omega arith)
          (omega arith))

  -- A list of transactions of odd length above one has the same root as the list that repeats
  -- its last transaction.
  pub tx_merkle_root-repeat :
      (txs : List Bytes) (end : Bytes)
      → 1 < length txs
      → length txs % 2 ≡ 1
      → last txs ≡ some end
      → tx_merkle_root h (txs ++ end ∷ []) ≡ tx_merkle_root h txs
  unfolding tx_merkle_root
  tx_merkle_root-repeat [] end many odd e = absurd (omega arith)
  tx_merkle_root-repeat (x ∷ []) end many odd e = absurd (omega arith)
  tx_merkle_root-repeat (x ∷ y ∷ txs) end many odd e =
      let b = h.blake3 in
      let grown : suc (suc (length (txs ++ end ∷ []))) ≡ suc (suc (suc (length txs))) =
        omega (arith, length-append txs (end ∷ [])) in
      rw (grown, map-append b txs (end ∷ []))
        (reduce-repeat (suc (suc (length txs))) (b x) (b y) (map b txs) (b end)
          (omega (arith, length-map b txs)) (last-map b (x ∷ y ∷ txs) e)
          (omega (arith, length-map b txs)))
