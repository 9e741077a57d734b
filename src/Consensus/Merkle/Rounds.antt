-- ===== src/Consensus/Merkle/Rounds.antt =====
-- Every round halves the level, so the loop ends within one round for each transaction.
use tao.Common.{
  ℕ, zero, suc, ◌+◌, ◌/◌, ◌%◌, ◌≤◌, ◌<◌, ◌≡◌, refl, ◌∙◌, some, List, [], ◌∷◌, map, arith, length,
  length-append, length-map, last, lt→ltb,
}
use tao.Consensus.Bytes.{Bytes, Hasher}
use tao.Consensus.Merkle.{pad_odd, hash_pairs, next_level, reduce, tx_merkle_root}

pub last-some : (x : Bytes) (xs : List Bytes) → (y : Bytes) × (last (x ∷ xs) ≡ some y)
last-some x [] = (x, refl)
last-some x (y ∷ ys) = last-some y ys

pub length-pad_odd : (level : List Bytes) → length (pad_odd level) ≡ length level + length level % 2
unfolding pad_odd
length-pad_odd [] = omega arith
length-pad_odd (x ∷ xs) =
    let (y, e) = last-some x xs in ground (arith, e, length-append (x ∷ xs) (y ∷ []))

module _ (h : Hasher) where
  pub length-hash_pairs : (level : List Bytes) → length (hash_pairs h level) ≡ length level / 2
  unfolding hash_pairs
  length-hash_pairs [] = omega arith
  length-hash_pairs (x ∷ []) = omega arith
  length-hash_pairs (x ∷ y ∷ level) = omega (arith, length-hash_pairs level)

  pub length-next_level :
      (level : List Bytes) → length (next_level h level) ≡ (length level + 1) / 2
  unfolding next_level
  length-next_level level = omega (arith, length-hash_pairs (pad_odd level), length-pad_odd level)

  pub reduce_step :
      (fuel : ℕ) (x y : Bytes) (level : List Bytes)
      → reduce h (suc fuel) (x ∷ y ∷ level) ≡ reduce h fuel (next_level h (x ∷ y ∷ level))
  unfolding reduce
  reduce_step fuel x y level = rw (lt→ltb 1 (suc (suc (length level))) (omega arith))

  pub reduce_ends :
      (fuel : ℕ) (level : List Bytes)
      → 0 < length level
      → length level ≤ fuel
      → (root : Bytes) × (reduce h fuel level ≡ some root)
  unfolding reduce
  reduce_ends zero level p f = absurd (omega arith)
  reduce_ends (suc fuel) [] p f = absurd (omega arith)
  reduce_ends (suc fuel) (x ∷ []) p f = (x, refl)
  reduce_ends (suc fuel) (x ∷ y ∷ level) p f =
      let (root, e) =
        reduce_ends fuel (next_level h (x ∷ y ∷ level))
          (omega (arith, length-next_level (x ∷ y ∷ level)))
          (omega (arith, length-next_level (x ∷ y ∷ level))) in
      (root, reduce_step fuel x y level ∙ e)

  -- More fuel changes nothing.
  pub reduce_fuel :
      (f g : ℕ) (level : List Bytes)
      → 0 < length level
      → length level ≤ f
      → length level ≤ g
      → reduce h f level ≡ reduce h g level
  unfolding reduce
  reduce_fuel zero g level p hf hg = absurd (omega arith)
  reduce_fuel (suc f) zero level p hf hg = absurd (omega arith)
  reduce_fuel (suc f) (suc g) [] p hf hg = refl
  reduce_fuel (suc f) (suc g) (x ∷ []) p hf hg = refl
  reduce_fuel (suc f) (suc g) (x ∷ y ∷ level) p hf hg =
      let n = length-next_level (x ∷ y ∷ level) in
      rw (reduce_step f x y level, reduce_step g x y level)
        (reduce_fuel f g (next_level h (x ∷ y ∷ level)) (omega arith) (omega arith) (omega arith))

  -- The root of every list of transactions is computed: the loop ends and indexes a level of one.
  pub tx_merkle_root_total :
      (txs : List Bytes) → (root : Bytes) × (tx_merkle_root h txs ≡ some root)
  unfolding tx_merkle_root
  tx_merkle_root_total [] = (_, refl)
  tx_merkle_root_total (tx ∷ txs) =
      reduce_ends (length (tx ∷ txs)) (map h.blake3 (tx ∷ txs))
        (omega (arith, length-map h.blake3 (tx ∷ txs)))
        (omega (arith, length-map h.blake3 (tx ∷ txs)))
