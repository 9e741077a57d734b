-- ===== src/Consensus/Merkle.antt =====
-- `tx_merkle_root` of crates/tao-consensus/src/block.rs. The loop runs on fuel, one unit for each
-- transaction; `none` is the fault of an index out of bounds, or no fuel left.
pub mod Rounds
pub mod Duplicate
pub mod Binding
mod Tests
use tao.Common.{
  ℕ, zero, suc, ◌%◌, Option, none, some, List, [], ◌∷◌, ◌++◌, map, ltb, nat_beq, if◌then◌else◌,
  length, first, last,
}
use tao.Consensus.Bytes.{Bytes, Hasher, zero_hash}

-- `if level.len() % 2 == 1 { level.push(*level.last().unwrap()) }`
unfoldable pub pad_odd : List Bytes → List Bytes
pad_odd level = elim (last level) [
  | none ↦ level
  | some node ↦ if nat_beq (length level % 2) 1 then level ++ node ∷ [] else level
]

module _ (h : Hasher) where
  -- `chunks_exact(2)` with the hash of each pair
  unfoldable pub hash_pairs : List Bytes → List Bytes
  hash_pairs [] = []
  hash_pairs (x ∷ []) = []
  hash_pairs (x ∷ y ∷ level) = h.blake3 (x ++ y) ∷ hash_pairs level

  unfoldable pub next_level : List Bytes → List Bytes
  unfolding pad_odd hash_pairs
  next_level level = hash_pairs (pad_odd level)

  unfoldable pub reduce : ℕ → List Bytes → Option Bytes
  unfolding next_level
  reduce zero level = none
  reduce (suc fuel) level =
      let rest = reduce fuel (next_level level) in
      if ltb 1 (length level) then rest else first level

  unfoldable pub tx_merkle_root : List Bytes → Option Bytes
  tx_merkle_root [] = some zero_hash
  tx_merkle_root (tx ∷ txs) = reduce (length (tx ∷ txs)) (map h.blake3 (tx ∷ txs))
