-- ===== src/Pouw/Commitment.antt =====
-- crates/tao-pouw/src/utility_gate.rs, the Merkle commitment over weight tiles. Loops run on fuel that
-- the sizes give; `none` is an index out of bounds.
pub mod Proofs
pub mod Padding
pub mod Alias
mod Tests
use tao.Common.{
  ℕ, zero, suc, ◌+◌, ◌-◌, ◌*◌, ◌/◌, ◌%◌, Bool, true, false, Option, none, some, List, [], ◌∷◌, ◌++◌,
  nat_beq, ltb, if◌then◌else◌, length, get_elem?, first, max, replicate, ◌>>=◌,
}
use tao.Common.Keys.{◌==◌, nat_eq, list_eq}
use tao.Consensus.Bytes.{Bytes, Hasher}
use tao.Pouw.Gemm.{all_le_bytes}

pub record MerkleProof : Type 0 where
  pub index : ℕ
  pub siblings : List Bytes

-- b"tao-tile" and b"tao-empty-tile"
abbrev pub tile_tag : Bytes
tile_tag = 116 ∷ 97 ∷ 111 ∷ 45 ∷ 116 ∷ 105 ∷ 108 ∷ 101 ∷ []

abbrev empty_tag : Bytes
empty_tag = 116 ∷ 97 ∷ 111 ∷ 45 ∷ 101 ∷ 109 ∷ 112 ∷ 116 ∷ 121 ∷ 45 ∷ 116 ∷ 105 ∷ 108 ∷ 101 ∷ []

-- `p <<= 1` while p < n
unfoldable pub grow : ℕ → ℕ → ℕ → ℕ
grow zero n p = p
grow (suc fuel) n p = let rest = grow fuel n (p * 2) in if ltb p n then rest else p

unfoldable pub next_pow2 : ℕ → ℕ
next_pow2 n = grow n n 1

-- `idx ^ 1`
pub flip_low : ℕ → ℕ
flip_low idx = if nat_beq (idx % 2) 0 then idx + 1 else idx - 1

module _ (h : Hasher) where
  unfoldable pub tile_leaf : List ℕ → Bytes
  tile_leaf tile = h.blake3 (tile_tag ++ all_le_bytes tile)

  pub node_hash : Bytes → Bytes → Bytes
  node_hash l r = h.blake3 (l ++ r)

  unfoldable pub padded_leaves : List Bytes → List Bytes
  padded_leaves leaves =
      leaves ++ replicate (next_pow2 (max (length leaves) 1) - length leaves) (h.blake3 empty_tag)

  -- `chunks(2)` with the hash of each pair; the last chunk of an odd level has no second node.
  pub parents : List Bytes → Option (List Bytes)
  parents [] = some []
  parents (x ∷ []) = none
  parents (x ∷ y ∷ level) = do rest ← parents level; some (node_hash x y ∷ rest)

  unfoldable pub reduce : ℕ → List Bytes → Option Bytes
  reduce zero level = none
  reduce (suc fuel) level = elim (ltb 1 (length level)) [
    | true ↦ do next ← parents level; reduce fuel next
    | false ↦ first level
  ]

  unfoldable pub merkle_root : List Bytes → Option Bytes
  merkle_root leaves = reduce (length leaves) leaves

  unfoldable pub siblings_from : ℕ → List Bytes → ℕ → Option (List Bytes)
  siblings_from zero level idx = none
  siblings_from (suc fuel) level idx = elim (ltb 1 (length level)) [
    | true ↦ do
      sib ← get_elem? level (flip_low idx)
      next ← parents level
      rest ← siblings_from fuel next (idx / 2)
      some (sib ∷ rest)
    | false ↦ some []
  ]

  unfoldable pub merkle_proof : List Bytes → ℕ → Option MerkleProof
  merkle_proof leaves index = do
    siblings ← siblings_from (length leaves) leaves index
    some (record { index = index; siblings = siblings })

  -- The loop of `merkle_verify`.
  unfoldable pub climb : ℕ → Bytes → List Bytes → Bytes
  climb idx node [] = node
  climb idx node (sib ∷ siblings) =
      climb (idx / 2) (if nat_beq (idx % 2) 0 then node_hash node sib else node_hash sib node)
        siblings

  unfoldable pub merkle_verify : Bytes → Bytes → MerkleProof → Bool
  merkle_verify root leaf proof = climb proof.index leaf proof.siblings == root
