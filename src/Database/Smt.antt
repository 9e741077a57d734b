-- ===== src/Database/Smt.antt =====
-- crates/tao-database/src/smt.rs: the sparse Merkle tree over account keys, built from its entries.
-- A depth goes with the number of levels below it, `height` less the depth.
pub mod Proofs
pub mod Nodes
mod Tests
use tao.Common.{
  ℕ, zero, suc, ◌+◌, ◌-◌, ◌/◌, ◌%◌, ◌^◌, Bool, true, false, Option, none, some, List, [], ◌∷◌, ◌++◌,
  map, nat_beq, leb, ltb, if◌then◌else◌, length, get_elem?, ◌&&◌,
}
use tao.Common.Keys.{◌==◌, nat_eq, list_eq}
use tao.Consensus.Bytes.{Bytes, Hasher, zero_hash}

abbrev pub height : ℕ
height = 256

-- The empty-leaf placeholder.
abbrev pub empty_leaf : Bytes
empty_leaf = zero_hash

-- Bit `depth` of a key, the most significant first. A key has 32 bytes, so no depth below 256 is out
-- of range.
pub bit : Bytes → ℕ → ℕ
bit key depth = elim (get_elem? key (depth / 8)) [
  | none ↦ 0
  | some byte ↦ byte / 2 ^ (7 - depth % 8) % 2
]

pub record MerkleProof : Type 0 where
  pub siblings : List Bytes

-- A key with its leaf hash.
abbrev pub Leaf : Type 0
Leaf = Bytes × Bytes

pub record SparseMerkleTree : Type 0 where
  pub leaves : List Leaf

-- `partition_point` and `split_at`: the leaves up to the first whose bit is set, and the others.
pub split_left : ℕ → List Leaf → List Leaf
split_left depth [] = []
split_left depth (x ∷ xs) =
    let rest = split_left depth xs in if nat_beq (bit x.0 depth) 0 then x ∷ rest else []

pub split_right : ℕ → List Leaf → List Leaf
split_right depth [] = []
split_right depth (x ∷ xs) =
    let rest = split_right depth xs in if nat_beq (bit x.0 depth) 0 then rest else x ∷ xs

-- The order of byte arrays: is the first at most the second?
unfoldable pub key_leb : Bytes → Bytes → Bool
key_leb [] ys = true
key_leb (x ∷ xs) [] = false
key_leb (x ∷ xs) (y ∷ ys) = let rest = key_leb xs ys in if nat_beq x y then rest else ltb x y

-- A stable sort by key.
pub insert_sorted : Leaf → List Leaf → List Leaf
insert_sorted e [] = e ∷ []
insert_sorted e (x ∷ xs) =
    let rest = insert_sorted e xs in if key_leb e.0 x.0 then e ∷ x ∷ xs else x ∷ rest

pub sort_by_key : List Leaf → List Leaf
sort_by_key [] = []
sort_by_key (e ∷ entries) = insert_sorted e (sort_by_key entries)

-- `dedup_by`: of neighbours with one key the first stays. The first argument is the one kept last.
pub dedup_from : Leaf → List Leaf → List Leaf
dedup_from e [] = e ∷ []
dedup_from e (x ∷ xs) =
    let same = dedup_from e xs in
    let other = dedup_from x xs in if x.0 == e.0 then same else e ∷ other

pub dedup_by_key : List Leaf → List Leaf
unfolding dedup_from
dedup_by_key [] = []
dedup_by_key (e ∷ entries) = dedup_from e entries

module _ (h : Hasher) where
  pub hash2 : Bytes → Bytes → Bytes
  hash2 l r = h.blake3 (1 ∷ l ++ r)

  pub leaf_hash : Bytes → Bytes → Bytes
  leaf_hash key value_hash = h.blake3 (0 ∷ key ++ value_hash)

  -- `defaults[depth]`, by the number of levels below: the root of an empty subtree.
  pub default : ℕ → Bytes
  default zero = empty_leaf
  default (suc levels) = let d = default levels in hash2 d d

  pub from_entries : List Leaf → SparseMerkleTree
  from_entries entries = record {
    leaves = map (λ (e : Leaf). (e.0, leaf_hash e.0 e.1)) (dedup_by_key (sort_by_key entries));
  }

  pub subtree_root : ℕ → ℕ → List Leaf → Bytes
  subtree_root zero depth [] = default zero
  subtree_root zero depth (x ∷ xs) = x.1
  subtree_root (suc levels) depth [] = default (suc levels)
  subtree_root (suc levels) depth (x ∷ xs) =
      hash2 (subtree_root levels (depth + 1) (split_left depth (x ∷ xs)))
        (subtree_root levels (depth + 1) (split_right depth (x ∷ xs)))

  pub root : SparseMerkleTree → Bytes
  root t = subtree_root height 0 t.leaves

  pub collect_siblings : ℕ → ℕ → List Leaf → Bytes → List Bytes
  collect_siblings zero depth leaves key = []
  collect_siblings (suc levels) depth leaves key =
      let left = split_left depth leaves in
      let right = split_right depth leaves in
      elim (nat_beq (bit key depth) 0) [
        | true ↦
            subtree_root levels (depth + 1) right ∷ collect_siblings levels (depth + 1) left key
        | false ↦
            subtree_root levels (depth + 1) left ∷ collect_siblings levels (depth + 1) right key
      ]

  pub proof : SparseMerkleTree → Bytes → MerkleProof
  proof t key = record { siblings = collect_siblings height 0 t.leaves key }

  -- The loop of `verify` from the last sibling to the first.
  pub fold_up : Bytes → ℕ → List Bytes → Bytes → Bytes
  fold_up key depth [] leaf = leaf
  fold_up key depth (sib ∷ siblings) leaf =
      let cur = fold_up key (depth + 1) siblings leaf in
      if nat_beq (bit key depth) 0 then hash2 cur sib else hash2 sib cur

  pub verify : Bytes → Bytes → Bytes → MerkleProof → Bool
  verify root key leaf proof =
      nat_beq (length proof.siblings) height && (fold_up key 0 proof.siblings leaf == root)
