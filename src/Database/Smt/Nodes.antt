-- ===== src/Database/Smt/Nodes.antt =====
-- crates/tao-database/src/smt.rs: the sparse Merkle tree kept in a store of nodes, of which an update
-- writes the path of one leaf. `defaults[depth]` goes by the number of levels below `depth`.
pub mod Ids
pub mod Octets
pub mod Path
pub mod Tree
pub mod Update
pub mod Stored
pub mod Order
pub mod Sorting
pub mod Halves
pub mod Batch
pub mod Equal
use tao.Common.{
  ℕ, zero, suc, ◌+◌, ◌-◌, ◌/◌, ◌%◌, ◌^◌, Bool, true, false, ◌≡◌, Option, none, some, List, [], ◌∷◌,
  ◌++◌, nat_beq, leb, ltb, if◌then◌else◌,
}
use tao.Common.Keys.{◌==◌, nat_eq, list_eq}
use tao.Consensus.Bytes.{Bytes, Hasher, zero_hash}
use tao.Consensus.BigEndian.{to_bytes}
use tao.Database.Smt.{height, empty_leaf, bit, MerkleProof, Leaf, hash2, default}

-- The trait `NodeStore`: a store maps ids of nodes to hashes, and each change is read back.
pub record NodeStore (S : Type 0) : Type 0 where
  pub get_node : S → Bytes → Option Bytes
  pub set_node : S → Bytes → Bytes → S
  pub del_node : S → Bytes → S
  pub get-set :
      (s : S) (id j hash : Bytes)
      → get_node (set_node s id hash) j ≡ (if id == j then some hash else get_node s j)
  pub get-del :
      (s : S) (id j : Bytes) → get_node (del_node s id) j ≡ (if id == j then none else get_node s j)

-- `b & !((1 << (8 - used)) - 1)`: the low bits past the first `used` are cleared.
pub mask : ℕ → ℕ → ℕ
mask b used = b - b % 2 ^ (8 - used)

-- The bytes of an id, from the key's bytes and the bits that are left. No key is shorter.
pub id_bytes : Bytes → ℕ → Bytes
id_bytes [] used = []
id_bytes (b ∷ key) used =
    let rest = id_bytes key (used - 8) in
    if nat_beq used 0 then [] else if ltb 8 used then b ∷ rest else mask b used ∷ []

pub node_id : Bytes → ℕ → Bytes
node_id key depth = to_bytes 2 depth ++ id_bytes key depth

-- `b ^= 1 << i`
pub flip : ℕ → ℕ → ℕ
flip b i = if nat_beq (b / 2 ^ i % 2) 0 then b + 2 ^ i else b - 2 ^ i

pub flip_bit : Bytes → ℕ → Bytes
flip_bit [] depth = []
flip_bit (b ∷ key) depth =
    let rest = flip_bit key (depth - 8) in
    if ltb depth 8 then flip b (7 - depth) ∷ key else b ∷ rest

abbrev pub unwrap_or : Option Bytes → Bytes → Bytes
unwrap_or none d = d
unwrap_or (some x) d = x

module _ (h : Hasher) {S : Type 0} (nodes : NodeStore S) where
  -- the hash of the node at `depth` on the path of `key`
  pub read_node : S → ℕ → ℕ → Bytes → Bytes
  read_node s levels depth key = unwrap_or (nodes.get_node s (node_id key depth)) (default h levels)

  -- only hashes that are not the default are kept
  pub write_node : S → ℕ → ℕ → Bytes → Bytes → S
  write_node s levels depth key hash =
      if hash == default h levels
      then nodes.del_node s (node_id key depth)
      else nodes.set_node s (node_id key depth) hash

  -- the loop of `update_leaf`, from the node at `depth` with `levels` below it
  pub climb : Bytes → ℕ → ℕ → S → Bytes → S
  climb key levels zero s cur_hash = s
  climb key levels (suc depth) s cur_hash =
      let sib = read_node s levels (suc depth) (flip_bit key depth) in
      let parent =
        if nat_beq (bit key depth) 0 then hash2 h cur_hash sib else hash2 h sib cur_hash in
      climb key (suc levels) depth (write_node s (suc levels) depth key parent) parent

  pub update_leaf : S → Bytes → Bytes → S
  update_leaf s key leaf = climb key 0 height (write_node s 0 height key leaf) leaf

  -- the loop of `smt_update` over the changed leaves
  pub update_leaves : S → List Leaf → S
  update_leaves s [] = s
  update_leaves s (x ∷ leaves) = update_leaves (update_leaf s x.0 x.1) leaves

  pub stored_root : S → Bytes
  stored_root s = read_node s height 0 zero_hash

  pub stored_siblings : S → Bytes → ℕ → ℕ → List Bytes
  stored_siblings s key zero depth = []
  stored_siblings s key (suc levels) depth =
      read_node s levels (suc depth) (flip_bit key depth) ∷ stored_siblings s key levels (suc depth)

  pub stored_proof : S → Bytes → MerkleProof
  stored_proof s key = record { siblings = stored_siblings s key height 0 }
