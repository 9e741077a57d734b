-- ===== src/Database/Smt/Nodes/Stored.antt =====
-- The root and the proofs that are read from a store of nodes.
use tao.Common.{
  ℕ, zero, suc, ◌+◌, ◌<◌, ◌≡◌, true, refl, sym, ap, ◌∙◌, arith, length, replicate, All,
}
use native.Mathlib.Numerals.{add-one}
use tao.Common.Keys.{nat_eq, list_eq, beq_refl}
use tao.Consensus.Bytes.{Bytes, Hasher, IsBytes32, zero_hash}
use tao.Database.Smt.{height, fold_up, verify}
use tao.Database.Smt.Nodes.{NodeStore, flip_bit, stored_root, stored_siblings, stored_proof}
use tao.Database.Smt.Nodes.Path.{flip_bit-IsBytes32}
use tao.Database.Smt.Nodes.Octets.{id_zero}
use tao.Database.Smt.Nodes.Tree.{tree, tree-Meets}
use tao.Database.Smt.Nodes.Update.{Represents}

-- 32 times one byte
pub replicate-IsBytes32 : (b : ℕ) → b < 256 → IsBytes32 (replicate 32 b)
replicate-IsBytes32 b small = record { size = refl; octets = repeated 32 }
  where
    repeated : (n : ℕ) → All (λ x. x < 256) (replicate n b)
    repeated zero = tt
    repeated (suc n) = (small, repeated n)

pub zero_hash-IsBytes32 : IsBytes32 zero_hash
zero_hash-IsBytes32 = replicate-IsBytes32 0 (omega arith)

module _ (h : Hasher) {S : Type 0} (nodes : NodeStore S) where
  -- The stored root is the root of the reference tree, on the path of any key.
  pub stored_root-tree :
      (s : S) (f : Bytes → Bytes) (key : Bytes)
      → IsBytes32 key
      → Represents h nodes s f
      → stored_root h nodes s ≡ tree h f height 0 key
  unfolding stored_root
  stored_root-tree s f key hkey r =
      r height 0 zero_hash zero_hash-IsBytes32 refl
      ∙ tree-Meets h f height 0 zero_hash key zero_hash-IsBytes32 hkey refl
          (id_zero zero_hash ∙ sym (id_zero key))

  length-stored_siblings :
      (s : S) (key : Bytes) (levels depth : ℕ)
      → length (stored_siblings h nodes s key levels depth) ≡ levels
  unfolding stored_siblings
  length-stored_siblings s key zero depth = refl
  length-stored_siblings s key (suc levels) depth =
      ap suc (length-stored_siblings s key levels (suc depth))

  fold_up-stored :
      (s : S) (f : Bytes → Bytes) (key : Bytes) (levels depth : ℕ)
      → IsBytes32 key
      → Represents h nodes s f
      → levels + depth ≡ 256
      → fold_up h key depth (stored_siblings h nodes s key levels depth) (f key)
        ≡ tree h f levels depth key
  unfolding fold_up stored_siblings tree
  fold_up-stored s f key zero depth hkey r total = refl
  fold_up-stored s f key (suc levels) depth hkey r total =
      let sib =
        r levels (suc depth) (flip_bit key depth) (flip_bit-IsBytes32 key hkey depth (omega arith))
          (omega arith) in
      let rest = fold_up-stored s f key levels (suc depth) hkey r (omega arith) in
      rw (sib, add-one, rest) refl

  -- If a store holds the tree over some leaves, the proof that it gives for a key of 32 bytes verifies
  -- against its root, with the leaf of the key.
  pub verify-stored_proof :
      (s : S) (f : Bytes → Bytes) (key : Bytes)
      → IsBytes32 key
      → Represents h nodes s f
      → verify h (stored_root h nodes s) key (f key) (stored_proof h nodes s key) ≡ true
  unfolding verify stored_proof
  verify-stored_proof s f key hkey r =
      rw
        (
          length-stored_siblings s key height 0,
          fold_up-stored s f key height 0 hkey r refl,
          stored_root-tree s f key hkey r,
        )
        (beq_refl (tree h f height 0 key))
