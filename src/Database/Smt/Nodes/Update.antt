-- ===== src/Database/Smt/Nodes/Update.antt =====
-- The store after updates of leaves holds the reference tree over the leaves, and its proofs verify.
use mathlib.Core.Path.{subst}
use tao.Common.{
  ℕ, zero, suc, ◌+◌, ◌<◌, ◌≤◌, ◌≡◌, ◌≢◌, refl, sym, ap, ◌∙◌, arith, nat_beq, if◌then◌else◌, inl,
  inr, none,
}
use tao.Common.Keys.{◌==◌, nat_eq, list_eq, eq-cases, beq_refl, list_beq_iff}
use tao.Consensus.Bytes.{Bytes, Hasher, IsBytes32}
use tao.Database.Smt.{empty_leaf, bit, hash2, default}
use tao.Database.Smt.Nodes.{
  NodeStore, id_bytes, node_id, flip_bit, unwrap_or, read_node, write_node, climb, update_leaf,
}
use tao.Database.Smt.Nodes.Path.{Meets, flip_bit-IsBytes32, node_id-cases, node_id-Meets}
use tao.Database.Smt.Nodes.Tree.{tree, put_leaf, tree-Meets, tree-put_leaf, tree_empty}

module _ (h : Hasher) {S : Type 0} (nodes : NodeStore S) where
  -- The hash of every node of the store is that of the tree over the leaves.
  abbrev pub Represents : S → (Bytes → Bytes) → Type 0
  Represents s f =
      (levels depth : ℕ) (k : Bytes)
      → IsBytes32 k
      → levels + depth ≡ 256
      → read_node h nodes s levels depth k ≡ tree h f levels depth k

  read-write_node :
      (s : S) (levels depth : ℕ) (key hash : Bytes) (more e : ℕ) (k : Bytes)
      → read_node h nodes (write_node h nodes s levels depth key hash) more e k ≡ (
          if node_id key depth == node_id k e
          then (if hash == default h levels then default h more else hash)
          else read_node h nodes s more e k)
  unfolding read_node write_node
  read-write_node s levels depth key hash more e k = ground (
    arith,
    nodes.get-set s (node_id key depth) (node_id k e) hash,
    nodes.get-del s (node_id key depth) (node_id k e),
  )

  -- A written node is read back, and the others as before.
  read-write_same :
      (s : S) (levels depth : ℕ) (key hash k : Bytes)
      → Meets depth key k
      → read_node h nodes (write_node h nodes s levels depth key hash) levels depth k ≡ hash
  read-write_same s levels depth key hash k meets = ground (
    arith,
    read-write_node s levels depth key hash levels depth k,
    node_id-Meets key k depth meets,
    list_beq_iff (node_id key depth) (node_id k depth),
    list_beq_iff hash (default h levels),
  )

  read-write_other :
      (s : S) (levels depth : ℕ) (key hash : Bytes) (more e : ℕ) (k : Bytes)
      → node_id key depth ≢ node_id k e
      → read_node h nodes (write_node h nodes s levels depth key hash) more e k
        ≡ read_node h nodes s more e k
  read-write_other s levels depth key hash more e k differ = ground (
    arith,
    read-write_node s levels depth key hash more e k,
    list_beq_iff (node_id key depth) (node_id k e),
  )

  module _ (f : Bytes → Bytes) (key leaf : Bytes) (hkey : IsBytes32 key) where
    -- From `depth` on the store has the new tree, above it the old one.
    record Between (s : S) (depth : ℕ) : Type 0 where
      below :
          (more e : ℕ) (k : Bytes)
          → IsBytes32 k
          → more + e ≡ 256
          → depth ≤ e
          → read_node h nodes s more e k ≡ tree h (put_leaf f key leaf) more e k
      above :
          (more e : ℕ) (k : Bytes)
          → IsBytes32 k
          → more + e ≡ 256
          → e < depth
          → read_node h nodes s more e k ≡ tree h f more e k

    at_depth :
        (s : S) (levels depth : ℕ)
        → levels + depth ≡ 256
        → Between s (suc depth)
        → (k : Bytes) → IsBytes32 k
        → read_node h nodes
            (write_node h nodes s levels depth key (tree h (put_leaf f key leaf) levels depth key))
            levels
            depth
            k
          ≡ tree h (put_leaf f key leaf) levels depth k
    at_depth s levels depth total b k hk =
        let hash = tree h (put_leaf f key leaf) levels depth key in
        elim (eq-cases (id_bytes k depth) (id_bytes key depth)) [
          | inl meets ↦
              read-write_same s levels depth key hash k (sym meets)
              ∙ tree-Meets h (put_leaf f key leaf) levels depth key k hkey hk total (sym meets)
          | inr off ↦
              read-write_other s levels depth key hash levels depth k
                (λ m. off (sym (node_id-cases key k depth depth (omega arith) (omega arith) m).1))
              ∙ (b.above levels depth k hk total (omega arith)
                  ∙ sym (tree-put_leaf h f key leaf levels depth k hkey hk total off))
        ]

    parent_eq :
        (depth levels : ℕ) (s : S) (cur : Bytes)
        → cur ≡ tree h (put_leaf f key leaf) levels (suc depth) key
        → read_node h nodes s levels (suc depth) (flip_bit key depth)
          ≡ tree h (put_leaf f key leaf) levels (suc depth) (flip_bit key depth)
        → (if nat_beq (bit key depth) 0
            then hash2 h cur (read_node h nodes s levels (suc depth) (flip_bit key depth))
            else hash2 h (read_node h nodes s levels (suc depth) (flip_bit key depth)) cur)
          ≡ tree h (put_leaf f key leaf) (suc levels) depth key
    unfolding tree
    parent_eq depth levels s cur e sib = rw (e, sib) refl

    -- Writing the new hash of the node on the path at `depth` extends the new tree by a level.
    Between-write_node :
        (s : S) (levels depth : ℕ)
        → levels + depth ≡ 256
        → Between s (suc depth)
        → Between
            (write_node h nodes s levels depth key (tree h (put_leaf f key leaf) levels depth key))
            depth
    Between-write_node s levels depth total b = record {
      below = λ more e k hk sum low. elim (eq-cases e depth) [
        | inl same ↦
            let levels_same : more ≡ levels = omega arith in
            rw (same, levels_same) (at_depth s levels depth total b k hk)
        | inr differ ↦
            read-write_other s levels depth key (tree h (put_leaf f key leaf) levels depth key) more
              e k (λ m. differ (sym (node_id-cases key k depth e (omega arith) (omega arith) m).0))
            ∙ b.below more e k hk sum (omega (arith, differ))
      ];
      above = λ more e k hk sum high.
          read-write_other s levels depth key (tree h (put_leaf f key leaf) levels depth key) more e
            k
            (λ m.
              let same = (node_id-cases key k depth e (omega arith) (omega arith) m).0 in
              omega (arith, same))
          ∙ b.above more e k hk sum (omega arith);
    }

    -- `climb` leaves a store that holds the new tree.
    climb_lem :
        (depth levels : ℕ) (s : S) (cur : Bytes)
        → levels + depth ≡ 256
        → Between s depth
        → cur ≡ tree h (put_leaf f key leaf) levels depth key
        → Represents (climb h nodes key levels depth s cur) (put_leaf f key leaf)
    unfolding climb
    climb_lem zero levels s cur total b e = λ more d k hk sum. b.below more d k hk sum (omega arith)
    climb_lem (suc depth) levels s cur total b e =
        let sib =
          b.below levels (suc depth) (flip_bit key depth)
            (flip_bit-IsBytes32 key hkey depth (omega arith)) total (omega arith) in
        rw (parent_eq depth levels s cur e sib) (
          climb_lem depth (suc levels)
            (write_node h nodes s (suc levels) depth key
              (tree h (put_leaf f key leaf) (suc levels) depth key))
            (tree h (put_leaf f key leaf) (suc levels) depth key) (omega arith)
            (Between-write_node s (suc levels) depth (omega arith) b) refl)

    Represents-above : (s : S) → Represents s f → Between s 257
    Represents-above s r = record {
      below = λ more e k hk sum low. absurd (omega arith);
      above = λ more e k hk sum high. r more e k hk sum;
    }

    own_leaf : leaf ≡ tree h (put_leaf f key leaf) 0 256 key
    unfolding tree
    own_leaf = rw (beq_refl key) refl

  -- An update of a leaf of a store that holds the tree over some leaves gives the store that holds the
  -- tree over the leaves with this one changed, for a key of 32 bytes.
  pub update_leaf-Represents :
      (s : S) (f : Bytes → Bytes) (key leaf : Bytes)
      → IsBytes32 key
      → Represents s f
      → Represents (update_leaf h nodes s key leaf) (put_leaf f key leaf)
  unfolding update_leaf
  update_leaf-Represents s f key leaf hkey r =
      let first =
        Between-write_node f key leaf hkey s 0 256 refl (Represents-above f key leaf hkey s r) in
      let own = own_leaf f key leaf hkey in
      climb_lem f key leaf hkey 256 0 (write_node h nodes s 0 256 key leaf) leaf refl
        (subst (λ x. Between f key leaf hkey (write_node h nodes s 0 256 key x) 256) (sym own)
          first)
        own

  -- A store without nodes holds the tree without leaves.
  pub empty-Represents :
      (s : S) → ((id : Bytes) → nodes.get_node s id ≡ none) → Represents s (λ _. empty_leaf)
  unfolding read_node
  empty-Represents s none_held levels depth k hk total =
      ap (λ o. unwrap_or o (default h levels)) (none_held (node_id k depth))
      ∙ sym (tree_empty h levels depth k)
