-- ===== src/Database/Smt/Nodes/Batch.antt =====
-- The tree that is built from sorted leaves is the reference tree over them.
use mathlib.Core.Path.{subst}
use native.Mathlib.Numerals.{add-one}
use tao.Common.{
  ℕ, zero, suc, ◌+◌, ◌≡◌, refl, sym, ap, ◌∙◌, arith, nat_beq, inl, inr, Bool-cases, none, some,
  List, [], ◌∷◌, All,
}
use tao.Common.Keys.{nat_eq, list_eq, list_beq_iff}
use tao.Common.Maps.{lookup}
use tao.Consensus.Bytes.{Bytes, Hasher, IsBytes32}
use tao.Database.Smt.{empty_leaf, bit, Leaf, split_left, split_right, hash2, default, subtree_root}
use tao.Database.Smt.Nodes.{flip_bit}
use tao.Database.Smt.Nodes.Path.{
  Meets, flip_bit-IsBytes32, bit-flip_bit, Meets-flip_bit, Meets-suc, Meets-whole,
}
use tao.Database.Smt.Nodes.Tree.{tree, bit_lt, tree-local, tree_empty, tree_low, tree_high}
use tao.Database.Smt.Nodes.Sorting.{IsSorted, All-map}
use tao.Database.Smt.Nodes.Halves.{leaf_of, Below, HasBit, Halves, Halves_lem}

module _ (h : Hasher) where
  subtree_root-join :
      (levels d : ℕ) (x : Leaf) (xs : List Leaf)
      → subtree_root h (suc levels) d (x ∷ xs)
        ≡ hash2 h
            (subtree_root h levels (suc d) (split_left d (x ∷ xs)))
            (subtree_root h levels (suc d) (split_right d (x ∷ xs)))
  unfolding subtree_root
  subtree_root-join levels d x xs =
      ap
        (λ n.
          hash2 h (subtree_root h levels n (split_left d (x ∷ xs)))
            (subtree_root h levels n (split_right d (x ∷ xs))))
        (add-one d)

  module _ (levels d : ℕ) (k : Bytes) (xs : List Leaf) (hk : IsBytes32 k)
      (total : suc levels + d ≡ 256) (r : Halves d k xs)
      (deeper : (c : Bytes) (ys : List Leaf)
        → IsBytes32 c
        → IsSorted ys
        → All (Below (suc d) c) ys
        → subtree_root h levels (suc d) ys ≡ tree h (leaf_of ys) levels (suc d) c) where
    half :
        (c : Bytes) (ys : List Leaf) (v : ℕ)
        → IsBytes32 c
        → Meets d c k
        → bit c d ≡ v
        → IsSorted ys
        → All (λ y. Below d k y × HasBit d v y) ys
        → ((a : Bytes) → bit a d ≡ v → lookup a ys ≡ lookup a xs)
        → subtree_root h levels (suc d) ys ≡ tree h (leaf_of xs) levels (suc d) c
    unfolding leaf_of
    half c ys v hc meets has s b leaf =
        deeper c ys hc s (
          All-map (λ y. Below d k y × HasBit d v y) (Below (suc d) c)
            (λ y (hy, e).
              (hy.0, (Meets-suc y.0 hy.0 c hc d (omega arith)).1 (hy.1 ∙ sym meets, e ∙ sym has)))
            ys b)
        ∙ tree-local h (leaf_of ys) (leaf_of xs) levels (suc d) c hc (omega arith) (λ a ha m.
          ap (λ o. elim o [ none ↦ empty_leaf | some leaf ↦ leaf ])
            (leaf a (((Meets-suc a ha c hc d (omega arith)).0 m).1 ∙ has)))

    left_half :
        (c : Bytes)
        → IsBytes32 c
        → Meets d c k
        → bit c d ≡ 0
        → subtree_root h levels (suc d) (split_left d xs) ≡ tree h (leaf_of xs) levels (suc d) c
    left_half c hc meets has =
        half c (split_left d xs) 0 hc meets has r.left_sorted r.left_below r.left_leaf

    right_half :
        (c : Bytes)
        → IsBytes32 c
        → Meets d c k
        → bit c d ≡ 1
        → subtree_root h levels (suc d) (split_right d xs) ≡ tree h (leaf_of xs) levels (suc d) c
    right_half c hc meets has =
        half c (split_right d xs) 1 hc meets has r.right_sorted r.right_below r.right_leaf

    halves :
        hash2 h
          (subtree_root h levels (suc d) (split_left d xs))
          (subtree_root h levels (suc d) (split_right d xs))
        ≡ tree h (leaf_of xs) (suc levels) d k
    halves =
        let fk = flip_bit-IsBytes32 k hk d (omega arith) in
        let other = bit-flip_bit k hk d (omega arith) in
        let meets = Meets-flip_bit k hk d (omega arith) in
        elim (Bool-cases (nat_beq (bit k d) 0)) [
          | inl low ↦
              let own : bit k d ≡ 0 = ground arith in
              rw
                (
                  left_half k hk refl own,
                  right_half (flip_bit k d) fk meets (omega (arith, own, other)),
                )
                (sym (tree_low h (leaf_of xs) levels d k own))
          | inr high ↦
              let own : bit k d ≡ 1 = ground (arith, bit_lt k d) in
              rw
                (
                  left_half (flip_bit k d) fk meets (omega (arith, own, other)),
                  right_half k hk refl own,
                )
                (sym (tree_high h (leaf_of xs) levels d k own))
        ]

  -- The root over sorted leaves below a node is the hash of the node in the reference tree.
  pub subtree_root-tree :
      (levels d : ℕ) (k : Bytes) (xs : List Leaf)
      → IsBytes32 k
      → levels + d ≡ 256
      → IsSorted xs
      → All (Below d k) xs
      → subtree_root h levels d xs ≡ tree h (leaf_of xs) levels d k
  unfolding leaf_of lookup
  subtree_root-tree zero d k [] hk total s b =
      unfold subtree_root in unfold default in unfold tree in refl
  subtree_root-tree zero d k (x ∷ xs) hk total s b =
      let same : x.0 ≡ k =
        Meets-whole x.0 b.0.0 k hk (subst (λ n. Meets n x.0 k) (omega arith) b.0.1) in
      unfold subtree_root in unfold tree in ground (arith, list_beq_iff x.0 k)
  subtree_root-tree (suc levels) d k [] hk total s b =
      let empty : subtree_root h (suc levels) d [] ≡ default h (suc levels) =
        unfold subtree_root in refl in
      empty ∙ sym (tree_empty h (suc levels) d k)
  subtree_root-tree (suc levels) d k (x ∷ xs) hk total s b =
      subtree_root-join levels d x xs
      ∙ halves levels d k (x ∷ xs) hk total (Halves_lem d k (x ∷ xs) (omega arith) s b)
          (λ c ys hc sorted below.
            subtree_root-tree levels (suc d) c ys hc (omega arith) sorted below)
