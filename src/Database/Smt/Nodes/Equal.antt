-- ===== src/Database/Smt/Nodes/Equal.antt =====
-- The incremental store and the tree built from the entries have one root.
use tao.Common.{◌≡◌, refl, sym, ◌∙◌, true, arith, none, some, List, [], ◌∷◌, All, map}
use tao.Common.Keys.{nat_eq, list_eq, list_beq_iff}
use tao.Common.Maps.{lookup}
use tao.Consensus.Bytes.{Bytes, Hasher, IsBytes32, zero_hash}
use tao.Database.Smt.{height, empty_leaf, Leaf, key_leb, leaf_hash, sort_by_key, from_entries, root}
use tao.Database.Smt.Nodes.{NodeStore, update_leaf, update_leaves, stored_root}
use tao.Database.Smt.Nodes.Octets.{id_zero}
use tao.Database.Smt.Nodes.Tree.{tree, put_leaf, tree-local}
use tao.Database.Smt.Nodes.Update.{Represents, update_leaf-Represents, empty-Represents}
use tao.Database.Smt.Nodes.Stored.{zero_hash-IsBytes32, stored_root-tree}
use tao.Database.Smt.Nodes.Sorting.{
  IsSorted, DistinctKeys, All-map, sort_by_key_lem, All-sort_by_key, dedup_by_key-distinct,
}
use tao.Database.Smt.Nodes.Halves.{leaf_of, Below}
use tao.Database.Smt.Nodes.Batch.{subtree_root-tree}

-- The leaves after the updates of a list.
pub put_leaves : (Bytes → Bytes) → List Leaf → Bytes → Bytes
put_leaves f [] = f
put_leaves f (x ∷ xs) = put_leaves (put_leaf f x.0 x.1) xs

abbrev AreKeys : List Leaf → Type 0
AreKeys = All (λ x. IsBytes32 x.0)

put_leaves-lookup :
    (f : Bytes → Bytes) (xs : List Leaf) (c : Bytes)
    → DistinctKeys xs
    → put_leaves f xs c ≡ elim (lookup c xs) [ none ↦ f c | some leaf ↦ leaf ]
unfolding put_leaves lookup
put_leaves-lookup f [] c d = refl
put_leaves-lookup f (x ∷ xs) c d =
    ground (arith, put_leaves-lookup (put_leaf f x.0 x.1) xs c d.1, list_beq_iff x.0 c)

module _ (h : Hasher) where
  -- an entry with the hash of its value in the place of the value
  abbrev pub hashed : Leaf → Leaf
  hashed e = (e.0, leaf_hash h e.0 e.1)

  lookup-hashed :
      (xs : List Leaf) (c : Bytes)
      → lookup c (map hashed xs)
        ≡ elim (lookup c xs) [ none ↦ none | some v ↦ some (leaf_hash h c v) ]
  unfolding lookup
  lookup-hashed [] c = refl
  lookup-hashed (x ∷ xs) c = ground (arith, lookup-hashed xs c, list_beq_iff x.0 c)

  hashed-DistinctKeys : (xs : List Leaf) → DistinctKeys xs → DistinctKeys (map hashed xs)
  hashed-DistinctKeys [] d = tt
  hashed-DistinctKeys (x ∷ xs) d =
      (ground (arith, lookup-hashed xs x.0, d.0), hashed-DistinctKeys xs d.1)

  All-hashed :
      (P : Bytes → Type 0) (xs : List Leaf) → All (λ y. P y.0) xs → All (λ y. P y.0) (map hashed xs)
  All-hashed P [] a = tt
  All-hashed P (x ∷ xs) a = (a.0, All-hashed P xs a.1)

  hashed-IsSorted : (xs : List Leaf) → IsSorted xs → IsSorted (map hashed xs)
  hashed-IsSorted [] s = tt
  hashed-IsSorted (x ∷ xs) s =
      (All-hashed (λ k. key_leb x.0 k ≡ true) xs s.0, hashed-IsSorted xs s.1)

  module _ {S : Type 0} (nodes : NodeStore S) where
    update_leaves-Represents :
        (s : S) (f : Bytes → Bytes) (xs : List Leaf)
        → AreKeys xs
        → Represents h nodes s f
        → Represents h nodes (update_leaves h nodes s xs) (put_leaves f xs)
    unfolding update_leaves put_leaves
    update_leaves-Represents s f [] a r = r
    update_leaves-Represents s f (x ∷ xs) a r =
        update_leaves-Represents (update_leaf h nodes s x.0 x.1) (put_leaf f x.0 x.1) xs a.1
          (update_leaf-Represents h nodes s f x.0 x.1 a.0 r)

  -- The root of the tree built from the entries, as the reference tree.
  root-from_entries :
      (entries : List Leaf)
      → AreKeys entries
      → DistinctKeys entries
      → root h (from_entries h entries)
        ≡ tree h (leaf_of (map hashed (sort_by_key entries))) height 0 zero_hash
  unfolding root from_entries
  root-from_entries entries a d =
      let r = sort_by_key_lem entries d in
      rw (dedup_by_key-distinct (sort_by_key entries) r.distinct) (
        subtree_root-tree h height 0 zero_hash (map hashed (sort_by_key entries))
          zero_hash-IsBytes32 refl (hashed-IsSorted (sort_by_key entries) r.sorted)
          (All-map (λ y. IsBytes32 y.0) (Below 0 zero_hash)
            (λ y k. (k, id_zero y.0 ∙ sym (id_zero zero_hash))) (map hashed (sort_by_key entries))
            (All-hashed IsBytes32 (sort_by_key entries)
              (All-sort_by_key (λ y. IsBytes32 y.0) entries a))))

  same_leaves :
      (entries : List Leaf) (c : Bytes)
      → DistinctKeys entries
      → put_leaves (λ _. empty_leaf) (map hashed entries) c
        ≡ leaf_of (map hashed (sort_by_key entries)) c
  unfolding leaf_of
  same_leaves entries c d =
      let r = sort_by_key_lem entries d in
      ground (
        arith,
        put_leaves-lookup (λ _. empty_leaf) (map hashed entries) c (hashed-DistinctKeys entries d),
        lookup-hashed entries c,
        lookup-hashed (sort_by_key entries) c,
        r.held c,
      )

  -- For entries with distinct keys of 32 bytes, in any order: the root of the tree built from them at
  -- once is the root that is stored after their leaves were put one by one into a store without nodes.
  pub stored_root-from_entries :
      {S : Type 0} (nodes : NodeStore S) (s : S) (entries : List Leaf)
      → ((id : Bytes) → nodes.get_node s id ≡ none)
      → AreKeys entries
      → DistinctKeys entries
      → stored_root h nodes (update_leaves h nodes s (map hashed entries))
        ≡ root h (from_entries h entries)
  stored_root-from_entries nodes s entries none_held a d =
      stored_root-tree h nodes (update_leaves h nodes s (map hashed entries))
        (put_leaves (λ _. empty_leaf) (map hashed entries)) zero_hash zero_hash-IsBytes32
        (update_leaves-Represents nodes s (λ _. empty_leaf) (map hashed entries)
          (All-hashed IsBytes32 entries a) (empty-Represents h nodes s none_held))
      ∙ (tree-local h (put_leaves (λ _. empty_leaf) (map hashed entries))
            (leaf_of (map hashed (sort_by_key entries))) height 0 zero_hash zero_hash-IsBytes32 refl
            (λ c _ _. same_leaves entries c d)
          ∙ sym (root-from_entries entries a d))
