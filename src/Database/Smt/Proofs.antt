-- ===== src/Database/Smt/Proofs.antt =====
-- Proofs against the root: the tree's own verify, and one position has one leaf.
use tao.Common.{
  ℕ, zero, suc, ◌+◌, ◌≡◌, refl, ap, sym, ◌∙◌, ◌⊎◌, inl, inr, true, false, List, [], ◌∷◌, ◌++◌,
  arith, length, All, nat_beq, nat_beq_iff, Bool-cases, cons-injective,
}
use tao.Common.Keys.{nat_eq, list_eq, beq_refl, list_beq_iff}
use tao.Consensus.Bytes.{Bytes, Hasher, Collision, blake3-cases, append-injective}
use tao.Database.Smt.{
  height, empty_leaf, bit, MerkleProof, Leaf, SparseMerkleTree, split_left, split_right, hash2,
  default, subtree_root, root, collect_siblings, proof, fold_up, verify,
}

module _ (h : Hasher) where
  -- The leaf at the end of a key's path.
  pub leaf_at : ℕ → ℕ → List Leaf → Bytes → Bytes
  leaf_at zero depth [] key = empty_leaf
  leaf_at zero depth (x ∷ xs) key = x.1
  leaf_at (suc levels) depth leaves key = elim (nat_beq (bit key depth) 0) [
    | true ↦ leaf_at levels (depth + 1) (split_left depth leaves) key
    | false ↦ leaf_at levels (depth + 1) (split_right depth leaves) key
  ]

  subtree_root-split :
      (levels depth : ℕ) (leaves : List Leaf)
      → hash2 h
          (subtree_root h levels (depth + 1) (split_left depth leaves))
          (subtree_root h levels (depth + 1) (split_right depth leaves))
        ≡ subtree_root h (suc levels) depth leaves
  unfolding subtree_root split_left split_right default
  subtree_root-split zero depth [] = refl
  subtree_root-split (suc levels) depth [] = refl
  subtree_root-split levels depth (x ∷ xs) = refl

  module _ (levels depth : ℕ) (leaves : List Leaf) (key : Bytes) where
    collect_low :
        nat_beq (bit key depth) 0 ≡ true
        → collect_siblings h (suc levels) depth leaves key
          ≡ subtree_root h levels (depth + 1) (split_right depth leaves)
            ∷ collect_siblings h levels (depth + 1) (split_left depth leaves) key
    unfolding collect_siblings
    collect_low low = rw (collect_siblings, low)

    collect_high :
        nat_beq (bit key depth) 0 ≡ false
        → collect_siblings h (suc levels) depth leaves key
          ≡ subtree_root h levels (depth + 1) (split_left depth leaves)
            ∷ collect_siblings h levels (depth + 1) (split_right depth leaves) key
    unfolding collect_siblings
    collect_high high = rw (collect_siblings, high)

    leaf_at_low :
        nat_beq (bit key depth) 0 ≡ true
        → leaf_at (suc levels) depth leaves key
          ≡ leaf_at levels (depth + 1) (split_left depth leaves) key
    unfolding leaf_at
    leaf_at_low low = rw (leaf_at, low)

    leaf_at_high :
        nat_beq (bit key depth) 0 ≡ false
        → leaf_at (suc levels) depth leaves key
          ≡ leaf_at levels (depth + 1) (split_right depth leaves) key
    unfolding leaf_at
    leaf_at_high high = rw (leaf_at, high)

  fold_up-collect :
      (levels depth : ℕ) (leaves : List Leaf) (key : Bytes)
      → fold_up h key depth
          (collect_siblings h levels depth leaves key)
          (leaf_at levels depth leaves key)
        ≡ subtree_root h levels depth leaves
  unfolding fold_up
  fold_up-collect zero depth [] key =
      unfold subtree_root in unfold default in unfold collect_siblings in unfold leaf_at in refl
  fold_up-collect zero depth (x ∷ xs) key =
      unfold subtree_root in unfold collect_siblings in unfold leaf_at in refl
  fold_up-collect (suc levels) depth leaves key = elim (Bool-cases (nat_beq (bit key depth) 0)) [
    | inl low ↦
        rw (collect_low levels depth leaves key low, leaf_at_low levels depth leaves key low)
          (rw (low, fold_up-collect levels (depth + 1) (split_left depth leaves) key)
            (subtree_root-split levels depth leaves))
    | inr high ↦
        rw (collect_high levels depth leaves key high, leaf_at_high levels depth leaves key high)
          (rw (high, fold_up-collect levels (depth + 1) (split_right depth leaves) key)
            (subtree_root-split levels depth leaves))
  ]

  length-collect :
      (levels depth : ℕ) (leaves : List Leaf) (key : Bytes)
      → length (collect_siblings h levels depth leaves key) ≡ levels
  length-collect zero depth leaves key = unfold collect_siblings in refl
  length-collect (suc levels) depth leaves key = elim (Bool-cases (nat_beq (bit key depth) 0)) [
    | inl low ↦
        rw (collect_low levels depth leaves key low)
          (ap suc (length-collect levels (depth + 1) (split_left depth leaves) key))
    | inr high ↦
        rw (collect_high levels depth leaves key high)
          (ap suc (length-collect levels (depth + 1) (split_right depth leaves) key))
  ]

  -- The proof that a tree gives for a key verifies against its root, with the leaf on the key's path.
  pub verify-proof :
      (t : SparseMerkleTree) (key : Bytes)
      → verify h (root h t) key (leaf_at height 0 t.leaves key) (proof h t key) ≡ true
  unfolding verify root proof
  verify-proof t key =
      rw (length-collect height 0 t.leaves key, fold_up-collect height 0 t.leaves key)
        (beq_refl (subtree_root h height 0 t.leaves))

  abbrev pub AreHashes : List Bytes → Type 0
  AreHashes = All (λ s. length s ≡ 32)

  hash2-cases :
      (l r l' r' : Bytes)
      → length l ≡ length l'
      → hash2 h l r ≡ hash2 h l' r'
      → (l ≡ l') × (r ≡ r') ⊎ Collision h.blake3
  unfolding hash2
  hash2-cases l r l' r' n e = elim (blake3-cases h (1 ∷ l ++ r) (1 ∷ l' ++ r') e) [
    | inr c ↦ inr c
    | inl same ↦ let (one, rest) = cons-injective same in inl (append-injective l r l' r' n rest)
  ]

  length-fold_up :
      (key : Bytes) (depth : ℕ) (siblings : List Bytes) (leaf : Bytes)
      → length leaf ≡ 32
      → length (fold_up h key depth siblings leaf) ≡ 32
  unfolding fold_up hash2
  length-fold_up key depth [] leaf n = n
  length-fold_up key depth (sib ∷ siblings) leaf n = elim (Bool-cases (nat_beq (bit key depth) 0)) [
    | inl low ↦ rw low (h.blake3_size _)
    | inr high ↦ rw high (h.blake3_size _)
  ]

  step :
      (key : Bytes) (depth : ℕ) (s s' : Bytes) (ss ss' : List Bytes) (leaf leaf' : Bytes)
      → length s ≡ length s'
      → length leaf ≡ 32
      → length leaf' ≡ 32
      → fold_up h key depth (s ∷ ss) leaf ≡ fold_up h key depth (s' ∷ ss') leaf'
      → (s ≡ s') × (fold_up h key (depth + 1) ss leaf ≡ fold_up h key (depth + 1) ss' leaf')
        ⊎ Collision h.blake3
  unfolding fold_up
  step key depth s s' ss ss' leaf leaf' n p p' e =
      let cur = fold_up h key (depth + 1) ss leaf in
      let cur' = fold_up h key (depth + 1) ss' leaf' in
      let size =
        length-fold_up key (depth + 1) ss leaf p
        ∙ sym (length-fold_up key (depth + 1) ss' leaf' p') in
      elim (Bool-cases (nat_beq (bit key depth) 0)) [
        | inl low ↦ elim (hash2-cases cur s cur' s' size (rw (fold_up, low) at e)) [
          | inr c ↦ inr c
          | inl (below, same) ↦ inl (same, below)
        ]
        | inr high ↦ hash2-cases s cur s' cur' n (rw (fold_up, high) at e)
      ]

  verified :
      (top key leaf : Bytes) (p : MerkleProof)
      → verify h top key leaf p ≡ true
      → (length p.siblings ≡ height) × (fold_up h key 0 p.siblings leaf ≡ top)
  unfolding verify
  verified top key leaf p e = ground (
    arith,
    nat_beq_iff (length p.siblings) height,
    list_beq_iff (fold_up h key 0 p.siblings leaf) top,
  )

  fold_up-cases :
      (key : Bytes) (depth : ℕ) (ss ss' : List Bytes) (leaf leaf' : Bytes)
      → length ss ≡ length ss'
      → AreHashes ss
      → AreHashes ss'
      → length leaf ≡ 32
      → length leaf' ≡ 32
      → fold_up h key depth ss leaf ≡ fold_up h key depth ss' leaf'
      → (leaf ≡ leaf') × (ss ≡ ss') ⊎ Collision h.blake3
  fold_up-cases key depth [] [] leaf leaf' n a a' p p' e = inl (unfold fold_up in e, refl)
  fold_up-cases key depth [] (s' ∷ ss') leaf leaf' n a a' p p' e = absurd (omega arith)
  fold_up-cases key depth (s ∷ ss) [] leaf leaf' n a a' p p' e = absurd (omega arith)
  fold_up-cases key depth (s ∷ ss) (s' ∷ ss') leaf leaf' n a a' p p' e =
      let cur = fold_up h key (depth + 1) ss leaf in
      let cur' = fold_up h key (depth + 1) ss' leaf' in
      let deeper = fold_up-cases key (depth + 1) ss ss' leaf leaf' (omega arith) a.1 a'.1 p p' in
      elim (step key depth s s' ss ss' leaf leaf' (a.0 ∙ sym a'.0) p p' e) [
        | inr c ↦ inr c
        | inl (same, below) ↦ elim (deeper below) [
          | inr c ↦ inr c
          | inl (leaves, rest) ↦ inl (leaves, cc)
        ]
      ]

  -- Proofs of one key that verify against one root, of leaves and siblings of 32 bytes, have the
  -- same leaf and the same siblings, or a collision of the hash is found.
  pub verify-binding :
      (top key leaf leaf' : Bytes) (p p' : MerkleProof)
      → length leaf ≡ 32
      → length leaf' ≡ 32
      → AreHashes p.siblings
      → AreHashes p'.siblings
      → verify h top key leaf p ≡ true
      → verify h top key leaf' p' ≡ true
      → (leaf ≡ leaf') × (p.siblings ≡ p'.siblings) ⊎ Collision h.blake3
  unfolding verify
  verify-binding top key leaf leaf' p p' n n' a a' e e' =
      let (size, eq) = verified top key leaf p e in
      let (size', eq') = verified top key leaf' p' e' in
      fold_up-cases key 0 p.siblings p'.siblings leaf leaf' (size ∙ sym size') a a' n n'
        (eq ∙ sym eq')
