-- ===== src/Database/Smt/Nodes/Tree.antt =====
-- The reference: the tree of hashes over a function from keys to leaves.
use mathlib.Core.Path.{subst}
use tao.Common.{
  get_elem?, ◌/◌, ◌%◌, ◌^◌, ◌-◌, ℕ, zero, suc, ◌+◌, ◌<◌, ◌≡◌, ◌≢◌, refl, sym, ap, ◌∙◌, arith,
  nat_beq, if◌then◌else◌, inl, inr, Option, none, some,
}
use tao.Common.Keys.{◌==◌, nat_eq, list_eq, eq-cases, list_beq_iff}
use tao.Consensus.Bytes.{Bytes, Hasher, IsBytes32}
use tao.Database.Smt.{empty_leaf, bit, hash2, default}
use tao.Database.Smt.Nodes.{id_bytes, flip_bit}
use tao.Database.Smt.Nodes.Path.{
  Meets, flip_bit-IsBytes32, bit-flip_bit, Meets-flip_bit, Meets-suc, Meets-whole,
}

abbrev join : Hasher → Bytes → ℕ → Bytes → Bytes → Bytes
join h key depth own other =
    if nat_beq (bit key depth) 0 then hash2 h own other else hash2 h other own

-- The hash of the node at `depth` on the path of `key`, over the leaves that `f` gives.
unfoldable pub tree : Hasher → (Bytes → Bytes) → ℕ → ℕ → Bytes → Bytes
tree h f zero depth key = f key
tree h f (suc levels) depth key =
    join h key depth (tree h f levels (suc depth) key)
      (tree h f levels (suc depth) (flip_bit key depth))

-- The leaves with one changed.
abbrev pub put_leaf : (Bytes → Bytes) → Bytes → Bytes → Bytes → Bytes
put_leaf f key leaf k = if key == k then leaf else f k

digit_lt : (m : ℕ) (o : Option ℕ) → (elim o [ none ↦ 0 | some byte ↦ byte / m % 2 ]) < 2
digit_lt m none = omega arith
digit_lt m (some byte) = omega arith

pub bit_lt : (k : Bytes) (d : ℕ) → bit k d < 2
unfolding bit
bit_lt k d = digit_lt (2 ^ (7 - d % 8)) (get_elem? k (d / 8))

join_same :
    (h : Hasher) (k c : Bytes) (d : ℕ) (a b a' b' : Bytes)
    → bit k d ≡ bit c d
    → a ≡ a'
    → b ≡ b'
    → join h k d a b ≡ join h c d a' b'
join_same h k c d a b a' b' bits e e' = rw (bits, e, e') refl

join_swap :
    (h : Hasher) (k c : Bytes) (d : ℕ) (a b a' b' : Bytes)
    → bit k d + bit c d ≡ 1
    → a ≡ b'
    → b ≡ a'
    → join h k d a b ≡ join h c d a' b'
join_swap h k c d a b a' b' bits e e' = ground arith

module _ (h : Hasher) where
  -- The hash of a node depends on the bits of the path only.
  pub tree-Meets :
      (f : Bytes → Bytes) (levels d : ℕ) (k c : Bytes)
      → IsBytes32 k
      → IsBytes32 c
      → levels + d ≡ 256
      → Meets d k c
      → tree h f levels d k ≡ tree h f levels d c
  unfolding tree
  tree-Meets f zero d k c hk hc total meets =
      ap f (Meets-whole k hk c hc (subst (λ n. Meets n k c) whole meets))
    where
      whole : d ≡ 256
      whole = omega arith
  tree-Meets f (suc levels) d k c hk hc total meets =
      let fk = flip_bit-IsBytes32 k hk d (omega arith) in
      let fc = flip_bit-IsBytes32 c hc d (omega arith) in
      let same = tree-Meets f levels (suc d) in
      let up = Meets-flip_bit k hk d (omega arith) in
      let uc = Meets-flip_bit c hc d (omega arith) in
      let bk = bit-flip_bit k hk d (omega arith) in
      let bc = bit-flip_bit c hc d (omega arith) in
      elim (eq-cases (bit k d) (bit c d)) [
        | inl bits ↦
            join_same h k c d _ _ _ _ bits
              (same k c hk hc (omega arith) ((Meets-suc k hk c hc d (omega arith)).1 (meets, bits)))
              (same (flip_bit k d) (flip_bit c d) fk fc (omega arith) (
                (Meets-suc (flip_bit k d) fk (flip_bit c d) fc d (omega arith)).1
                  (up ∙ (meets ∙ sym uc), omega arith)))
        | inr differ ↦
            join_swap h k c d _ _ _ _ (omega (arith, bit_lt k d, bit_lt c d))
              (same k (flip_bit c d) hk fc (omega arith) (
                (Meets-suc k hk (flip_bit c d) fc d (omega arith)).1
                  (meets ∙ sym uc, omega (arith, bit_lt k d, bit_lt c d))))
              (same (flip_bit k d) c fk hc (omega arith) (
                (Meets-suc (flip_bit k d) fk c hc d (omega arith)).1
                  (up ∙ meets, omega (arith, bit_lt k d, bit_lt c d))))
      ]

  -- A node off the path of a changed leaf keeps its hash.
  pub tree-put_leaf :
      (f : Bytes → Bytes) (key leaf : Bytes) (levels d : ℕ) (k : Bytes)
      → IsBytes32 key
      → IsBytes32 k
      → levels + d ≡ 256
      → id_bytes k d ≢ id_bytes key d
      → tree h (put_leaf f key leaf) levels d k ≡ tree h f levels d k
  unfolding tree
  tree-put_leaf f key leaf zero d k hkey hk total off = elim (eq-cases key k) [
    | inl e ↦ absurd (off (ap (λ x. id_bytes x d) (sym e)))
    | inr differ ↦ ground (arith, list_beq_iff key k)
  ]
  tree-put_leaf f key leaf (suc levels) d k hkey hk total off =
      let fk = flip_bit-IsBytes32 k hk d (omega arith) in
      join_same h k k d _ _ _ _ refl
        (tree-put_leaf f key leaf levels (suc d) k hkey hk (omega arith)
          (λ m. off ((Meets-suc k hk key hkey d (omega arith)).0 m).0))
        (tree-put_leaf f key leaf levels (suc d) (flip_bit k d) hkey fk (omega arith) (λ m. off (
          sym (Meets-flip_bit k hk d (omega arith))
          ∙ ((Meets-suc (flip_bit k d) fk key hkey d (omega arith)).0 m).0)))

  -- Without leaves every node has the default hash.
  pub tree_empty :
      (levels d : ℕ) (k : Bytes) → tree h (λ _. empty_leaf) levels d k ≡ default h levels
  unfolding tree default
  tree_empty zero d k = refl
  tree_empty (suc levels) d k =
      rw (tree_empty levels (suc d) k, tree_empty levels (suc d) (flip_bit k d)) ground arith

  -- A node depends on the leaves below it only.
  pub tree-local :
      (f g : Bytes → Bytes) (levels d : ℕ) (k : Bytes)
      → IsBytes32 k
      → levels + d ≡ 256
      → ((c : Bytes) → IsBytes32 c → Meets d c k → f c ≡ g c)
      → tree h f levels d k ≡ tree h g levels d k
  unfolding tree
  tree-local f g zero d k hk total same = same k hk refl
  tree-local f g (suc levels) d k hk total same =
      let fk = flip_bit-IsBytes32 k hk d (omega arith) in
      join_same h k k d _ _ _ _ refl
        (tree-local f g levels (suc d) k hk (omega arith)
          (λ c hc m. same c hc ((Meets-suc c hc k hk d (omega arith)).0 m).0))
        (tree-local f g levels (suc d) (flip_bit k d) fk (omega arith) (λ c hc m. same c hc (
          ((Meets-suc c hc (flip_bit k d) fk d (omega arith)).0 m).0
          ∙ Meets-flip_bit k hk d (omega arith))))

  pub tree_low :
      (f : Bytes → Bytes) (levels d : ℕ) (k : Bytes)
      → bit k d ≡ 0
      → tree h f (suc levels) d k
        ≡ hash2 h (tree h f levels (suc d) k) (tree h f levels (suc d) (flip_bit k d))
  unfolding tree
  tree_low f levels d k e = rw e refl

  pub tree_high :
      (f : Bytes → Bytes) (levels d : ℕ) (k : Bytes)
      → bit k d ≡ 1
      → tree h f (suc levels) d k
        ≡ hash2 h (tree h f levels (suc d) (flip_bit k d)) (tree h f levels (suc d) k)
  unfolding tree
  tree_high f levels d k e = rw e refl
