-- ===== src/Database/Smt/Nodes/Halves.antt =====
-- Sorted leaves below a node split at its bit into the leaves below its children.
use tao.Common.{
  ℕ, ◌<◌, ◌≡◌, true, refl, sym, ap, ◌∙◌, arith, nat_beq, inl, inr, Bool-cases, none, some, List, [],
  ◌∷◌, All,
}
use tao.Common.Keys.{nat_eq, list_eq, beq-cases}
use tao.Common.Maps.{lookup}
use tao.Consensus.Bytes.{Bytes, IsBytes32}
use tao.Database.Smt.{empty_leaf, bit, Leaf, split_left, split_right, key_leb}
use tao.Database.Smt.Nodes.Path.{Meets}
use tao.Database.Smt.Nodes.Tree.{bit_lt}
use tao.Database.Smt.Nodes.Sorting.{IsSorted}
use tao.Database.Smt.Nodes.Order.{key_leb-bit}

-- The leaf of a key: the first entry with the key, or the empty leaf.
unfoldable pub leaf_of : List Leaf → Bytes → Bytes
leaf_of leaves key = elim (lookup key leaves) [ none ↦ empty_leaf | some leaf ↦ leaf ]

-- The leaf is below the node at the depth on the path of the key.
abbrev pub Below : ℕ → Bytes → Leaf → Type 0
Below d k x = IsBytes32 x.0 × Meets d x.0 k

abbrev pub HasBit : ℕ → ℕ → Leaf → Type 0
HasBit d v x = bit x.0 d ≡ v

-- From a leaf with the bit set on, all have it set.
ones :
    (d : ℕ) (k : Bytes) (x : Leaf) (xs : List Leaf)
    → d < 256
    → Below d k x
    → bit x.0 d ≡ 1
    → All (λ y. key_leb x.0 y.0 ≡ true) xs
    → All (Below d k) xs
    → All (HasBit d 1) xs
ones d k x [] small hx one s b = tt
ones d k x (y ∷ ys) small hx one s b = (
  omega (arith, bit_lt y.0 d, key_leb-bit x.0 y.0 d hx.0 b.0.0 small s.0 (hx.1 ∙ sym b.0.1)),
  ones d k x ys small hx one s.1 b.1,
)

absent :
    (d : ℕ) (c : Bytes) (xs : List Leaf) → bit c d ≡ 0 → All (HasBit d 1) xs → lookup c xs ≡ none
unfolding lookup
absent d c [] zero_bit a = refl
absent d c (x ∷ xs) zero_bit a = elim (beq-cases x.0 c) [
  | inl (e, _) ↦ absurd (omega (arith, a.0, zero_bit, ap (λ t. bit t d) e))
  | inr f ↦ rw (lookup, f) (absent d c xs zero_bit a.1)
]

-- What `split_at` gives for sorted leaves below one node.
pub record Halves (d : ℕ) (k : Bytes) (xs : List Leaf) : Type 0 where
  pub left_sorted : IsSorted (split_left d xs)
  pub right_sorted : IsSorted (split_right d xs)
  pub left_below : All (λ y. Below d k y × HasBit d 0 y) (split_left d xs)
  pub right_below : All (λ y. Below d k y × HasBit d 1 y) (split_right d xs)
  pub left_leaf : (c : Bytes) → bit c d ≡ 0 → lookup c (split_left d xs) ≡ lookup c xs
  pub right_leaf : (c : Bytes) → bit c d ≡ 1 → lookup c (split_right d xs) ≡ lookup c xs

All-left : (P : Leaf → Type 0) (d : ℕ) (xs : List Leaf) → All P xs → All P (split_left d xs)
unfolding split_left
All-left P d [] a = tt
All-left P d (x ∷ xs) a = elim (Bool-cases (nat_beq (bit x.0 d) 0)) [
  | inl h ↦ rw h (a.0, All-left P d xs a.1)
  | inr h ↦ rw h tt
]

All-both : (P Q : Leaf → Type 0) (xs : List Leaf) → All P xs → All Q xs → All (λ y. P y × Q y) xs
All-both P Q [] a b = tt
All-both P Q (x ∷ xs) a b = ((a.0, b.0), All-both P Q xs a.1 b.1)

pub Halves_lem :
    (d : ℕ) (k : Bytes) (xs : List Leaf)
    → d < 256
    → IsSorted xs
    → All (Below d k) xs
    → Halves d k xs
unfolding split_left split_right lookup
Halves_lem d k [] small s b = record {
  left_sorted = tt;
  right_sorted = tt;
  left_below = tt;
  right_below = tt;
  left_leaf = λ c _. refl;
  right_leaf = λ c _. refl;
}
Halves_lem d k (x ∷ xs) small s b =
    let r = Halves_lem d k xs small s.1 b.1 in
    elim (Bool-cases (nat_beq (bit x.0 d) 0)) [
      | inl low ↦
          let at_zero : bit x.0 d ≡ 0 = ground arith in
          record {
            left_sorted = rw low (All-left (λ y. key_leb x.0 y.0 ≡ true) d xs s.0, r.left_sorted);
            right_sorted = rw low r.right_sorted;
            left_below = rw low ((b.0, at_zero), r.left_below);
            right_below = rw low r.right_below;
            left_leaf = λ c e. rw low (ground (arith, r.left_leaf c e));
            right_leaf = λ c e. rw low (elim (beq-cases x.0 c) [
              | inl (same, _) ↦ absurd (omega (arith, e, at_zero, ap (λ t. bit t d) same))
              | inr f ↦ rw f (r.right_leaf c e)
            ]);
          }
      | inr high ↦
          let at_one : bit x.0 d ≡ 1 = ground (arith, bit_lt x.0 d) in
          let all_ones = ones d k x xs small b.0 at_one s.0 b.1 in
          record {
            left_sorted = rw high tt;
            right_sorted = rw high s;
            left_below = rw high tt;
            right_below = rw high (All-both (Below d k) (HasBit d 1) (x ∷ xs) b (at_one, all_ones));
            left_leaf = λ c e. rw high (sym (absent d c (x ∷ xs) e (at_one, all_ones)));
            right_leaf = λ c e. rw high refl;
          }
    ]
