-- ===== src/Consensus/Merkle/Binding.antt =====
-- Two lists of transactions of one length have different roots, or they give a hash collision.
use tao.Common.{
  ℕ, zero, suc, ◌%◌, ◌≤◌, ◌<◌, ◌≡◌, refl, ◌∙◌, some, List, [], ◌∷◌, ◌++◌, map, arith, length,
  length-append, length-map, last, All, inl, inr, ◌⊎◌, sym, cons-injective,
}
use tao.Common.Keys.{nat_eq, list_eq}
use tao.Consensus.Bytes.{Bytes, Hasher, Collision, blake3-cases, append-injective}
use tao.Consensus.Merkle.{pad_odd, hash_pairs, next_level, reduce, tx_merkle_root}
use tao.Consensus.Merkle.Rounds.{last-some, reduce_step, length-next_level}
use tao.Consensus.Merkle.Duplicate.{pad_odd-repeat, pad_odd-even}

abbrev IsNodes : List Bytes → Type 0
IsNodes = All (λ n. length n ≡ 32)

parity-cases : (n : ℕ) → (n % 2 ≡ 0) ⊎ (n % 2 ≡ 1)
parity-cases n = omega arith

IsNodes-append : (xs : List Bytes) (a : Bytes) → IsNodes xs → length a ≡ 32 → IsNodes (xs ++ a ∷ [])
IsNodes-append [] a p q = (q, tt)
IsNodes-append (x ∷ xs) a p q = (p.0, IsNodes-append xs a p.1 q)

IsNodes-last :
    (x : Bytes) (xs : List Bytes) {a : Bytes}
    → IsNodes (x ∷ xs)
    → last (x ∷ xs) ≡ some a
    → length a ≡ 32
IsNodes-last x [] p e = ground arith
IsNodes-last x (y ∷ xs) p e = IsNodes-last y xs p.1 e

append_prefix :
    (xs ys : List Bytes) (a b : Bytes)
    → length xs ≡ length ys
    → xs ++ a ∷ [] ≡ ys ++ b ∷ []
    → xs ≡ ys
append_prefix [] [] a b n e = refl
append_prefix [] (y ∷ ys) a b n e = absurd (omega arith)
append_prefix (x ∷ xs) [] a b n e = absurd (omega arith)
append_prefix (x ∷ xs) (y ∷ ys) a b n e =
    let (p, q) = cons-injective e in let r = append_prefix xs ys a b (omega arith) q in cc

module _ (h : Hasher) where
  hash_pairs-cases :
      (xs ys : List Bytes)
      → length xs % 2 ≡ 0
      → length xs ≡ length ys
      → IsNodes xs
      → IsNodes ys
      → hash_pairs h xs ≡ hash_pairs h ys
      → (xs ≡ ys) ⊎ Collision h.blake3
  unfolding hash_pairs
  hash_pairs-cases [] [] even n p q e = inl refl
  hash_pairs-cases [] (y ∷ ys) even n p q e = absurd (omega arith)
  hash_pairs-cases (x ∷ []) ys even n p q e = absurd (omega arith)
  hash_pairs-cases (x ∷ x' ∷ xs) [] even n p q e = absurd (omega arith)
  hash_pairs-cases (x ∷ x' ∷ xs) (y ∷ []) even n p q e = absurd (omega arith)
  hash_pairs-cases (x ∷ x' ∷ xs) (y ∷ y' ∷ ys) even n p q e =
      let (head, rest) = cons-injective e in
      elim (blake3-cases h (x ++ x') (y ++ y') head) [
        | inr c ↦ inr c
        | inl pair ↦ elim (hash_pairs-cases xs ys (omega arith) (omega arith) p.1.1 q.1.1 rest) [
          | inr c ↦ inr c
          | inl tail ↦ let (a, b) = append-injective x x' y y' (p.0 ∙ sym q.0) pair in inl (cc)
        ]
      ]

  next_level_odd :
      (xs ys : List Bytes)
      → length xs % 2 ≡ 1
      → length xs ≡ length ys
      → IsNodes xs
      → IsNodes ys
      → next_level h xs ≡ next_level h ys
      → (xs ≡ ys) ⊎ Collision h.blake3
  unfolding next_level
  next_level_odd [] ys odd n p q e = absurd (omega arith)
  next_level_odd (x ∷ xs) [] odd n p q e = absurd (omega arith)
  next_level_odd (x ∷ xs) (y ∷ ys) odd n p q e =
      let (a, ea) = last-some x xs in
      let (b, eb) = last-some y ys in
      let grown =
        rw (pad_odd-repeat (x ∷ xs) a odd ea, pad_odd-repeat (y ∷ ys) b (omega arith) eb) at e in
      elim (hash_pairs-cases ((x ∷ xs) ++ a ∷ []) ((y ∷ ys) ++ b ∷ [])
        (omega (arith, length-append xs (a ∷ [])))
        (omega (arith, length-append xs (a ∷ []), length-append ys (b ∷ [])))
        (IsNodes-append (x ∷ xs) a p (IsNodes-last x xs p ea))
        (IsNodes-append (y ∷ ys) b q (IsNodes-last y ys q eb)) grown) [
          | inl same ↦ inl (append_prefix (x ∷ xs) (y ∷ ys) a b n same)
          | inr c ↦ inr c
        ]

  next_level-cases :
      (xs ys : List Bytes)
      → length xs ≡ length ys
      → IsNodes xs
      → IsNodes ys
      → next_level h xs ≡ next_level h ys
      → (xs ≡ ys) ⊎ Collision h.blake3
  unfolding next_level
  next_level-cases xs ys n p q e = elim (parity-cases (length xs)) [
    | inl even ↦
        hash_pairs-cases xs ys even n p q
          (rw (pad_odd-even xs even, pad_odd-even ys (omega arith)) at e)
    | inr odd ↦ next_level_odd xs ys odd n p q e
  ]

  IsNodes-hash_pairs : (xs : List Bytes) → IsNodes (hash_pairs h xs)
  unfolding hash_pairs
  IsNodes-hash_pairs [] = tt
  IsNodes-hash_pairs (x ∷ []) = tt
  IsNodes-hash_pairs (x ∷ y ∷ xs) = (h.blake3_size (x ++ y), IsNodes-hash_pairs xs)

  IsNodes-next_level : (xs : List Bytes) → IsNodes (next_level h xs)
  unfolding next_level
  IsNodes-next_level xs = IsNodes-hash_pairs (pad_odd xs)

  reduce-cases :
      (fuel : ℕ) (xs ys : List Bytes)
      → length xs ≡ length ys
      → 0 < length xs
      → length xs ≤ fuel
      → IsNodes xs
      → IsNodes ys
      → reduce h fuel xs ≡ reduce h fuel ys
      → (xs ≡ ys) ⊎ Collision h.blake3
  reduce-cases zero xs ys n pos f p q e = absurd (omega arith)
  reduce-cases (suc fuel) [] ys n pos f p q e = absurd (omega arith)
  reduce-cases (suc fuel) (x ∷ xs) [] n pos f p q e = absurd (omega arith)
  reduce-cases (suc fuel) (x ∷ []) (y ∷ []) n pos f p q e = inl (unfold reduce in cc e)
  reduce-cases (suc fuel) (x ∷ []) (y ∷ y' ∷ ys) n pos f p q e = absurd (omega arith)
  reduce-cases (suc fuel) (x ∷ x' ∷ xs) (y ∷ []) n pos f p q e = absurd (omega arith)
  reduce-cases (suc fuel) (x ∷ x' ∷ xs) (y ∷ y' ∷ ys) n pos f p q e =
      let nx = length-next_level h (x ∷ x' ∷ xs) in
      let ny = length-next_level h (y ∷ y' ∷ ys) in
      elim (reduce-cases fuel (next_level h (x ∷ x' ∷ xs)) (next_level h (y ∷ y' ∷ ys))
        (omega arith) (omega arith) (omega arith) (IsNodes-next_level (x ∷ x' ∷ xs))
        (IsNodes-next_level (y ∷ y' ∷ ys))
        (rw (reduce_step h fuel x x' xs, reduce_step h fuel y y' ys) at e)) [
          | inl same ↦ next_level-cases (x ∷ x' ∷ xs) (y ∷ y' ∷ ys) n p q same
          | inr c ↦ inr c
        ]

  map_blake3-cases :
      (xs ys : List Bytes) → map h.blake3 xs ≡ map h.blake3 ys → (xs ≡ ys) ⊎ Collision h.blake3
  map_blake3-cases [] [] e = inl refl
  map_blake3-cases [] (y ∷ ys) e = cc
  map_blake3-cases (x ∷ xs) [] e = cc
  map_blake3-cases (x ∷ xs) (y ∷ ys) e =
      let (head, rest) = cons-injective e in
      elim (blake3-cases h x y head) [
        | inr c ↦ inr c
        | inl p ↦ elim (map_blake3-cases xs ys rest) [ inl q ↦ inl (cc) | inr c ↦ inr c ]
      ]

  IsNodes-map : (xs : List Bytes) → IsNodes (map h.blake3 xs)
  IsNodes-map [] = tt
  IsNodes-map (x ∷ xs) = (h.blake3_size x, IsNodes-map xs)

  -- Lists with as many transactions and the same root are equal, or two inputs with one hash are
  -- found.
  pub tx_merkle_root-binding :
      (txs txs' : List Bytes)
      → length txs ≡ length txs'
      → tx_merkle_root h txs ≡ tx_merkle_root h txs'
      → (txs ≡ txs') ⊎ Collision h.blake3
  unfolding tx_merkle_root
  tx_merkle_root-binding [] [] n e = inl refl
  tx_merkle_root-binding [] (y ∷ ys) n e = absurd (omega arith)
  tx_merkle_root-binding (x ∷ xs) [] n e = absurd (omega arith)
  tx_merkle_root-binding (x ∷ xs) (y ∷ ys) n e =
      let b = h.blake3 in
      let len : length ys ≡ length xs = omega arith in
      elim (reduce-cases (suc (length xs)) (map b (x ∷ xs)) (map b (y ∷ ys))
        (omega (arith, length-map b xs, length-map b ys)) (omega arith)
        (omega (arith, length-map b xs)) (IsNodes-map (x ∷ xs)) (IsNodes-map (y ∷ ys))
        (rw len at e)) [ inl same ↦ map_blake3-cases (x ∷ xs) (y ∷ ys) same | inr c ↦ inr c ]
