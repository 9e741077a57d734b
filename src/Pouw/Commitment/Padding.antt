-- ===== src/Pouw/Commitment/Padding.antt =====
-- The padding of the leaves to a power of two.
use tao.Common.{
  ℕ, zero, suc, ◌+◌, ◌-◌, ◌*◌, ◌^◌, ◌≤◌, ◌≡◌, refl, some, List, [], ◌∷◌, ◌++◌, arith, length, ltb,
  get_elem?, Bool-cases, inl, inr, max, replicate, length-append,
}
use tao.Common.Powers.{pow2-suc, pow2-pos}
use tao.Consensus.Bytes.{Bytes, Hasher}
use tao.Pouw.Commitment.{grow, next_pow2, padded_leaves}

grow_lem : (fuel n j : ℕ) → n ≤ 2 ^ j + fuel → (k : ℕ) × (grow fuel n (2 ^ j) ≡ 2 ^ k) × (n ≤ 2 ^ k)
unfolding grow
grow_lem zero n j h = (j, refl, omega arith)
grow_lem (suc fuel) n j h = elim (Bool-cases (ltb (2 ^ j) n)) [
  | inl more ↦
      let twice : 2 ^ j * 2 ≡ 2 ^ suc j = omega (arith, pow2-suc j) in
      let (k, same, enough) = grow_lem fuel n (suc j) (omega (arith, pow2-suc j, pow2-pos j)) in
      (k, rw (more, twice) same, enough)
  | inr done ↦ (j, rw done refl, ground arith)
]

length-replicate : (n : ℕ) (a : Bytes) → length (replicate n a) ≡ n
length-replicate zero a = refl
length-replicate (suc n) a = omega (arith, length-replicate n a)

pub get-append :
    (xs ys : List Bytes) (i : ℕ) (x : Bytes)
    → get_elem? xs i ≡ some x
    → get_elem? (xs ++ ys) i ≡ some x
get-append [] ys i x e = cc
get-append (y ∷ xs) ys zero x e = e
get-append (y ∷ xs) ys (suc i) x e = get-append xs ys i x e

-- The padded leaves are a power of two, and the leaves keep their positions.
pub padded_leaves_lem :
    (h : Hasher) (leaves : List Bytes)
    → ((k : ℕ) × (length (padded_leaves h leaves) ≡ 2 ^ k))
      × ((i : ℕ) (leaf : Bytes)
          → get_elem? leaves i ≡ some leaf
          → get_elem? (padded_leaves h leaves) i ≡ some leaf)
unfolding padded_leaves next_pow2
padded_leaves_lem h leaves =
    let n = max (length leaves) 1 in
    let (k, same, enough) = grow_lem n n 0 (omega arith) in
    let pad = replicate (grow n n 1 - length leaves) (h.blake3 _) in
    (
      (
        k,
        omega (
          arith,
          length-append leaves pad,
          length-replicate (grow n n 1 - length leaves) (h.blake3 _),
          same,
          enough,
        ),
      ),
      λ i leaf found. get-append leaves pad i leaf found,
    )
