-- ===== src/Pouw/Matmul/Total.antt =====
-- The matrix proof of work has a hash for every header, and its work belongs to one header.
use tao.Common.{
  ℕ, zero, suc, ◌*◌, ◌%◌, ◌≤◌, ◌<◌, ◌≡◌, refl, ap, ◌⊎◌, inl, inr, true, false, some, List, [], ◌∷◌,
  ◌++◌, arith, length, get_elem?, nat_beq, nat_beq_iff, lt→ltb, le→leb, some_inj, take,
}
use tao.Common.Keys.{nat_eq, list_eq}
use tao.Consensus.Bytes.{Bytes, Hasher, Collision, blake3-cases, append-injective}
use tao.Consensus.Block.{BlockHeader, Bincode}
use tao.Pouw.Gemm.{Xof, fill}
use tao.Pouw.Gemm.Total.{Fills, length-fill, matmul_total, noisy_product_transcript_total}
use tao.Pouw.Gate as Gate
use tao.Pouw.Gate.{all_sized, noise_seed}
use tao.Pouw.Gate.Registered.{register-tile_proof}
use tao.Pouw.Matmul.{
  MatmulPow, UtilityGatePow, le_value, from_weights, compute, work, pow_hash, useful_output,
  utility_tag,
}
use native.Mathlib.Nat.{mod-lt}

-- At least one tile, and each with n * n entries.
pub record IsSized (p : UtilityGatePow) : Type 0 where
  pub nonempty : 0 < length p.weights
  pub sized : all_sized p.n p.weights ≡ true

get-sized :
    (n : ℕ) (tiles : List (List ℕ)) (i : ℕ)
    → all_sized n tiles ≡ true
    → i < length tiles
    → (t : List ℕ) × (get_elem? tiles i ≡ some t) × (length t ≡ n * n)
unfolding all_sized
get-sized n [] i s h = absurd (omega arith)
get-sized n (t ∷ tiles) zero s h = (t, refl, ground (arith, nat_beq_iff (length t) (n * n)))
get-sized n (t ∷ tiles) (suc i) s h = get-sized n tiles i (ground arith) (omega arith)

module _ (h : Hasher) (xof : Xof) where
  -- At least one tile, all of the asserted sizes, and a positive rank that is at most n make a
  -- proof of work that keeps the tiles and their sizes.
  pub from_weights-IsSized :
      (name : Bytes) (n rank : ℕ) (tile : List ℕ) (tiles : List (List ℕ))
      → 0 < rank
      → rank ≤ n
      → all_sized n (tile ∷ tiles) ≡ true
      → (p : UtilityGatePow) × (from_weights h xof name n rank (tile ∷ tiles) ≡ some p)
        × IsSized p
        × (p.weights ≡ tile ∷ tiles)
  unfolding from_weights
  from_weights-IsSized name n rank tile tiles pos small sized =
      let (id, r, model, q, made, known, size, count, proof, index, real) =
        register-tile_proof h Gate.new name n (tile ∷ tiles) 0 tile sized refl in
      let p : UtilityGatePow = record {
        weights = tile ∷ tiles;
        n = n;
        rank = rank;
        model_id = id;
      } in
      let some_tile : nat_beq (length (tile ∷ tiles)) 0 ≡ false = ground arith in
      (
        p,
        rw
            (
              lt→ltb 0 n (omega arith),
              lt→ltb 0 rank pos,
              le→leb rank n small,
              some_tile,
              sized,
              made,
            )
            refl,
        record { nonempty = omega arith; sized = sized },
        refl,
      )

  module _ (c : Bincode) where
    -- If the extendable output fills its buffers, the matrices drawn from a header have a product:
    -- every header has a hash.
    pub compute_total :
        (p : MatmulPow) (header : BlockHeader)
        → Fills xof
        → (hash : Bytes) × (compute h xof c p header ≡ some hash)
    unfolding compute
    compute_total p header fills =
        let seed = h.blake3 (c.serialize_header header) in
        noisy_product_transcript_total h xof (fill xof seed 0 (p.n * p.n))
          (fill xof seed 1 (p.n * p.n)) p.n p.rank seed fills
          (length-fill xof seed 0 (p.n * p.n) fills) (length-fill xof seed 1 (p.n * p.n) fills)

    -- With tiles of the asserted sizes, and an extendable output that fills its buffers, every
    -- header has a hash and a useful output of n * n entries: the tile that the header selects is
    -- one of the model's.
    pub pow_hash_total :
        (p : UtilityGatePow) (header : BlockHeader)
        → Fills xof
        → IsSized p
        → ((hash : Bytes) × (pow_hash h xof c p header ≡ some hash))
          × ((out : List ℕ) × (useful_output h xof c p header ≡ some out)
              × (length out ≡ p.n * p.n))
    unfolding pow_hash useful_output work
    pow_hash_total p header fills v =
        let base = h.blake3 (c.serialize_header (record header { nonce = 0 })) in
        let index = le_value (take 8 base) % length p.weights in
        let (t, found, size) = get-sized p.n p.weights index v.sized (mod-lt _ v.nonempty) in
        let some_tile : nat_beq (length p.weights) 0 ≡ false = ground (arith, v.nonempty) in
        let input = length-fill xof base 7 (p.n * p.n) fills in
        let (hash, made) =
          noisy_product_transcript_total h xof t (fill xof base 7 (p.n * p.n)) p.n p.rank
            (noise_seed h (h.blake3 (utility_tag ++ p.model_id ++ base)) header.nonce) fills size
            input in
        let (out, product, whole) = matmul_total t (fill xof base 7 (p.n * p.n)) p.n size input in
        ((hash, rw (some_tile, found) made), (out, rw (some_tile, found) product, whole))

    -- With at least one tile, headers with one work are the same but for their nonces, as far as
    -- they are serialised, or a collision of the hash is found: the work of one block is of no use
    -- to another.
    pub work-binding :
        (p : UtilityGatePow) (header header' : BlockHeader)
        → 0 < length p.weights
        → work h xof c p header ≡ work h xof c p header'
        → (c.serialize_header (record header { nonce = 0 })
            ≡ c.serialize_header (record header' { nonce = 0 }))
          ⊎ Collision h.blake3
    unfolding work
    work-binding p header header' nonempty same =
        let some_tile : nat_beq (length p.weights) 0 ≡ false = ground (arith, nonempty) in
        let parts = some_inj (rw some_tile at same) in
        elim (blake3-cases h _ _ (ap (λ (t : ℕ × List ℕ × Bytes). t.2) parts)) [
          | inr found ↦ inr found
          | inl long ↦
              let (tag, rest) = append-injective utility_tag _ utility_tag _ refl long in
              let (id, base) = append-injective p.model_id _ p.model_id _ refl rest in
              blake3-cases h _ _ base
        ]
