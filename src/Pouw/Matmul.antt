-- ===== src/Pouw/Matmul.antt =====
-- crates/tao-pouw/src/lib.rs: matrix products as the proof of work of a block, with matrices drawn from
-- the header or with the weights of a registered model. `none` is a fault; the names for logs and the
-- demonstration model are left out.
pub mod Total
mod Tests
use tao.Common.{
  ℕ, zero, suc, ◌+◌, ◌*◌, ◌%◌, ◌^◌, Bool, true, false, not, ◌&&◌, Option, none, some, List, [], ◌∷◌,
  ◌++◌, nat_beq, ltb, leb, if◌then◌else◌, length, take, get_elem?, ◌>>=◌, ◌>>◌, ensure,
}
use tao.Consensus.Bytes.{Bytes, Hasher}
use tao.Consensus.Block.{BlockHeader, Bincode}
use tao.Pouw.Gemm.{Xof, fill, matmul, noisy_product_transcript, to_le_bytes}
use tao.Pouw.Gate as Gate
use tao.Pouw.Gate.{all_sized, register, noise_seed}

pub record MatmulPow : Type 0 where
  pub n : ℕ
  pub rank : ℕ

-- `MatmulPow::new`
pub new : ℕ → ℕ → Option MatmulPow
new n rank = do ensure (ltb 0 n && ltb 0 rank && leb rank n); some (record { n = n; rank = rank })

pub record UtilityGatePow : Type 0 where
  pub weights : List (List ℕ)
  pub n : ℕ
  pub rank : ℕ
  pub model_id : Bytes

-- `u64::from_le_bytes`
pub le_value : Bytes → ℕ
le_value [] = 0
le_value (b ∷ bs) = b + 256 * le_value bs

-- b"tao-weight-tile" and b"tao-utility-wc"
abbrev weight_tag : Bytes
weight_tag =
    116 ∷ 97 ∷ 111 ∷ 45 ∷ 119 ∷ 101 ∷ 105 ∷ 103 ∷ 104 ∷ 116 ∷ 45 ∷ 116 ∷ 105 ∷ 108 ∷ 101 ∷ []

abbrev pub utility_tag : Bytes
utility_tag = 116 ∷ 97 ∷ 111 ∷ 45 ∷ 117 ∷ 116 ∷ 105 ∷ 108 ∷ 105 ∷ 116 ∷ 121 ∷ 45 ∷ 119 ∷ 99 ∷ []

module _ (h : Hasher) (xof : Xof) where
  pub from_weights : Bytes → ℕ → ℕ → List (List ℕ) → Option UtilityGatePow
  from_weights name n rank weights = do
    ensure (ltb 0 n && ltb 0 rank && leb rank n && not (nat_beq (length weights) 0))
    ensure (all_sized n weights)
    (model_id, registry) ← register h Gate.new name n weights
    some (record { weights = weights; n = n; rank = rank; model_id = model_id })

  -- The tiles t, t + 1, ... of `from_seed`.
  pub seed_tiles : ℕ → Bytes → ℕ → ℕ → List (List ℕ)
  seed_tiles n seed zero t = []
  seed_tiles n seed (suc tiles) t =
      fill xof (h.blake3 (weight_tag ++ seed ++ to_le_bytes 8 t)) 0 (n * n)
      ∷ seed_tiles n seed tiles (t + 1)

  pub from_seed : Bytes → ℕ → ℕ → ℕ → Bytes → Option UtilityGatePow
  from_seed name n rank tiles seed = from_weights name n rank (seed_tiles n seed tiles 0)

  module _ (c : Bincode) where
    -- `MatmulPow::compute`, which is also its `pow_hash`.
    pub compute : MatmulPow → BlockHeader → Option Bytes
    compute p header =
        let seed = h.blake3 (c.serialize_header header) in
        noisy_product_transcript h xof (fill xof seed 0 (p.n * p.n)) (fill xof seed 1 (p.n * p.n))
          p.n p.rank seed

    -- The work of a block: the tile's index, the input and the commitment. The remainder by an empty
    -- list of weights panics.
    pub work : UtilityGatePow → BlockHeader → Option (ℕ × List ℕ × Bytes)
    work p header = do
      let base = h.blake3 (c.serialize_header (record header { nonce = 0 }))
      ensure (not (nat_beq (length p.weights) 0))
      some (
        le_value (take 8 base) % length p.weights,
        fill xof base 7 (p.n * p.n),
        h.blake3 (utility_tag ++ p.model_id ++ base),
      )

    pub useful_output : UtilityGatePow → BlockHeader → Option (List ℕ)
    useful_output p header = do
      (tile, input, work_commitment) ← work p header
      weights ← get_elem? p.weights tile
      matmul weights input p.n

    -- `UtilityGatePow::pow_hash`
    pub pow_hash : UtilityGatePow → BlockHeader → Option Bytes
    pow_hash p header = do
      (tile, input, work_commitment) ← work p header
      weights ← get_elem? p.weights tile
      noisy_product_transcript h xof weights input p.n p.rank
          (noise_seed h work_commitment header.nonce)
