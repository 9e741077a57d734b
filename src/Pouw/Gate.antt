-- ===== src/Pouw/Gate.antt =====
-- crates/tao-pouw/src/utility_gate.rs, the model registry and the gate that ties a solution to a
-- registered tile. `none` is a fault; a rejected solution is a value.
pub mod Registered
pub mod Solving
pub mod Tile
mod Tests
use tao.Common.{
  ℕ, zero, suc, ◌+◌, ◌*◌, ◌^◌, Bool, true, false, not, ◌&&◌, Option, none, some, List, [], ◌∷◌,
  ◌++◌, map, nat_beq, if◌then◌else◌, length, ◌>>=◌, ◌>>◌, ensure,
}
use tao.Common.Keys.{◌==◌, nat_eq, list_eq}
use tao.Common.Maps.{HashMap, lookup, insert}
use tao.Consensus.Bytes.{Bytes, Hasher, U256Codec}
use tao.Consensus.Target.{Target, meets_target}
use tao.Pouw.Gemm.{Xof, matmul, noisy_product_transcript, to_le_bytes}
use tao.Pouw.Commitment.{
  MerkleProof, tile_leaf, padded_leaves, merkle_root, merkle_proof, merkle_verify,
}

abbrev pub ModelId : Type 0
ModelId = Bytes

pub record RegisteredModel : Type 0 where
  pub name : Bytes
  pub n : ℕ
  pub weight_root : Bytes
  pub num_tiles : ℕ
  pub padded : List Bytes

pub record ModelRegistry : Type 0 where
  pub models : HashMap ModelId RegisteredModel

-- `ModelRegistry::new`
pub new : ModelRegistry
new = record { models = [] }

-- b"tao-model", b"tao-work" and b"tao-noise"
abbrev model_tag : Bytes
model_tag = 116 ∷ 97 ∷ 111 ∷ 45 ∷ 109 ∷ 111 ∷ 100 ∷ 101 ∷ 108 ∷ []

abbrev work_tag : Bytes
work_tag = 116 ∷ 97 ∷ 111 ∷ 45 ∷ 119 ∷ 111 ∷ 114 ∷ 107 ∷ []

abbrev noise_tag : Bytes
noise_tag = 116 ∷ 97 ∷ 111 ∷ 45 ∷ 110 ∷ 111 ∷ 105 ∷ 115 ∷ 101 ∷ []

-- The assertion of `register`: every tile has n * n entries.
unfoldable pub all_sized : ℕ → List (List ℕ) → Bool
all_sized n [] = true
all_sized n (t ∷ tiles) = nat_beq (length t) (n * n) && all_sized n tiles

pub get : ModelRegistry → ModelId → Option RegisteredModel
get r id = lookup id r.models

pub record WorkItem : Type 0 where
  pub model_id : ModelId
  pub tile_index : ℕ
  pub input : List ℕ

pub record BoundSolution : Type 0 where
  pub work_commitment : Bytes
  pub weight_tile : List ℕ
  pub weight_proof : MerkleProof
  pub input : List ℕ
  pub nonce : ℕ

pub data GateError : Type 0 where
  unknown_model work_mismatch input_mismatch forged_weights pow_not_met : GateError

pub data Verdict : Type 0 where
  ok : Verdict
  err : GateError → Verdict

pub useful_output : BoundSolution → ℕ → Option (List ℕ)
useful_output sol n = matmul sol.weight_tile sol.input n

module _ (h : Hasher) where
  pub model_id : Bytes → ℕ → Bytes → ModelId
  model_id name n weight_root = h.blake3 (model_tag ++ name ++ to_le_bytes 8 n ++ weight_root)

  pub register : ModelRegistry → Bytes → ℕ → List (List ℕ) → Option (ModelId × ModelRegistry)
  register r name n tiles = do
    ensure (not (nat_beq (length tiles) 0) && all_sized n tiles)
    let leaves = padded_leaves h (map (tile_leaf h) tiles)
    weight_root ← merkle_root h leaves
    let id = model_id name n weight_root
    some (
      id,
      record {
        models =
            insert id
              (record {
                name = name;
                n = n;
                weight_root = weight_root;
                num_tiles = length tiles;
                padded = leaves;
              })
              r.models;
      },
    )

  -- An unknown model is `some none`; `none` is an index out of bounds.
  pub tile_proof : ModelRegistry → ModelId → ℕ → Option (Option MerkleProof)
  tile_proof r id index = elim (get r id) [
    | none ↦ some none
    | some m ↦ do p ← merkle_proof h m.padded index; some (some p)
  ]

  pub commitment : WorkItem → Bytes
  commitment w =
      h.blake3 (work_tag ++ w.model_id ++ to_le_bytes 8 w.tile_index ++ tile_leaf h w.input)

  pub noise_seed : Bytes → ℕ → Bytes
  noise_seed work_commitment nonce = h.blake3 (noise_tag ++ work_commitment ++ to_le_bytes 8 nonce)

  module _ (u : U256Codec) (xof : Xof) (rank : ℕ) where
    -- Does the noised product of an attempt meet the target?
    pub attempt : ℕ → List ℕ → List ℕ → Bytes → Target → ℕ → Option Bool
    attempt n weight_tile input work_commitment target nonce = do
      hash ←
          noisy_product_transcript h xof weight_tile input n rank (noise_seed work_commitment nonce)
      some (meets_target u hash target)

    -- The checks of `verify` once the model is known.
    pub check : RegisteredModel → WorkItem → Target → BoundSolution → Option Verdict
    check model work target sol =
        if not (sol.work_commitment == commitment work)
        then some (err work_mismatch)
        else if not (sol.input == work.input)
        then some (err input_mismatch)
        else if not (nat_beq sol.weight_proof.index work.tile_index)
        then some (err forged_weights)
        else if not
            (merkle_verify h model.weight_root (tile_leaf h sol.weight_tile) sol.weight_proof)
        then some (err forged_weights)
        else do
          met ← attempt model.n sol.weight_tile sol.input sol.work_commitment target sol.nonce
          some (if met then ok else err pow_not_met)

    pub verify : ModelRegistry → WorkItem → Target → BoundSolution → Option Verdict
    verify r work target sol = elim (get r work.model_id) [
      | none ↦ some (err unknown_model)
      | some model ↦ check model work target sol
    ]

    -- The loop of `solve` from a nonce, on fuel. The first `none` says that the fuel ran out, an
    -- inner one that the code panics: an index out of bounds, or a nonce past the largest.
    pub solve_from :
        ℕ → ℕ → WorkItem → Target → List ℕ → MerkleProof → ℕ → Option (Option BoundSolution)
    solve_from zero n work target weight_tile weight_proof nonce = none
    solve_from (suc fuel) n work target weight_tile weight_proof nonce =
        elim (attempt n weight_tile work.input (commitment work) target nonce) [
          | none ↦ some none
          | some true ↦ some (
              some (record {
                work_commitment = commitment work;
                weight_tile = weight_tile;
                weight_proof = weight_proof;
                input = work.input;
                nonce = nonce;
              }))
          | some false ↦
              if nat_beq (nonce + 1) (2 ^ 64)
              then some none
              else solve_from fuel n work target weight_tile weight_proof (nonce + 1)
        ]

    pub solve : ℕ → ℕ → WorkItem → Target → List ℕ → MerkleProof → Option (Option BoundSolution)
    unfolding solve_from
    solve fuel n work target weight_tile weight_proof =
        solve_from fuel n work target weight_tile weight_proof 0
