-- ===== src/Pouw/Gate/Tests.antt =====
-- A model of one tile, with small functions in the place of the hash and its extension.
use tao.Common.{
  ℕ, ◌≡◌, ◌<◌, ◌⊎◌, refl, Bool, true, false, none, some, Option, List, [], ◌∷◌, replicate, length,
  arith,
}
use tao.Common.Keys.{nat_eq, list_eq, beq_refl}
use tao.Consensus.Target.{Target, meets_target, to_u256}
use tao.Consensus.Models.{hasher, codec}
use tao.Pouw.Gemm.{
  Xof, matmul, lowrank, dot, row, rows_of, fill, add_noise, all_le_bytes, to_le_bytes, wrapping_add,
  wrapping_mul, sign_extend, noisy_product_transcript,
}
use tao.Pouw.Commitment.{
  MerkleProof, tile_leaf, merkle_verify, climb, padded_leaves, next_pow2, grow, merkle_root, reduce,
  merkle_proof, siblings_from,
}
use tao.Pouw.Gate.{
  BoundSolution, new, model_id, register, all_sized, tile_proof, useful_output, ModelId,
  RegisteredModel, ModelRegistry, WorkItem, ok, get, commitment, attempt, verify, solve,
}
use tao.Pouw.Gate.Solving.{solution, solve-verify}
use tao.Pouw.Gate.Tile.{verify-register}
use tao.Common.Maps.{lookup, insert}
use tao.Consensus.Bytes.{Collision}

abbrev xof : Xof
xof seed count = replicate count 255

product : matmul (1 ∷ 2 ∷ 3 ∷ 4 ∷ []) (5 ∷ 6 ∷ 7 ∷ 8 ∷ []) 2 ≡ some (19 ∷ 22 ∷ 43 ∷ 50 ∷ [])
unfolding matmul dot row rows_of wrapping_add wrapping_mul
product = refl

product_short : matmul (1 ∷ 2 ∷ 3 ∷ []) (5 ∷ 6 ∷ 7 ∷ 8 ∷ []) 2 ≡ none
unfolding matmul dot row rows_of wrapping_add wrapping_mul
product_short = refl

abbrev tile : List ℕ
tile = 3 ∷ []

abbrev model_key : ModelId
model_key = 7 ∷ []

abbrev model : RegisteredModel
model = record {
  name = [];
  n = 1;
  weight_root = tile_leaf hasher tile;
  num_tiles = 1;
  padded = tile_leaf hasher tile ∷ [];
}

abbrev registry : ModelRegistry
registry = record { models = (model_key, model) ∷ [] }

abbrev work : WorkItem
work = record { model_id = model_key; tile_index = 0; input = 5 ∷ [] }

abbrev tile_proof_zero : MerkleProof
tile_proof_zero = record { index = 0; siblings = [] }

abbrev easy : Target
easy = replicate 32 255

known : get registry model_key ≡ some model
unfolding get tao.Common.Maps.lookup
known = refl

real : merkle_verify hasher (tile_leaf hasher tile) (tile_leaf hasher tile) tile_proof_zero ≡ true
unfolding merkle_verify climb
real = beq_refl (tile_leaf hasher tile)

met : attempt hasher codec xof 1 1 tile (5 ∷ []) (commitment hasher work) easy 0 ≡ some true
unfolding attempt noisy_product_transcript matmul lowrank dot row rows_of fill add_noise
    all_le_bytes to_le_bytes wrapping_add wrapping_mul sign_extend meets_target to_u256
met = refl

-- The model put into a registry by `register`, and a work item for its tile.
abbrev put_key : ModelId
put_key = model_id hasher [] 1 (tile_leaf hasher tile)

abbrev put_registry : ModelRegistry
put_registry = record { models = (put_key, model) ∷ [] }

abbrev put_work : WorkItem
put_work = record { model_id = put_key; tile_index = 0; input = 5 ∷ [] }

abbrev put_solution : BoundSolution
put_solution = solution hasher codec xof 1 1 put_work easy tile tile_proof_zero 0

put : register hasher new [] 1 (tile ∷ []) ≡ some (put_key, put_registry)
unfolding register new all_sized padded_leaves next_pow2 grow merkle_root reduce insert
put = refl

put_known : get put_registry put_key ≡ some model
unfolding get lookup
put_known = rw (beq_refl put_key) refl

put_proof : tile_proof hasher put_registry put_key 0 ≡ some (some tile_proof_zero)
unfolding tile_proof merkle_proof siblings_from
put_proof = rw (tile_proof, put_known) refl

put_met : attempt hasher codec xof 1 1 tile (5 ∷ []) (commitment hasher put_work) easy 0 ≡ some true
unfolding attempt noisy_product_transcript matmul lowrank dot row rows_of fill add_noise
    all_le_bytes to_le_bytes wrapping_add wrapping_mul sign_extend meets_target to_u256
put_met = refl

put_accepted : verify hasher codec xof 1 put_registry put_work easy put_solution ≡ some ok
put_accepted =
    (solve-verify hasher codec xof 1 1 put_work easy tile tile_proof_zero put_registry model 0 1
      put_known refl refl real (omega arith) (omega arith) (λ i below. absurd (omega arith))
      put_met).1

verify-register_example :
    (tile ≡ tile)
      × (useful_output put_solution 1 ≡ matmul tile (5 ∷ []) 1)
      × (attempt hasher codec xof 1 1 tile (5 ∷ []) (commitment hasher put_work) easy 0 ≡ some true)
    ⊎ Collision hasher.blake3
verify-register_example =
    verify-register hasher codec xof 1 new put_registry [] 1 (tile ∷ []) tile tile_proof_zero
      put_work easy put_solution put refl put_proof refl (omega arith, tt) (omega arith, tt)
      put_accepted

solve-verify_example :
    (solve hasher codec xof 1 1 1 work easy tile tile_proof_zero
      ≡ some (some (solution hasher codec xof 1 1 work easy tile tile_proof_zero 0)))
    × (verify hasher codec xof 1 registry work easy
          (solution hasher codec xof 1 1 work easy tile tile_proof_zero 0)
        ≡ some ok)
solve-verify_example =
    solve-verify hasher codec xof 1 1 work easy tile tile_proof_zero registry model 0 1 known refl
      refl real (omega arith) (omega arith) (λ i below. absurd (omega arith)) met
