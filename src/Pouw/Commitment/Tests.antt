-- ===== src/Pouw/Commitment/Tests.antt =====
-- A tree of two leaves.
use tao.Common.{◌≡◌, ◌⊎◌, refl, true, List, [], ◌∷◌, replicate}
use tao.Common.Keys.{nat_eq, list_eq, beq_refl}
use tao.Consensus.Bytes.{Bytes, Collision}
use tao.Consensus.Models.{hasher}
use tao.Pouw.Commitment.{
  MerkleProof, next_pow2, node_hash, climb, merkle_root, merkle_proof, merkle_verify, flip_low,
}
use tao.Pouw.Commitment.Proofs.{merkle_verify-binding}

abbrev left : Bytes
left = replicate 32 1

abbrev right : Bytes
right = replicate 32 2

abbrev leaves : List Bytes
leaves = left ∷ right ∷ []

abbrev right_proof : MerkleProof
right_proof = record { index = 1; siblings = left ∷ [] }

pow2_of_five : next_pow2 5 ≡ 8
unfolding next_pow2 tao.Pouw.Commitment.grow
pow2_of_five = refl

flip_five : flip_low 5 ≡ 4
unfolding flip_low
flip_five = refl

right_verified : merkle_verify hasher (node_hash hasher left right) right right_proof ≡ true
unfolding merkle_verify climb
right_verified = beq_refl (node_hash hasher left right)

merkle_verify-binding_example : (right ≡ right) × (left ∷ [] ≡ left ∷ []) ⊎ Collision hasher.blake3
merkle_verify-binding_example =
    merkle_verify-binding hasher (node_hash hasher left right) right right right_proof right_proof
      refl refl (refl, tt) (refl, tt) refl refl right_verified right_verified
