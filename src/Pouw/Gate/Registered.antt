-- ===== src/Pouw/Gate/Registered.antt =====
-- A registered model: each of its tiles has a proof that verifies against its weight root.
use tao.Common.{
  ℕ, zero, suc, ◌≡◌, refl, true, false, some, List, [], ◌∷◌, map, nat_beq, length, get_elem?, arith,
}
use tao.Common.Keys.{nat_eq, list_eq}
use tao.Common.Maps.{lookup-insert_self, insert}
use tao.Consensus.Bytes.{Bytes, Hasher}
use tao.Pouw.Commitment.{MerkleProof, tile_leaf, padded_leaves, merkle_proof, merkle_verify}
use tao.Pouw.Commitment.Proofs.{merkle_verify-proof}
use tao.Pouw.Commitment.Padding.{padded_leaves_lem}
use tao.Pouw.Gate.{
  ModelId, RegisteredModel, ModelRegistry, all_sized, get, model_id, register, tile_proof,
}

get-map :
    (f : List ℕ → Bytes) (tiles : List (List ℕ)) (i : ℕ) (tile : List ℕ)
    → get_elem? tiles i ≡ some tile
    → get_elem? (map f tiles) i ≡ some (f tile)
get-map f [] i tile e = cc
get-map f (t ∷ tiles) zero tile e = cc
get-map f (t ∷ tiles) (suc i) tile e = get-map f tiles i tile e

tile_proof-known :
    (h : Hasher) (r : ModelRegistry) (id : ModelId) (model : RegisteredModel) (index : ℕ)
    (p : MerkleProof)
    → get r id ≡ some model
    → merkle_proof h model.padded index ≡ some p
    → tile_proof h r id index ≡ some (some p)
unfolding tile_proof
tile_proof-known h r id model index p known made = rw (tile_proof, known, made) refl

-- Registering tiles that all have the right size succeeds, and the model is then known under the
-- id returned; the proof given for a tile by its position verifies the tile against the model's
-- weight root.
pub register-tile_proof :
    (h : Hasher) (r : ModelRegistry) (name : Bytes) (n : ℕ) (tiles : List (List ℕ)) (index : ℕ)
    (tile : List ℕ)
    → all_sized n tiles ≡ true
    → get_elem? tiles index ≡ some tile
    → (id : ModelId) × (r' : ModelRegistry) × (model : RegisteredModel) × (p : MerkleProof)
      × (register h r name n tiles ≡ some (id, r'))
      × (get r' id ≡ some model)
      × (model.n ≡ n)
      × (model.num_tiles ≡ length tiles)
      × (tile_proof h r' id index ≡ some (some p))
      × (p.index ≡ index)
      × (merkle_verify h model.weight_root (tile_leaf h tile) p ≡ true)
unfolding register get
register-tile_proof h r name n [] index tile sized found = cc
register-tile_proof h r name n (t ∷ tiles) index tile sized found =
    let leaves = padded_leaves h (map (tile_leaf h) (t ∷ tiles)) in
    let ((k, size), kept) = padded_leaves_lem h (map (tile_leaf h) (t ∷ tiles)) in
    let at = kept index (tile_leaf h tile) (get-map (tile_leaf h) (t ∷ tiles) index tile found) in
    let (top, p, rooted, made, same, proved) =
      merkle_verify-proof h k leaves index (tile_leaf h tile) size at in
    let nonempty : nat_beq (length (t ∷ tiles)) 0 ≡ false = ground arith in
    let id = model_id h name n top in
    let model : RegisteredModel = record {
      name = name;
      n = n;
      weight_root = top;
      num_tiles = suc (length tiles);
      padded = leaves;
    } in
    (
      id,
      record { models = insert id model r.models },
      model,
      p,
      rw (register, nonempty, sized, rooted) refl,
      lookup-insert_self id model r.models,
      refl,
      refl,
      tile_proof-known h (record { models = insert id model r.models }) id model index p
          (lookup-insert_self id model r.models) made,
      same,
      proved,
    )
