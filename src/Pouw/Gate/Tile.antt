-- ===== src/Pouw/Gate/Tile.antt =====
-- A solution that the gate accepts has multiplied the tile that was registered.
use tao.Common.{
  ℕ, zero, suc, ◌/◌, ◌^◌, ◌<◌, ◌≡◌, refl, sym, ap, ◌∙◌, ◌⊎◌, inl, inr, not, ◌&&◌, nat_beq, true,
  some, List, [], ◌∷◌, ◌++◌, arith, length, get_elem?, All, Bool-cases, some_inj, cons-injective,
}
use native.Mathlib.Nat.{pow-zero, pow-suc}
use tao.Common.Keys.{nat_eq, list_eq}
use tao.Consensus.Bytes.{Bytes, Hasher, U256Codec, Collision, blake3-cases, append-injective}
use tao.Consensus.Target.{Target}
use tao.Pouw.Gemm.{Xof, matmul, to_le_bytes, all_le_bytes}
use tao.Pouw.Commitment.{MerkleProof, tile_tag, tile_leaf, merkle_verify}
use tao.Pouw.Commitment.Proofs.{merkle_verify-cases}
use tao.Pouw.Gate.{
  ModelId, ModelRegistry, WorkItem, BoundSolution, ok, all_sized, commitment, attempt, verify,
  register, tile_proof, useful_output,
}
use tao.Pouw.Gate.Registered.{register-tile_proof}
use tao.Pouw.Gate.Solving.{verify_iff}

-- The entries are 64-bit patterns.
abbrev pub AreWords : List ℕ → Type 0
AreWords = All (λ v. v < 2 ^ 64)

to_le_bytes-injective :
    (n v w : ℕ) → v < 256 ^ n → w < 256 ^ n → to_le_bytes n v ≡ to_le_bytes n w → v ≡ w
unfolding to_le_bytes
to_le_bytes-injective zero v w small small' e = omega (arith, pow-zero 256)
to_le_bytes-injective (suc n) v w small small' e =
    let (low, rest) = cons-injective e in
    let high : v / 256 ≡ w / 256 =
      to_le_bytes-injective n (v / 256) (w / 256) (omega (arith, pow-suc 256 n))
        (omega (arith, pow-suc 256 n)) rest in
    omega arith

length-to_le_bytes : (n v : ℕ) → length (to_le_bytes n v) ≡ n
unfolding to_le_bytes
length-to_le_bytes zero v = refl
length-to_le_bytes (suc n) v = omega (arith, length-to_le_bytes n (v / 256))

all_le_bytes-injective :
    (vs ws : List ℕ) → AreWords vs → AreWords ws → all_le_bytes vs ≡ all_le_bytes ws → vs ≡ ws
unfolding all_le_bytes to_le_bytes
all_le_bytes-injective [] [] a b e = refl
all_le_bytes-injective [] (w ∷ ws) a b e = cc
all_le_bytes-injective (v ∷ vs) [] a b e = cc
all_le_bytes-injective (v ∷ vs) (w ∷ ws) (a, as') (b, bs) e =
    let long : length (to_le_bytes 8 v) ≡ length (to_le_bytes 8 w) =
      length-to_le_bytes 8 v ∙ sym (length-to_le_bytes 8 w) in
    let (head, rest) =
      append-injective (to_le_bytes 8 v) (all_le_bytes vs) (to_le_bytes 8 w) (all_le_bytes ws) long
        e in
    let first_same = to_le_bytes-injective 8 v w a b head in
    let rest_same = all_le_bytes-injective vs ws as' bs rest in cc

module _ (h : Hasher) where
  tile_leaf-cases :
      (t t' : List ℕ)
      → AreWords t
      → AreWords t'
      → tile_leaf h t ≡ tile_leaf h t'
      → (t ≡ t') ⊎ Collision h.blake3
  unfolding tile_leaf
  tile_leaf-cases t t' a a' e =
      elim (blake3-cases h (tile_tag ++ all_le_bytes t) (tile_tag ++ all_le_bytes t') e) [
        | inr c ↦ inr c
        | inl same ↦
            let (_, bytes) =
              append-injective tile_tag (all_le_bytes t) tile_tag (all_le_bytes t') refl same in
            inl (all_le_bytes-injective t t' a a' bytes)
      ]

  length-tile_leaf : (t : List ℕ) → length (tile_leaf h t) ≡ 32
  unfolding tile_leaf
  length-tile_leaf t = h.blake3_size _

  register-IsSized :
      (r r' : ModelRegistry) (name : Bytes) (n : ℕ) (tiles : List (List ℕ)) (id : ModelId)
      → register h r name n tiles ≡ some (id, r')
      → all_sized n tiles ≡ true
  unfolding register
  register-IsSized r r' name n tiles id e =
      elim (Bool-cases (not (nat_beq (length tiles) 0) && all_sized n tiles)) [
        | inl sized ↦ ground arith
        | inr odd ↦ let bad = rw (register, odd) at e in cc
      ]

  module _ (u : U256Codec) (xof : Xof) (rank : ℕ) where
    -- A solution is accepted for a work item of a model that `register` has put into the registry from
    -- some tiles, with a proof of the height of the registry's own proof for the tile of the
    -- work item, where the entries of the two tiles are 64-bit patterns. Then its tile is the
    -- one that was registered at that position, its useful output is the product of that tile
    -- and the input of the work item, and the noised product of the two meets the target; or a
    -- collision of the hash is found.
    pub verify-register :
        (before r : ModelRegistry) (name : Bytes) (n : ℕ) (tiles : List (List ℕ)) (tile : List ℕ)
        (p : MerkleProof) (work : WorkItem) (target : Target) (sol : BoundSolution)
        → register h before name n tiles ≡ some (work.model_id, r)
        → get_elem? tiles work.tile_index ≡ some tile
        → tile_proof h r work.model_id work.tile_index ≡ some (some p)
        → length sol.weight_proof.siblings ≡ length p.siblings
        → AreWords tile
        → AreWords sol.weight_tile
        → verify h u xof rank r work target sol ≡ some ok
        → (sol.weight_tile ≡ tile)
            × (useful_output sol n ≡ matmul tile work.input n)
            × (attempt h u xof rank n tile work.input (commitment h work) target sol.nonce
                ≡ some true)
          ⊎ Collision h.blake3
    unfolding useful_output
    verify-register before r name n tiles tile p work target sol put here made tall a a' accepted =
        let sized = register-IsSized before r name n tiles work.model_id put in
        let (id, r', model, q, put', known, size, _, made', place, real) =
          register-tile_proof h before name n tiles work.tile_index tile sized here in
        let same_id : id ≡ work.model_id = cc in
        let same_r : r' ≡ r = cc in
        let s = (verify_iff h u xof rank r work target sol).0 accepted in
        let same_model : s.model ≡ model = some_inj (sym s.known ∙ rw (same_id, same_r) at known) in
        let same_proof : q ≡ p = cc in
        let real' : merkle_verify h s.model.weight_root (tile_leaf h tile) q ≡ true =
          ap (λ m. merkle_verify h m.weight_root (tile_leaf h tile) q) same_model ∙ real in
        let level : length sol.weight_proof.siblings ≡ length q.siblings =
          tall ∙ sym (ap (λ t. length t.siblings) same_proof) in
        let order : s.model.n ≡ n = ap (λ m. m.n) same_model ∙ size in
        let meets = s.meets in
        let given = s.same_input in
        let for_work = s.for_work in
        elim (merkle_verify-cases h s.model.weight_root (tile_leaf h sol.weight_tile)
          (tile_leaf h tile) sol.weight_proof q (s.same_tile ∙ sym place) level
          (length-tile_leaf sol.weight_tile) (length-tile_leaf tile) s.real_weights real') [
            | inr c ↦ inr c
            | inl (leaf, _) ↦ elim (tile_leaf-cases sol.weight_tile tile a' a leaf) [
              | inr c ↦ inr c
              | inl same ↦ inl (same, cc, cc)
            ]
          ]
