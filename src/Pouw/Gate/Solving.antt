-- ===== src/Pouw/Gate/Solving.antt =====
-- What the gate accepts, and that a solution which `solve` finds is accepted.
use tao.Common.{
  ℕ, zero, suc, ◌+◌, ◌^◌, ◌≤◌, ◌<◌, ◌≡◌, refl, ap, ◌∙◌, ◌↔◌, inl, inr, Bool, true, false, Option,
  some, List, nat_beq, nat_beq_iff, arith, Option-cases,
}
use native.Mathlib.Nat.{zero-add}
use tao.Common.Keys.{◌==◌, nat_eq, list_eq, list_beq_iff}
use tao.Consensus.Bytes.{Hasher, U256Codec}
use tao.Consensus.Target.{Target}
use tao.Pouw.Gemm.{Xof}
use tao.Pouw.Commitment.{MerkleProof, tile_leaf, merkle_verify}
use tao.Pouw.Gate.{
  RegisteredModel, ModelRegistry, WorkItem, BoundSolution, ok, get, commitment, attempt, check,
  verify, solve_from, solve,
}

module _ (h : Hasher) (u : U256Codec) (xof : Xof) (rank : ℕ) where
  -- A solution of this work item, with the registered tile, whose product meets the target.
  pub record IsSolution (r : ModelRegistry) (work : WorkItem) (target : Target)
      (sol : BoundSolution) : Type 0 where
    pub model : RegisteredModel
    pub known : get r work.model_id ≡ some model
    pub for_work : sol.work_commitment ≡ commitment h work
    pub same_input : sol.input ≡ work.input
    pub same_tile : sol.weight_proof.index ≡ work.tile_index
    pub real_weights :
        merkle_verify h model.weight_root (tile_leaf h sol.weight_tile) sol.weight_proof ≡ true
    pub meets :
        attempt h u xof rank model.n sol.weight_tile sol.input sol.work_commitment target sol.nonce
        ≡ some true

  module _ (r : ModelRegistry) (work : WorkItem) (target : Target) (sol : BoundSolution) where
    verify_complete : IsSolution r work target sol → verify h u xof rank r work target sol ≡ some ok
    unfolding verify
    verify_complete s =
        let committed : (sol.work_commitment == commitment h work) ≡ true =
          (list_beq_iff sol.work_commitment (commitment h work)).1 s.for_work in
        let given : (sol.input == work.input) ≡ true =
          (list_beq_iff sol.input work.input).1 s.same_input in
        let placed : nat_beq sol.weight_proof.index work.tile_index ≡ true =
          (nat_beq_iff sol.weight_proof.index work.tile_index).1 s.same_tile in
        rw (verify, s.known)
          (unfold check in rw (committed, given, placed, s.real_weights, s.meets) refl)

    check_sound :
        (model : RegisteredModel)
        → get r work.model_id ≡ some model
        → check h u xof rank model work target sol ≡ some ok
        → IsSolution r work target sol
    unfolding check
    check_sound model known e =
        elim (Option-cases (
          attempt h u xof rank model.n sol.weight_tile sol.input sol.work_commitment target
            sol.nonce)) [
              | inl fault ↦ let bad = rw fault at e in absurd (ground arith)
              | inr (met, found) ↦
                  let e' = rw found at e in
                  let committed = list_beq_iff sol.work_commitment (commitment h work) in
                  let given = list_beq_iff sol.input work.input in
                  let placed = nat_beq_iff sol.weight_proof.index work.tile_index in
                  record {
                    model = model;
                    known = known;
                    for_work = ground (arith, committed);
                    same_input = ground (arith, given);
                    same_tile = ground (arith, placed);
                    real_weights = ground arith;
                    meets = found ∙ ap some (ground arith);
                  }
            ]

    verify_sound : verify h u xof rank r work target sol ≡ some ok → IsSolution r work target sol
    unfolding verify
    verify_sound e = elim (Option-cases (get r work.model_id)) [
      | inl unknown ↦ let bad = rw (verify, unknown) at e in absurd (cc)
      | inr (model, known) ↦ check_sound model known (rw (verify, known) at e)
    ]

    -- The gate accepts a solution exactly when the model is registered, the solution is for this work
    -- item and its input, its tile is the registered one by a verified proof of its position, and the
    -- noised product meets the target.
    pub verify_iff :
        (verify h u xof rank r work target sol ≡ some ok) ↔ IsSolution r work target sol
    verify_iff = (verify_sound, verify_complete)

  module _ (n : ℕ) (work : WorkItem) (target : Target) (tile : List ℕ) (p : MerkleProof) where
    abbrev try : ℕ → Option Bool
    try = attempt h u xof rank n tile work.input (commitment h work) target

    abbrev pub solution : ℕ → BoundSolution
    solution nonce = record {
      work_commitment = commitment h work;
      weight_tile = tile;
      weight_proof = p;
      input = work.input;
      nonce = nonce;
    }

    solve_from_lem :
        (left fuel nonce : ℕ)
        → left < fuel
        → nonce + left < 2 ^ 64
        → ((i : ℕ) → nonce ≤ i → i < nonce + left → try i ≡ some false)
        → try (nonce + left) ≡ some true
        → solve_from h u xof rank fuel n work target tile p nonce
          ≡ some (some (solution (nonce + left)))
    unfolding solve_from
    solve_from_lem left zero nonce f small fails meets = absurd (omega arith)
    solve_from_lem zero (suc fuel) nonce f small fails meets =
        let here : nonce + 0 ≡ nonce = omega arith in
        let now : try nonce ≡ some true = rw here at meets in rw (here, solve_from, now) refl
    solve_from_lem (suc left) (suc fuel) nonce f small fails meets =
        let next : nonce + suc left ≡ (nonce + 1) + left = omega arith in
        let now : try nonce ≡ some false = fails nonce (omega arith) (omega arith) in
        let below : nat_beq (nonce + 1) (2 ^ 64) ≡ false = ground arith in
        rw (solve_from, now, below, next)
          (solve_from_lem left fuel (nonce + 1) (omega arith) (omega arith)
            (λ i low high. fails i (omega arith) (omega arith)) (rw next at meets))

    -- With a model registered, a verified proof of the tile at the position of the work item, and
    -- fuel above a 64-bit nonce, `solve` stops at that nonce if its product meets the target and
    -- every nonce before it fails without a panic, and what it returns is accepted.
    pub solve-verify :
        (r : ModelRegistry) (model : RegisteredModel) (nonce fuel : ℕ)
        → get r work.model_id ≡ some model
        → model.n ≡ n
        → p.index ≡ work.tile_index
        → merkle_verify h model.weight_root (tile_leaf h tile) p ≡ true
        → nonce < fuel
        → nonce < 2 ^ 64
        → ((i : ℕ)
            → i < nonce
            → attempt h u xof rank n tile work.input (commitment h work) target i ≡ some false)
        → attempt h u xof rank n tile work.input (commitment h work) target nonce ≡ some true
        → (solve h u xof rank fuel n work target tile p ≡ some (some (solution nonce)))
          × (verify h u xof rank r work target (solution nonce) ≡ some ok)
    unfolding solve
    solve-verify r model nonce fuel known size index real f small fails meets = (
      rw (zero-add nonce) at (
          solve_from_lem nonce fuel 0 f (omega arith) (λ i low high. fails i (omega arith))
            (rw (zero-add nonce) meets)),
      verify_complete r work target (solution nonce) (record {
        model = model;
        known = known;
        for_work = refl;
        same_input = refl;
        same_tile = index;
        real_weights = real;
        meets = rw size meets;
      }),
    )
