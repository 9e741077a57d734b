-- ===== src/DagChain/Snapshot/Proof.antt =====
-- What a proof that is verified is.
use tao.Common.{
  ℕ, ◌+◌, ◌≤◌, ◌≡◌, ◌↔◌, refl, ap, sym, ◌∙◌, true, false, none, some, List, [], ◌∷◌, inl, inr,
  arith, min, last, Bool-cases, Option-cases,
}
use tao.Common.Keys.{◌==◌, nat_eq, list_eq, list_beq_iff, beq_refl}
use tao.Consensus.Bytes.{u256_max}
use tao.Consensus.Target.{meets_target, work_for_target}
use tao.Consensus.Target.Work.{work_of_bounds, work_for_target_lem}
use tao.Consensus.Block.{BlockId, DagBlockHeader, dag_id}
use tao.DagChain.{
  Externals, ok, err, empty_proof, not_anchored, wrong_origin, invalid_pow_in_proof, not_connected,
}
use tao.DagChain.Snapshot.{links_to, verify_links, verify_proof, ends_at}

links_to_iff :
    (prev : BlockId) (il : List BlockId) → (links_to prev il ≡ true) ↔ (last il ≡ some prev)
unfolding links_to
links_to_iff prev il = elim (Option-cases (last il)) [
  | inl e ↦ (
    λ h. let bad : false ≡ true = rw (links_to, e) at h in cc,
    λ h. let bad : none ≡ some prev = sym e ∙ h in cc,
  )
  | inr (p, e) ↦ (
    λ h. e ∙ ap some ((list_beq_iff p prev).0 (rw (links_to, e) at h)),
    λ h.
        let same : some p ≡ some prev = sym e ∙ h in
        let same' : p ≡ prev = cc in rw (links_to, e, same', beq_refl prev) refl,
  )
]

module _ (x : Externals) where
  -- Every header behind the first has its proof of work and points to the one before at its highest level.
  abbrev pub IsLinked : BlockId → List DagBlockHeader → Type 0
  IsLinked prev [] = Unit
  IsLinked prev (h ∷ hs) =
      (meets_target x.codec (dag_id x.hasher x.bincode h) h.target ≡ true)
      × (last h.interlink ≡ some prev)
      × IsLinked (dag_id x.hasher x.bincode h) hs

  abbrev pub total_work : List DagBlockHeader → ℕ
  total_work [] = 0
  total_work (h ∷ hs) = work_for_target x.codec h.target + total_work hs

  -- From genesis, of which no proof of work is asked, to the origin.
  abbrev pub IsProof : List DagBlockHeader → BlockId → BlockId → Type 0
  IsProof [] origin genesis_id = ⊥
  IsProof (h ∷ hs) origin genesis_id =
      (dag_id x.hasher x.bincode h ≡ genesis_id)
      × (ends_at x origin (h ∷ hs) ≡ true)
      × IsLinked (dag_id x.hasher x.bincode h) hs

  verify_links_sound :
      (prev : BlockId) (w work : ℕ) (hs : List DagBlockHeader)
      → w ≤ u256_max
      → verify_links x prev w hs ≡ ok work
      → IsLinked prev hs × (work ≡ min (w + total_work hs) u256_max)
  unfolding verify_links
  verify_links_sound prev w work [] small done =
      let same : w ≡ work = cc in (tt, omega (arith, same))
  verify_links_sound prev w work (h ∷ hs) small done =
      elim (Bool-cases (meets_target x.codec (dag_id x.hasher x.bincode h) h.target)) [
        | inl m ↦ elim (Bool-cases (links_to prev h.interlink)) [
          | inl l ↦
              let (linked, sum) =
                verify_links_sound (dag_id x.hasher x.bincode h)
                  (min (w + work_for_target x.codec h.target) u256_max) work hs (omega arith)
                  (rw (verify_links, m, l) at done) in
              ((m, (links_to_iff prev h.interlink).0 l, linked), omega (arith, sum))
          | inr l ↦ let bad : err not_connected ≡ ok work = rw (verify_links, m, l) at done in cc
        ]
        | inr m ↦ let bad : err invalid_pow_in_proof ≡ ok work = rw (verify_links, m) at done in cc
      ]

  verify_links_complete :
      (prev : BlockId) (w : ℕ) (hs : List DagBlockHeader)
      → w ≤ u256_max
      → IsLinked prev hs
      → verify_links x prev w hs ≡ ok (min (w + total_work hs) u256_max)
  unfolding verify_links
  verify_links_complete prev w [] small linked = ap ok (omega arith)
  verify_links_complete prev w (h ∷ hs) small (m, l, linked) =
      rw (verify_links, m, (links_to_iff prev h.interlink).1 l)
        (verify_links_complete (dag_id x.hasher x.bincode h)
            (min (w + work_for_target x.codec h.target) u256_max) hs (omega arith) linked
          ∙ ap ok (omega arith))

  work_small : (h : DagBlockHeader) → work_for_target x.codec h.target ≤ u256_max
  work_small h =
      rw (work_for_target_lem x.codec h.target)
        (work_of_bounds (x.codec.from_big_endian h.target)).1

  verify_proof_sound :
      (proof : List DagBlockHeader) (origin genesis_id : BlockId) (work : ℕ)
      → verify_proof x proof origin genesis_id ≡ ok work
      → IsProof proof origin genesis_id × (work ≡ min (total_work proof) u256_max)
  unfolding verify_proof
  verify_proof_sound [] origin genesis_id work done =
      let bad : err empty_proof ≡ ok work = done in cc
  verify_proof_sound (h ∷ hs) origin genesis_id work done =
      let id : BlockId = dag_id x.hasher x.bincode h in
      elim (Bool-cases (id == genesis_id)) [
        | inl g ↦ elim (Bool-cases (ends_at x origin (h ∷ hs))) [
          | inl o ↦
              let (linked, sum) =
                verify_links_sound id (work_for_target x.codec h.target) work hs (work_small h)
                  (rw (verify_proof, g, o) at done) in
              (((list_beq_iff id genesis_id).0 g, o, linked), sum)
          | inr o ↦ let bad : err wrong_origin ≡ ok work = rw (verify_proof, g, o) at done in cc
        ]
        | inr g ↦ let bad : err not_anchored ≡ ok work = rw (verify_proof, g) at done in cc
      ]

  verify_proof_complete :
      (proof : List DagBlockHeader) (origin genesis_id : BlockId)
      → IsProof proof origin genesis_id
      → verify_proof x proof origin genesis_id ≡ ok (min (total_work proof) u256_max)
  unfolding verify_proof
  verify_proof_complete [] origin genesis_id p = absurd p
  verify_proof_complete (h ∷ hs) origin genesis_id (g, o, linked) =
      let g' : (dag_id x.hasher x.bincode h == genesis_id) ≡ true =
        (list_beq_iff (dag_id x.hasher x.bincode h) genesis_id).1 g in
      rw (verify_proof, g', o)
        (verify_links_complete (dag_id x.hasher x.bincode h) (work_for_target x.codec h.target) hs
          (work_small h) linked)

  -- `verify_proof` returns a work exactly for a list of headers from genesis to the origin in which
  -- each behind the first has its proof of work and its last pointer at the one before, and the work
  -- is the sum of the headers' works, the first included, at most the greatest 256-bit number. Of
  -- the first, only the id is checked.
  pub verify_proof_iff :
      (proof : List DagBlockHeader) (origin genesis_id : BlockId) (work : ℕ)
      → (verify_proof x proof origin genesis_id ≡ ok work)
        ↔ (IsProof proof origin genesis_id × (work ≡ min (total_work proof) u256_max))
  verify_proof_iff proof origin genesis_id work = (
    verify_proof_sound proof origin genesis_id work,
    λ p. verify_proof_complete proof origin genesis_id p.0 ∙ ap ok (sym p.1),
  )
