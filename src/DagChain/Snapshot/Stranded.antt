-- ===== src/DagChain/Snapshot/Stranded.antt =====
-- A node that can adopt no snapshot any more.
use tao.Common.{
  ℕ, ◌≡◌, ◌≢◌, refl, ap, ◌∙◌, true, false, List, [], ◌∷◌, inl, inr, arith, ltb, length, Bool-cases,
  Option-cases,
}
use tao.Common.Keys.{contains, nat_eq, list_eq}
use tao.Common.Int.{ℤ}
use tao.Consensus.Bytes.{Bytes}
use tao.Consensus.Block.{BlockId, DagBlock, DagBlockHeader, dag_id}
use tao.DagChain.{Externals, DagChain, ChainError, SyncSnapshot, ok, err, max_snapshot_bytes}
use tao.DagChain.Reset.{Result-cases}
use tao.DagChain.Accept.{apply, store}
use tao.DagChain.Accept.Outcome.{apply-cases, engine_adds, marks, marks-store}
use tao.DagChain.Snapshot.{
  load_snapshot, apply_all, adopt, may_adopt, import_decoded, import_snapshot, verify_proof,
}

module _ {x : Externals} where
  -- Pruned, and not marked as bootstrapped.
  abbrev pub IsStranded : DagChain x → Type 0
  IsStranded s = (s.bootstrapped ≡ false) × (s.history_pruned ≡ true)

  may_adopt-IsStranded : (s : DagChain x) (work : ℕ) → IsStranded s → may_adopt x s work ≡ false
  unfolding may_adopt
  may_adopt-IsStranded s work (b, h) = rw (may_adopt, b, h) (ground arith)

  import_decoded-IsStranded :
      (clock : ℕ → ℤ) (s : DagChain x) (snap : SyncSnapshot x.Account)
      → IsStranded s
      → ((import_decoded x clock s snap).0 ≡ s) × ((import_decoded x clock s snap).1 ≢ ok true)
  unfolding import_decoded
  import_decoded-IsStranded clock s snap stranded =
      let origin : Bytes = dag_id x.hasher x.bincode snap.origin_header in
      elim (Bool-cases (contains s.blocks origin)) [
        | inl e ↦ rw (import_decoded, e) (refl, λ bad. cc)
        | inr e ↦ elim (Result-cases (verify_proof x snap.proof origin s.original_genesis)) [
          | inl (work, p) ↦
              rw (import_decoded, e, p, may_adopt-IsStranded s work stranded) (refl, λ bad. cc)
          | inr (inl (f, p)) ↦ rw (import_decoded, e, p) (refl, λ bad. cc)
          | inr (inr p) ↦ rw (import_decoded, e, p) (refl, λ bad. cc)
        ]
      ]

  -- Whatever it is sent, it adopts nothing.
  pub import_snapshot-IsStranded :
      (clock : ℕ → ℤ) (s : DagChain x) (bytes : Bytes)
      → IsStranded s
      → ((import_snapshot x clock s bytes).0 ≡ s) × ((import_snapshot x clock s bytes).1 ≢ ok true)
  unfolding import_snapshot
  import_snapshot-IsStranded clock s bytes stranded =
      elim (Bool-cases (ltb max_snapshot_bytes (length bytes))) [
        | inl e ↦ rw (import_snapshot, e) (refl, λ bad. cc)
        | inr e ↦ elim (Option-cases (x.deserialize_snapshot bytes)) [
          | inl d ↦ rw (import_snapshot, e, d) (refl, λ bad. cc)
          | inr (snap, d) ↦
              rw (import_snapshot, e, d) (import_decoded-IsStranded clock s snap stranded)
        ]
      ]

  marks-apply : (s : DagChain x) (b : DagBlock) → marks (apply x s b).0 ≡ marks s
  marks-apply s b = elim (apply-cases s b) [
    | inl a ↦ rw a refl
    | inr (inl (d, a)) ↦ rw a refl
    | inr (inr (txs, e, d, a)) ↦
        rw a (marks-store (engine_adds s b) b (dag_id x.hasher x.bincode b.header) txs)
  ]

  marks-apply_all : (s : DagChain x) (bs : List DagBlock) → marks (apply_all x s bs).0 ≡ marks s
  unfolding apply_all
  marks-apply_all s [] = refl
  marks-apply_all s (b ∷ bs) = elim (Result-cases (apply x s b).1) [
    | inl (u, e) ↦ rw (apply_all, e) (marks-apply_all (apply x s b).0 bs ∙ marks-apply s b)
    | inr (inl (f, e)) ↦ rw (apply_all, e) (marks-apply s b)
    | inr (inr e) ↦ rw (apply_all, e) (marks-apply s b)
  ]

  -- The marks of a chain that is re-anchored and has got some blocks.
  pub loaded-marks :
      (s : DagChain x) (h : DagBlockHeader) (a : List (Bytes × x.Account)) (p : List DagBlockHeader)
      (bs : List DagBlock)
      → marks (apply_all x (load_snapshot x s h a p) bs).0 ≡ (s.bootstrapped, true)
  unfolding load_snapshot
  loaded-marks s h a p bs = marks-apply_all (load_snapshot x s h a p) bs

  -- A block does not touch the log by itself, nor the origin.
  abbrev place : DagChain x → Bytes × BlockId
  place s = (s.log, s.genesis_dag)

  place-apply : (s : DagChain x) (b : DagBlock) → place (apply x s b).0 ≡ place s
  unfolding store
  place-apply s b = elim (apply-cases s b) [
    | inl a ↦ rw a refl
    | inr (inl (d, a)) ↦ rw a refl
    | inr (inr (txs, e, d, a)) ↦ rw a refl
  ]

  place-apply_all : (s : DagChain x) (bs : List DagBlock) → place (apply_all x s bs).0 ≡ place s
  unfolding apply_all
  place-apply_all s [] = refl
  place-apply_all s (b ∷ bs) = elim (Result-cases (apply x s b).1) [
    | inl (u, e) ↦ rw (apply_all, e) (place-apply_all (apply x s b).0 bs ∙ place-apply s b)
    | inr (inl (f, e)) ↦ rw (apply_all, e) (place-apply s b)
    | inr (inr e) ↦ rw (apply_all, e) (place-apply s b)
  ]

  loaded-place :
      (s : DagChain x) (h : DagBlockHeader) (a : List (Bytes × x.Account)) (p : List DagBlockHeader)
      (bs : List DagBlock)
      → place (apply_all x (load_snapshot x s h a p) bs).0 ≡ (s.log, dag_id x.hasher x.bincode h)
  unfolding load_snapshot
  loaded-place s h a p bs = place-apply_all (load_snapshot x s h a p) bs

  -- A node that is not marked as bootstrapped adopts a snapshot whose suffix has a block that is not
  -- applied: the call fails, the log is as it was, but the origin of the chain is that of the
  -- snapshot, and the chain counts as pruned and still not as bootstrapped; in this state the
  -- import of a snapshot adopts none and changes nothing, whatever its bytes and the clock.
  pub adopt-IsStranded :
      (s : DagChain x) (snap : SyncSnapshot x.Account) (work : ℕ) (e : ChainError)
      → s.bootstrapped ≡ false
      → (apply_all x (load_snapshot x s snap.origin_header snap.accounts snap.proof) snap.suffix).1
        ≡ err e
      → ((adopt x s snap work).1 ≡ err e)
        × ((adopt x s snap work).0.log ≡ s.log)
        × ((adopt x s snap work).0.genesis_dag ≡ dag_id x.hasher x.bincode snap.origin_header)
        × IsStranded (adopt x s snap work).0
        × ((clock : ℕ → ℤ) (bytes : Bytes)
            → ((import_snapshot x clock (adopt x s snap work).0 bytes).0 ≡ (adopt x s snap work).0)
              × ((import_snapshot x clock (adopt x s snap work).0 bytes).1 ≢ ok true))
  unfolding adopt
  adopt-IsStranded s snap work e unmarked failed =
      let loaded : DagChain x = load_snapshot x s snap.origin_header snap.accounts snap.proof in
      let m = loaded-marks s snap.origin_header snap.accounts snap.proof snap.suffix in
      let here = loaded-place s snap.origin_header snap.accounts snap.proof snap.suffix in
      let stranded : IsStranded (apply_all x loaded snap.suffix).0 =
        (ap (λ r. r.0) m ∙ unmarked, ap (λ r. r.1) m) in
      rw (adopt, failed)
        (
          refl,
          ap (λ r. r.0) here,
          ap (λ r. r.1) here,
          stranded,
          λ clock bytes.
              import_snapshot-IsStranded clock (apply_all x loaded snap.suffix).0 bytes stranded,
        )
