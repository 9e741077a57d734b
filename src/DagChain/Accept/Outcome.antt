-- ===== src/DagChain/Accept/Outcome.antt =====
-- What `apply` and `accept` leave behind, in every case.
use tao.Common.{
  ℕ, Bool, true, false, ◌≡◌, ◌<◌, ◌^◌, refl, ◌⊎◌, none, some, List, ◌++◌, length, inl, inr,
  Bool-cases, Option-cases,
}
use tao.Common.Keys.{contains, nat_eq, list_eq}
use tao.Common.Int.{ℤ}
use tao.Consensus.Bytes.{Bytes}
use tao.Consensus.Target.{Target}
use tao.Consensus.Block.{BlockId, DagBlock, dag_id}
use tao.Database.BlockLog as BlockLog
use tao.Database.BlockLog.{frame}
use tao.Database.BlockLog.Framing.{append-ok, append-cases}
use tao.DagChain.{
  Externals, DagChain, ChainError, LogRecord, ok, err, panicked, storage, decode_tx, encode_record,
}
use tao.DagChain.Validate.{validate}
use tao.DagChain.Accept.{
  apply, apply_with_id, store, decode_all, dag_parents, persist_and_apply, persist, accept,
}
use tao.DagChain.Reset.{reset, reset_exec, relog, relog_exec, Result-cases}

abbrev pub Constants : Type 0
Constants = (ℕ × Target × ℕ × ℕ) × (Bytes × ℕ × List (Bytes × ℕ) × BlockId)

module _ {x : Externals} where
  pub apply_with_id-reset :
      (l : Bytes) (s : DagChain x) (b : DagBlock) (id : BlockId)
      → apply_with_id x (reset l s) b id ≡ reset_exec l (apply_with_id x s b id)
  unfolding apply_with_id store dag_parents
  apply_with_id-reset l s b id = elim (Bool-cases (contains s.blocks id)) [
    | inl e ↦ rw e refl
    | inr e ↦ elim (Option-cases (decode_all x b.transactions)) [
      | inl d ↦ rw (e, d) refl
      | inr (txs, d) ↦ rw (e, d) refl
    ]
  ]

  pub apply-reset :
      (l : Bytes) (s : DagChain x) (b : DagBlock)
      → apply x (reset l s) b ≡ reset_exec l (apply x s b)
  unfolding apply
  apply-reset l s b = apply_with_id-reset l s b (dag_id x.hasher x.bincode b.header)

  -- The log is not read.
  pub apply-relog :
      (l : Bytes) (s : DagChain x) (b : DagBlock)
      → apply x (relog l s) b ≡ relog_exec l (apply x s b)
  unfolding apply apply_with_id store dag_parents
  apply-relog l s b = elim (Bool-cases (contains s.blocks (dag_id x.hasher x.bincode b.header))) [
    | inl e ↦ rw e refl
    | inr e ↦ elim (Option-cases (decode_all x b.transactions)) [
      | inl d ↦ rw (e, d) refl
      | inr (txs, d) ↦ rw (e, d) refl
    ]
  ]

  -- The chain with a block that only the engine has.
  abbrev pub engine_adds : DagChain x → DagBlock → DagChain x
  engine_adds s b = record s {
    engine =
        x.add_block s.engine (dag_id x.hasher x.bincode b.header)
          (dag_parents x s b.header.parents);
  }

  abbrev pub logged : DagChain x → Bytes → DagChain x
  logged s rec = relog (s.log ++ frame rec) s

  pub apply-none :
      (s : DagChain x) (b : DagBlock)
      → contains s.blocks (dag_id x.hasher x.bincode b.header) ≡ false
      → decode_all x b.transactions ≡ none
      → apply x s b ≡ (engine_adds s b, err decode_tx)
  unfolding apply apply_with_id
  apply-none s b e d = rw (e, d) refl

  pub apply-some :
      (s : DagChain x) (b : DagBlock) (txs : List x.Tx)
      → contains s.blocks (dag_id x.hasher x.bincode b.header) ≡ false
      → decode_all x b.transactions ≡ some txs
      → apply x s b ≡ (store x (engine_adds s b) b (dag_id x.hasher x.bincode b.header) txs, ok tt)
  unfolding apply apply_with_id
  apply-some s b txs e d = rw (e, d) refl

  pub persist-some :
      (s : DagChain x) (b : DagBlock) (rec : Bytes)
      → x.serialize_record (LogRecord.block b) ≡ some rec
      → length rec < 2 ^ 32
      → persist_and_apply x s b ≡ apply x (logged s rec) b
  unfolding persist_and_apply persist
  persist-some s b rec e small =
      let f : BlockLog.append s.log rec ≡ BlockLog.ok (s.log ++ frame rec) =
        append-ok s.log rec small in
      rw (persist_and_apply, persist, e, f) refl

  -- The ways through `apply`, `persist_and_apply` and `accept`.
  pub apply-cases :
      (s : DagChain x) (b : DagBlock)
      → (apply x s b ≡ (s, ok tt))
        ⊎ ((decode_all x b.transactions ≡ none) × (apply x s b ≡ (engine_adds s b, err decode_tx)))
        ⊎ ((txs : List x.Tx) × (contains s.blocks (dag_id x.hasher x.bincode b.header) ≡ false)
            × (decode_all x b.transactions ≡ some txs)
            × (apply x s b
                ≡ (store x (engine_adds s b) b (dag_id x.hasher x.bincode b.header) txs, ok tt)))
  unfolding apply apply_with_id
  apply-cases s b = elim (Bool-cases (contains s.blocks (dag_id x.hasher x.bincode b.header))) [
    | inl e ↦ inl (rw (apply, apply_with_id, e) refl)
    | inr e ↦ elim (Option-cases (decode_all x b.transactions)) [
      | inl d ↦ inr (inl (d, apply-none s b e d))
      | inr (txs, d) ↦ inr (inr (txs, e, d, apply-some s b txs e d))
    ]
  ]

  pub persist-cases :
      (s : DagChain x) (b : DagBlock)
      → (persist_and_apply x s b ≡ (s, err encode_record))
        ⊎ (persist_and_apply x s b ≡ (s, err (storage BlockLog.too_large)))
        ⊎ ((rec : Bytes) × (x.serialize_record (LogRecord.block b) ≡ some rec)
            × (length rec < 2 ^ 32)
            × (persist_and_apply x s b ≡ apply x (logged s rec) b))
  unfolding persist_and_apply persist
  persist-cases s b = elim (Option-cases (x.serialize_record (LogRecord.block b))) [
    | inl e ↦ inl (rw (persist_and_apply, persist, e) refl)
    | inr (rec, e) ↦ elim (append-cases s.log rec) [
      | inl (small, f) ↦ inr (inr (rec, e, small, persist-some s b rec e small))
      | inr f ↦ inr (inl (rw (persist_and_apply, persist, e, f) refl))
    ]
  ]

  pub accept-cases :
      (now : ℤ) (s : DagChain x) (b : DagBlock)
      → ((contains s.blocks (dag_id x.hasher x.bincode b.header) ≡ true)
          × (accept x now s b ≡ (s, ok tt)))
        ⊎ ((e : ChainError) × (validate x now s b ≡ err e) × (accept x now s b ≡ (s, err e)))
        ⊎ ((validate x now s b ≡ panicked) × (accept x now s b ≡ (s, panicked)))
        ⊎ ((contains s.blocks (dag_id x.hasher x.bincode b.header) ≡ false)
            × (validate x now s b ≡ ok tt)
            × (accept x now s b ≡ persist_and_apply x s b))
  unfolding accept
  accept-cases now s b =
      elim (Bool-cases (contains s.blocks (dag_id x.hasher x.bincode b.header))) [
        | inl e ↦ inl (e, rw (accept, e) refl)
        | inr e ↦ elim (Result-cases (validate x now s b)) [
          | inl (u, v) ↦ inr (inr (inr (e, v, rw (accept, e, v) refl)))
          | inr (inl (f, v)) ↦ inr (inl (f, v, rw (accept, e, v) refl))
          | inr (inr v) ↦ inr (inr (inl (v, rw (accept, e, v) refl)))
        ]
      ]

  pub accept-passes :
      (now : ℤ) (s : DagChain x) (b : DagBlock)
      → contains s.blocks (dag_id x.hasher x.bincode b.header) ≡ false
      → validate x now s b ≡ ok tt
      → accept x now s b ≡ persist_and_apply x s b
  unfolding accept
  accept-passes now s b e v = rw (accept, e, v) refl

  -- A block does not touch the marks of a chain.
  abbrev pub marks : DagChain x → Bool × Bool
  marks s = (s.bootstrapped, s.history_pruned)

  pub marks-store :
      (s : DagChain x) (b : DagBlock) (id : BlockId) (txs : List x.Tx)
      → marks (store x s b id txs) ≡ marks s
  unfolding store
  marks-store s b id txs = refl

  -- What a chain has from its start on.
  abbrev pub constants : DagChain x → Constants
  constants s = (
    (s.k, s.genesis_target, s.block_time_secs, s.lwma_window),
    (s.miner, s.reward, s.allocations, s.original_genesis),
  )

  pub constants-store :
      (s : DagChain x) (b : DagBlock) (id : BlockId) (txs : List x.Tx)
      → constants (store x s b id txs) ≡ constants s
  unfolding store
  constants-store s b id txs = refl

  pub constants-apply_with_id :
      (s : DagChain x) (b : DagBlock) (id : BlockId)
      → constants (apply_with_id x s b id).0 ≡ constants s
  unfolding apply_with_id
  constants-apply_with_id s b id = elim (Bool-cases (contains s.blocks id)) [
    | inl e ↦ rw (apply_with_id, e) refl
    | inr e ↦ elim (Option-cases (decode_all x b.transactions)) [
      | inl d ↦ rw (apply_with_id, e, d) refl
      | inr (txs, d) ↦
          rw (apply_with_id, e, d)
            (constants-store
              (record s { engine = x.add_block s.engine id (dag_parents x s b.header.parents) }) b
              id txs)
    ]
  ]

  pub constants-apply : (s : DagChain x) (b : DagBlock) → constants (apply x s b).0 ≡ constants s
  unfolding apply
  constants-apply s b = constants-apply_with_id s b (dag_id x.hasher x.bincode b.header)
