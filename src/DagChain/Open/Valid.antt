-- ===== src/DagChain/Open/Valid.antt =====
-- What is opened from any log is well formed.
use tao.Common.{◌≡◌, refl, sym, List, [], ◌∷◌, inl, inr, Option-cases}
use tao.Consensus.Bytes.{Bytes}
use tao.Database.BlockLog.Framing.{read_all-cases}
use tao.DagChain.{Externals, DagChain, LogRecord, LegacyDagBlock, ok, err, panicked, storage}
use tao.DagChain.Reset.{Result-cases}
use tao.DagChain.Accept.Invariant.{IsValid, single-IsValid, apply-IsValid, apply_with_id-IsValid}
use tao.DagChain.Snapshot.Import.{load_snapshot-IsValid}
use tao.DagChain.Open.{
  Config, genesis_header, start, apply_record, apply_legacy, legacy_block_id, upgrade, replay,
  open_with_genesis,
}

module _ {x : Externals} where
  apply_legacy-IsValid :
      (s : DagChain x) (b : LegacyDagBlock) → IsValid s → IsValid (apply_legacy x s b).0
  unfolding apply_legacy
  apply_legacy-IsValid s b v = elim (Option-cases (legacy_block_id x b.header)) [
    | inl e ↦ rw (apply_legacy, e) v
    | inr (id, e) ↦ rw (apply_legacy, e) (apply_with_id-IsValid s (upgrade b) id v)
  ]

  apply_record-IsValid : (s : DagChain x) (b : Bytes) → IsValid s → IsValid (apply_record x s b).0
  unfolding apply_record
  apply_record-IsValid s b v = elim (Option-cases (x.deserialize_record b)) [
    | inl e ↦ elim (Option-cases (x.deserialize_legacy b)) [
      | inl f ↦ rw (apply_record, e, f) v
      | inr (old, f) ↦ rw (apply_record, e, f) (apply_legacy-IsValid s old v)
    ]
    | inr (LogRecord.block block, e) ↦ rw (apply_record, e) (apply-IsValid s block v)
    | inr (LogRecord.snapshot h a p, e) ↦ rw (apply_record, e) (load_snapshot-IsValid s h a p)
  ]

  replay-IsValid :
      (s s' : DagChain x) (records : List Bytes)
      → IsValid s
      → replay x s records ≡ ok s'
      → IsValid s'
  unfolding replay
  replay-IsValid s s' [] v done = let same : s ≡ s' = cc in rw (sym same) v
  replay-IsValid s s' (b ∷ records) v done = elim (Result-cases (apply_record x s b).1) [
    | inl (u, e) ↦
        replay-IsValid (apply_record x s b).0 s' records (apply_record-IsValid s b v)
          (rw (replay, e) at done)
    | inr (inl (f, e)) ↦ let bad : err f ≡ ok s' = rw (replay, e) at done in cc
    | inr (inr e) ↦ let bad : panicked ≡ ok s' = rw (replay, e) at done in cc
  ]

  pub start-IsValid : (cfg : Config) (log : Bytes) → IsValid (start x cfg log)
  unfolding start
  start-IsValid cfg log = single-IsValid (start x cfg log) (genesis_header cfg) refl refl refl

  -- The chain that any log opens to is well formed, also one with a snapshot or legacy records.
  pub open-IsValid :
      (cfg : Config) (log : Bytes) (s : DagChain x) → open_with_genesis x cfg log ≡ ok s → IsValid s
  unfolding open_with_genesis
  open-IsValid cfg log s done = elim (read_all-cases log) [
    | inl (records, e) ↦
        replay-IsValid (start x cfg log) s records (start-IsValid cfg log)
          (rw (open_with_genesis, e) at done)
    | inr (f, e) ↦ let bad : err (storage f) ≡ ok s = rw (open_with_genesis, e) at done in cc
  ]
