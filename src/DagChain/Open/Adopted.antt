-- ===== src/DagChain/Open/Adopted.antt =====
-- A restart after a snapshot was adopted.
use tao.Common.{ℕ, ◌≡◌, ◌≢◌, refl, ap, sym, ◌∙◌, true, some, List, [], ◌∷◌, inl, inr, Option-cases}
use tao.Common.Int.{ℤ}
use tao.Consensus.Bytes.{Bytes}
use tao.Consensus.Block.{DagBlock}
use tao.Database.BlockLog.Crash.{replace_all-ok}
use tao.DagChain.{
  Externals, DagChain, LogRecord, LegacyDagBlock, SyncSnapshot, Result, ok, err, panicked,
}
use tao.DagChain.Reset.{reset, reset_exec, Result-cases}
use tao.DagChain.Accept.{Exec, apply}
use tao.DagChain.Accept.Outcome.{constants, constants-apply, constants-apply_with_id}
use tao.DagChain.Snapshot.{
  load_snapshot, apply_all, block_records, snapshot_records, adopt, import_snapshot,
}
use tao.DagChain.Snapshot.Import.{
  constants-load_snapshot, load_snapshot-constants, load_snapshot-reset, apply_all-reset,
  apply_all-cons, apply_all_nil, adopt-ok,
}
use tao.DagChain.Snapshot.Records.{block_records_nil, block_records-some, snapshot_records-some}
use tao.DagChain.Snapshot.Stranded.{loaded-marks, import_snapshot-IsStranded}
use tao.DagChain.Open.{
  Config, start, apply_record, apply_legacy, legacy_block_id, upgrade, replay, open_with_genesis,
}
use tao.DagChain.Open.Replay.{
  IsDurable, open-written, proceed, replay-cons, replay_nil, start-reset,
}

module _ {x : Externals} where
  constants-apply_legacy :
      (s : DagChain x) (b : LegacyDagBlock) → constants (apply_legacy x s b).0 ≡ constants s
  unfolding apply_legacy
  constants-apply_legacy s b = elim (Option-cases (legacy_block_id x b.header)) [
    | inl e ↦ rw (apply_legacy, e) refl
    | inr (id, e) ↦ rw (apply_legacy, e) (constants-apply_with_id s (upgrade b) id)
  ]

  constants-apply_record :
      (s : DagChain x) (b : Bytes) → constants (apply_record x s b).0 ≡ constants s
  unfolding apply_record
  constants-apply_record s b = elim (Option-cases (x.deserialize_record b)) [
    | inl e ↦ elim (Option-cases (x.deserialize_legacy b)) [
      | inl f ↦ rw (apply_record, e, f) refl
      | inr (old, f) ↦ rw (apply_record, e, f) (constants-apply_legacy s old)
    ]
    | inr (LogRecord.block block, e) ↦ rw (apply_record, e) (constants-apply s block)
    | inr (LogRecord.snapshot h a p, e) ↦ rw (apply_record, e) (constants-load_snapshot s h a p)
  ]

  constants-replay :
      (s s' : DagChain x) (records : List Bytes)
      → replay x s records ≡ ok s'
      → constants s' ≡ constants s
  unfolding replay
  constants-replay s s' [] done = let same : s ≡ s' = cc in rw same refl
  constants-replay s s' (b ∷ records) done = elim (Result-cases (apply_record x s b).1) [
    | inl (u, e) ↦
        constants-replay (apply_record x s b).0 s' records (rw (replay, e) at done)
        ∙ constants-apply_record s b
    | inr (inl (f, e)) ↦ let bad : err f ≡ ok s' = rw (replay, e) at done in cc
    | inr (inr e) ↦ let bad : panicked ≡ ok s' = rw (replay, e) at done in cc
  ]

  -- The records of blocks replay as the blocks apply.
  abbrev as_result : Exec x → Result (DagChain x)
  as_result r = elim r.1 [ ok _ ↦ ok r.0 | err e ↦ err e | panicked ↦ panicked ]

  abbrev apply_logged : DagChain x → LogRecord x.Account → Exec x
  apply_logged s (LogRecord.block b) = apply x s b
  apply_logged s (LogRecord.snapshot h a p) = (load_snapshot x s h a p, ok tt)

  apply_record-some :
      (s : DagChain x) (r : LogRecord x.Account) (rec : Bytes)
      → x.serialize_record r ≡ some rec
      → apply_record x s rec ≡ apply_logged s r
  unfolding apply_record
  apply_record-some s (LogRecord.block b) rec e =
      rw (apply_record, x.deserialize-serialize (LogRecord.block b) rec e) refl
  apply_record-some s (LogRecord.snapshot h a p) rec e =
      rw (apply_record, x.deserialize-serialize (LogRecord.snapshot h a p) rec e) refl

  replay-block_records :
      (s : DagChain x) (bs : List DagBlock) (records : List Bytes)
      → block_records x bs ≡ some records
      → replay x s records ≡ as_result (apply_all x s bs)
  replay-block_records s [] records e =
      let same : some [] ≡ some records = sym (block_records_nil x) ∙ e in
      let same' : records ≡ [] = cc in rw (same', apply_all_nil s) (replay_nil s)
  replay-block_records s (b ∷ bs) records e =
      let (rec, rest, f, g, h) = block_records-some x b bs records e in
      ap (replay x s) h
      ∙ replay-cons s rec rest
      ∙ ap (λ r. proceed r rest) (apply_record-some s (LogRecord.block b) rec f)
      ∙ elim (Result-cases (apply x s b).1) [
        | inl (u, k) ↦
            rw (k, apply_all-cons s b bs, k) (replay-block_records (apply x s b).0 bs rest g)
        | inr (inl (j, k)) ↦ rw (k, apply_all-cons s b bs, k) refl
        | inr (inr k) ↦ rw (k, apply_all-cons s b bs, k) refl
      ]

  abbrev loaded : DagChain x → SyncSnapshot x.Account → DagChain x
  loaded s snap = load_snapshot x s snap.origin_header snap.accounts snap.proof

  constants-start :
      (cfg : Config) (s : DagChain x) (l : Bytes)
      → IsDurable cfg s
      → constants (start x cfg l) ≡ constants s
  constants-start cfg s l (records, small, e, opened) =
      ap constants (start-reset cfg s.log l)
      ∙ sym (
          constants-replay (start x cfg s.log) (reset s.log s) records
            (sym (open-written cfg s.log records small e) ∙ opened))

  loaded-start :
      (cfg : Config) (s : DagChain x) (snap : SyncSnapshot x.Account) (l : Bytes)
      → IsDurable cfg s
      → loaded (start x cfg l) snap ≡ reset l (loaded s snap)
  loaded-start cfg s snap l durable =
      let origin = snap.origin_header in
      ap (λ t. loaded t snap) (start-reset cfg l l)
      ∙ load_snapshot-reset l (start x cfg l) origin snap.accounts snap.proof
      ∙ load_snapshot-constants l (start x cfg l) s origin snap.accounts snap.proof
          (constants-start cfg s l durable)

  replay-snapshot :
      (cfg : Config) (s : DagChain x) (snap : SyncSnapshot x.Account) (l : Bytes)
      (records : List Bytes)
      → IsDurable cfg s
      → snapshot_records x snap ≡ some records
      → replay x (start x cfg l) records
        ≡ as_result (reset_exec l (apply_all x (loaded s snap) snap.suffix))
  replay-snapshot cfg s snap l records durable e =
      let (rec, rest, f, g, h) = snapshot_records-some x snap records e in
      let t : DagChain x = start x cfg l in
      let r = LogRecord.snapshot snap.origin_header snap.accounts snap.proof in
      ap (replay x t) h
      ∙ replay-cons t rec rest
      ∙ ap (λ q. proceed q rest) (apply_record-some t r rec f)
      ∙ ap (λ q. replay x q rest) (loaded-start cfg s snap l durable)
      ∙ replay-block_records (reset l (loaded s snap)) snap.suffix rest g
      ∙ ap as_result (apply_all-reset l (loaded s snap) snap.suffix)

  -- If the log opens to the chain in memory, then so it does after a snapshot was adopted, where the
  -- executed order, the checkpoint, the depth of finality and the marks of a bootstrap (that there
  -- was one, and its work) do not count: the opened chain has them as a start has.
  pub adopt-IsDurable :
      (cfg : Config) (s : DagChain x) (snap : SyncSnapshot x.Account) (work : ℕ)
      → IsDurable cfg s
      → (adopt x s snap work).1 ≡ ok true
      → IsDurable cfg (adopt x s snap work).0
  adopt-IsDurable cfg s snap work durable done =
      let (records, l, applied, e, f, adopts) = adopt-ok s snap work done in
      let (small, w) = replace_all-ok records l f in
      rw adopts (
        records,
        small,
        w,
        open-written cfg l records small w
            ∙ replay-snapshot cfg s snap l records durable e
            ∙ ap (λ r. as_result (reset l (apply_all x (loaded s snap) snap.suffix).0, r)) applied,
      )

  adopt_pruned :
      (s : DagChain x) (snap : SyncSnapshot x.Account) (work : ℕ)
      → (adopt x s snap work).1 ≡ ok true
      → (adopt x s snap work).0.history_pruned ≡ true
  adopt_pruned s snap work done =
      let (records, l, applied, e, f, adopts) = adopt-ok s snap work done in
      rw adopts
        (ap (λ r. r.1) (loaded-marks s snap.origin_header snap.accounts snap.proof snap.suffix))

  -- For a chain whose log opens to it: a node that adopted a snapshot and is restarted opens to a
  -- chain that adopts no other snapshot, also none with more work.
  pub adopt_restart :
      (cfg : Config) (s : DagChain x) (snap : SyncSnapshot x.Account) (work : ℕ)
      → IsDurable cfg s
      → (adopt x s snap work).1 ≡ ok true
      → (t : DagChain x) × (open_with_genesis x cfg (adopt x s snap work).0.log ≡ ok t)
        × ((clock : ℕ → ℤ) (bytes : Bytes) → (import_snapshot x clock t bytes).1 ≢ ok true)
  adopt_restart cfg s snap work durable done =
      let (records, small, e, opened) = adopt-IsDurable cfg s snap work durable done in
      let s' : DagChain x = (adopt x s snap work).0 in
      (
        reset s'.log s',
        opened,
        λ clock bytes.
            (import_snapshot-IsStranded clock (reset s'.log s') bytes
              (refl, adopt_pruned s snap work done)).1,
      )
