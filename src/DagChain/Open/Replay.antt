-- ===== src/DagChain/Open/Replay.antt =====
-- What is opened from the log: the chain as the calls left it, but for what `reset` has as a start.
use tao.Common.{
  ◌^◌, ◌<◌, ◌≡◌, refl, sym, ap, ◌∙◌, some, List, [], ◌∷◌, ◌++◌, inl, inr, length, Option-cases,
}
use tao.Consensus.Bytes.{Bytes}
use tao.Consensus.Block.{DagBlock}
use tao.Database.BlockLog as BlockLog
use tao.Database.BlockLog.{frame}
use tao.Database.BlockLog.Framing.{
  written, AreSmall, AreSmall-append, written-append, read_all-written,
}
use tao.DagChain.{Externals, DagChain, LogRecord, Result, ok, err, panicked}
use tao.DagChain.Accept.{Exec, apply}
use tao.DagChain.Accept.Outcome.{apply_with_id-reset, apply-reset}
use tao.DagChain.Reset.{reset, reset_exec, reset_result, Result-cases}
use tao.DagChain.Snapshot.Import.{load_snapshot-reset}
use tao.DagChain.Open.{
  Config, start, apply_record, apply_legacy, legacy_block_id, replay, open_with_genesis, upgrade,
}

module _ {x : Externals} where
  apply_legacy-reset :
      (l : Bytes) (s : DagChain x) (b : _)
      → apply_legacy x (reset l s) b ≡ reset_exec l (apply_legacy x s b)
  unfolding apply_legacy
  apply_legacy-reset l s b = elim (Option-cases (legacy_block_id x b.header)) [
    | inl e ↦ rw (apply_legacy, e) refl
    | inr (id, e) ↦ rw (apply_legacy, e) (apply_with_id-reset l s (upgrade b) id)
  ]

  apply_record-reset :
      (l : Bytes) (s : DagChain x) (b : Bytes)
      → apply_record x (reset l s) b ≡ reset_exec l (apply_record x s b)
  unfolding apply_record
  apply_record-reset l s b = elim (Option-cases (x.deserialize_record b)) [
    | inl e ↦ elim (Option-cases (x.deserialize_legacy b)) [
      | inl f ↦ rw (apply_record, e, f) refl
      | inr (old, f) ↦ rw (apply_record, e, f) (apply_legacy-reset l s old)
    ]
    | inr (LogRecord.block block, e) ↦ rw (apply_record, e) (apply-reset l s block)
    | inr (LogRecord.snapshot h a p, e) ↦
        rw (apply_record, e) (ap (λ u. (u, ok tt)) (load_snapshot-reset l s h a p))
  ]

  -- The rest of a replay after a record.
  abbrev pub proceed : Exec x → List Bytes → Result (DagChain x)
  proceed r records = elim r.1 [ ok _ ↦ replay x r.0 records | err e ↦ err e | panicked ↦ panicked ]

  pub replay-cons :
      (s : DagChain x) (b : Bytes) (records : List Bytes)
      → replay x s (b ∷ records) ≡ proceed (apply_record x s b) records
  unfolding replay
  replay-cons s b records = refl

  pub replay_nil : (s : DagChain x) → replay x s [] ≡ ok s
  unfolding replay
  replay_nil s = refl

  replay-reset :
      (l : Bytes) (s : DagChain x) (records : List Bytes)
      → replay x (reset l s) records ≡ reset_result l (replay x s records)
  unfolding replay
  replay-reset l s [] = refl
  replay-reset l s (b ∷ records) =
      replay-cons (reset l s) b records
      ∙ ap (λ r. proceed r records) (apply_record-reset l s b)
      ∙ elim (Result-cases (apply_record x s b).1) [
        | inl (u, e) ↦ rw (replay, e) (replay-reset l (apply_record x s b).0 records)
        | inr (inl (f, e)) ↦ rw (replay, e) refl
        | inr (inr e) ↦ rw (replay, e) refl
      ]

  abbrev then_replay : Result (DagChain x) → List Bytes → Result (DagChain x)
  then_replay (ok s) records = replay x s records
  then_replay (err e) records = err e
  then_replay panicked records = panicked

  -- One more record.
  replay-append :
      (s : DagChain x) (records more : List Bytes)
      → replay x s (records ++ more) ≡ then_replay (replay x s records) more
  unfolding replay
  replay-append s [] more = refl
  replay-append s (r ∷ records) more = elim (Result-cases (apply_record x s r).1) [
    | inl (u, e) ↦ rw (replay, e) (replay-append (apply_record x s r).0 records more)
    | inr (inl (f, e)) ↦ rw (replay, e) refl
    | inr (inr e) ↦ rw (replay, e) refl
  ]

  -- The log has whole records, and what is opened from it is the chain, but for what `reset`
  -- has as a start.
  abbrev pub IsDurable : Config → DagChain x → Type 0
  IsDurable cfg s =
      (records : List Bytes) × AreSmall records
      × (s.log ≡ written records)
      × (open_with_genesis x cfg s.log ≡ ok (reset s.log s))

  pub open-written :
      (cfg : Config) (l : Bytes) (records : List Bytes)
      → AreSmall records
      → l ≡ written records
      → open_with_genesis x cfg l ≡ replay x (start x cfg l) records
  unfolding open_with_genesis
  open-written cfg l records small e =
      let read : BlockLog.read_all l ≡ BlockLog.ok records =
        ap BlockLog.read_all e ∙ read_all-written records small in
      rw (open_with_genesis, read) refl

  pub start-reset : (cfg : Config) (l l' : Bytes) → start x cfg l' ≡ reset l' (start x cfg l)
  unfolding start
  start-reset cfg l l' = refl

  pub start-IsDurable : (cfg : Config) → IsDurable cfg (start x cfg [])
  unfolding start replay
  start-IsDurable cfg = ([], tt, refl, open-written cfg [] [] tt refl)

  -- A record that is appended is replayed on the chain that is opened from the log before.
  pub open-append :
      (cfg : Config) (s : DagChain x) (rec : Bytes)
      → IsDurable cfg s
      → length rec < 2 ^ 32
      → open_with_genesis x cfg (s.log ++ frame rec)
        ≡ replay x (reset (s.log ++ frame rec) s) (rec ∷ [])
  open-append cfg s rec (records, small, e, opened) h =
      let l : Bytes = s.log ++ frame rec in
      open-written cfg l (records ++ rec ∷ []) (AreSmall-append records rec small h)
        (ap (λ t. t ++ frame rec) e ∙ sym (written-append records rec))
      ∙ ap (λ t. replay x t (records ++ rec ∷ [])) (start-reset cfg s.log l)
      ∙ replay-append (reset l (start x cfg s.log)) records (rec ∷ [])
      ∙ ap (λ r. then_replay r (rec ∷ []))
          (replay-reset l (start x cfg s.log) records
            ∙ ap (reset_result l) (sym (open-written cfg s.log records small e) ∙ opened))

  -- What `apply` makes of the record of a block.
  pub open-block :
      (cfg : Config) (s : DagChain x) (b : DagBlock) (rec : Bytes)
      → IsDurable cfg s
      → x.serialize_record (LogRecord.block b) ≡ some rec
      → length rec < 2 ^ 32
      → open_with_genesis x cfg (s.log ++ frame rec)
        ≡ proceed (reset_exec (s.log ++ frame rec) (apply x s b)) []
  unfolding apply_record
  open-block cfg s b rec durable e h =
      let l : Bytes = s.log ++ frame rec in
      let d : apply_record x (reset l s) rec ≡ apply x (reset l s) b =
        rw (apply_record, x.deserialize-serialize (LogRecord.block b) rec e) refl in
      open-append cfg s rec durable h
      ∙ replay-cons (reset l s) rec []
      ∙ ap (λ r. proceed r []) (d ∙ apply-reset l s b)
