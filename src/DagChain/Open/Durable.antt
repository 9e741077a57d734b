-- ===== src/DagChain/Open/Durable.antt =====
-- What a restart finds after the calls that write the log.
use tao.Common.{
  ◌^◌, ◌<◌, ◌≡◌, refl, ap, sym, ◌∙◌, false, none, some, inl, inr, length, ◌++◌, [], ◌∷◌,
}
use tao.Common.Keys.{contains, nat_eq, list_eq}
use tao.Common.Int.{ℤ}
use tao.Consensus.Bytes.{Bytes}
use tao.Consensus.Block.{DagBlock, dag_id}
use tao.Database.BlockLog.{frame}
use tao.Database.BlockLog.Framing.{written-append, AreSmall-append}
use tao.DagChain.{Externals, DagChain, LogRecord, ok, err, decode_tx}
use tao.DagChain.Validate.{validate}
use tao.DagChain.Accept.{accept, apply, decode_all, persist_and_apply}
use tao.DagChain.Accept.Outcome.{
  apply-none, persist-some, persist-cases, accept-passes, engine_adds, apply-relog,
}
use tao.DagChain.Reset.{reset, reset_exec, relog, relog_exec}
use tao.DagChain.Open.{Config, open_with_genesis}
use tao.DagChain.Open.Replay.{IsDurable, open-block, proceed, replay_nil}

module _ {x : Externals} where
  apply-IsDurable :
      (cfg : Config) (s : DagChain x) (b : DagBlock) (rec : Bytes)
      → IsDurable cfg s
      → x.serialize_record (LogRecord.block b) ≡ some rec
      → length rec < 2 ^ 32
      → (apply x s b).1 ≡ ok tt
      → IsDurable cfg (relog (s.log ++ frame rec) (apply x s b).0)
  apply-IsDurable cfg s b rec durable f h done =
      let l : Bytes = s.log ++ frame rec in
      let (records, small, e, opened) = durable in
      (
        records ++ rec ∷ [],
        AreSmall-append records rec small h,
        ap (λ t. t ++ frame rec) e ∙ sym (written-append records rec),
        open-block cfg s b rec durable f h
            ∙ ap (λ r. proceed (reset l (apply x s b).0, r) []) done
            ∙ replay_nil (reset l (apply x s b).0),
      )

  pub persist_and_apply-IsDurable :
      (cfg : Config) (s : DagChain x) (b : DagBlock)
      → IsDurable cfg s
      → (persist_and_apply x s b).1 ≡ ok tt
      → IsDurable cfg (persist_and_apply x s b).0
  persist_and_apply-IsDurable cfg s b durable done = elim (persist-cases s b) [
    | inl e ↦ rw e durable
    | inr (inl e) ↦ rw e durable
    | inr (inr (rec, f, h, e)) ↦
        rw (e, apply-relog (s.log ++ frame rec) s b)
          (apply-IsDurable cfg s b rec durable f h
            (rw (e, apply-relog (s.log ++ frame rec) s b) at done))
  ]

  -- For a chain whose log opens to it: a new block passes the checks, one of its transactions is not
  -- decoded, and its record has less than 4 GiB. Then `accept` reports the error, but the record is
  -- in the log, and after that the chain cannot be opened.
  pub accept_poisons :
      (cfg : Config) (now : ℤ) (s : DagChain x) (b : DagBlock) (rec : Bytes)
      → IsDurable cfg s
      → contains s.blocks (dag_id x.hasher x.bincode b.header) ≡ false
      → validate x now s b ≡ ok tt
      → decode_all x b.transactions ≡ none
      → x.serialize_record (LogRecord.block b) ≡ some rec
      → length rec < 2 ^ 32
      → ((accept x now s b).1 ≡ err decode_tx)
        × (open_with_genesis x cfg (accept x now s b).0.log ≡ err decode_tx)
  accept_poisons cfg now s b rec durable e v d f h =
      let l : Bytes = s.log ++ frame rec in
      let failed : apply x s b ≡ (engine_adds s b, err decode_tx) = apply-none s b e d in
      let a : accept x now s b ≡ (relog l (engine_adds s b), err decode_tx) =
        accept-passes now s b e v
        ∙ persist-some s b rec f h
        ∙ apply-relog l s b
        ∙ ap (relog_exec l) failed in
      rw a (refl, open-block cfg s b rec durable f h ∙ ap (λ r. proceed (reset_exec l r) []) failed)
