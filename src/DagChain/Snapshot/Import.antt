-- ===== src/DagChain/Snapshot/Import.antt =====
-- Adopting a snapshot.
use tao.Common.{
  ◌≡◌, refl, ap, ◌∙◌, true, false, some, none, ℕ, Option-cases, List, [], ◌∷◌, inl, inr,
}
use tao.Consensus.Bytes.{Bytes}
use tao.Consensus.Block.{DagBlock, DagBlockHeader, dag_id}
use tao.DagChain.{
  Externals, DagChain, SyncSnapshot, encode_record, storage, ok, err, panicked,
  default_finality_depth,
}
use tao.Database.BlockLog as BlockLog
use tao.Database.BlockLog.Framing.{replace_all-cases}
use tao.DagChain.Reset.{reset, reset_exec, Result-cases}
use tao.DagChain.Accept.{Exec, apply}
use tao.DagChain.Accept.Outcome.{Constants, constants, apply-reset}
use tao.DagChain.Accept.Invariant.{IsValid, apply-IsValid, single-IsValid}
use tao.DagChain.Snapshot.{load_snapshot, apply_all, snapshot_records, persist_snapshot, adopt}

module _ {x : Externals} where
  pub load_snapshot-reset :
      (l : Bytes) (s : DagChain x) (h : DagBlockHeader) (a : List (Bytes × x.Account))
      (p : List DagBlockHeader)
      → load_snapshot x (reset l s) h a p ≡ reset l (load_snapshot x s h a p)
  unfolding load_snapshot
  load_snapshot-reset l s h a p = refl

  abbrev re_anchored :
      Bytes
      → DagBlockHeader
      → List (Bytes × x.Account)
      → List DagBlockHeader
      → Constants
      → DagChain x
  re_anchored l h a p c =
      let origin = dag_id x.hasher x.bincode h in
      record {
        engine = x.genesis_dag c.0.0 origin;
        log = l;
        tips = origin ∷ [];
        blocks = origin ∷ [];
        block_txs = [];
        headers = (origin, h) ∷ [];
        genesis_dag = origin;
        genesis_target = c.0.1;
        block_time_secs = c.0.2;
        lwma_window = c.0.3;
        k = c.0.0;
        miner = c.1.0;
        reward = c.1.1;
        allocations = c.1.2;
        base_accounts = some a;
        executed = [];
        finality_depth = default_finality_depth;
        checkpoint = none;
        history_pruned = true;
        proof = p;
        bootstrapped = false;
        bootstrap_work = 0;
        original_genesis = c.1.3;
      }

  abbrev pub then_all : Exec x → List DagBlock → Exec x
  then_all r bs = elim r.1 [
    | ok _ ↦ apply_all x r.0 bs
    | err e ↦ (r.0, err e)
    | panicked ↦ (r.0, panicked)
  ]

  pub apply_all-cons :
      (s : DagChain x) (b : DagBlock) (bs : List DagBlock)
      → apply_all x s (b ∷ bs) ≡ then_all (apply x s b) bs
  unfolding apply_all
  apply_all-cons s b bs = refl

  -- A chain that is re-anchored has the origin and no other block.
  pub load_snapshot-IsValid :
      (s : DagChain x) (h : DagBlockHeader) (a : List (Bytes × x.Account)) (p : List DagBlockHeader)
      → IsValid (load_snapshot x s h a p)
  unfolding load_snapshot
  load_snapshot-IsValid s h a p = single-IsValid (load_snapshot x s h a p) h refl refl refl

  pub apply_all-IsValid :
      (s : DagChain x) (bs : List DagBlock) → IsValid s → IsValid (apply_all x s bs).0
  unfolding apply_all
  apply_all-IsValid s [] v = v
  apply_all-IsValid s (b ∷ bs) v = elim (Result-cases (apply x s b).1) [
    | inl (u, e) ↦ rw (apply_all, e) (apply_all-IsValid (apply x s b).0 bs (apply-IsValid s b v))
    | inr (inl (f, e)) ↦ rw (apply_all, e) (apply-IsValid s b v)
    | inr (inr e) ↦ rw (apply_all, e) (apply-IsValid s b v)
  ]

  -- What is kept of the chain is what it has had from its start on.
  pub load_snapshot-constants :
      (l : Bytes) (s t : DagChain x) (h : DagBlockHeader) (a : List (Bytes × x.Account))
      (p : List DagBlockHeader)
      → constants s ≡ constants t
      → reset l (load_snapshot x s h a p) ≡ reset l (load_snapshot x t h a p)
  unfolding load_snapshot
  load_snapshot-constants l s t h a p same = ap (re_anchored l h a p) same

  pub apply_all-reset :
      (l : Bytes) (s : DagChain x) (bs : List DagBlock)
      → apply_all x (reset l s) bs ≡ reset_exec l (apply_all x s bs)
  unfolding apply_all
  apply_all-reset l s [] = refl
  apply_all-reset l s (b ∷ bs) =
      apply_all-cons (reset l s) b bs
      ∙ ap (λ r. then_all r bs) (apply-reset l s b)
      ∙ elim (Result-cases (apply x s b).1) [
        | inl (u, e) ↦ rw (apply_all, e) (apply_all-reset l (apply x s b).0 bs)
        | inr (inl (f, e)) ↦ rw (apply_all, e) refl
        | inr (inr e) ↦ rw (apply_all, e) refl
      ]

  pub constants-load_snapshot :
      (s : DagChain x) (h : DagBlockHeader) (a : List (Bytes × x.Account)) (p : List DagBlockHeader)
      → constants (load_snapshot x s h a p) ≡ constants s
  unfolding load_snapshot
  constants-load_snapshot s h a p = refl

  pub apply_all_nil : (s : DagChain x) → apply_all x s [] ≡ (s, ok tt)
  unfolding apply_all
  apply_all_nil s = refl

  -- The chain when a snapshot has been adopted.
  abbrev pub adopted : DagChain x → SyncSnapshot x.Account → ℕ → Bytes → DagChain x
  adopted s snap work l =
      record (apply_all x (load_snapshot x s snap.origin_header snap.accounts snap.proof)
        snap.suffix).0 { log = l; bootstrapped = true; bootstrap_work = work }

  persist_snapshot-ok :
      (s : DagChain x) (snap : SyncSnapshot x.Account) (work : ℕ)
      → (persist_snapshot x s snap work).1 ≡ ok true
      → (records : List Bytes) × (l : Bytes) × (snapshot_records x snap ≡ some records)
        × (BlockLog.replace_all records ≡ BlockLog.ok l)
        × ((persist_snapshot x s snap work).0
            ≡ record s { log = l; bootstrapped = true; bootstrap_work = work })
  unfolding persist_snapshot
  persist_snapshot-ok s snap work done = elim (Option-cases (snapshot_records x snap)) [
    | inl e ↦ let bad : err encode_record ≡ ok true = rw (persist_snapshot, e) at done in cc
    | inr (records, e) ↦ elim (replace_all-cases records) [
      | inl (l, f) ↦ (records, l, e, f, rw (persist_snapshot, e, f) refl)
      | inr (g, f) ↦ let bad : err (storage g) ≡ ok true = rw (persist_snapshot, e, f) at done in cc
    ]
  ]

  pub adopt-ok :
      (s : DagChain x) (snap : SyncSnapshot x.Account) (work : ℕ)
      → (adopt x s snap work).1 ≡ ok true
      → (records : List Bytes) × (l : Bytes) × ((apply_all x
            (load_snapshot x s snap.origin_header snap.accounts snap.proof)
            snap.suffix).1
          ≡ ok tt)
        × (snapshot_records x snap ≡ some records)
        × (BlockLog.replace_all records ≡ BlockLog.ok l)
        × ((adopt x s snap work).0 ≡ adopted s snap work l)
  unfolding adopt
  adopt-ok s snap work done =
      let r : Exec x =
        apply_all x (load_snapshot x s snap.origin_header snap.accounts snap.proof) snap.suffix in
      elim (Result-cases r.1) [
        | inl (u, e) ↦
            let (records, l, f, g, h) = persist_snapshot-ok r.0 snap work (rw (adopt, e) at done) in
            (records, l, e, f, g, rw (adopt, e) h)
        | inr (inl (f, e)) ↦ let bad : err f ≡ ok true = rw (adopt, e) at done in cc
        | inr (inr e) ↦ let bad : panicked ≡ ok true = rw (adopt, e) at done in cc
      ]
