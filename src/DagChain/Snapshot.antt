-- ===== src/DagChain/Snapshot.antt =====
-- Pruning proofs and snapshots: a proof is checked and built, a snapshot is adopted and exported.
pub mod Proof
pub mod Import
pub mod Records
pub mod Stranded
mod Tests
use tao.Common.{
  ℕ, zero, suc, ◌+◌, ◌*◌, Bool, true, false, not, ◌||◌, ◌&&◌, Option, none, some, List, [], ◌∷◌,
  reverse, ltb, nat_beq, min, if◌then◌else◌, length, last,
}
use tao.Common.Keys.{◌==◌, nat_eq, list_eq, contains}
use tao.Common.Maps.{lookup}
use tao.Common.Int.{ℤ}
use tao.Consensus.Bytes.{Bytes, u256_max}
use tao.Consensus.Target.{meets_target, work_for_target}
use tao.Consensus.Block.{BlockId, DagBlock, DagBlockHeader, dag_id}
use tao.Database.BlockLog as BlockLog
use tao.DagChain.{
  Externals, DagChain, LogRecord, SyncSnapshot, Result, ok, err, panicked, storage, encode_record,
  decode_record, snapshot_too_large, empty_proof, not_anchored, wrong_origin, invalid_pow_in_proof,
  not_connected, ◌>>=◌, ◌>>◌, refuse_if, max_snapshot_bytes,
}
use tao.DagChain.Validate.{validate_block_intrinsic}
use tao.DagChain.Accept.{Exec, apply}

-- The records pushed before the first that is not serialised are lost with it.
abbrev pub cons_record : Option Bytes → Option (List Bytes) → Option (List Bytes)
cons_record none rest = none
cons_record (some rec) none = none
cons_record (some rec) (some rest) = some (rec ∷ rest)

-- `h.interlink.last() == Some(&prev)`
unfoldable pub links_to : BlockId → List BlockId → Bool
links_to prev interlink = elim (last interlink) [ none ↦ false | some p ↦ p == prev ]

module _ (x : Externals) where
  -- The loop of `verify_proof` over the headers after the first.
  unfoldable pub verify_links : BlockId → ℕ → List DagBlockHeader → Result ℕ
  verify_links prev work [] = ok work
  verify_links prev work (h ∷ hs) = do
    let id = dag_id x.hasher x.bincode h
    refuse_if (not (meets_target x.codec id h.target)) invalid_pow_in_proof
    refuse_if (not (links_to prev h.interlink)) not_connected
    verify_links id (min (work + work_for_target x.codec h.target) u256_max) hs

  unfoldable pub ends_at : BlockId → List DagBlockHeader → Bool
  ends_at origin proof = elim (last proof) [
    | none ↦ false
    | some h ↦ dag_id x.hasher x.bincode h == origin
  ]

  unfoldable pub verify_proof : List DagBlockHeader → BlockId → BlockId → Result ℕ
  verify_proof [] origin genesis_id = err empty_proof
  verify_proof (h ∷ hs) origin genesis_id = do
    refuse_if (not (dag_id x.hasher x.bincode h == genesis_id)) not_anchored
    refuse_if (not (ends_at origin (h ∷ hs))) wrong_origin
    verify_links (dag_id x.hasher x.bincode h) (work_for_target x.codec h.target) hs

  -- `self.proof.iter().find(|h| h.id() == cur)`
  pub find_header : BlockId → List DagBlockHeader → Option DagBlockHeader
  find_header cur [] = none
  find_header cur (h ∷ hs) =
      let rest = find_header cur hs in if dag_id x.hasher x.bincode h == cur then some h else rest

  -- A header that is stored, or else one of the retained proof.
  unfoldable pub header_for : DagChain x → BlockId → Option DagBlockHeader
  header_for s cur = elim (lookup cur s.headers) [
    | some h ↦ some h
    | none ↦ if s.history_pruned then find_header cur s.proof else none
  ]

  -- The walk along the highest pointers, newest first; `seen` are the ids before.
  unfoldable pub walk_interlinks : DagChain x → ℕ → List BlockId → BlockId → List DagBlockHeader
  walk_interlinks s zero seen cur = []
  walk_interlinks s (suc fuel) seen cur = elim (header_for s cur) [
    | none ↦ []
    | some h ↦ elim (contains seen (dag_id x.hasher x.bincode h)) [
      | true ↦ []
      | false ↦ elim (last h.interlink) [
        | none ↦ h ∷ []
        | some n ↦ elim (n == cur) [
          | true ↦ h ∷ []
          | false ↦ h ∷ walk_interlinks s fuel (dag_id x.hasher x.bincode h ∷ seen) n
        ]
      ]
    ]
  ]

  -- The guard of the loop lets 1,000,001 headers through.
  unfoldable pub build_proof_for : DagChain x → BlockId → List DagBlockHeader
  build_proof_for s p = reverse (walk_interlinks s (1000000 + 1) [] p)

  -- The cached bank, which the code drops here too, is a part of `State` and not of the chain.
  unfoldable pub load_snapshot :
      DagChain x → DagBlockHeader → List (Bytes × x.Account) → List DagBlockHeader → DagChain x
  load_snapshot s origin_header accounts proof =
      let origin = dag_id x.hasher x.bincode origin_header in
      record s {
        engine = x.genesis_dag s.k origin;
        genesis_dag = origin;
        tips = origin ∷ [];
        blocks = origin ∷ [];
        headers = (origin, origin_header) ∷ [];
        block_txs = [];
        base_accounts = some accounts;
        history_pruned = true;
        checkpoint = none;
        proof = proof;
        executed = [];
      }

  -- A loop of `apply` that stops at the first error.
  unfoldable pub apply_all : DagChain x → List DagBlock → Exec x
  apply_all s [] = (s, ok tt)
  apply_all s (b ∷ bs) =
      let (s', result) = apply x s b in
      elim result [ ok _ ↦ apply_all s' bs | err e ↦ (s', err e) | panicked ↦ (s', panicked) ]

  -- `clock i` is the reading for the block with i blocks before it.
  unfoldable pub validate_suffix : (ℕ → ℤ) → ℕ → List DagBlock → Result (Unit {0})
  validate_suffix clock i [] = ok tt
  validate_suffix clock i (b ∷ bs) = do
    validate_block_intrinsic x (clock i) b
    validate_suffix clock (i + 1) bs

  unfoldable pub block_records : List DagBlock → Option (List Bytes)
  block_records [] = some []
  block_records (b ∷ bs) = cons_record (x.serialize_record (LogRecord.block b)) (block_records bs)

  -- The records of the compacted log.
  unfoldable pub snapshot_records : SyncSnapshot x.Account → Option (List Bytes)
  snapshot_records snap =
      cons_record
        (x.serialize_record (LogRecord.snapshot snap.origin_header snap.accounts snap.proof))
        (block_records snap.suffix)

  -- The log is replaced and the chain marked.
  unfoldable pub persist_snapshot :
      DagChain x → SyncSnapshot x.Account → ℕ → DagChain x × Result Bool
  persist_snapshot s snap work = elim (snapshot_records snap) [
    | none ↦ (s, err encode_record)
    | some records ↦ elim (BlockLog.replace_all records) [
      | BlockLog.err e ↦ (s, err (storage e))
      | BlockLog.ok log ↦
          (record s { log = log; bootstrapped = true; bootstrap_work = work }, ok true)
    ]
  ]

  -- The chain re-anchored, the suffix applied, the log compacted.
  unfoldable pub adopt : DagChain x → SyncSnapshot x.Account → ℕ → DagChain x × Result Bool
  adopt s snap work =
      let (s', result) =
        apply_all (load_snapshot s snap.origin_header snap.accounts snap.proof) snap.suffix in
      elim result [
        | ok _ ↦ persist_snapshot s' snap work
        | err e ↦ (s', err e)
        | panicked ↦ (s', panicked)
      ]

  -- The node has only its genesis, or has the snapshot of a peer with less work.
  pub may_adopt : DagChain x → ℕ → Bool
  may_adopt s work =
      nat_beq (length s.blocks) 1 && not s.history_pruned
      || s.bootstrapped && ltb s.bootstrap_work work

  pub import_decoded : (ℕ → ℤ) → DagChain x → SyncSnapshot x.Account → DagChain x × Result Bool
  import_decoded clock s snap =
      if contains s.blocks (dag_id x.hasher x.bincode snap.origin_header)
      then (s, ok false)
      else elim (verify_proof snap.proof (dag_id x.hasher x.bincode snap.origin_header)
          s.original_genesis) [
            | err e ↦ (s, err e)
            | panicked ↦ (s, panicked)
            | ok work ↦
                if not (may_adopt s work)
                then (s, ok false)
                else elim (validate_suffix clock 0 snap.suffix) [
                  | ok _ ↦ adopt s snap work
                  | err e ↦ (s, err e)
                  | panicked ↦ (s, panicked)
                ]
          ]

  pub import_snapshot : (ℕ → ℤ) → DagChain x → Bytes → DagChain x × Result Bool
  import_snapshot clock s bytes =
      if ltb max_snapshot_bytes (length bytes)
      then (s, err snapshot_too_large)
      else elim (x.deserialize_snapshot bytes) [
        | none ↦ (s, err decode_record)
        | some snap ↦ import_decoded clock s snap
      ]
