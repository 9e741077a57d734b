-- ===== src/DagChain/Snapshot/Records.antt =====
-- The records of a snapshot, one by one.
use tao.Common.{◌≡◌, refl, Option, none, some, List, [], ◌∷◌}
use tao.Consensus.Bytes.{Bytes}
use tao.Consensus.Block.{DagBlock}
use tao.DagChain.{Externals, LogRecord, SyncSnapshot}
use tao.DagChain.Snapshot.{cons_record, block_records, snapshot_records}

cons_record-some :
    (o : Option Bytes) (r : Option (List Bytes)) (records : List Bytes)
    → cons_record o r ≡ some records
    → (rec : Bytes) × (rest : List Bytes) × (o ≡ some rec)
      × (r ≡ some rest)
      × (records ≡ rec ∷ rest)
cons_record-some none r records e = let bad : none ≡ some records = e in cc
cons_record-some (some rec) none records e = let bad : none ≡ some records = e in cc
cons_record-some (some rec) (some rest) records e =
    (rec, rest, refl, refl, let same : some (rec ∷ rest) ≡ some records = e in cc)

module _ (x : Externals) where
  pub block_records_nil : block_records x [] ≡ some []
  unfolding block_records
  block_records_nil = refl

  pub block_records-some :
      (b : DagBlock) (bs : List DagBlock) (records : List Bytes)
      → block_records x (b ∷ bs) ≡ some records
      → (rec : Bytes) × (rest : List Bytes) × (x.serialize_record (LogRecord.block b) ≡ some rec)
        × (block_records x bs ≡ some rest)
        × (records ≡ rec ∷ rest)
  unfolding block_records
  block_records-some b bs records e =
      cons_record-some (x.serialize_record (LogRecord.block b)) (block_records x bs) records e

  pub snapshot_records-some :
      (snap : SyncSnapshot x.Account) (records : List Bytes)
      → snapshot_records x snap ≡ some records
      → (rec : Bytes) × (rest : List Bytes) × (x.serialize_record
            (LogRecord.snapshot snap.origin_header snap.accounts snap.proof)
          ≡ some rec)
        × (block_records x snap.suffix ≡ some rest)
        × (records ≡ rec ∷ rest)
  unfolding snapshot_records
  snapshot_records-some snap records e =
      cons_record-some
        (x.serialize_record (LogRecord.snapshot snap.origin_header snap.accounts snap.proof))
        (block_records x snap.suffix) records e
