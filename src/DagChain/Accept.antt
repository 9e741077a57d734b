-- ===== src/DagChain/Accept.antt =====
-- `apply` and `accept`: a block into the chain. A call returns its result and the chain as it is then,
-- also beside an error: what was written before the error stays.
pub mod Outcome
pub mod Invariant
pub mod Results
use tao.Common.{
  ℕ, Bool, true, false, not, ◌||◌, Option, none, some, List, [], ◌∷◌, ◌++◌, if◌then◌else◌, ◌>>=◌,
}
use tao.Common.Keys.{◌==◌, nat_eq, list_eq, contains}
use tao.Common.Maps.{insert}
use tao.Common.Int.{ℤ}
use tao.Consensus.Bytes.{Bytes}
use tao.Consensus.Block.{BlockId, DagBlock, dag_id}
use tao.Database.BlockLog as BlockLog
use tao.DagChain.{
  Externals, DagChain, LogRecord, Result, ok, err, panicked, storage, encode_record, decode_tx,
}
use tao.DagChain.Validate.{validate}

-- The chain after a call, and its result.
abbrev pub Exec : Externals → Type 0
Exec x = DagChain x × Result (Unit {0})

module _ (x : Externals) where
  -- The parents as the engine gets them: an unknown one, which was pruned, becomes the origin.
  unfoldable pub remap : BlockId → List BlockId → BlockId → BlockId
  remap genesis blocks p = if p == genesis || contains blocks p then p else genesis

  -- Each parent once, in the order of their first occurrence; `seen` holds those before.
  unfoldable pub remap_all : BlockId → List BlockId → List BlockId → List BlockId → List BlockId
  remap_all genesis blocks seen [] = []
  remap_all genesis blocks seen (p ∷ ps) =
      let d = remap genesis blocks p in
      let again = remap_all genesis blocks seen ps in
      let rest = remap_all genesis blocks (d ∷ seen) ps in
      if contains seen d then again else d ∷ rest

  unfoldable pub dag_parents : DagChain x → List BlockId → List BlockId
  dag_parents s parents = elim (remap_all s.genesis_dag s.blocks [] parents) [
    | [] ↦ s.genesis_dag ∷ []
    | d ∷ ds ↦ d ∷ ds
  ]

  unfoldable pub decode_all : List Bytes → Option (List x.Tx)
  decode_all [] = some []
  decode_all (b ∷ bs) = do tx ← x.deserialize_tx b; rest ← decode_all bs; some (tx ∷ rest)

  -- `tips.retain(|t| !parents.contains(t))`
  unfoldable pub retain_tips : List BlockId → List BlockId → List BlockId
  retain_tips parents [] = []
  retain_tips parents (t ∷ tips) =
      let rest = retain_tips parents tips in if contains parents t then rest else t ∷ rest

  -- The chain with a decoded block.
  unfoldable pub store : DagChain x → DagBlock → BlockId → List x.Tx → DagChain x
  store s block id txs = record s {
    block_txs = elim txs [ [] ↦ s.block_txs | t ∷ ts ↦ insert id (t ∷ ts) s.block_txs ];
    headers = insert id block.header s.headers;
    blocks = id ∷ s.blocks;
    tips = retain_tips block.header.parents s.tips ++ id ∷ [];
  }

  -- The block goes to the engine before its transactions are decoded.
  unfoldable pub apply_with_id : DagChain x → DagBlock → BlockId → Exec x
  apply_with_id s block id =
      if contains s.blocks id
      then (s, ok tt)
      else let s' = record s {
        engine = x.add_block s.engine id (dag_parents s block.header.parents);
      } in
        elim (decode_all block.transactions) [
          | none ↦ (s', err decode_tx)
          | some txs ↦ (store s' block id txs, ok tt)
        ]

  unfoldable pub apply : DagChain x → DagBlock → Exec x
  apply s block = apply_with_id s block (dag_id x.hasher x.bincode block.header)

  -- The record of a block at the end of the log.
  unfoldable pub persist : DagChain x → DagBlock → Exec x
  persist s block = elim (x.serialize_record (LogRecord.block block)) [
    | none ↦ (s, err encode_record)
    | some rec ↦ elim (BlockLog.append s.log rec) [
      | BlockLog.err e ↦ (s, err (storage e))
      | BlockLog.ok log ↦ (record s { log = log }, ok tt)
    ]
  ]

  abbrev then_apply : DagBlock → Exec x → Exec x
  then_apply block (s, ok _) = apply s block
  then_apply block (s, err e) = (s, err e)
  then_apply block (s, panicked) = (s, panicked)

  unfoldable pub persist_and_apply : DagChain x → DagBlock → Exec x
  persist_and_apply s block = then_apply block (persist s block)

  unfoldable pub accept : ℤ → DagChain x → DagBlock → Exec x
  accept now s block =
      if contains s.blocks (dag_id x.hasher x.bincode block.header)
      then (s, ok tt)
      else elim (validate x now s block) [
        | ok _ ↦ persist_and_apply s block
        | err e ↦ (s, err e)
        | panicked ↦ (s, panicked)
      ]
