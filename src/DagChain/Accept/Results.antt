-- ===== src/DagChain/Accept/Results.antt =====
-- What a call of `accept` that succeeds, or fails, leaves behind.
use tao.Common.{
  ◌≡◌, ◌<◌, ◌^◌, refl, ap, sym, ◌∙◌, true, false, not, ◌&&◌, ◌||◌, some, List, [], ◌∷◌, ◌++◌, inl,
  inr, ◌≢◌, ◌↔◌, Option-cases, arith, length, last, ltb, if◌then◌else◌,
}
use tao.Common.Keys.{◌==◌, contains, nat_eq, list_eq, list_beq_iff}
use tao.Common.Maps.{lookup, lookup-insert}
use tao.Common.Sets.{contains-append}
use tao.Common.Int.{ℤ}
use tao.Consensus.Bytes.{Bytes}
use tao.Consensus.Block.{BlockId, DagBlock, dag_id}
use tao.DagChain.{
  Externals, DagChain, ChainError, LogRecord, ok, err, panicked, storage, decode_tx, encode_record,
}
use tao.DagChain.Accept.{accept, store, decode_all, retain_tips, persist_and_apply}
use tao.DagChain.Reset.{relog}
use tao.Database.BlockLog.{frame, too_large}
use tao.DagChain.Validate.{validate}
use tao.DagChain.Accept.Outcome.{
  apply-none, apply-some, apply-cases, persist-cases, accept-cases, persist-some, accept-passes,
  engine_adds, logged,
}

same_in :
    (a t : BlockId) (parents : List BlockId)
    → (a == t) ≡ true
    → contains parents a ≡ contains parents t
same_in a t parents e = ap (contains parents) ((list_beq_iff a t).0 e)

abbrev pub id_of : (x : Externals) → DagBlock → BlockId
id_of x b = dag_id x.hasher x.bincode b.header

contains-retain_tips :
    (x : Externals) (parents tips : List BlockId) (t : BlockId)
    → contains (retain_tips x parents tips) t ≡ (contains tips t && not (contains parents t))
unfolding retain_tips
contains-retain_tips x parents [] t = refl
contains-retain_tips x parents (a ∷ tips) t =
    ground (arith, contains-retain_tips x parents tips t, list_beq_iff a t, same_in a t parents)

contains_end :
    (tips : List BlockId) (a t : BlockId)
    → contains (tips ++ a ∷ []) t ≡ (a == t || contains tips t)
contains_end tips a t = ground (arith, contains-append tips (a ∷ []) t)

last_end : (tips : List BlockId) (a : BlockId) → last (tips ++ a ∷ []) ≡ some a
last_end [] a = refl
last_end (b ∷ []) a = refl
last_end (b ∷ c ∷ tips) a = last_end (c ∷ tips) a

module _ {x : Externals} where
  -- A block was taken: it passed the checks, it was decoded and logged, and the maps, the tips and
  -- the log have it beside what they had; its parents are tips no more.
  pub record IsTaken (now : ℤ) (s : DagChain x) (b : DagBlock) (s' : DagChain x) : Type 0 where
    pub valid : validate x now s b ≡ ok tt
    pub txs : List x.Tx
    pub decoded : decode_all x b.transactions ≡ some txs
    pub rec : Bytes
    pub serialized : x.serialize_record (LogRecord.block b) ≡ some rec
    pub fits : length rec < 2 ^ 32
    pub log : s'.log ≡ s.log ++ frame rec
    pub blocks : (j : BlockId) → contains s'.blocks j ≡ (id_of x b == j || contains s.blocks j)
    pub headers :
        (j : BlockId)
        → lookup j s'.headers ≡ (if id_of x b == j then some b.header else lookup j s.headers)
    pub block_txs :
        (j : BlockId)
        → lookup j s'.block_txs
          ≡ (if id_of x b == j && ltb 0 (length txs) then some txs else lookup j s.block_txs)
    pub tips :
        (t : BlockId)
        → contains s'.tips t
          ≡ (id_of x b == t || contains s.tips t && not (contains b.header.parents t))
    pub newest : last s'.tips ≡ some (id_of x b)

  block_txs-store :
      (s : DagChain x) (b : DagBlock) (txs : List x.Tx) (j : BlockId)
      → lookup j (store x s b (id_of x b) txs).block_txs
        ≡ (if id_of x b == j && ltb 0 (length txs) then some txs else lookup j s.block_txs)
  unfolding store
  block_txs-store s b [] j = ground arith
  block_txs-store s b (t ∷ txs) j =
      ground (arith, lookup-insert (id_of x b) j (t ∷ txs) s.block_txs)

  taken :
      (now : ℤ) (s : DagChain x) (b : DagBlock) (txs : List x.Tx) (rec : Bytes)
      → validate x now s b ≡ ok tt
      → decode_all x b.transactions ≡ some txs
      → x.serialize_record (LogRecord.block b) ≡ some rec
      → length rec < 2 ^ 32
      → IsTaken now s b (store x (engine_adds (logged s rec) b) b (id_of x b) txs)
  unfolding store
  taken now s b txs rec v d e small = record {
    valid = v;
    txs = txs;
    decoded = d;
    rec = rec;
    serialized = e;
    fits = small;
    log = refl;
    blocks = λ j. refl;
    headers = λ j. lookup-insert (id_of x b) j b.header s.headers;
    block_txs = λ j. block_txs-store (engine_adds (logged s rec) b) b txs j;
    tips = λ t.
        contains_end (retain_tips x b.header.parents s.tips) (id_of x b) t
        ∙ ap (λ c. id_of x b == t || c) (contains-retain_tips x b.header.parents s.tips t);
    newest = last_end (retain_tips x b.header.parents s.tips) (id_of x b);
  }

  accept-some :
      (now : ℤ) (s : DagChain x) (b : DagBlock) (txs : List x.Tx) (rec : Bytes)
      → contains s.blocks (id_of x b) ≡ false
      → validate x now s b ≡ ok tt
      → decode_all x b.transactions ≡ some txs
      → x.serialize_record (LogRecord.block b) ≡ some rec
      → length rec < 2 ^ 32
      → accept x now s b ≡ (store x (engine_adds (logged s rec) b) b (id_of x b) txs, ok tt)
  accept-some now s b txs rec fresh v d e small =
      accept-passes now s b fresh v
      ∙ persist-some s b rec e small
      ∙ apply-some (logged s rec) b txs fresh d

  persisted :
      (s : DagChain x) (b : DagBlock)
      → contains s.blocks (id_of x b) ≡ false
      → (persist_and_apply x s b).1 ≡ ok tt
      → (txs : List x.Tx) × (rec : Bytes) × (decode_all x b.transactions ≡ some txs)
        × (x.serialize_record (LogRecord.block b) ≡ some rec)
        × (length rec < 2 ^ 32)
  persisted s b fresh done = elim (persist-cases s b) [
    | inl e ↦ let bad : err encode_record ≡ ok tt = rw e at done in cc
    | inr (inl e) ↦ let bad : err (storage too_large) ≡ ok tt = rw e at done in cc
    | inr (inr (rec, f, small, e)) ↦ elim (Option-cases (decode_all x b.transactions)) [
      | inl d ↦
          let bad : err decode_tx ≡ ok tt = rw (e, apply-none (logged s rec) b fresh d) at done in
          cc
      | inr (txs, d) ↦ (txs, rec, d, f, small)
    ]
  ]

  accepted-IsTaken :
      (now : ℤ) (s : DagChain x) (b : DagBlock)
      → contains s.blocks (id_of x b) ≡ false
      → (accept x now s b).1 ≡ ok tt
      → IsTaken now s b (accept x now s b).0
  accepted-IsTaken now s b fresh done = elim (accept-cases now s b) [
    | inl (e, a) ↦ let bad : true ≡ false = sym e ∙ fresh in cc
    | inr (inl (f, r, a)) ↦ let bad : err f ≡ ok tt = rw a at done in cc
    | inr (inr (inl (r, a))) ↦ let bad : panicked ≡ ok tt = rw a at done in cc
    | inr (inr (inr (e, r, a))) ↦
        let (txs, rec, d, f, small) = persisted s b fresh (rw a at done) in
        rw (accept-some now s b txs rec fresh r d f small) (taken now s b txs rec r d f small)
  ]

  -- A block that is not known is accepted exactly if it passes the checks, its transactions are
  -- decoded and its record is serialized and below 2^32 bytes. Then the log ends with the record,
  -- the blocks, the headers and, if there are any, the transactions have the block and are
  -- else as they were, and the tips are the old ones but the parents of the block, with the block
  -- as the last.
  pub accept-IsTaken :
      (now : ℤ) (s : DagChain x) (b : DagBlock)
      → contains s.blocks (dag_id x.hasher x.bincode b.header) ≡ false
      → ((accept x now s b).1 ≡ ok tt) ↔ IsTaken now s b (accept x now s b).0
  accept-IsTaken now s b fresh = (
    accepted-IsTaken now s b fresh,
    λ t.
        ap (λ r. r.1) (accept-some now s b t.txs t.rec fresh t.valid t.decoded t.serialized t.fits),
  )

  persist_and_apply-err :
      (s : DagChain x) (b : DagBlock) (e : ChainError)
      → (persist_and_apply x s b).1 ≡ err e
      → e ≢ decode_tx
      → (persist_and_apply x s b).0 ≡ s
  persist_and_apply-err s b e failed other = elim (persist-cases s b) [
    | inl p ↦ rw p refl
    | inr (inl p) ↦ rw p refl
    | inr (inr (rec, f, h, p)) ↦ elim (apply-cases (relog (s.log ++ frame rec) s) b) [
      | inl a ↦ let bad : ok tt ≡ err e = sym (ap (λ r. r.1) (p ∙ a)) ∙ failed in cc
      | inr (inl (d, a)) ↦
          let same : err decode_tx ≡ err e = sym (ap (λ r. r.1) (p ∙ a)) ∙ failed in
          let same' : e ≡ decode_tx = cc in absurd (other same')
      | inr (inr (txs, k, d, a)) ↦
          let bad : ok tt ≡ err e = sym (ap (λ r. r.1) (p ∙ a)) ∙ failed in cc
    ]
  ]

  -- A call of `accept` that fails, but for a transaction that is not decoded, leaves no trace: not in
  -- the log, the engine or the maps.
  pub accept-err :
      (now : ℤ) (s : DagChain x) (b : DagBlock) (e : ChainError)
      → (accept x now s b).1 ≡ err e
      → e ≢ decode_tx
      → (accept x now s b).0 ≡ s
  accept-err now s b e failed other = elim (accept-cases now s b) [
    | inl (k, a) ↦ rw a refl
    | inr (inl (f, r, a)) ↦ rw a refl
    | inr (inr (inl (r, a))) ↦ rw a refl
    | inr (inr (inr (k, r, a))) ↦ rw a (persist_and_apply-err s b e (rw a at failed) other)
  ]
