-- ===== src/DagChain/Accept/Invariant.antt =====
-- The well-formedness of a chain, and that blocks keep it.
use tao.Common.{
  ◌≡◌, refl, ◌∙◌, true, none, some, List, [], ◌∷◌, ◌++◌, inl, inr, arith, All, Bool-cases,
  Option-cases,
}
use tao.Common.Keys.{contains, nat_eq, list_eq, beq_refl, beq-cases}
use tao.Common.Maps.{lookup, insert, lookup-insert, lookup-insert_cases, HashMap}
use tao.Common.Int.{ℤ}
use tao.Consensus.Bytes.{Bytes}
use tao.Consensus.Block.{BlockId, DagBlock, DagBlockHeader, dag_id}
use tao.DagChain.{Externals, DagChain}
use tao.DagChain.Accept.{
  accept, apply, apply_with_id, store, decode_all, retain_tips, persist_and_apply, dag_parents,
}
use tao.DagChain.Reset.{relog}
use tao.Database.BlockLog.{frame}
use tao.DagChain.Accept.Outcome.{persist-cases, accept-cases}

abbrev pub Known : List BlockId → BlockId → Type 0
Known blocks id = contains blocks id ≡ true

-- The blocks are those that have a header, the origin is one, and so is every tip, of which there is
-- one at least.
pub record IsValid {x : Externals} (s : DagChain x) : Type 0 where
  pub origin : Known s.blocks s.genesis_dag
  pub has_header :
      (id : BlockId) → Known s.blocks id → (h : DagBlockHeader) × (lookup id s.headers ≡ some h)
  pub is_block :
      (id : BlockId) (h : DagBlockHeader) → lookup id s.headers ≡ some h → Known s.blocks id
  pub tips_known : All (Known s.blocks) s.tips
  pub some_tip : (t : BlockId) × (rest : List BlockId) × (s.tips ≡ t ∷ rest)

Known-cons : (blocks : List BlockId) (b id : BlockId) → Known blocks id → Known (b ∷ blocks) id
Known-cons blocks b id k = ground (arith)

pub Known-head : (blocks : List BlockId) (b : BlockId) → Known (b ∷ blocks) b
Known-head blocks b = rw (beq_refl b) refl

abbrev HaveHeaders : List BlockId → HashMap BlockId DagBlockHeader → Type 0
HaveHeaders blocks headers =
    (i : BlockId) → Known blocks i → (h : DagBlockHeader) × (lookup i headers ≡ some h)

header-insert :
    (blocks : List BlockId) (headers : HashMap BlockId DagBlockHeader) (id : BlockId)
    (header : DagBlockHeader)
    → HaveHeaders blocks headers
    → HaveHeaders (id ∷ blocks) (insert id header headers)
header-insert blocks headers id header old i k = elim (beq-cases id i) [
  | inl (p, e) ↦ (header, lookup-insert id i header headers ∙ rw e refl)
  | inr e ↦
      let (h, found) = old i (rw e at k) in (h, lookup-insert id i header headers ∙ rw e found)
]

append_some :
    (xs : List BlockId) (a : BlockId)
    → (t : BlockId) × (rest : List BlockId) × (xs ++ a ∷ [] ≡ t ∷ rest)
append_some [] a = (a, [], refl)
append_some (y ∷ xs) a = (y, xs ++ a ∷ [], refl)

tips-after :
    (x : Externals) (parents blocks tips : List BlockId) (id : BlockId)
    → All (Known blocks) tips
    → All (Known (id ∷ blocks)) (retain_tips x parents tips ++ id ∷ [])
unfolding retain_tips
tips-after x parents blocks [] id k = (Known-head blocks id, tt)
tips-after x parents blocks (t ∷ tips) id k = elim (Bool-cases (contains parents t)) [
  | inl e ↦ rw (retain_tips, e) (tips-after x parents blocks tips id k.1)
  | inr e ↦
      rw (retain_tips, e) (Known-cons blocks id t k.0, tips-after x parents blocks tips id k.1)
]

module _ {x : Externals} where
  pub store-IsValid :
      (s : DagChain x) (b : DagBlock) (id : BlockId) (txs : List x.Tx)
      → IsValid s
      → IsValid (store x s b id txs)
  unfolding store
  store-IsValid s b id txs v = record {
    origin = Known-cons s.blocks id s.genesis_dag v.origin;
    has_header = header-insert s.blocks s.headers id b.header v.has_header;
    is_block = λ i h found. elim (lookup-insert_cases id i b.header s.headers found) [
      | inl (p, q) ↦ rw p (Known-head s.blocks i)
      | inr old ↦ Known-cons s.blocks id i (v.is_block i h old)
    ];
    tips_known = tips-after x b.header.parents s.blocks s.tips id v.tips_known;
    some_tip = append_some (retain_tips x b.header.parents s.tips) id;
  }

  -- A chain of its origin alone.
  pub single-IsValid :
      (s : DagChain x) (h : DagBlockHeader)
      → s.blocks ≡ s.genesis_dag ∷ []
      → s.tips ≡ s.genesis_dag ∷ []
      → s.headers ≡ (s.genesis_dag, h) ∷ []
      → IsValid s
  unfolding insert lookup
  single-IsValid s h b t hs = record {
    origin = rw b (Known-head [] s.genesis_dag);
    has_header =
        λ i k. rw hs (header-insert [] [] s.genesis_dag h (λ j none_known. cc) i (rw b at k));
    is_block = λ i g found. elim (lookup-insert_cases s.genesis_dag i h [] (rw hs at found)) [
      | inl (p, q) ↦ rw (b, p) (Known-head [] i)
      | inr old ↦ let bad : none ≡ some g = old in cc
    ];
    tips_known = rw (b, t) (Known-head [] s.genesis_dag, tt);
    some_tip = (s.genesis_dag, [], t);
  }

  -- The engine and the log do not matter.
  with_engine-IsValid :
      (s : DagChain x) (e : x.Dag) (l : Bytes)
      → IsValid s
      → IsValid {x = x} (record s { engine = e; log = l })
  with_engine-IsValid s e l v = record {
    origin = v.origin;
    has_header = v.has_header;
    is_block = v.is_block;
    tips_known = v.tips_known;
    some_tip = v.some_tip;
  }

  pub apply_with_id-IsValid :
      (s : DagChain x) (b : DagBlock) (id : BlockId)
      → IsValid s
      → IsValid (apply_with_id x s b id).0
  unfolding apply_with_id
  apply_with_id-IsValid s b id v = elim (Bool-cases (contains s.blocks id)) [
    | inl e ↦ rw (apply_with_id, e) v
    | inr e ↦
        let engine : x.Dag = x.add_block s.engine id (dag_parents x s b.header.parents) in
        elim (Option-cases (decode_all x b.transactions)) [
          | inl d ↦ rw (apply_with_id, e, d) (with_engine-IsValid s engine s.log v)
          | inr (txs, d) ↦
              rw (apply_with_id, e, d)
                (store-IsValid (record s { engine = engine }) b id txs
                  (with_engine-IsValid s engine s.log v))
        ]
  ]

  pub apply-IsValid : (s : DagChain x) (b : DagBlock) → IsValid s → IsValid (apply x s b).0
  unfolding apply
  apply-IsValid s b v = apply_with_id-IsValid s b (dag_id x.hasher x.bincode b.header) v

  pub persist_and_apply-IsValid :
      (s : DagChain x) (b : DagBlock) → IsValid s → IsValid (persist_and_apply x s b).0
  persist_and_apply-IsValid s b v = elim (persist-cases s b) [
    | inl e ↦ rw e v
    | inr (inl e) ↦ rw e v
    | inr (inr (rec, f, h, e)) ↦
        let l : Bytes = s.log ++ frame rec in
        rw e (apply-IsValid (relog l s) b (with_engine-IsValid s s.engine l v))
  ]

  -- `accept` keeps the chain well formed, whatever the block and the result.
  pub accept-IsValid :
      (now : ℤ) (s : DagChain x) (b : DagBlock) → IsValid s → IsValid (accept x now s b).0
  accept-IsValid now s b v = elim (accept-cases now s b) [
    | inl (e, a) ↦ rw a v
    | inr (inl (f, r, a)) ↦ rw a v
    | inr (inr (inl (r, a))) ↦ rw a v
    | inr (inr (inr (e, r, a))) ↦ rw a (persist_and_apply-IsValid s b v)
  ]
