-- ===== src/DagChain/Prune/Valid.antt =====
-- A pruning leaves a well-formed chain, and a failed one leaves no trace.
use mathlib.Core.Path.{subst}
use tao.Common.{
  ℕ, zero, suc, ◌≡◌, refl, sym, ap, ◌∙◌, Option, none, some, List, [], ◌∷◌, drop, get_elem?, map,
  arith, inl, inr, >>=-eq-some, some_inj, Option-cases, if◌then◌else◌,
}
use tao.Common.Keys.{nat_eq, list_eq, contains, beq_refl, beq-cases}
use tao.Common.Maps.{HashMap, lookup}
use tao.Consensus.Bytes.{Bytes}
use tao.Consensus.Block.{BlockId, DagBlockHeader}
use tao.Database.BlockLog as BlockLog
use tao.Runtime.Bank.{Svm, Bank}
use tao.DagChain.{Externals, DagChain}
use tao.DagChain.Accept.Invariant.{Known, IsValid}
use tao.DagChain.State.{State}
use tao.DagChain.Snapshot.{build_proof_for}
use tao.DagChain.Prune.{
  Result, ok, err, cut, readd, kept_parents, keep_headers, base_bank, anchor, prune_records,
  commit_prune, prune_kept, prune_to, prune_at, prune,
}

-- The engine after some blocks were added.
unfoldable pub add_blocks : (x : Externals) → x.Dag → List (BlockId × List BlockId) → x.Dag
add_blocks x engine [] = engine
add_blocks x engine (c ∷ calls) = add_blocks x (x.add_block engine c.0 c.1) calls

-- What the chain relies on: the tip of an engine is its genesis or a block that was added.
pub record HasOwnTip (x : Externals) : Type 0 where
  pub own_tip :
      (k : ℕ) (p : BlockId) (calls : List (BlockId × List BlockId))
      → Known (p ∷ map (λ c. c.0) calls) (x.dag_tip (add_blocks x (x.genesis_dag k p) calls))

pub drop-get_elem :
    (order : List BlockId) (i : ℕ) (p : BlockId)
    → get_elem? order i ≡ some p
    → drop i order ≡ p ∷ drop (suc i) order
drop-get_elem [] i p e = cc
drop-get_elem (o ∷ order) zero p e = ap (λ a. a ∷ order) (some_inj e)
drop-get_elem (o ∷ order) (suc i) p e = drop-get_elem order i p e

pub keep_headers-lookup :
    (headers : HashMap BlockId DagBlockHeader) (ids : List BlockId) (id : BlockId)
    → lookup id (keep_headers headers ids) ≡ (if contains ids id then lookup id headers else none)
unfolding keep_headers lookup
keep_headers-lookup headers [] id = refl
keep_headers-lookup headers (i ∷ ids) id = elim (Option-cases (lookup i headers)) [
  | inl gone ↦ elim (beq-cases i id) [
    | inl (q, b) ↦ ground (arith, keep_headers-lookup headers ids id)
    | inr f ↦ ground (arith, keep_headers-lookup headers ids id)
  ]
  | inr (h, found) ↦ elim (beq-cases i id) [
    | inl (q, b) ↦ ground (arith, keep_headers-lookup headers ids id)
    | inr f ↦ ground (arith, keep_headers-lookup headers ids id)
  ]
]

module _ {x : Externals} where
  -- The blocks that `readd` goes through have headers, and are those that it adds.
  readd_lem :
      (s : DagChain x) (p : BlockId) (kept : List BlockId) (engine after : x.Dag)
      (ids : List BlockId)
      → readd x s p kept engine ids ≡ some after
      → (calls : List (BlockId × List BlockId)) × (after ≡ add_blocks x engine calls)
        × (map (λ c. c.0) calls ≡ ids)
        × ((id : BlockId) → Known ids id → (h : DagBlockHeader) × (lookup id s.headers ≡ some h))
  unfolding readd add_blocks
  readd_lem s p kept engine after [] e = ([], some_inj (sym e), refl, λ id m. absurd (ground arith))
  readd_lem s p kept engine after (i ∷ ids) e =
      let (header, found, rest) = >>=-eq-some (lookup i s.headers) _ e in
      let (calls, same, names, headers) =
        readd_lem s p kept (x.add_block engine i (kept_parents x p kept header.parents)) after ids
          rest in
      (
        (i, kept_parents x p kept header.parents) ∷ calls,
        same,
        ap (λ l. i ∷ l) names,
        λ id m. elim (beq-cases i id) [
          | inl (q, _) ↦ (header, rw (sym q) found)
          | inr f ↦ headers id (ground arith)
        ],
      )

  module _ (m : Svm x.Tx x.Account) where
    anchor-IsValid :
        (s : DagChain x) (p : BlockId) (suffix : List BlockId) (engine : x.Dag)
        (base : Bank x.Account) (new_proof : List DagBlockHeader) (log : Bytes)
        (p_header : DagBlockHeader)
        → HasOwnTip x
        → readd x s p (p ∷ suffix) (x.genesis_dag s.k p) suffix ≡ some engine
        → lookup p s.headers ≡ some p_header
        → IsValid (anchor x m s p (p ∷ suffix) engine base new_proof log)
    unfolding anchor
    anchor-IsValid s p suffix engine base new_proof log p_header laws run found =
        let (calls, same, names, headers) =
          readd_lem s p (p ∷ suffix) (x.genesis_dag s.k p) engine suffix run in
        record {
          origin = ground (arith, beq_refl p);
          has_header = λ id k. elim (beq-cases p id) [
            | inl (q, _) ↦
                (p_header, keep_headers-lookup s.headers (p ∷ suffix) id ∙ rw (k, sym q) found)
            | inr f ↦
                let (h, e) = headers id (ground arith) in
                (h, keep_headers-lookup s.headers (p ∷ suffix) id ∙ rw k e)
          ];
          is_block = λ id h e. ground (arith, keep_headers-lookup s.headers (p ∷ suffix) id);
          tips_known = (rw (same, sym names) (laws.own_tip s.k p calls), tt);
          some_tip = (x.dag_tip engine, [], refl);
        }

  -- What a call does: nothing, or the chain starts at the block `p` of its order, with the blocks of
  -- the order from there on and the accounts after the blocks up to `p`.
  pub data Pruned (m : Svm x.Tx x.Account) (st after : State x) (r : Result ℕ) : Type 0 where
    untouched : after ≡ st → Pruned m st after r
    moved :
        (i n : ℕ) (p : BlockId) (base : Bank x.Account) (engine : x.Dag)
        (new_proof : List DagBlockHeader) (log : Bytes)
        → r ≡ ok n
        → base_bank x m st.chain (x.total_order st.chain.engine) i ≡ ok base
        → after.chain
          ≡ anchor x m st.chain p
              (p ∷ drop (suc i) (x.total_order st.chain.engine))
              engine
              base
              new_proof
              log
        → get_elem? (x.total_order st.chain.engine) i ≡ some p
        → after.chain.genesis_dag ≡ p
        → after.chain.blocks ≡ drop i (x.total_order st.chain.engine)
        → IsValid after.chain
        → Pruned m st after r

  module _ (m : Svm x.Tx x.Account) (laws : HasOwnTip x) (st : State x) (i : ℕ) (p : BlockId)
      (here : get_elem? (x.total_order st.chain.engine) i ≡ some p) where
    abbrev order : List BlockId
    order = x.total_order st.chain.engine

    commit_prune_lem :
        (engine : x.Dag) (base : Bank x.Account) (records : Option (List Bytes))
        (p_header : DagBlockHeader) (after : State x) (r : Result ℕ)
        → readd x st.chain p
            (p ∷ drop (suc i) order)
            (x.genesis_dag st.chain.k p)
            (drop (suc i) order)
          ≡ some engine
        → lookup p st.chain.headers ≡ some p_header
        → base_bank x m st.chain order i ≡ ok base
        → commit_prune x m st p (p ∷ drop (suc i) order) engine base records ≡ (after, r)
        → Pruned m st after r
    unfolding commit_prune anchor
    commit_prune_lem engine base none p_header after r run found based e =
        untouched (sym (ap (λ q. q.0) e))
    commit_prune_lem engine base (some records) p_header after r run found based e =
        written (BlockLog.replace_all records) refl
      where
        written :
            (o : BlockLog.Result Bytes) → BlockLog.replace_all records ≡ o → Pruned m st after r
        written (BlockLog.err f) w =
            let done = rw (commit_prune, w) at e in untouched (sym (ap (λ q. q.0) done))
        written (BlockLog.ok log) w =
            let done = rw (commit_prune, w) at e in
            subst (λ q. Pruned m st q.0 q.1) done
              (moved i _ p base engine (build_proof_for x st.chain p) log refl based refl here refl
                (sym (drop-get_elem order i p here))
                (anchor-IsValid m st.chain p (drop (suc i) order) engine base
                  (build_proof_for x st.chain p) log p_header laws run found))

    prune_kept_lem :
        (base : Bank x.Account) (after : State x) (r : Result ℕ)
        → base_bank x m st.chain order i ≡ ok base
        → prune_kept x m st p (p ∷ drop (suc i) order) (drop (suc i) order) base ≡ some (after, r)
        → Pruned m st after r
    unfolding prune_kept
    prune_kept_lem base after r based e =
        let (engine, run, rest) =
          >>=-eq-some
            (readd x st.chain p (p ∷ drop (suc i) order) (x.genesis_dag st.chain.k p)
              (drop (suc i) order))
            _ e in
        let (p_header, found, done) = >>=-eq-some (lookup p st.chain.headers) _ rest in
        commit_prune_lem engine base
          (prune_records x m st.chain p_header base (build_proof_for x st.chain p)
            (drop (suc i) order))
          p_header after r run found based (some_inj done)

    prune_to_lem :
        (after : State x) (r : Result ℕ)
        → prune_to x m st i p ≡ some (after, r)
        → Pruned m st after r
    unfolding prune_to
    prune_to_lem after r e = based (base_bank x m st.chain order i) refl
      where
        based :
            (o : Result (Bank x.Account)) → base_bank x m st.chain order i ≡ o → Pruned m st after r
        based (err f) w = untouched (sym (ap (λ q. q.0) (some_inj (rw (prune_to, w) at e))))
        based (ok base) w = prune_kept_lem base after r w (
            subst (λ l. prune_kept x m st p l (drop (suc i) order) base ≡ some (after, r))
              (drop-get_elem order i p here) (rw (prune_to, w) at e))

  module _ (m : Svm x.Tx x.Account) (laws : HasOwnTip x) where
    prune_at_lem :
        (st after : State x) (r : Result ℕ) (found : Option ℕ)
        → prune_at x m st found ≡ some (after, r)
        → Pruned m st after r
    unfolding prune_at
    prune_at_lem st after r none h = untouched (sym (ap (λ q. q.0) (some_inj h)))
    prune_at_lem st after r (some i) h =
        let (p, here, done) = >>=-eq-some (get_elem? (x.total_order st.chain.engine) i) _ h in
        prune_to_lem m laws st i p here after r done

    pub prune-Pruned :
        (st after : State x) (r : Result ℕ) → prune x m st ≡ some (after, r) → Pruned m st after r
    unfolding prune
    prune-Pruned st after r e =
        let (found, ran, rest) = >>=-eq-some (cut x st.chain) _ e in
        prune_at_lem st after r found rest

    -- For an engine whose tip is its genesis or a block that was added to it: a pruning of a
    -- well-formed chain that does not panic keeps it well formed. It changes nothing, as when it
    -- fails, or makes a block of the order the origin, keeps the blocks of the order from there on
    -- and takes the accounts after the blocks up to it as those of the origin.
    pub prune-IsValid :
        (st after : State x) (r : Result ℕ)
        → IsValid st.chain
        → prune x m st ≡ some (after, r)
        → IsValid after.chain × Pruned m st after r
    prune-IsValid st after r v e = let done = prune-Pruned st after r e in (still_valid done, done)
      where
        still_valid : Pruned m st after r → IsValid after.chain
        still_valid (untouched same) = subst (λ s. IsValid s.chain) (sym same) v
        still_valid (moved i n p _ _ _ _ _ _ _ _ _ _ w) = w
