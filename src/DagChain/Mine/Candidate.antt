-- ===== src/DagChain/Mine/Candidate.antt =====
-- A mined block passes the checks that a peer, or the miner itself, makes of it.
use tao.Common.{
  ℕ, zero, suc, ◌+◌, ◌%◌, ◌^◌, ◌≤◌, ◌<◌, ◌≡◌, refl, ap, sym, ◌∙◌, Bool, true, false, none, some,
  List, ltb, nat_beq, inl, inr, arith, length, map, Bool-cases, Option-cases, length-map,
}
use tao.Common.Keys.{nat_eq, list_eq, beq_refl}
use tao.Common.{◌⊎◌}
use tao.Common.Int.{ℤ, ltb_ℤ}
use tao.Consensus.Bytes.{Bytes}
use tao.Consensus.Target.{Target, meets_target}
use tao.Consensus.Block.{DagBlock, DagBlockHeader, dag_id}
use tao.Consensus.Merkle.{tx_merkle_root}
use tao.DagChain.{
  Externals, DagChain, ok, panicked, max_parents, max_block_txs, max_block_tx_bytes,
  max_timestamp_drift_secs,
}
use tao.DagChain.Select.{selected_parent_dag, interlink_for_parent, next_target}
use tao.DagChain.Validate.{
  all_distinct, total_bytes, saturating_add, validate_block_intrinsic, check_parents,
  check_timestamp, check_context, validate,
}
use tao.DagChain.Accept.Invariant.{IsValid, Known}
use tao.DagChain.Mine.Parents.{tip_parents-all_known, tip_parents-all_distinct, length-tip_parents}
use tao.DagChain.Mine.{encode_tx, tip_parents, candidate, search, build_block_at}

module _ (x : Externals) where
  abbrev pub with_nonce : DagBlockHeader → ℕ → DagBlockHeader
  with_nonce h n = record h { nonce = n }

  abbrev pub meets : Target → DagBlockHeader → Bool
  meets target h = meets_target x.codec (dag_id x.hasher x.bincode h) target

  search-some :
      (fuel : ℕ) (target : Target) (h found : DagBlockHeader)
      → search x fuel target h ≡ some found
      → (meets target found ≡ true) × ((n : ℕ) × (found ≡ with_nonce h n))
  unfolding search
  search-some zero target h found e = let bad : none ≡ some found = e in cc
  search-some (suc fuel) target h found e = elim (Bool-cases (meets target h)) [
    | inl m ↦
        let hit : some h ≡ some found = rw (search, m) at e in
        let same : h ≡ found = cc in rw (sym same) (m, (h.nonce, refl))
    | inr m ↦
        let (met, (n, same)) =
          search-some fuel target (with_nonce h ((h.nonce + 1) % 2 ^ 64)) found
            (rw (search, m) at e) in
        (met, (n, same))
  ]

  -- The search ends when a nonce meets the target, on as many units of fuel as it is far.
  search_total :
      (fuel k : ℕ) (target : Target) (h : DagBlockHeader)
      → k < fuel
      → h.nonce + k < 2 ^ 64
      → meets target (with_nonce h (h.nonce + k)) ≡ true
      → (found : DagBlockHeader) × (search x fuel target h ≡ some found)
  unfolding search
  search_total zero k target h lt fits m = absurd (omega arith)
  search_total (suc fuel) k target h lt fits m = elim (Bool-cases (meets target h)) [
    | inl hit ↦ (h, rw (search, hit) refl)
    | inr miss ↦ elim (distance k) [
      | inl z ↦
          let same : h.nonce + k ≡ h.nonce = omega (arith, z) in
          let bad : true ≡ false = sym m ∙ ap (λ n. meets target (with_nonce h n)) same ∙ miss in cc
      | inr (j, p) ↦
          let next : (h.nonce + 1) % 2 ^ 64 ≡ h.nonce + 1 = omega (arith, p) in
          let there : (h.nonce + 1) % 2 ^ 64 + j ≡ h.nonce + k = omega (arith, next, p) in
          let (found, e) =
            search_total fuel j target (with_nonce h ((h.nonce + 1) % 2 ^ 64)) (omega (arith, p))
              (omega (arith, there)) (ap (λ n. meets target (with_nonce h n)) there ∙ m) in
          (found, rw (search, miss) e)
    ]
  ]
    where
      distance : (k : ℕ) → (k ≡ 0) ⊎ ((j : ℕ) × (k ≡ j + 1))
      distance zero = inl refl
      distance (suc j) = inr (j, omega arith)

  module _ (s : DagChain x) where
    -- The block with a nonce.
    abbrev pub mined : List x.Tx → ℤ → Target → Bytes → ℕ → DagBlock
    mined txs timestamp target root n = record {
      header = with_nonce (candidate x s timestamp target root) n;
      transactions = map (encode_tx x) txs;
    }

    build_block_at-some :
        (fuel : ℕ) (txs : List x.Tx) (timestamp : ℤ) (b : DagBlock)
        → build_block_at x fuel s txs timestamp ≡ ok (some b)
        → (target : Target) × (root : Bytes) × (n : ℕ) × (next_target x s ≡ some target)
          × (tx_merkle_root x.hasher (map (encode_tx x) txs) ≡ some root)
          × (b ≡ mined txs timestamp target root n)
          × (meets target b.header ≡ true)
    unfolding build_block_at
    build_block_at-some fuel txs timestamp b e = elim (Option-cases (next_target x s)) [
      | inl t ↦ let bad : panicked ≡ ok (some b) = rw (build_block_at, t) at e in cc
      | inr (target, t) ↦ elim (Option-cases (tx_merkle_root x.hasher (map (encode_tx x) txs))) [
        | inl r ↦ let bad : panicked ≡ ok (some b) = rw (build_block_at, t, r) at e in cc
        | inr (root, r) ↦
            elim (Option-cases (search x fuel target (candidate x s timestamp target root))) [
              | inl f ↦ let bad : ok none ≡ ok (some b) = rw (build_block_at, t, r, f) at e in cc
              | inr (h, f) ↦
                  let (met, (n, same)) =
                    search-some fuel target (candidate x s timestamp target root) h f in
                  let built : b ≡ record { header = h; transactions = map (encode_tx x) txs } =
                    unwrap b (record { header = h; transactions = map (encode_tx x) txs })
                      (rw (build_block_at, t, r, f) at e) in
                  (
                    target,
                    root,
                    n,
                    t,
                    r,
                    built
                        ∙ ap (λ g. record { header = g; transactions = map (encode_tx x) txs })
                            same,
                    ap (λ (d : DagBlock). meets target d.header) built ∙ met,
                  )
            ]
      ]
    ]
      where
        unwrap : (b c : DagBlock) → ok (some c) ≡ ok (some b) → b ≡ c
        unwrap b c e = cc

    -- What the miner sees to: the engine's tip is the selected parent of the tips, which are distinct,
    -- and the transactions are within the limits.
    pub record IsReady (now : ℤ) (txs : List x.Tx) (timestamp : ℤ) : Type 0 where
      pub valid : IsValid s
      pub tip_known : Known s.blocks (x.dag_tip s.engine)
      pub tip_selected : selected_parent_dag x s (tip_parents x s) ≡ x.dag_tip s.engine
      pub tips_distinct : all_distinct s.tips ≡ true
      pub few : length txs ≤ max_block_txs
      pub short : total_bytes (map (encode_tx x) txs) ≤ max_block_tx_bytes
      pub not_future : ltb_ℤ (saturating_add now max_timestamp_drift_secs) timestamp ≡ false
      pub not_past : check_timestamp x s (x.dag_tip s.engine) timestamp ≡ ok tt

    intrinsic :
        (now : ℤ) (txs : List x.Tx) (timestamp : ℤ) (target : Target) (root : Bytes) (n : ℕ)
        → IsReady now txs timestamp
        → tx_merkle_root x.hasher (map (encode_tx x) txs) ≡ some root
        → meets target (with_nonce (candidate x s timestamp target root) n) ≡ true
        → validate_block_intrinsic x now (mined txs timestamp target root n) ≡ ok tt
    unfolding validate_block_intrinsic candidate
    intrinsic now txs timestamp target root n ready r m =
        let (low, high) = length-tip_parents x s ready.valid in
        let some_parent : nat_beq (length (tip_parents x s)) 0 ≡ false = ground arith in
        let few_parents : ltb max_parents (length (tip_parents x s)) ≡ false = ground arith in
        let few : ltb max_block_txs (length (map (encode_tx x) txs)) ≡ false =
          ground (arith, ready.few, length-map (encode_tx x) txs) in
        let short : ltb max_block_tx_bytes (total_bytes (map (encode_tx x) txs)) ≡ false =
          ground (arith, ready.short) in
        rw
          (
            validate_block_intrinsic,
            m,
            some_parent,
            few_parents,
            tip_parents-all_distinct x s ready.tips_distinct,
            few,
            short,
            r,
            beq_refl root,
            ready.not_future,
          )
          refl

    context :
        (now : ℤ) (txs : List x.Tx) (timestamp : ℤ) (target : Target) (root : Bytes) (n : ℕ)
        → IsReady now txs timestamp
        → next_target x s ≡ some target
        → check_context x s (with_nonce (candidate x s timestamp target root) n) ≡ ok tt
    unfolding check_context check_parents candidate next_target
    context now txs timestamp target root n ready t =
        rw
          (
            check_context,
            check_parents,
            tip_parents-all_known x s ready.valid ready.tip_known,
            ready.tip_selected,
            t,
            beq_refl target,
            ready.not_past,
            beq_refl (interlink_for_parent x s (x.dag_tip s.engine)),
          )
          refl

    -- A block that `build_block_at` returns passes all the checks of `accept` on the same chain, if
    -- the chain is well formed, the tip of the engine is known and the selected parent of the new
    -- block, the tips are distinct, and the transactions and the time are within the limits.
    pub build_block_at-validate :
        (now : ℤ) (fuel : ℕ) (txs : List x.Tx) (timestamp : ℤ) (b : DagBlock)
        → IsReady now txs timestamp
        → build_block_at x fuel s txs timestamp ≡ ok (some b)
        → validate x now s b ≡ ok tt
    unfolding validate
    build_block_at-validate now fuel txs timestamp b ready e =
        let (target, root, n, t, r, built, m) = build_block_at-some fuel txs timestamp b e in
        let m' : meets target (with_nonce (candidate x s timestamp target root) n) ≡ true =
          sym (ap (λ (d : DagBlock). meets target d.header) built) ∙ m in
        rw
          (
            built,
            validate,
            intrinsic now txs timestamp target root n ready r m',
            context now txs timestamp target root n ready t,
          )
          refl

    -- A block is built when there are a target and a Merkle root and a nonce that meets the target
    -- is below 2^64 and in reach of the fuel.
    pub build_block_at_total :
        (fuel k : ℕ) (txs : List x.Tx) (timestamp : ℤ) (target : Target) (root : Bytes)
        → next_target x s ≡ some target
        → tx_merkle_root x.hasher (map (encode_tx x) txs) ≡ some root
        → k < fuel
        → k < 2 ^ 64
        → meets target (with_nonce (candidate x s timestamp target root) k) ≡ true
        → (b : DagBlock) × (build_block_at x fuel s txs timestamp ≡ ok (some b))
    unfolding build_block_at candidate
    build_block_at_total fuel k txs timestamp target root t r lt fits m =
        let start : DagBlockHeader = candidate x s timestamp target root in
        let zero_sum : start.nonce + k ≡ k = omega arith in
        let (found, f) =
          search_total fuel k target start lt (omega (arith, zero_sum))
            (ap (λ n. meets target (with_nonce start n)) zero_sum ∙ m) in
        (
          record { header = found; transactions = map (encode_tx x) txs },
          rw (build_block_at, t, r, f) refl,
        )
