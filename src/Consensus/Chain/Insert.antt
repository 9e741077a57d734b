-- ===== src/Consensus/Chain/Insert.antt =====
-- `add_header` by cases.
use tao.Common.{
  ℕ, ◌+◌, ◌^◌, ◌≤◌, ◌<◌, ◌≡◌, ◌⊎◌, inl, inr, none, some, true, arith, Option-cases, if◌then◌else◌,
  ◌∙◌, ap,
}
use tao.Common.Int.{◌≤ℤ◌}
use tao.Common.Keys.{◌==◌, nat_eq, list_eq}
use tao.Common.Maps.{lookup, insert, contains_key}
use tao.Consensus.Bytes.{U256Codec, Hasher}
use tao.Consensus.Target.{work_for_target}
use tao.Consensus.Block.{BlockHeader, BlockId, Bincode, id}
use tao.Consensus.Chain.{
  Entry, ChainState, extended_tip, reorg, side_chain, ChainError, Outcome, accepted, rejected,
  check, check_work, connect, add_header,
}

module _ (u : U256Codec) (h : Hasher) (c : Bincode) where
  -- A header is rejected and nothing changes, or it is new, hangs on a known parent, passes the
  -- checks and is connected.
  abbrev pub Added : ChainState → BlockHeader → Outcome → ChainState → Type 0
  Added s header outcome s' =
      ((e : ChainError) × (outcome ≡ rejected e) × (s' ≡ s))
      ⊎ ((parent : Entry) × (lookup (id h c header) s.blocks ≡ none)
          × (lookup header.prev_hash s.blocks ≡ some parent)
          × (check u h c s header parent ≡ some none)
          × (connect u h c s header (id h c header) parent ≡ some (outcome, s')))

  pub add_header-cases :
      (s : ChainState) (header : BlockHeader) (outcome : Outcome) (s' : ChainState)
      → add_header u h c s header ≡ some (outcome, s')
      → Added s header outcome s'
  unfolding add_header contains_key
  add_header-cases s header outcome s' e = elim (Option-cases (lookup (id h c header) s.blocks)) [
    | inr (old, found) ↦ inl (ChainError.duplicate, ground arith, ground arith)
    | inl new ↦ elim (Option-cases (lookup header.prev_hash s.blocks)) [
      | inl orphan ↦ inl (ChainError.unknown_parent, ground arith, ground arith)
      | inr (parent, known) ↦ elim (Option-cases (check u h c s header parent)) [
        | inl fault ↦ absurd (ground arith)
        | inr (failure, result) ↦ elim (Option-cases failure) [
          | inl passed ↦ inr (parent, new, known, result ∙ ap some passed, ground arith)
          | inr (error, failed) ↦ inl (error, ground arith, ground arith)
        ]
      ]
    ]
  ]

  pub check-cases :
      (s : ChainState) (header : BlockHeader) (parent : Entry)
      → check u h c s header parent ≡ some none
      → (header.height ≡ parent.header.height + 1)
        × (parent.header.timestamp ≤ℤ header.timestamp)
        × (s.pow.verify header ≡ true)
  unfolding check check_work
  check-cases s header parent e = ground arith

  abbrev pub grown : ChainState → BlockHeader → BlockId → ℕ → BlockId → ChainState
  grown s header new_id work tip = record s {
    blocks = insert new_id (record { header = header; cumulative_work = work }) s.blocks;
    tip = tip;
  }

  pub connect-cases :
      (s : ChainState) (header : BlockHeader) (new_id : BlockId) (parent : Entry)
      (outcome : Outcome) (s' : ChainState)
      → connect u h c s header new_id parent ≡ some (outcome, s')
      → let work = parent.cumulative_work + work_for_target u header.target in
        (tip : Entry) × (work < 2 ^ 256)
        × (lookup s.tip (grown s header new_id work s.tip).blocks ≡ some tip)
        × ((tip.cumulative_work < work)
              × (s' ≡ grown s header new_id work new_id)
              × (outcome
                  ≡ accepted
                      (if header.prev_hash == s.tip then extended_tip else reorg s.tip new_id))
            ⊎ (work ≤ tip.cumulative_work)
              × (s' ≡ grown s header new_id work s.tip)
              × (outcome ≡ accepted side_chain))
  unfolding connect
  connect-cases s header new_id parent outcome s' e =
      let work = parent.cumulative_work + work_for_target u header.target in
      elim (Option-cases (lookup s.tip (grown s header new_id work s.tip).blocks)) [
        | inl lost ↦ absurd (ground arith)
        | inr (tip, found) ↦ (tip, ground arith, found, ground arith)
      ]
