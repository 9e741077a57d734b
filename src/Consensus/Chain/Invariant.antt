-- ===== src/Consensus/Chain/Invariant.antt =====
-- The invariant of the chain state: it holds at the start and every call of `add_header` keeps it.
use tao.Common.{
  ℕ, ◌+◌, ◌^◌, ◌≤◌, ◌<◌, ◌≡◌, refl, ◌⊎◌, inl, inr, none, some, true, arith, [], Bool-cases,
  if◌then◌else◌, ◌∙◌, sym, some_inj,
}
use tao.Common.Keys.{◌==◌, nat_eq, list_eq}
use tao.Common.Maps.{lookup, insert, lookup-insert_self, lookup-insert_new, lookup-insert_cases}
use tao.Consensus.Bytes.{U256Codec, Hasher}
use tao.Consensus.Target.{Target, work_for_target}
use tao.Consensus.Target.Work.{work_for_target_lem, work_of_bounds}
use tao.Consensus.Difficulty.{DifficultyParams}
use tao.Consensus.Block.{BlockHeader, BlockId, Bincode, id, is_genesis}
use tao.Consensus.Pow.{PowAlgorithm}
use tao.Consensus.Chain.{
  Entry, ChainState, ChainError, Outcome, accepted, rejected, BlockStatus, extended_tip, reorg,
  side_chain, new, add_header, check, connect,
}
use tao.Consensus.Chain.Ledger.{IsValid, IsLinked, HasParent}
use tao.Consensus.Chain.Insert.{grown, add_header-cases, check-cases, connect-cases}

module _ (u : U256Codec) (h : Hasher) (c : Bincode) where
  abbrev new_entry : BlockHeader → ℕ → Entry
  new_entry header work = record { header = header; cumulative_work = work }

  module _ (s : ChainState) (header : BlockHeader) (work : ℕ) (tip : BlockId)
      (fresh : lookup (id h c header) s.blocks ≡ none) where
    abbrev after : ChainState
    after = grown u h c s header (id h c header) work tip

    lookup_old :
        (i : BlockId) {entry : Entry}
        → lookup i s.blocks ≡ some entry
        → lookup i after.blocks ≡ some entry
    lookup_old i old =
        lookup-insert_new (id h c header) i (new_entry header work) s.blocks fresh old

    HasParent-grown : (entry : Entry) → HasParent u h c s entry → HasParent u h c after entry
    HasParent-grown entry p =
        let l = p.child in
        record {
          parent = p.parent;
          known = lookup_old entry.header.prev_hash p.known;
          child = record { height = l.height; work = l.work; time = l.time; proof = l.proof };
        }

    IsLinked-grown :
        (i : BlockId) (entry : Entry) → IsLinked u h c s i entry → IsLinked u h c after i entry
    IsLinked-grown i entry l = record {
      named = l.named;
      fits = l.fits;
      origin = elim l.origin [
        | inl r ↦ inl (record { named = r.named; start = r.start; work = r.work })
        | inr p ↦ inr (HasParent-grown entry p)
      ];
    }

  module _ (s : ChainState) (header : BlockHeader) (parent : Entry)
      (fresh : lookup (id h c header) s.blocks ≡ none)
      (known : lookup header.prev_hash s.blocks ≡ some parent)
      (passed : check u h c s header parent ≡ some none)
      (fits : parent.cumulative_work + work_for_target u header.target < 2 ^ 256) where
    abbrev total_work : ℕ
    total_work = parent.cumulative_work + work_for_target u header.target

    IsLinked-new :
        (tip : BlockId)
        → IsLinked u h c
            (after s header total_work tip fresh)
            (id h c header)
            (new_entry header total_work)
    IsLinked-new tip =
        let (height, time, proof) = check-cases u h c s header parent passed in
        record {
          named = refl;
          fits = fits;
          origin = inr (record {
            parent = parent;
            known = lookup_old s header total_work tip fresh header.prev_hash known;
            child = record { height = height; work = refl; time = time; proof = proof };
          });
        }

    IsLinked-insert :
        IsValid u h c s
        → (tip i : BlockId) (entry : Entry)
        → lookup i (after s header total_work tip fresh).blocks ≡ some entry
        → IsLinked u h c (after s header total_work tip fresh) i entry
    IsLinked-insert v tip i entry found =
        elim (lookup-insert_cases (id h c header) i (new_entry header total_work) s.blocks found) [
          | inl (same, this) ↦ rw (← same) (rw this (IsLinked-new tip))
          | inr old ↦ IsLinked-grown s header total_work tip fresh i entry (v.linked i entry old)
        ]

    bounded :
        (v : IsValid u h c s) (bound : ℕ)
        → v.tip_entry.cumulative_work ≤ bound
        → total_work ≤ bound
        → (tip i : BlockId) (entry : Entry)
        → lookup i (after s header total_work tip fresh).blocks ≡ some entry
        → entry.cumulative_work ≤ bound
    bounded v bound a b tip i entry found =
        elim (lookup-insert_cases (id h c header) i (new_entry header total_work) s.blocks found) [
          | inl (same, this) ↦ rw this b
          | inr old ↦ omega (arith, v.heaviest i entry old)
        ]

    IsValid-heavier :
        (v : IsValid u h c s)
        → v.tip_entry.cumulative_work < total_work
        → IsValid u h c (after s header total_work (id h c header) fresh)
    IsValid-heavier v more = record {
      linked = IsLinked-insert v (id h c header);
      tip_entry = new_entry header total_work;
      tip_known = lookup-insert_self (id h c header) (new_entry header total_work) s.blocks;
      heaviest = bounded v total_work (omega arith) (omega arith) (id h c header);
    }

    IsValid-lighter :
        (v : IsValid u h c s)
        → total_work ≤ v.tip_entry.cumulative_work
        → IsValid u h c (after s header total_work s.tip fresh)
    IsValid-lighter v less = record {
      linked = IsLinked-insert v s.tip;
      tip_entry = v.tip_entry;
      tip_known = lookup_old s header total_work s.tip fresh s.tip v.tip_known;
      heaviest = bounded v v.tip_entry.cumulative_work (omega arith) less s.tip;
    }

  -- What an accepted header does, by the work of its chain against the tip's.
  abbrev pub ForkChoice :
      (s : ChainState) → IsValid u h c s → BlockHeader → BlockStatus → ChainState → Type 0
  ForkChoice s v header status s' =
      (work : ℕ) × (lookup (id h c header) s'.blocks ≡ some (new_entry header work))
      × ((v.tip_entry.cumulative_work < work)
            × (s'.tip ≡ id h c header)
            × (status
                ≡ (if header.prev_hash == s.tip then extended_tip else reorg s.tip (id h c header)))
          ⊎ (work ≤ v.tip_entry.cumulative_work) × (s'.tip ≡ s.tip) × (status ≡ side_chain))

  abbrev Connected :
      (s : ChainState) → IsValid u h c s → BlockHeader → Outcome → ChainState → Type 0
  Connected s v header outcome s' =
      IsValid u h c s'
      × ((status : BlockStatus) × (outcome ≡ accepted status) × ForkChoice s v header status s')

  connect-Connected :
      (s : ChainState) (header : BlockHeader) (parent : Entry) (outcome : Outcome) (s' : ChainState)
      (v : IsValid u h c s)
      → lookup (id h c header) s.blocks ≡ none
      → lookup header.prev_hash s.blocks ≡ some parent
      → check u h c s header parent ≡ some none
      → connect u h c s header (id h c header) parent ≡ some (outcome, s')
      → Connected s v header outcome s'
  connect-Connected s header parent outcome s' v fresh known passed e =
      let work = parent.cumulative_work + work_for_target u header.target in
      let (tip, fits, found, choice) =
        connect-cases u h c s header (id h c header) parent outcome s' e in
      let kept = lookup_old s header work s.tip fresh s.tip v.tip_known in
      let same : tip ≡ v.tip_entry = some_inj (sym found ∙ kept) in
      let here = lookup-insert_self (id h c header) (new_entry header work) s.blocks in
      elim choice [
        | inl (more, grows, status) ↦
            let more' : v.tip_entry.cumulative_work < work = rw same at more in
            rw grows (
              IsValid-heavier s header parent fresh known passed fits v more',
              (_, status, (work, here, inl (more', refl, refl))),
            )
        | inr (less, grows, status) ↦
            let less' : work ≤ v.tip_entry.cumulative_work = rw same at less in
            rw grows (
              IsValid-lighter s header parent fresh known passed fits v less',
              (_, status, (work, here, inr (less', refl, refl))),
            )
      ]

  -- A call of `add_header` keeps the invariant. A rejection changes nothing. An accepted header is
  -- stored with the work of its chain, and becomes the tip exactly if that is more than the tip's.
  pub add_header_lem :
      (s : ChainState) (header : BlockHeader) (outcome : Outcome) (s' : ChainState)
      (v : IsValid u h c s)
      → add_header u h c s header ≡ some (outcome, s')
      → IsValid u h c s'
        × (((error : ChainError) × (outcome ≡ rejected error) × (s' ≡ s))
            ⊎ ((status : BlockStatus) × (outcome ≡ accepted status)
                × ForkChoice s v header status s'))
  add_header_lem s header outcome s' v e = elim (add_header-cases u h c s header outcome s' e) [
    | inl (error, out, same) ↦ (rw same v, inl (error, out, same))
    | inr (parent, fresh, known, passed, connected) ↦
        let (valid, choice) =
          connect-Connected s header parent outcome s' v fresh known passed connected in
        (valid, inr choice)
  ]

  abbrev started : BlockHeader → DifficultyParams → PowAlgorithm → ChainState
  started genesis params pow = record {
    blocks = insert (id h c genesis) (new_entry genesis (work_for_target u genesis.target)) [];
    tip = id h c genesis;
    genesis = id h c genesis;
    params = params;
    genesis_target = genesis.target;
    pow = pow;
  }

  new-cases :
      (genesis : BlockHeader) (params : DifficultyParams) (pow : PowAlgorithm) (s : ChainState)
      → new u h c genesis params pow ≡ some s
      → (is_genesis genesis ≡ true) × (s ≡ started genesis params pow)
  unfolding new
  new-cases genesis params pow s e = elim (Bool-cases (is_genesis genesis)) [
    | inl start ↦ (start, sym (some_inj (rw start at e)))
    | inr other ↦ absurd (ground arith)
  ]

  started_only :
      (genesis : BlockHeader) (i : BlockId) (entry : Entry)
      → lookup i (insert (id h c genesis) (new_entry genesis (work_for_target u genesis.target)) [])
        ≡ some entry
      → (id h c genesis ≡ i) × (entry ≡ new_entry genesis (work_for_target u genesis.target))
  unfolding lookup
  started_only genesis i entry found =
      elim (lookup-insert_cases (id h c genesis) i
        (new_entry genesis (work_for_target u genesis.target)) [] found) [
          | inl this ↦ this
          | inr old ↦ cc
        ]

  work_fits : (target : Target) → work_for_target u target < 2 ^ 256
  work_fits target =
      rw (work_for_target_lem u target)
        (omega (arith, (work_of_bounds (u.from_big_endian target)).1))

  started-IsValid :
      (genesis : BlockHeader) (params : DifficultyParams) (pow : PowAlgorithm)
      → is_genesis genesis ≡ true
      → IsValid u h c (started genesis params pow)
  started-IsValid genesis params pow start = record {
    linked = λ i entry found.
        let (same, this) = started_only genesis i entry found in
        rw (← same) (
          rw this (record {
            named = refl;
            fits = work_fits genesis.target;
            origin = inl (record { named = refl; start = start; work = refl });
          }));
    tip_entry = new_entry genesis (work_for_target u genesis.target);
    tip_known =
        lookup-insert_self (id h c genesis) (new_entry genesis (work_for_target u genesis.target))
          [];
    heaviest = λ i entry found.
        let (same, this) = started_only genesis i entry found in rw this (omega arith);
  }

  -- The chain that `new` starts is valid.
  pub new-IsValid :
      (genesis : BlockHeader) (params : DifficultyParams) (pow : PowAlgorithm) (s : ChainState)
      → new u h c genesis params pow ≡ some s
      → IsValid u h c s
  new-IsValid genesis params pow s e =
      let (start, same) = new-cases genesis params pow s e in
      rw same (started-IsValid genesis params pow start)
