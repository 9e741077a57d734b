-- ===== src/Consensus/Chain/History.antt =====
-- The chains that `new` and calls of `add_header` build: what stands behind a stored block.
use tao.Common.{ℕ, zero, suc, ◌+◌, ◌≡◌, refl, inl, inr, some, true, arith, List, [], ◌∷◌, length}
use tao.Common.Keys.{nat_eq, list_eq}
use tao.Common.Maps.{lookup}
use tao.Consensus.Bytes.{U256Codec, Hasher}
use tao.Consensus.Target.{work_for_target}
use tao.Consensus.Block.{BlockHeader, BlockId, Bincode, is_genesis}
use tao.Consensus.Difficulty.{DifficultyParams}
use tao.Consensus.Pow.{PowAlgorithm}
use tao.Consensus.Chain.{Entry, ChainState, Outcome, new, add_header}
use tao.Consensus.Chain.Invariant.{new-IsValid, add_header_lem}
use tao.Consensus.Chain.Ledger.{IsValid, HasParent, IsRoot}

module _ (u : U256Codec) (h : Hasher) (c : Bincode) where
  abbrev pub chain_work : List BlockHeader → ℕ
  chain_work [] = 0
  chain_work (header ∷ rest) = work_for_target u header.target + chain_work rest

  -- The headers from a block down to genesis, newest first, each the stored parent of the one
  -- before.
  pub data Ancestry (s : ChainState) : BlockId → List BlockHeader → Type 0 where
    root :
        (entry : Entry)
        → lookup s.genesis s.blocks ≡ some entry
        → is_genesis entry.header ≡ true
        → Ancestry s s.genesis (entry.header ∷ [])
    child :
        (i : BlockId) (entry : Entry) (older : List BlockHeader)
        → lookup i s.blocks ≡ some entry
        → s.pow.verify entry.header ≡ true
        → Ancestry s entry.header.prev_hash older
        → Ancestry s i (entry.header ∷ older)

  genesis_height : (header : BlockHeader) → is_genesis header ≡ true → header.height ≡ 0
  unfolding is_genesis
  genesis_height header e = ground arith

  abbrev pub Descends : ChainState → BlockId → Entry → Type 0
  Descends s i entry =
      (headers : List BlockHeader) × Ancestry s i headers
      × (length headers ≡ entry.header.height + 1)
      × (entry.cumulative_work ≡ chain_work headers)

  root-Descends :
      (s : ChainState) (i : BlockId) (entry : Entry)
      → lookup i s.blocks ≡ some entry
      → IsRoot u h c s i entry
      → Descends s i entry
  root-Descends s i entry found r = (
    entry.header ∷ [],
    rw r.named (root entry (rw r.named at found) r.start),
    omega (arith, genesis_height entry.header r.start),
    omega (arith, r.work),
  )

  child-Descends :
      (s : ChainState) (i : BlockId) (entry : Entry) (p : HasParent u h c s entry)
      → lookup i s.blocks ≡ some entry
      → Descends s entry.header.prev_hash p.parent
      → Descends s i entry
  child-Descends s i entry p found (older, line, size, work) = (
    entry.header ∷ older,
    child i entry older found p.child.proof line,
    omega (arith, p.child.height),
    omega (arith, p.child.work),
  )

  ancestry_at :
      (s : ChainState)
      → IsValid u h c s
      → (n : ℕ) (i : BlockId) (entry : Entry) → lookup i s.blocks ≡ some entry
      → entry.header.height ≡ n
      → Descends s i entry
  ancestry_at s v zero i entry found height = elim (v.linked i entry found).origin [
    | inl r ↦ root-Descends s i entry found r
    | inr p ↦ absurd (omega (arith, p.child.height))
  ]
  ancestry_at s v (suc n) i entry found height = elim (v.linked i entry found).origin [
    | inl r ↦ absurd (omega (arith, genesis_height entry.header r.start))
    | inr p ↦
        child-Descends s i entry p found (
          ancestry_at s v n entry.header.prev_hash p.parent p.known (omega (arith, p.child.height)))
  ]

  -- The states after `new` and some calls of `add_header`, rejected ones included.
  pub data Built : ChainState → Type 0 where
    begun :
        (genesis : BlockHeader) (params : DifficultyParams) (pow : PowAlgorithm) (s : ChainState)
        → new u h c genesis params pow ≡ some s
        → Built s
    added :
        (s s' : ChainState) (header : BlockHeader) (outcome : Outcome)
        → Built s
        → add_header u h c s header ≡ some (outcome, s')
        → Built s'

  Built-IsValid : (s : ChainState) → Built s → IsValid u h c s
  Built-IsValid s (begun genesis params pow _ e) = new-IsValid u h c genesis params pow s e
  Built-IsValid s (added before _ header outcome b e) =
      (add_header_lem u h c before header outcome s (Built-IsValid before b) e).0

  -- In a state that `new` and calls of `add_header` build, every stored block has a chain of stored
  -- ancestors down to genesis, one for each height, each above genesis with a verified proof of
  -- work; the block's cumulative work is the sum of the work over that chain.
  pub ancestry_lem :
      (s : ChainState) (i : BlockId) (entry : Entry)
      → Built s
      → lookup i s.blocks ≡ some entry
      → Descends s i entry
  ancestry_lem s i entry b found =
      ancestry_at s (Built-IsValid s b) entry.header.height i entry found refl
