-- ===== src/Consensus/Chain.antt =====
-- crates/tao-consensus/src/chain.rs: the block index and the fork choice of the linear chain. A
-- method returns its result and the new state; `none` is a fault (a panic), and a rejected header
-- is a value.
pub mod Ledger
pub mod Insert
pub mod Invariant
pub mod History
pub mod Candidate
mod Tests
use tao.Common.{
  ℕ, zero, suc, ◌+◌, ◌*◌, ◌^◌, Bool, true, false, not, ◌&&◌, Option, none, some, List, [], ◌∷◌,
  reverse, ltb, nat_beq, if◌then◌else◌, ◌>>=◌, ◌>>◌, ensure, checked,
}
use tao.Common.Int.{ℤ, ltb_ℤ}
use tao.Common.Keys.{◌==◌, nat_eq, list_eq}
use tao.Common.Maps.{HashMap, lookup, insert, contains_key}
use tao.Consensus.Bytes.{Bytes, U256Codec, Hasher, zero_hash}
use tao.Consensus.Target.{Target, work_for_target}
use tao.Consensus.Block.{BlockHeader, BlockId, Bincode, id, is_genesis, header_version}
use tao.Consensus.Merkle.{tx_merkle_root}
use tao.Consensus.Difficulty as Difficulty
use tao.Consensus.Difficulty.{DifficultyParams}
use tao.Consensus.Pow.{PowAlgorithm}

pub data BlockStatus : Type 0 where
  extended_tip : BlockStatus
  reorg : BlockId → BlockId → BlockStatus
  side_chain : BlockStatus

pub data ChainError : Type 0 where
  duplicate unknown_parent bad_timestamp bad_target bad_pow : ChainError
  bad_height : ℕ → ℕ → ChainError

pub record Entry : Type 0 where
  pub header : BlockHeader
  pub cumulative_work : ℕ

pub record ChainState : Type 0 where
  pub blocks : HashMap BlockId Entry
  pub tip : BlockId
  pub genesis : BlockId
  pub params : DifficultyParams
  pub genesis_target : Target
  pub pow : PowAlgorithm

pub data Outcome : Type 0 where
  accepted : BlockStatus → Outcome
  rejected : ChainError → Outcome

-- `recent_headers` before the reversal: from the newest, at most `count`, up to genesis
unfoldable pub walk_back : HashMap BlockId Entry → ℕ → BlockId → List BlockHeader
walk_back blocks zero cur = []
walk_back blocks (suc count) cur = elim (lookup cur blocks) [
  | none ↦ []
  | some entry ↦
      let older = walk_back blocks count entry.header.prev_hash in
      entry.header ∷ (if is_genesis entry.header then [] else older)
]

unfoldable pub recent_headers : ChainState → BlockId → ℕ → List BlockHeader
recent_headers s from count = reverse (walk_back s.blocks count from)

pub tip_header : ChainState → Option BlockHeader
tip_header s = do entry ← lookup s.tip s.blocks; some entry.header

pub tip_work : ChainState → Option ℕ
tip_work s = do entry ← lookup s.tip s.blocks; some entry.cumulative_work

module _ (u : U256Codec) (h : Hasher) (c : Bincode) where
  -- `ChainState::new`
  pub new : BlockHeader → DifficultyParams → PowAlgorithm → Option ChainState
  new genesis params pow = do
    ensure (is_genesis genesis)
    let id' = id h c genesis
    some (record {
      blocks =
          insert id'
            (record { header = genesis; cumulative_work = work_for_target u genesis.target }) [];
      tip = id';
      genesis = id';
      params = params;
      genesis_target = genesis.target;
      pow = pow;
    })

  -- `ChainState::next_target`
  pub next_target : ChainState → Option Target
  next_target s =
      Difficulty.next_target u (recent_headers s s.tip (s.params.window + 1)) s.params
        s.genesis_target

  pub build_candidate : ChainState → Bytes → ℤ → List Bytes → Option BlockHeader
  build_candidate s miner timestamp transactions = do
    parent ← tip_header s
    height ← checked (2 ^ 64) (parent.height + 1)
    root ← tx_merkle_root h transactions
    target ← next_target s
    some (record {
      version = header_version;
      prev_hash = s.tip;
      height = height;
      timestamp = timestamp;
      tx_merkle_root = root;
      state_root = zero_hash;
      target = target;
      nonce = 0;
      miner = miner;
    })

  -- The checks behind the difficulty, of a header with a known parent.
  pub check_work : ChainState → BlockHeader → Option (Option ChainError)
  check_work s header = do
    expected ←
        Difficulty.next_target u (recent_headers s header.prev_hash (s.params.window + 1)) s.params
          s.genesis_target
    some (
        if not (header.target == expected)
        then some bad_target
        else if not (s.pow.verify header)
        then some bad_pow
        else none)

  -- The checks of `add_header` against the parent's entry, in their order.
  pub check : ChainState → BlockHeader → Entry → Option (Option ChainError)
  check s header parent = do
    height ← checked (2 ^ 64) (parent.header.height + 1)
    if not (nat_beq header.height height)
        then some (some (bad_height height header.height))
        else if ltb_ℤ header.timestamp parent.header.timestamp
        then some (some bad_timestamp)
        else check_work s header

  -- The insertion and the fork choice of `add_header`.
  pub connect : ChainState → BlockHeader → BlockId → Entry → Option (Outcome × ChainState)
  connect s header new_id parent = do
    work ← checked (2 ^ 256) (parent.cumulative_work + work_for_target u header.target)
    let blocks' = insert new_id (record { header = header; cumulative_work = work }) s.blocks
    tip_entry ← lookup s.tip blocks'
    some (
        if ltb tip_entry.cumulative_work work
        then (
          accepted (if header.prev_hash == s.tip then extended_tip else reorg s.tip new_id),
          record s { blocks = blocks'; tip = new_id },
        )
        else (accepted side_chain, record s { blocks = blocks' }))

  pub add_header : ChainState → BlockHeader → Option (Outcome × ChainState)
  add_header s header =
      if contains_key (id h c header) s.blocks
      then some (rejected duplicate, s)
      else elim (lookup header.prev_hash s.blocks) [
        | none ↦ some (rejected unknown_parent, s)
        | some parent ↦ do
          failure ← check s header parent
          elim failure [
            | some error ↦ some (rejected error, s)
            | none ↦ connect s header (id h c header) parent
          ]
      ]
