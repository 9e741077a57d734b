-- ===== src/Consensus/Chain/Ledger.antt =====
-- What a chain state keeps: every block hangs on a known parent and carries the work of its chain,
-- and the tip is a heaviest block.
use tao.Common.{◌+◌, ◌^◌, ◌≤◌, ◌<◌, ◌≡◌, ◌⊎◌, some, true}
use tao.Common.Int.{◌≤ℤ◌}
use tao.Common.Keys.{nat_eq, list_eq}
use tao.Common.Maps.{lookup}
use tao.Consensus.Bytes.{U256Codec, Hasher}
use tao.Consensus.Target.{work_for_target}
use tao.Consensus.Block.{BlockId, Bincode, id, is_genesis}
use tao.Consensus.Chain.{Entry, ChainState}

module _ (u : U256Codec) (h : Hasher) (c : Bincode) (s : ChainState) where
  -- An accepted block against its parent.
  pub record ChildOf (entry parent : Entry) : Type 0 where
    pub height : entry.header.height ≡ parent.header.height + 1
    pub work :
        entry.cumulative_work ≡ parent.cumulative_work + work_for_target u entry.header.target
    pub time : parent.header.timestamp ≤ℤ entry.header.timestamp
    pub proof : s.pow.verify entry.header ≡ true

  pub record IsRoot (i : BlockId) (entry : Entry) : Type 0 where
    pub named : i ≡ s.genesis
    pub start : is_genesis entry.header ≡ true
    pub work : entry.cumulative_work ≡ work_for_target u entry.header.target

  pub record HasParent (entry : Entry) : Type 0 where
    pub parent : Entry
    pub known : lookup entry.header.prev_hash s.blocks ≡ some parent
    pub child : ChildOf entry parent

  pub record IsLinked (i : BlockId) (entry : Entry) : Type 0 where
    pub named : id h c entry.header ≡ i
    pub fits : entry.cumulative_work < 2 ^ 256
    pub origin : IsRoot i entry ⊎ HasParent entry

  pub record IsValid : Type 0 where
    pub linked : (i : BlockId) (entry : Entry) → lookup i s.blocks ≡ some entry → IsLinked i entry
    pub tip_entry : Entry
    pub tip_known : lookup s.tip s.blocks ≡ some tip_entry
    pub heaviest :
        (i : BlockId) (entry : Entry)
        → lookup i s.blocks ≡ some entry
        → entry.cumulative_work ≤ tip_entry.cumulative_work
