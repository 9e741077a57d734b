-- ===== src/Consensus/Chain/Tests.antt =====
-- Runs of `add_header`, and the theorems at concrete inputs.
use mathlib.Core.Bool.{Bool}
use tao.Common.{ℕ, ◌≡◌, refl, ◌⊎◌, some, none, [], ◌∷◌, replicate, ◌+◌}
use tao.Common.Int.{pos}
use tao.Common.Keys.{nat_eq, list_eq}
use tao.Common.Maps.{lookup, insert, contains_key}
use tao.Consensus.Bytes.{zero_hash}
use tao.Consensus.Models.{codec, hasher, bincode}
use tao.Consensus.Block.{BlockHeader, BlockId, id, is_genesis}
use tao.Consensus.Target.{Target, work_for_target}
use tao.Consensus.Pow.{PowAlgorithm}
use tao.Consensus.Difficulty as Difficulty
use tao.Consensus.Difficulty.{DifficultyParams}
use tao.Consensus.Chain.{
  ChainState, ChainError, build_candidate, tip_header, next_target, accepted, rejected,
  extended_tip, BlockStatus, new, add_header, check, check_work, connect, walk_back, recent_headers,
}
use tao.Consensus.Chain.Ledger.{IsValid}
use tao.Consensus.Chain.Invariant.{ForkChoice, new-IsValid, add_header_lem}
use tao.Consensus.Merkle.{tx_merkle_root}
use tao.Consensus.Chain.Candidate.{build_candidate-check}
use tao.Consensus.Chain.History.Built.{begun, added}
use tao.Consensus.Chain.History.{Descends, Built, ancestry_lem}

abbrev easy : Target
easy = 0 ∷ replicate 31 0xff

abbrev any_nonce : PowAlgorithm
any_nonce = record { pow_hash = λ h. zero_hash; verify = λ h. Bool.true }

abbrev params : DifficultyParams
params = record { target_block_time_secs = 10; window = 16 }

abbrev block : BlockId → ℕ → ℕ → BlockHeader
block prev_hash height nonce = record {
  version = 1;
  prev_hash = prev_hash;
  height = height;
  timestamp = pos (1_000_000 + height);
  tx_merkle_root = zero_hash;
  state_root = zero_hash;
  target = easy;
  nonce = nonce;
  miner = zero_hash;
}

abbrev genesis : BlockHeader
genesis = block zero_hash 0 0

abbrev genesis_id : BlockId
genesis_id = hasher.blake3 (bincode.serialize_header genesis)

abbrev work : ℕ
work = 256

abbrev started : ChainState
started = record {
  blocks = (genesis_id, record { header = genesis; cumulative_work = work }) ∷ [];
  tip = genesis_id;
  genesis = genesis_id;
  params = params;
  genesis_target = easy;
  pow = any_nonce;
}

abbrev child : BlockHeader
child = block genesis_id 1 7

abbrev child_id : BlockId
child_id = hasher.blake3 (bincode.serialize_header child)

abbrev extended : ChainState
extended = record started {
  blocks =
      (genesis_id, record { header = genesis; cumulative_work = work })
      ∷ (child_id, record { header = child; cumulative_work = work + work })
      ∷ [];
  tip = child_id;
}

new-genesis : new codec hasher bincode genesis params any_nonce ≡ some started
unfolding new insert work_for_target id is_genesis
new-genesis = refl

add_header-child :
    add_header codec hasher bincode started child ≡ some (accepted extended_tip, extended)
unfolding add_header check check_work connect insert lookup contains_key work_for_target id
    walk_back recent_headers is_genesis Difficulty.next_target
add_header-child = refl

started-IsValid : IsValid codec hasher bincode started
started-IsValid = new-IsValid codec hasher bincode genesis params any_nonce started new-genesis

extended-IsValid : IsValid codec hasher bincode extended
extended-IsValid =
    (add_header_lem codec hasher bincode started child (accepted extended_tip) extended
      started-IsValid add_header-child).0

add_header_lem_example :
    IsValid codec hasher bincode extended
    × (((error : ChainError) × (accepted extended_tip ≡ rejected error) × (extended ≡ started))
        ⊎ ((status : BlockStatus) × (accepted extended_tip ≡ accepted status)
            × ForkChoice codec hasher bincode started started-IsValid child status extended))
add_header_lem_example =
    add_header_lem codec hasher bincode started child (accepted extended_tip) extended
      started-IsValid add_header-child

extended-Built : Built codec hasher bincode extended
extended-Built =
    added started extended child (accepted extended_tip)
      (begun genesis params any_nonce started new-genesis) add_header-child

ancestry_lem_example :
    Descends codec hasher bincode extended child_id
      (record { header = child; cumulative_work = work + work })
unfolding lookup
ancestry_lem_example =
    ancestry_lem codec hasher bincode extended child_id
      (record { header = child; cumulative_work = work + work }) extended-Built refl

abbrev proposed : BlockHeader
proposed = record child { nonce = 0; timestamp = pos 1_000_001 }

tip_known :
    lookup started.tip started.blocks ≡ some (record { header = genesis; cumulative_work = work })
unfolding lookup
tip_known = refl

built : build_candidate codec hasher bincode started zero_hash (pos 1_000_001) [] ≡ some proposed
unfolding build_candidate tip_header next_target lookup recent_headers walk_back is_genesis
    tx_merkle_root Difficulty.next_target
built = refl

build_candidate-check_example :
    (genesis_id ≡ genesis_id)
    × (check codec hasher bincode started
          (record proposed { nonce = 9 })
          (record { header = genesis; cumulative_work = work })
        ≡ some none)
build_candidate-check_example =
    build_candidate-check codec hasher bincode started zero_hash (pos 1_000_001) []
      (record { header = genesis; cumulative_work = work }) proposed 9 tip_known built refl refl
