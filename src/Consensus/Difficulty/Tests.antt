-- ===== src/Consensus/Difficulty/Tests.antt =====
-- Runs of the retarget, and the theorems at concrete inputs.
use tao.Common.{ℕ, ◌*◌, ◌/◌, ◌≤◌, ◌≡◌, some, List, [], ◌∷◌, ◌++◌, arith, replicate}
use tao.Common.Int.{pos}
use tao.Consensus.Bytes.{zero_hash}
use tao.Consensus.Models.{codec}
use tao.Consensus.Block.{BlockHeader}
use tao.Consensus.Target.{Target, work_for_target}
use tao.Consensus.Difficulty.{DifficultyParams, next_target, difficulty_to_target}
use tao.Consensus.Difficulty.Retarget.{IsRegular, average, next_target_swing}

abbrev easy : Target
easy = 0 ∷ replicate 31 0xff

abbrev at : ℕ → BlockHeader
at seconds = record {
  version = 1;
  prev_hash = zero_hash;
  height = 0;
  timestamp = pos seconds;
  tx_merkle_root = zero_hash;
  state_root = zero_hash;
  target = easy;
  nonce = 0;
  miner = zero_hash;
}

abbrev params : DifficultyParams
params = record { target_block_time_secs = 10; window = 3 }

abbrev on_time : List BlockHeader
on_time = at 1010 ∷ at 1020 ∷ at 1030 ∷ []

-- a timestamp that goes back, and a jump
abbrev uneven : List BlockHeader
uneven = at 990 ∷ at 4000 ∷ at 4001 ∷ []

on_time-IsRegular : IsRegular codec params (at 1000) on_time
unfolding work_for_target
on_time-IsRegular = omega arith

uneven-IsRegular : IsRegular codec params (at 1000) uneven
unfolding work_for_target
uneven-IsRegular = omega arith

next_target_swing_example :
    (d : ℕ) × (next_target codec (at 0 ∷ [] ++ at 1000 ∷ uneven) params easy
      ≡ some (difficulty_to_target codec d))
    × (average codec params uneven / 6 ≤ d)
    × (d ≤ average codec params uneven * 10)
next_target_swing_example =
    next_target_swing codec (at 0 ∷ []) params (at 1000) uneven easy uneven-IsRegular
