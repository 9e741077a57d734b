-- ===== src/Consensus/Difficulty.antt =====
-- crates/tao-consensus/src/difficulty.rs: the LWMA retarget. `none` is a fault: an arithmetic
-- overflow, a failed assertion, a division by zero or an index out of bounds.
pub mod Sums
pub mod Retarget
mod Tests
use tao.Common.{
  ℕ, zero, suc, ◌+◌, ◌-◌, ◌*◌, ◌/◌, ◌^◌, min, max, Bool, ◌&&◌, Option, none, some, List, [], ◌∷◌,
  ltb, leb, nat_beq, if◌then◌else◌, length, drop, last, ◌>>=◌, ◌>>◌, ensure, checked, replicate,
}
use tao.Common.Int.{ℤ, pos, negsuc, ◌-ℤ◌}
use tao.Consensus.Bytes.{U256Codec, u256_max}
use tao.Consensus.Target.{Target, work_for_target, from_u256}
use tao.Consensus.Block.{BlockHeader}

pub record DifficultyParams : Type 0 where
  pub target_block_time_secs : ℕ
  pub window : ℕ

-- `DifficultyParams::new`
unfoldable pub new : ℕ → ℕ → Option DifficultyParams
new target_block_time_secs window = do
  ensure (ltb 0 target_block_time_secs && leb 2 window)
  some (record { target_block_time_secs = target_block_time_secs; window = window })

-- A value of i64, or an overflow.
unfoldable pub checked_i64 : ℤ → Option ℤ
checked_i64 (pos n) = if ltb n (2 ^ 63) then some (pos n) else none
checked_i64 (negsuc n) = if ltb n (2 ^ 63) then some (negsuc n) else none

-- `clamp(1, max_solvetime)`
pub clamp : ℕ → ℤ → ℕ
clamp max_solvetime (negsuc n) = 1
clamp max_solvetime (pos n) =
    if ltb n 1 then 1 else if ltb max_solvetime n then max_solvetime else n

-- `clamp` panics on an empty range.
pub solvetime : ℕ → BlockHeader → BlockHeader → Option ℕ
solvetime max_solvetime prev cur = do
  elapsed ← checked_i64 (cur.timestamp -ℤ prev.timestamp)
  ensure (leb 1 max_solvetime)
  some (clamp max_solvetime elapsed)

-- The expressions behind the loop. `saturating_mul` stops at the largest value.
pub next_difficulty : ℕ → ℕ → ℕ → ℕ → Option ℕ
next_difficulty t n weighted_time difficulty_sum = do
  ensure (ltb 0 n)
  let avg_difficulty = difficulty_sum / n
  pairs ← checked (2 ^ 64) (n * (n + 1))
  k ← checked (2 ^ 64) (t * (pairs / 2))
  some (min (avg_difficulty * k) u256_max / max weighted_time 1)

module _ (u : U256Codec) where
  -- The loop for i in 1..=n; `prev` is window[i - 1] and the list is window[i..]. A solve time is
  -- positive, so the i64 product and sum overflow only upwards.
  pub weighted_sums : ℕ → ℕ → BlockHeader → List BlockHeader → ℕ → ℕ → Option (ℕ × ℕ)
  weighted_sums max_solvetime i prev [] weighted_time difficulty_sum =
      some (weighted_time, difficulty_sum)
  weighted_sums max_solvetime i prev (cur ∷ rest) weighted_time difficulty_sum = do
    time ← solvetime max_solvetime prev cur
    weighted_time' ← checked (2 ^ 63) (weighted_time + i * time)
    difficulty_sum' ← checked (2 ^ 256) (difficulty_sum + work_for_target u cur.target)
    weighted_sums max_solvetime (i + 1) cur rest weighted_time' difficulty_sum'

  pub difficulty_to_target : ℕ → Target
  unfolding from_u256
  difficulty_to_target difficulty =
      if nat_beq difficulty 0 then replicate 32 0xff else from_u256 u (u256_max / difficulty)

  -- The retarget over the last n + 1 headers. With t at 2^63 / 6 or above `6 * t` overflows, or the
  -- cast of t to i64 is negative and `clamp` panics.
  pub retarget : DifficultyParams → List BlockHeader → Option Target
  retarget params [] = none
  retarget params (oldest ∷ rest) = do
    max_solvetime ← checked (2 ^ 63) (6 * params.target_block_time_secs)
    (weighted_time, difficulty_sum) ← weighted_sums max_solvetime 1 oldest rest 0 0
    difficulty ←
        next_difficulty params.target_block_time_secs params.window weighted_time difficulty_sum
    some (difficulty_to_target difficulty)

  unfoldable pub next_target : List BlockHeader → DifficultyParams → Target → Option Target
  next_target recent params genesis_target =
      if leb (length recent) params.window
      then some (elim (last recent) [ none ↦ genesis_target | some h ↦ h.target ])
      else retarget params (drop (length recent - (params.window + 1)) recent)
