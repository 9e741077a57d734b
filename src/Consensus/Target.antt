-- ===== src/Consensus/Target.antt =====
-- crates/tao-consensus/src/target.rs: targets, chain work and the level of a solved block.
pub mod Work
pub mod Level
mod Tests
use tao.Common.{
  ℕ, zero, suc, ◌+◌, ◌-◌, ◌*◌, ◌/◌, ◌^◌, ◌≤◌, ◌<◌, min, ◌≡◌, Bool, true, false, List, [], ◌∷◌,
  arith, nat_beq, leb, if◌then◌else◌,
}
use tao.Consensus.Bytes.{Bytes, U256Codec, u256_max}

abbrev pub Target : Type 0
Target = Bytes

-- `u8::leading_zeros`
unfoldable pub leading_zeros : ℕ → ℕ
leading_zeros b =
    if leb 128 b
    then 0
    else if leb 64 b
    then 1
    else if leb 32 b
    then 2
    else if leb 16 b
    then 3
    else if leb 8 b
    then 4
    else if leb 4 b
    then 5
    else if leb 2 b
    then 6
    else if leb 1 b
    then 7
    else 8

-- The loop over the bytes, which leaves at the first that is not zero.
unfoldable pub count_zero_bits : ℕ → Bytes → ℕ
count_zero_bits z [] = z
count_zero_bits z (b ∷ x) = elim (nat_beq b 0) [
  | true ↦ count_zero_bits (z + 8) x
  | false ↦ z + leading_zeros b
]

unfoldable pub leading_zero_bits : Bytes → ℕ
unfolding count_zero_bits leading_zeros
leading_zero_bits x = count_zero_bits 0 x

-- The arithmetic of `work_for_target`: `!t` is 2^256 - 1 - t, and `saturating_add` stops at the
-- largest value.
unfoldable pub work_of : ℕ → ℕ
work_of t = if nat_beq t 0 then u256_max else (u256_max - t) / min (t + 1) u256_max + 1

module _ (u : U256Codec) where
  unfoldable pub to_u256 : Bytes → ℕ
  to_u256 bytes = u.from_big_endian bytes

  unfoldable pub from_u256 : ℕ → Bytes
  from_u256 value = u.to_big_endian value

  unfoldable pub meets_target : Bytes → Target → Bool
  unfolding to_u256
  meets_target hash target = leb (to_u256 hash) (to_u256 target)

  unfoldable pub work_for_target : Target → ℕ
  unfolding work_of to_u256
  work_for_target target = work_of (to_u256 target)

  unfoldable pub pow_level : Bytes → Target → ℕ
  unfolding meets_target
  pow_level pow_hash target =
      if meets_target pow_hash target
      then leading_zero_bits pow_hash - leading_zero_bits target
      else 0
