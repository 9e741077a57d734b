-- ===== src/Consensus/Target/Tests.antt =====
-- Runs of crates/tao-consensus/src/target.rs, and the theorems at concrete inputs.
use tao.Common.{◌*◌, ◌<◌, ◌≡◌, refl, ◌∷◌, arith, replicate}
use tao.Consensus.Bytes.{IsBytes32, u256_max}
use tao.Consensus.Models.{codec}
use tao.Consensus.Target.{Target, leading_zero_bits, to_u256, work_for_target, pow_level}

-- 2^248 - 1 and 2^240 - 1, as in the tests of the source
abbrev easy : Target
easy = 0 ∷ replicate 31 0xff

abbrev hard : Target
hard = 0 ∷ 0 ∷ replicate 30 0xff

abbrev zero_target : Target
zero_target = replicate 32 0

easy-IsBytes32 : IsBytes32 easy
easy-IsBytes32 = omega arith

hard-IsBytes32 : IsBytes32 hard
hard-IsBytes32 = omega arith

work_of_zero : work_for_target codec zero_target ≡ u256_max
unfolding work_for_target
work_of_zero = refl

levels : (pow_level codec hard easy ≡ 8) × (pow_level codec zero_target easy ≡ 248)
unfolding pow_level leading_zero_bits
levels = (refl, refl)

-- 2^248, with one bit, and 2^248 - 1, whose first one bit is the next: the level is 1, and the
-- hash is not below half the target.
abbrev one_bit : Target
one_bit = 1 ∷ replicate 31 0

level_over_half :
    (pow_level codec easy one_bit ≡ 1) × (to_u256 codec one_bit < to_u256 codec easy * 2)
unfolding pow_level to_u256 leading_zero_bits
level_over_half = (refl, omega arith)
