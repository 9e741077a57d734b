-- ===== src/Consensus/Target/Work.antt =====
-- Chain work: the formula of `work_for_target` against 2^256 / (target + 1).
use tao.Common.{ℕ, ◌+◌, ◌-◌, ◌/◌, ◌^◌, ◌≤◌, ◌<◌, ◌≡◌, ◌≢◌, refl, ◌⊎◌, arith, inl, inr, min}
use tao.Consensus.Bytes.{U256Codec, u256_max, IsBytes32, from_big_endian-lt}
use tao.Consensus.Target.{Target, to_u256, work_of, work_for_target}
use native.Mathlib.Nat.{add-div_right, le-div_iff_mul-le, div-mul-le_self, div-le_self}

quotient_split : (w d : ℕ) → 0 < d → d ≤ w → (w - d) / d + 1 ≡ w / d
quotient_split w d pd le =
    let e : w - d + d ≡ w = omega arith in omega (arith, rw e at (add-div_right (w - d) pd))

pub div-antitone : (w a b : ℕ) → b ≤ a → w / (a + 1) ≤ w / (b + 1)
div-antitone w a b le =
    (le-div_iff_mul-le {k = b + 1} (omega arith)).1 (grind (arith, div-mul-le_self w (a + 1)))

pub work_of-eq_div : (t : ℕ) → t < 2 ^ 256 → t ≢ 0 → work_of t ≡ 2 ^ 256 / (t + 1)
unfolding work_of
work_of-eq_div t h nz = ground (arith, quotient_split (2 ^ 256) (t + 1))

pub work_of_bounds : (t : ℕ) → (1 ≤ work_of t) × (work_of t ≤ u256_max)
unfolding work_of
work_of_bounds t = ground (arith, div-le_self (u256_max - t) (min (t + 1) u256_max))

zero-cases : (n : ℕ) → (n ≡ 0) ⊎ (n ≢ 0)
zero-cases n = ground arith

pub work_of-antitone : (a b : ℕ) → a < 2 ^ 256 → b ≤ a → work_of a ≤ work_of b
unfolding work_of
work_of-antitone a b h le = elim (zero-cases b) [
  | inl z ↦ rw z (work_of_bounds a).1
  | inr nz ↦
      rw (work_of-eq_div a h (omega arith), work_of-eq_div b (omega arith) nz)
        (div-antitone (2 ^ 256) a b le)
]

module _ (u : U256Codec) where
  pub work_for_target_lem :
      (target : Target) → work_for_target u target ≡ work_of (u.from_big_endian target)
  unfolding work_for_target to_u256
  work_for_target_lem target = refl

  -- The work of a target that is not zero is 2^256 / (target + 1), rounded down.
  pub work_for_target-eq_div :
      (target : Target)
      → IsBytes32 target
      → to_u256 u target ≢ 0
      → work_for_target u target ≡ 2 ^ 256 / (to_u256 u target + 1)
  unfolding work_for_target to_u256
  work_for_target-eq_div target h nz =
      work_of-eq_div (u.from_big_endian target) (from_big_endian-lt u target h) nz

  -- The lower of two targets takes at least as much work, also when it is zero.
  pub work_for_target-antitone :
      (easy hard : Target)
      → IsBytes32 easy
      → to_u256 u hard ≤ to_u256 u easy
      → work_for_target u easy ≤ work_for_target u hard
  unfolding work_for_target to_u256
  work_for_target-antitone easy hard he le =
      work_of-antitone (u.from_big_endian easy) (u.from_big_endian hard)
        (from_big_endian-lt u easy he) le
