-- ===== src/Consensus/Difficulty/Sums.antt =====
-- The loop of the retarget: its two sums, and the range of the weighted solve times.
use tao.Common.{
  ℕ, ◌+◌, ◌*◌, ◌^◌, ◌≤◌, ◌<◌, ◌≡◌, some, List, [], ◌∷◌, arith, length, checked_lem, All, le→leb, ap,
}
use native.Mathlib.Nat.{mul-le-mul_left}
use mathlib.Core.Path.{ap₂}
use tao.Common.Int.{ℤ, pos, negsuc, ◌-ℤ◌, ◌+ℤ◌, pos_part, neg_part, int_laws}
use tao.Consensus.Bytes.{U256Codec}
use tao.Consensus.Target.{work_for_target}
use tao.Consensus.Block.{BlockHeader}
use tao.Consensus.Difficulty.{checked_i64, clamp, solvetime, weighted_sums}

-- A timestamp whose differences fit in an i64.
abbrev pub IsModerate : BlockHeader → Type 0
IsModerate h = (pos_part h.timestamp < 2 ^ 62) × (neg_part h.timestamp < 2 ^ 62)

-- Σ i * 1 over the intervals, for i upwards from the first argument.
abbrev pub weight_sum : ℕ → List BlockHeader → ℕ
weight_sum i [] = 0
weight_sum i (_ ∷ rest) = i + weight_sum (i + 1) rest

pub weight_sum-closed :
    (i : ℕ) (rest : List BlockHeader)
    → 2 * weight_sum i rest + length rest ≡ length rest * (2 * i + length rest)
weight_sum-closed i [] = omega arith
weight_sum-closed i (h ∷ rest) = omega (arith, weight_sum-closed (i + 1) rest)

-- Every block came as long after its parent as the first argument says.
abbrev pub Spaced : ℕ → BlockHeader → List BlockHeader → Type 0
Spaced t prev [] = Unit
Spaced t prev (cur ∷ rest) = (cur.timestamp ≡ prev.timestamp +ℤ pos t) × Spaced t cur rest

clamp_bounds : (m : ℕ) (z : ℤ) → 1 ≤ m → (1 ≤ clamp m z) × (clamp m z ≤ m)
unfolding clamp
clamp_bounds m (pos n) h = ground arith
clamp_bounds m (negsuc n) h = ground arith

checked_i64_difference :
    (prev cur : BlockHeader)
    → IsModerate prev
    → IsModerate cur
    → checked_i64 (cur.timestamp -ℤ prev.timestamp) ≡ some (cur.timestamp -ℤ prev.timestamp)
unfolding checked_i64 ◌-ℤ◌
checked_i64_difference prev cur p c = ground arith

clamp_time : (m t : ℕ) → 1 ≤ t → t ≤ m → clamp m (pos t) ≡ t
unfolding clamp
clamp_time m t h le = ground arith

solvetime_lem :
    (m : ℕ) (prev cur : BlockHeader)
    → 1 ≤ m
    → IsModerate prev
    → IsModerate cur
    → (time : ℕ) × (solvetime m prev cur ≡ some time) × (1 ≤ time) × (time ≤ m)
unfolding solvetime
solvetime_lem m prev cur h p c =
    let (low, high) = clamp_bounds m (cur.timestamp -ℤ prev.timestamp) h in
    (
      clamp m (cur.timestamp -ℤ prev.timestamp),
      rw (checked_i64_difference prev cur p c, le→leb 1 m h),
      low,
      high,
    )

solvetime_spaced :
    (m t : ℕ) (prev cur : BlockHeader)
    → 1 ≤ t
    → t ≤ m
    → IsModerate prev
    → IsModerate cur
    → cur.timestamp ≡ prev.timestamp +ℤ pos t
    → solvetime m prev cur ≡ some t
unfolding solvetime
solvetime_spaced m t prev cur h le p c e =
    let d : cur.timestamp -ℤ prev.timestamp ≡ pos t = rw e (omega int_laws) in
    rw (checked_i64_difference prev cur p c, le→leb 1 m (omega arith), d)
      (ap some (clamp_time m t h le))

module _ (u : U256Codec) where
  -- The sum of the work of the headers.
  abbrev pub work_sum : List BlockHeader → ℕ
  work_sum [] = 0
  work_sum (h ∷ rest) = work_for_target u h.target + work_sum rest

  -- The two sums that the loop ends with.
  pub weighted_sums_lem :
      (m i : ℕ) (prev : BlockHeader) (rest : List BlockHeader) (wt ds : ℕ)
      → 1 ≤ m
      → IsModerate prev
      → All IsModerate rest
      → wt + m * weight_sum i rest < 2 ^ 63
      → ds + work_sum rest < 2 ^ 256
      → (total : ℕ) × (weighted_sums u m i prev rest wt ds ≡ some (total, ds + work_sum rest))
        × (wt + weight_sum i rest ≤ total)
        × (total ≤ wt + m * weight_sum i rest)
  unfolding weighted_sums
  weighted_sums_lem m i prev [] wt ds h p all fits fits' =
      (wt, ap (λ (d : ℕ). some (wt, d)) (omega arith), omega arith, omega arith)
  weighted_sums_lem m i prev (cur ∷ rest) wt ds h p all fits fits' =
      let (time, e, low, high) = solvetime_lem m prev cur h p all.0 in
      let a = mul-le-mul_left i low in
      let b = mul-le-mul_left i high in
      let (total, e', low', high') =
        weighted_sums_lem m (i + 1) cur rest (wt + i * time) (ds + work_for_target u cur.target) h
          all.0 all.1 (omega arith) (omega arith) in
      (
        total,
        rw
            (
              e,
              checked_lem (2 ^ 63) (wt + i * time) (omega arith),
              checked_lem (2 ^ 256) (ds + work_for_target u cur.target) (omega arith),
              e',
            )
            (ap (λ (d : ℕ). some (total, d)) (omega arith)),
        omega arith,
        omega arith,
      )

  pub weighted_sums-Spaced :
      (m t i : ℕ) (prev : BlockHeader) (rest : List BlockHeader) (wt ds : ℕ)
      → 1 ≤ t
      → t ≤ m
      → IsModerate prev
      → All IsModerate rest
      → Spaced t prev rest
      → wt + t * weight_sum i rest < 2 ^ 63
      → ds + work_sum rest < 2 ^ 256
      → weighted_sums u m i prev rest wt ds ≡ some (wt + t * weight_sum i rest, ds + work_sum rest)
  unfolding weighted_sums
  weighted_sums-Spaced m t i prev [] wt ds h le p all sp fits fits' =
      ap₂ (λ (w d : ℕ). some (w, d)) (omega arith) (omega arith)
  weighted_sums-Spaced m t i prev (cur ∷ rest) wt ds h le p all sp fits fits' =
      rw
        (
          solvetime_spaced m t prev cur h le p all.0 sp.0,
          checked_lem (2 ^ 63) (wt + i * t) (omega arith),
          checked_lem (2 ^ 256) (ds + work_for_target u cur.target) (omega arith),
          weighted_sums-Spaced m t (i + 1) cur rest (wt + i * t) (ds + work_for_target u cur.target)
              h le all.0 all.1 sp.1 (omega arith) (omega arith),
        )
        (ap₂ (λ (w d : ℕ). some (w, d)) (omega arith) (omega arith))
