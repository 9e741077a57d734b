-- ===== src/Consensus/Difficulty/Retarget.antt =====
-- The retarget as a whole: the hold during the warm-up, the bound on one step, and blocks on time.
use tao.Common.{
  ℕ, false, nat_beq, ◌+◌, ◌-◌, ◌*◌, ◌/◌, ◌^◌, ◌≤◌, ◌<◌, ◌≡◌, refl, some, List, [], ◌∷◌, ◌++◌, arith,
  length, checked_lem, All, ap, lt→ltb, drop, length-append, min, max, leb,
}
use tao.Consensus.Bytes.{U256Codec, u256_max}
use tao.Consensus.Target.{Target, from_u256, work_for_target}
use tao.Consensus.Block.{BlockHeader}
use tao.Consensus.Difficulty.{
  DifficultyParams, next_difficulty, difficulty_to_target, retarget, next_target,
}
use tao.Consensus.Difficulty.Sums.{
  IsModerate, weight_sum, weight_sum-closed, Spaced, work_sum, weighted_sums_lem,
  weighted_sums-Spaced,
}
use tao.Consensus.Target.Work.{work_of-eq_div, work_for_target_lem}
use native.Mathlib.Nat.{
  mul-div_cancel, div-le_self, lt-mul-div-succ, mul-le-mul_left, mul-le-mul_right, div-le_of_le-mul,
  le-div_iff_mul-le, div-mul-le_self,
}

drop-append : (xs ys : List BlockHeader) → drop (length xs) (xs ++ ys) ≡ ys
drop-append [] ys = refl
drop-append (x ∷ xs) ys = drop-append xs ys

module _ (u : U256Codec) where
  -- A window whose sums stay in range: as many intervals as the parameters ask for, timestamps
  -- whose differences fit, and work that neither overflows nor saturates.
  pub record IsRegular (params : DifficultyParams) (oldest : BlockHeader) (rest : List BlockHeader)
      : Type 0 where
    pub size : length rest ≡ params.window
    pub window_pos : 1 ≤ params.window
    pub time_pos : 1 ≤ params.target_block_time_secs
    pub time_fits : 6 * params.target_block_time_secs * weight_sum 1 rest < 2 ^ 63
    pub work_fits : work_sum u rest < 2 ^ 256
    pub unsaturated :
        work_sum u rest / params.window * (params.target_block_time_secs * weight_sum 1 rest)
        < 2 ^ 256
    pub oldest_moderate : IsModerate oldest
    pub rest_moderate : All IsModerate rest

  abbrev pub average : DifficultyParams → List BlockHeader → ℕ
  average params rest = work_sum u rest / params.window

  next_difficulty_lem :
      (t n w total sum : ℕ)
      → 1 ≤ n
      → 2 * w + n ≡ n * (2 + n)
      → t * w < 2 ^ 63
      → 2 * w < 2 ^ 64
      → 1 ≤ total
      → sum / n * (t * w) < 2 ^ 256
      → next_difficulty t n total sum ≡ some (sum / n * (t * w) / total)
  unfolding next_difficulty
  next_difficulty_lem t n w total sum pn closed fits fits' pt uns =
      let pairs : n * (n + 1) ≡ 2 * w = omega arith in
      let half : 2 * w / 2 ≡ w = omega arith in
      let mn : min (sum / n * (t * w)) u256_max ≡ sum / n * (t * w) = omega arith in
      let mx : max total 1 ≡ total = omega arith in
      rw
        (
          lt→ltb 0 n pn,
          pairs,
          checked_lem (2 ^ 64) (2 * w) fits',
          half,
          checked_lem (2 ^ 64) (t * w) (omega arith),
          mn,
          mx,
        )
        refl

  record WindowFacts (params : DifficultyParams) (rest : List BlockHeader) : Type 0 where
    closed : 2 * weight_sum 1 rest + params.window ≡ params.window * (2 + params.window)
    weight_pos : 1 ≤ weight_sum 1 rest
    weight_scaled : 1 ≤ params.target_block_time_secs * weight_sum 1 rest
    time_fits : params.target_block_time_secs * weight_sum 1 rest < 2 ^ 63
    pairs_fit : 2 * weight_sum 1 rest < 2 ^ 64
    secs_fit : 6 * params.target_block_time_secs < 2 ^ 63

  window_facts :
      (params : DifficultyParams) (oldest : BlockHeader) (rest : List BlockHeader)
      → IsRegular params oldest rest
      → WindowFacts params rest
  window_facts params oldest rest r =
      let t = params.target_block_time_secs in
      let w = weight_sum 1 rest in
      let closed = rw r.size at (weight_sum-closed 1 rest) in
      let pos : 1 ≤ w = omega (arith, mul-le-mul_left params.window r.window_pos) in
      let scaled = mul-le-mul_right w r.time_pos in
      let scaled' = mul-le-mul_left t pos in
      record {
        closed = omega arith;
        weight_pos = pos;
        weight_scaled = omega arith;
        time_fits = omega arith;
        pairs_fit = omega arith;
        secs_fit = omega arith;
      }

  retarget_swing :
      (params : DifficultyParams) (oldest : BlockHeader) (rest : List BlockHeader)
      → IsRegular params oldest rest
      → (d : ℕ) × (retarget u params (oldest ∷ rest) ≡ some (difficulty_to_target u d))
        × (average params rest / 6 ≤ d)
        × (d ≤ average params rest * params.target_block_time_secs)
  unfolding retarget
  retarget_swing params oldest rest r =
      let t = params.target_block_time_secs in
      let w = weight_sum 1 rest in
      let a = average params rest in
      let facts = window_facts params oldest rest r in
      let (total, e, low, high) =
        weighted_sums_lem u (6 * t) 1 oldest rest 0 0 (omega arith) r.oldest_moderate
          r.rest_moderate (omega arith) (omega arith) in
      let next =
        next_difficulty_lem t params.window w total (0 + work_sum u rest) r.window_pos facts.closed
          facts.time_fits facts.pairs_fit (omega arith) (rw plain r.unsaturated) in
      (
        a * (t * w) / total,
        rw (checked_lem (2 ^ 63) (6 * t) (omega arith), e, next)
            (ap (λ (s : ℕ). some (difficulty_to_target u (s / params.window * (t * w) / total)))
              plain),
        (le-div_iff_mul-le (omega arith)).1 (
            omega (
              arith,
              mul-le-mul_left (a / 6) high,
              mul-le-mul_right (t * w) (div-mul-le_self a 6),
            )),
        div-le_of_le-mul total (omega (arith, mul-le-mul_left (a * t) low)),
      )
    where
      plain : 0 + work_sum u rest ≡ work_sum u rest
      plain = omega arith

  retarget_on_time :
      (params : DifficultyParams) (oldest : BlockHeader) (rest : List BlockHeader)
      → IsRegular params oldest rest
      → Spaced params.target_block_time_secs oldest rest
      → retarget u params (oldest ∷ rest) ≡ some (difficulty_to_target u (average params rest))
  unfolding retarget
  retarget_on_time params oldest rest r sp =
      let t = params.target_block_time_secs in
      let w = weight_sum 1 rest in
      let facts = window_facts params oldest rest r in
      let e =
        weighted_sums-Spaced u (6 * t) t 1 oldest rest 0 0 r.time_pos (omega arith)
          r.oldest_moderate r.rest_moderate sp (omega arith) (omega arith) in
      let next =
        next_difficulty_lem t params.window w (0 + t * w) (0 + work_sum u rest) r.window_pos
          facts.closed facts.time_fits facts.pairs_fit (omega arith) (rw plain r.unsaturated) in
      rw (checked_lem (2 ^ 63) (6 * t) (omega arith), e, next)
        (ap (λ (d : ℕ). some (difficulty_to_target u d)) (quotient (t * w) (omega arith)))
    where
      plain : 0 + work_sum u rest ≡ work_sum u rest
      plain = omega arith

      quotient :
          (k : ℕ)
          → 0 < k
          → (0 + work_sum u rest) / params.window * k / (0 + k) ≡ work_sum u rest / params.window
      quotient k h = let z : 0 + k ≡ k = omega arith in rw (plain, z) (mul-div_cancel _ h)

  next_target_window :
      (older : List BlockHeader) (params : DifficultyParams) (oldest : BlockHeader)
      (rest : List BlockHeader) (genesis_target : Target)
      → length rest ≡ params.window
      → next_target u (older ++ oldest ∷ rest) params genesis_target
        ≡ retarget u params (oldest ∷ rest)
  unfolding next_target
  next_target_window older params oldest rest genesis_target size =
      let n = length-append older (oldest ∷ rest) in
      let long : leb (length (older ++ oldest ∷ rest)) params.window ≡ false = ground (arith, n) in
      let cut : length (older ++ oldest ∷ rest) - (params.window + 1) ≡ length older =
        omega arith in
      rw (long, cut) (ap (retarget u params) (drop-append older (oldest ∷ rest)))

  -- Over a full window whose sums stay in range the retarget gives a target, whatever the order of
  -- the timestamps. Its difficulty is at least a sixth of the average work of the window, and at
  -- most the average work times the block time.
  pub next_target_swing :
      (older : List BlockHeader) (params : DifficultyParams) (oldest : BlockHeader)
      (rest : List BlockHeader) (genesis_target : Target)
      → IsRegular params oldest rest
      → (d : ℕ) × (next_target u (older ++ oldest ∷ rest) params genesis_target
          ≡ some (difficulty_to_target u d))
        × (average params rest / 6 ≤ d)
        × (d ≤ average params rest * params.target_block_time_secs)
  next_target_swing older params oldest rest genesis_target r =
      rw (next_target_window older params oldest rest genesis_target r.size)
        (retarget_swing params oldest rest r)

  -- Over a full window whose sums stay in range and whose blocks came exactly one block time after
  -- one another, the next difficulty is the average work of the window.
  pub next_target_on_time :
      (older : List BlockHeader) (params : DifficultyParams) (oldest : BlockHeader)
      (rest : List BlockHeader) (genesis_target : Target)
      → IsRegular params oldest rest
      → Spaced params.target_block_time_secs oldest rest
      → next_target u (older ++ oldest ∷ rest) params genesis_target
        ≡ some (difficulty_to_target u (average params rest))
  next_target_on_time older params oldest rest genesis_target r sp =
      rw (next_target_window older params oldest rest genesis_target r.size)
        (retarget_on_time params oldest rest r sp)

  -- The work that the chain counts for a retargeted block is at most the difficulty that the
  -- retarget asked for, if that is a 256-bit number above zero.
  pub work_of_retarget :
      (d : ℕ) → 1 ≤ d → d ≤ u256_max → work_for_target u (difficulty_to_target u d) ≤ d
  unfolding difficulty_to_target from_u256
  work_of_retarget d pos top =
      let nz : nat_beq d 0 ≡ false = ground arith in
      let q = u256_max / d in
      let small : q < 2 ^ 256 = omega (arith, div-le_self u256_max d) in
      let one : 1 ≤ q = (le-div_iff_mul-le {k = d} pos).1 (omega arith) in
      rw
        (
          work_for_target_lem u (difficulty_to_target u d),
          nz,
          u.from_to q small,
          work_of-eq_div q small (omega arith),
        )
        (div-le_of_le-mul (q + 1) (omega (arith, lt-mul-div-succ u256_max pos)))
