-- ===== src/Consensus/Target/Level.antt =====
-- The level of a solved block against the values of its hash and its target.
use tao.Common.{
  ℕ, zero, suc, ◌+◌, ◌-◌, ◌*◌, ◌^◌, ◌≤◌, ◌<◌, ◌≡◌, ◌≢◌, refl, ap, true, [], ◌∷◌, arith, length, All,
  inl, inr, ◌⊎◌, ◌∙◌, leb→le,
}
use native.Mathlib.Nat.{mul-lt-mul_of_pos_right, mul-le-mul_right, lt_of_mul-lt-mul_right}
use tao.Common.Powers.{pow2-pos, pow2-add}
use tao.Consensus.Bytes.{Bytes, U256Codec, IsBytes32, be_value, be_value-lt, pow2-octet}
use tao.Consensus.Target.{
  leading_zeros, count_zero_bits, leading_zero_bits, to_u256, meets_target, pow_level,
}

leading_zeros_bounds :
    (b : ℕ)
    → 0 < b
    → b < 256
    → ((b + 1) * 2 ^ leading_zeros b ≤ 256) × (256 ≤ 2 * (b * 2 ^ leading_zeros b))
unfolding leading_zeros
leading_zeros_bounds b p h = ground arith

count_zero_bits-add : (z : ℕ) (x : Bytes) → count_zero_bits z x ≡ z + count_zero_bits 0 x
unfolding count_zero_bits
count_zero_bits-add z [] = omega arith
count_zero_bits-add z (b ∷ x) =
    ground (arith, count_zero_bits-add (z + 8) x, count_zero_bits-add 8 x)

leading_zero_bits-zero : (x : Bytes) → leading_zero_bits (0 ∷ x) ≡ 8 + leading_zero_bits x
unfolding leading_zero_bits
leading_zero_bits-zero x = count_zero_bits-add 8 x

leading_zero_bits-nonzero :
    (b : ℕ) (x : Bytes) → b ≢ 0 → leading_zero_bits (b ∷ x) ≡ leading_zeros b
unfolding leading_zero_bits
leading_zero_bits-nonzero b x h = ground arith

upper_zero : (v p l : ℕ) → v * 2 ^ l < p → v * 2 ^ (8 + l) < 256 * p
upper_zero v p l h = rw (pow2-add 8 l) (omega arith)

upper_step : (b v p u : ℕ) → v < p → 0 < u → (b + 1) * u ≤ 256 → (b * p + v) * u < 256 * p
upper_step b v p u h k e = omega (arith, mul-lt-mul_of_pos_right h k, mul-le-mul_right p e)

lower_zero : (v p l : ℕ) → p ≤ 2 * (v * 2 ^ l) → 256 * p ≤ 2 * (v * 2 ^ (8 + l))
lower_zero v p l h = rw (pow2-add 8 l) (omega arith)

lower_step : (b v p u : ℕ) → 256 ≤ 2 * (b * u) → 256 * p ≤ 2 * ((b * p + v) * u)
lower_step b v p u e = omega (arith, mul-le-mul_right p e)

le-cases : (a b : ℕ) → (a ≤ b) ⊎ (b ≤ a)
le-cases a b = omega arith

-- The zero bits leave no more than the remaining width for the value.
leading_zero_bits_upper :
    (x : Bytes) → All (λ b. b < 256) x → be_value x * 2 ^ leading_zero_bits x < 2 ^ (8 * length x)
unfolding leading_zero_bits
leading_zero_bits_upper [] h = omega arith
leading_zero_bits_upper (zero ∷ x) h =
    rw (leading_zero_bits-zero x, pow2-octet (length x))
      (let e : 0 * 2 ^ (8 * length x) + be_value x ≡ be_value x = omega arith in
        rw e (
          upper_zero (be_value x) (2 ^ (8 * length x)) (leading_zero_bits x)
            (leading_zero_bits_upper x h.1)))
leading_zero_bits_upper (suc b ∷ x) h =
    rw (leading_zero_bits-nonzero (suc b) x (omega arith), pow2-octet (length x))
      (upper_step (suc b) (be_value x) (2 ^ (8 * length x)) (2 ^ leading_zeros (suc b))
        (be_value-lt x h.1) (pow2-pos (leading_zeros (suc b)))
        (leading_zeros_bounds (suc b) (omega arith) h.0).0)

-- A value that is not zero has its first one bit right behind them.
leading_zero_bits_lower :
    (x : Bytes)
    → All (λ b. b < 256) x
    → be_value x ≢ 0
    → 2 ^ (8 * length x) ≤ 2 * (be_value x * 2 ^ leading_zero_bits x)
leading_zero_bits_lower [] h nz = absurd (nz refl)
leading_zero_bits_lower (zero ∷ x) h nz =
    rw (leading_zero_bits-zero x, pow2-octet (length x))
      (let e : 0 * 2 ^ (8 * length x) + be_value x ≡ be_value x = omega arith in
        rw e (
          lower_zero (be_value x) (2 ^ (8 * length x)) (leading_zero_bits x)
            (leading_zero_bits_lower x h.1 (rw e at nz))))
leading_zero_bits_lower (suc b ∷ x) h nz =
    rw (leading_zero_bits-nonzero (suc b) x (omega arith), pow2-octet (length x))
      (lower_step (suc b) (be_value x) (2 ^ (8 * length x)) (2 ^ leading_zeros (suc b))
        (leading_zeros_bounds (suc b) (omega arith) h.0).1)

level_core :
    (h t a b w : ℕ) → h ≤ t → t ≢ 0 → h * 2 ^ a < w → w ≤ 2 * (t * 2 ^ b) → h * 2 ^ (a - b) < 2 * t
level_core h t a b w le nz ha hb = elim (le-cases a b) [
  | inl few ↦ let e : a - b ≡ 0 = omega arith in rw e (omega arith)
  | inr more ↦
      let e : a ≡ a - b + b = omega arith in
      let p : h * 2 ^ a ≡ h * (2 ^ (a - b) * 2 ^ b) =
        ap (λ k. h * k) (ap (λ k. 2 ^ k) e ∙ pow2-add (a - b) b) in
      lt_of_mul-lt-mul_right (2 ^ b) (omega arith)
]

module _ (u : U256Codec) where
  -- A hash that meets a target with level k lies below twice the target, divided by 2^k.
  pub pow_level_bound :
      (hash target : Bytes)
      → IsBytes32 hash
      → IsBytes32 target
      → meets_target u hash target ≡ true
      → to_u256 u target ≢ 0
      → to_u256 u hash * 2 ^ pow_level u hash target < 2 * to_u256 u target
  unfolding pow_level to_u256
  pow_level_bound hash target hh ht m nz =
      let ev = u.from_value hash hh in
      let et = u.from_value target ht in
      let ch : 8 * length hash ≡ 256 = omega (arith, hh.size) in
      let ct : 8 * length target ≡ 256 = omega (arith, ht.size) in
      rw m (
        level_core (u.from_big_endian hash) (u.from_big_endian target) (leading_zero_bits hash)
          (leading_zero_bits target) (2 ^ 256) (leb→le _ _ m) nz
          (rw ev (rw ch at (leading_zero_bits_upper hash hh.octets)))
          (rw et (rw ct at (leading_zero_bits_lower target ht.octets (rw et at nz)))))
