-- ===== src/Common/Powers.antt =====
-- Powers of two.
use Prim.Native.Nat.{ℕ, zero, suc, ◌+◌, ◌*◌, ◌^◌, ◌<◌}
use mathlib.Core.Path.{◌≡◌, ap}
use native.Mathlib.Omega.{arith}
use native.Mathlib.Nat.{pow-suc, pow-zero, mul_assoc}

pub pow2-suc : (n : ℕ) → 2 ^ suc n ≡ 2 * 2 ^ n
pow2-suc n = omega (arith, pow-suc 2 n)

pub pow2-pos : (n : ℕ) → 0 < 2 ^ n
pow2-pos zero = omega (arith, pow-zero 2)
pow2-pos (suc n) = omega (arith, pow2-suc n, pow2-pos n)

pub pow2-add : (a b : ℕ) → 2 ^ (a + b) ≡ 2 ^ a * 2 ^ b
pow2-add zero b = let e : 0 + b ≡ b = omega arith in rw e (omega arith)
pow2-add (suc a) b =
    let e : suc a + b ≡ suc (a + b) = omega arith in
    rw e (
      omega (
        arith,
        pow2-suc (a + b),
        pow2-suc a,
        pow2-add a b,
        mul_assoc 2 (2 ^ a) (2 ^ b),
        ap (λ (t : ℕ). t * 2 ^ b) (pow2-suc a),
      ))

pub lt-pow2 : (n : ℕ) → n < 2 ^ n
lt-pow2 zero = omega arith
lt-pow2 (suc n) = omega (arith, lt-pow2 n, pow2-suc n)
