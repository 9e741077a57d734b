-- ===== src/Consensus/BigEndian.antt =====
-- `to_be_bytes` of the fixed-width integers, and what reads it back.
use tao.Common.{
  ℕ, zero, suc, ◌+◌, ◌*◌, ◌/◌, ◌%◌, ◌^◌, ◌<◌, ◌≡◌, refl, ap, sym, ◌∙◌, [], ◌∷◌, arith, length, All,
}
use tao.Common.Powers.{pow2-pos}
use tao.Consensus.Bytes.{Bytes, be_value, pow2-octet}
use native.Mathlib.Nat.{div-add-mod, mod-lt, mod-eq_of_lt, mul-add-mod_self_left, mul-le-mul_right}

-- The low n bytes of a number, big-endian.
abbrev pub to_bytes : ℕ → ℕ → Bytes
to_bytes zero v = []
to_bytes (suc n) v = v / 2 ^ (8 * n) % 256 ∷ to_bytes n v

pub length-to_bytes : (n v : ℕ) → length (to_bytes n v) ≡ n
length-to_bytes zero v = refl
length-to_bytes (suc n) v = ap suc (length-to_bytes n v)

pub to_bytes_octets : (n v : ℕ) → All (λ x. x < 256) (to_bytes n v)
to_bytes_octets zero v = tt
to_bytes_octets (suc n) v = (omega arith, to_bytes_octets n v)

digit_step : (p v : ℕ) → 0 < p → v / p % 256 * p + v % p ≡ v % (256 * p)
digit_step p v pos =
    let q = v / p / 256 in
    let r = v / p % 256 in
    let whole = div-add-mod v p in
    let part = div-add-mod (v / p) 256 in
    let low = mod-lt v pos in
    let split : v ≡ 256 * p * q + (r * p + v % p) = omega (arith, ap (λ (t : ℕ). t * p) part) in
    let small : r * p + v % p < 256 * p =
      omega (arith, mul-le-mul_right p (mod-lt (v / p) {m = 256} (omega arith))) in
    sym (
      ap (λ (t : ℕ). t % (256 * p)) split
      ∙ mul-add-mod_self_left (256 * p) q (r * p + v % p)
      ∙ mod-eq_of_lt small)

pub be_value-mod : (n v : ℕ) → be_value (to_bytes n v) ≡ v % 2 ^ (8 * n)
be_value-mod zero v = omega arith
be_value-mod (suc n) v =
    rw (length-to_bytes n v, be_value-mod n v, pow2-octet n)
      (digit_step (2 ^ (8 * n)) v (pow2-pos (8 * n)))
