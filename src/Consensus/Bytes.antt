-- ===== src/Consensus/Bytes.antt =====
-- Byte strings, their big-endian value, and the crates that the consensus code calls: the 256-bit
-- integers of `primitive_types`, read as numbers below 2^256, and their conversions.
use tao.Common.{
  ℕ, suc, ◌+◌, ◌-◌, ◌*◌, ◌^◌, ◌<◌, ◌≡◌, List, [], ◌∷◌, arith, length, All, replicate, ◌≢◌, refl,
  ◌++◌, ◌⊎◌, inl, inr, cons-injective,
}
use tao.Common.Keys.{eq-cases, nat_eq, list_eq}
use tao.Common.Powers.{pow2-add, pow2-pos}

abbrev pub Bytes : Type 0
Bytes = List ℕ

-- A value of `[u8; 32]`.
pub record IsBytes32 (b : Bytes) : Type 0 where
  pub size : length b ≡ 32
  pub octets : All (λ x. x < 256) b

abbrev pub be_value : Bytes → ℕ
be_value [] = 0
be_value (b ∷ bs) = b * 2 ^ (8 * length bs) + be_value bs

abbrev pub u256_max : ℕ
u256_max = 2 ^ 256 - 1

-- `U256::from_big_endian` and `U256::to_big_endian`, with what their documentation states.
pub record U256Codec : Type 0 where
  pub from_big_endian : Bytes → ℕ
  pub to_big_endian : ℕ → Bytes
  pub from_value : (b : Bytes) → IsBytes32 b → from_big_endian b ≡ be_value b
  pub to_size : (v : ℕ) → v < 2 ^ 256 → IsBytes32 (to_big_endian v)
  pub from_to : (v : ℕ) → v < 2 ^ 256 → from_big_endian (to_big_endian v) ≡ v

-- BLAKE3. A hasher that is updated with several slices hashes their concatenation.
pub record Hasher : Type 0 where
  pub blake3 : Bytes → Bytes
  pub blake3_size : (b : Bytes) → length (blake3 b) ≡ 32

-- Two inputs with one hash.
abbrev pub Collision : (Bytes → Bytes) → Type 0
Collision f = (a : Bytes) × (b : Bytes) × (a ≢ b) × (f a ≡ f b)

-- Equal hashes have equal inputs, or collide.
pub blake3-cases :
    (h : Hasher) (a b : Bytes) → h.blake3 a ≡ h.blake3 b → (a ≡ b) ⊎ Collision h.blake3
blake3-cases h a b e = elim (eq-cases a b) [
  | inl same ↦ inl same
  | inr differ ↦ inr (a, b, differ, e)
]

pub append-injective : (a b c d : Bytes) → length a ≡ length c → a ++ b ≡ c ++ d → (a ≡ c) × (b ≡ d)
append-injective [] b [] d n e = (refl, e)
append-injective [] b (x ∷ c) d n e = absurd (omega arith)
append-injective (x ∷ a) b [] d n e = absurd (omega arith)
append-injective (x ∷ a) b (y ∷ c) d n e =
    let (head, rest) = cons-injective e in
    let (p, q) = append-injective a b c d (omega arith) rest in (cc, q)

-- `[0u8; 32]`, the default hash and the default public key
abbrev pub zero_hash : Bytes
zero_hash = replicate 32 0

pub pow2-octet : (n : ℕ) → 2 ^ (8 * suc n) ≡ 256 * 2 ^ (8 * n)
pow2-octet n =
    let e : 8 * suc n ≡ 8 + 8 * n = omega arith in rw (e, pow2-add 8 (8 * n)) (omega arith)

pub be_value-lt : (b : Bytes) → All (λ x. x < 256) b → be_value b < 2 ^ (8 * length b)
be_value-lt [] h = omega arith
be_value-lt (x ∷ b) h =
    grind (arith, be_value-lt b h.1, pow2-octet (length b), pow2-pos (8 * length b), h.0)

module _ (u : U256Codec) where
  pub from_big_endian-lt : (b : Bytes) → IsBytes32 b → u.from_big_endian b < 2 ^ 256
  from_big_endian-lt b h =
      rw (u.from_value b h)
        (let e : 8 * length b ≡ 256 = omega (arith, h.size) in rw e at (be_value-lt b h.octets))
