-- ===== src/Pouw/Gemm.antt =====
-- crates/tao-pouw/src/gemm.rs: the integer matrix product and its transcript. An i64 is its bit
-- pattern, a number below 2^64; `none` is an index out of bounds.
pub mod Total
use tao.Common.{
  ℕ, zero, suc, ◌+◌, ◌-◌, ◌*◌, ◌/◌, ◌%◌, ◌^◌, Option, some, List, [], ◌∷◌, ◌++◌, map, ltb,
  if◌then◌else◌, get_elem?, ◌>>=◌,
}
use tao.Consensus.Bytes.{Bytes, Hasher}

-- `finalize_xof` of BLAKE3, filling a buffer of a given size.
abbrev pub Xof : Type 0
Xof = Bytes → ℕ → Bytes

unfoldable pub wrapping_add : ℕ → ℕ → ℕ
wrapping_add a b = (a + b) % 2 ^ 64

unfoldable pub wrapping_mul : ℕ → ℕ → ℕ
wrapping_mul a b = a * b % 2 ^ 64

-- `b as i8 as i64`
unfoldable pub sign_extend : ℕ → ℕ
sign_extend b = if ltb b 128 then b else b + (2 ^ 64 - 256)

-- `to_le_bytes` of a value of n bytes
unfoldable pub to_le_bytes : ℕ → ℕ → Bytes
to_le_bytes zero v = []
to_le_bytes (suc n) v = v % 256 ∷ to_le_bytes n (v / 256)

unfoldable pub all_le_bytes : List ℕ → Bytes
unfolding to_le_bytes
all_le_bytes [] = []
all_le_bytes (v ∷ vs) = to_le_bytes 8 v ++ all_le_bytes vs

unfoldable pub fill : Xof → Bytes → ℕ → ℕ → List ℕ
fill xof seed domain count = map sign_extend (xof (seed ++ domain ∷ []) count)

-- The innermost loop, for the k with n rounds left: acc + Σ x[i * stride_x + ...] * y[...].
unfoldable pub dot : (ℕ → Option ℕ) → (ℕ → Option ℕ) → ℕ → ℕ → ℕ → Option ℕ
dot x y zero k acc = some acc
dot x y (suc n) k acc = do a ← x k; b ← y k; dot x y n (k + 1) (wrapping_add acc (wrapping_mul a b))

-- A loop for j in j..j + n that writes one entry a round, and one that writes a row a round.
unfoldable pub row : (ℕ → Option ℕ) → ℕ → ℕ → Option (List ℕ)
row f zero j = some []
row f (suc n) j = do v ← f j; rest ← row f n (j + 1); some (v ∷ rest)

unfoldable pub rows_of : (ℕ → Option (List ℕ)) → ℕ → ℕ → Option (List ℕ)
rows_of f zero i = some []
rows_of f (suc n) i = do r ← f i; rest ← rows_of f n (i + 1); some (r ++ rest)

unfoldable pub lowrank : List ℕ → List ℕ → ℕ → ℕ → ℕ → Option (List ℕ)
lowrank l r rows cols rank =
    rows_of
      (λ i.
        row (λ j. dot (λ k. get_elem? l (i * rank + k)) (λ k. get_elem? r (j * rank + k)) rank 0 0)
          cols 0)
      rows 0

unfoldable pub matmul : List ℕ → List ℕ → ℕ → Option (List ℕ)
matmul a b n =
    rows_of
      (λ i. row (λ j. dot (λ k. get_elem? a (i * n + k)) (λ k. get_elem? b (k * n + j)) n 0 0) n 0)
      n 0

-- `a.iter().zip(&e)` with a wrapping sum
unfoldable pub add_noise : List ℕ → List ℕ → List ℕ
add_noise [] e = []
add_noise (x ∷ a) [] = []
add_noise (x ∷ a) (y ∷ e) = wrapping_add x y ∷ add_noise a e

unfoldable pub noisy_product_transcript :
    Hasher → Xof → List ℕ → List ℕ → ℕ → ℕ → Bytes → Option Bytes
noisy_product_transcript h xof a b n rank noise_seed = do
  e ← lowrank (fill xof noise_seed 2 (n * rank)) (fill xof noise_seed 3 (n * rank)) n n rank
  f ← lowrank (fill xof noise_seed 4 (n * rank)) (fill xof noise_seed 5 (n * rank)) n n rank
  cn ← matmul (add_noise a e) (add_noise b f) n
  some (h.blake3 (all_le_bytes cn))
