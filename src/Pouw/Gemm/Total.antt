-- ===== src/Pouw/Gemm/Total.antt =====
-- No index of the matrix products is out of bounds when the factors have their sizes.
use tao.Common.{
  ℕ, zero, suc, ◌+◌, ◌*◌, ◌≤◌, ◌<◌, ◌≡◌, refl, ap, sym, ◌∙◌, Option, some, List, [], ◌∷◌, ◌++◌,
  arith, length, get_elem?, length-append, length-map,
}
use tao.Consensus.Bytes.{Bytes, Hasher}
use tao.Pouw.Gemm.{
  Xof, fill, dot, row, rows_of, lowrank, matmul, add_noise, wrapping_add, wrapping_mul,
  all_le_bytes, noisy_product_transcript,
}
use native.Mathlib.Nat.{mul-le-mul_right}

-- What the documentation of the extendable output states: the buffer is filled.
abbrev pub Fills : Xof → Type 0
Fills xof = (seed : Bytes) (n : ℕ) → length (xof seed n) ≡ n

-- The function has a value at every index of a range.
abbrev Covers {ℓ} : {A : Type ℓ} → (ℕ → Option A) → ℕ → Type ℓ
Covers f n = (k : ℕ) → k < n → (v : _) × (f k ≡ some v)

get-bound : (xs : List ℕ) (i : ℕ) → i < length xs → (v : ℕ) × (get_elem? xs i ≡ some v)
get-bound [] i h = absurd (omega arith)
get-bound (x ∷ xs) zero h = (x, refl)
get-bound (x ∷ xs) (suc i) h = get-bound xs i (omega arith)

-- The index of an entry in a matrix of rows of one size.
entry_bound : (rows cols i j : ℕ) → i < rows → j < cols → i * cols + j < rows * cols
entry_bound rows cols i j h k =
    let up : suc i * cols ≤ rows * cols = mul-le-mul_right cols (omega arith) in omega (arith, up)

dot_total :
    (x y : ℕ → Option ℕ) (n k acc bound : ℕ)
    → k + n ≤ bound
    → Covers x bound
    → Covers y bound
    → (v : ℕ) × (dot x y n k acc ≡ some v)
unfolding dot
dot_total x y zero k acc bound h cx cy = (acc, refl)
dot_total x y (suc n) k acc bound h cx cy =
    let (a, ea) = cx k (omega arith) in
    let (b, eb) = cy k (omega arith) in
    let (v, ev) =
      dot_total x y n (k + 1) (wrapping_add acc (wrapping_mul a b)) bound (omega arith) cx cy in
    (v, rw (ea, eb) ev)

row_total :
    (f : ℕ → Option ℕ) (n j bound : ℕ)
    → j + n ≤ bound
    → Covers f bound
    → (vs : List ℕ) × (row f n j ≡ some vs) × (length vs ≡ n)
unfolding row
row_total f zero j bound h c = ([], refl, refl)
row_total f (suc n) j bound h c =
    let (v, ev) = c j (omega arith) in
    let (vs, evs, size) = row_total f n (j + 1) bound (omega arith) c in
    (v ∷ vs, rw (ev, evs) refl, omega arith)

rows_of_total :
    (f : ℕ → Option (List ℕ)) (cols n i bound : ℕ)
    → i + n ≤ bound
    → ((k : ℕ) → k < bound → (vs : List ℕ) × (f k ≡ some vs) × (length vs ≡ cols))
    → (vs : List ℕ) × (rows_of f n i ≡ some vs) × (length vs ≡ n * cols)
unfolding rows_of
rows_of_total f cols zero i bound h c = ([], refl, omega arith)
rows_of_total f cols (suc n) i bound h c =
    let (r, er, first) = c i (omega arith) in
    let (vs, evs, size) = rows_of_total f cols n (i + 1) bound (omega arith) c in
    (r ++ vs, rw (er, evs) refl, omega (arith, length-append r vs))

-- The product of two matrices of n * n entries is computed, no index being out of bounds, and has
-- n * n entries.
pub matmul_total :
    (a b : List ℕ) (n : ℕ)
    → length a ≡ n * n
    → length b ≡ n * n
    → (c : List ℕ) × (matmul a b n ≡ some c) × (length c ≡ n * n)
unfolding matmul
matmul_total a b n sa sb = rows_of_total _ n n 0 n (omega arith) (λ i hi.
    row_total _ n 0 n (omega arith) (λ j hj.
      dot_total _ _ n 0 0 n (omega arith)
        (λ k hk. get-bound a (i * n + k) (omega (arith, entry_bound n n i k hi hk, sa)))
        (λ k hk. get-bound b (k * n + j) (omega (arith, entry_bound n n k j hk hj, sb)))))

lowrank_total :
    (l r : List ℕ) (rows cols rank : ℕ)
    → length l ≡ rows * rank
    → length r ≡ cols * rank
    → (c : List ℕ) × (lowrank l r rows cols rank ≡ some c) × (length c ≡ rows * cols)
unfolding lowrank
lowrank_total l r rows cols rank sl sr = rows_of_total _ cols rows 0 rows (omega arith) (λ i hi.
    row_total _ cols 0 cols (omega arith) (λ j hj.
      dot_total _ _ rank 0 0 rank (omega arith)
        (λ k hk. get-bound l (i * rank + k) (omega (arith, entry_bound rows rank i k hi hk, sl)))
        (λ k hk. get-bound r (j * rank + k) (omega (arith, entry_bound cols rank j k hj hk, sr)))))

length-add_noise : (a e : List ℕ) → length a ≡ length e → length (add_noise a e) ≡ length a
unfolding add_noise
length-add_noise [] e h = refl
length-add_noise (x ∷ a) [] h = absurd (omega arith)
length-add_noise (x ∷ a) (y ∷ e) h = ap suc (length-add_noise a e (omega arith))

pub length-fill :
    (xof : Xof) (seed : Bytes) (domain count : ℕ)
    → Fills xof
    → length (fill xof seed domain count) ≡ count
unfolding fill
length-fill xof seed domain count fills = length-map _ _ ∙ fills _ count

-- The transcript of the noised product of two n × n matrices is computed, whatever the seed.
pub noisy_product_transcript_total :
    (h : Hasher) (xof : Xof) (a b : List ℕ) (n rank : ℕ) (seed : Bytes)
    → Fills xof
    → length a ≡ n * n
    → length b ≡ n * n
    → (hash : Bytes) × (noisy_product_transcript h xof a b n rank seed ≡ some hash)
unfolding noisy_product_transcript
noisy_product_transcript_total h xof a b n rank seed fills sa sb =
    let side : (domain : ℕ) → length (fill xof seed domain (n * rank)) ≡ n * rank =
      λ domain. length-fill xof seed domain (n * rank) fills in
    let (e, me, se) = lowrank_total _ _ n n rank (side 2) (side 3) in
    let (f, mf, sf) = lowrank_total _ _ n n rank (side 4) (side 5) in
    let (c, mc, sc) =
      matmul_total (add_noise a e) (add_noise b f) n (length-add_noise a e (sa ∙ sym se) ∙ sa)
        (length-add_noise b f (sb ∙ sym sf) ∙ sb) in
    (h.blake3 (all_le_bytes c), rw (me, mf, mc) refl)
