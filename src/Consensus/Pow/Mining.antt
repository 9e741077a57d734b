-- ===== src/Consensus/Pow/Mining.antt =====
-- What the search for a nonce returns.
use tao.Common.{
  ℕ, zero, suc, ◌+◌, ◌-◌, ◌%◌, ◌^◌, ◌<◌, ◌≤◌, ◌≡◌, true, false, arith, inl, inr, ◌⊎◌, Bool-cases,
  ap, sym, ◌∙◌,
}
use mathlib.Core.Path.{subst}
use tao.Consensus.Block.{BlockHeader}
use tao.Consensus.Pow.{PowAlgorithm, GrindResult, found, exhausted, next_nonce, grind_from, grind}

-- The header whose nonce is k steps further.
abbrev pub with_nonce : BlockHeader → ℕ → BlockHeader
with_nonce header k = record header { nonce = (header.nonce + k) % 2 ^ 64 }

-- What a search from a header has found.
abbrev pub Ground : PowAlgorithm → BlockHeader → ℕ → BlockHeader × GrindResult → Type 0
Ground pow header max_iters (header', found hashes) =
    (1 ≤ hashes)
    × (hashes ≤ max_iters)
    × (header' ≡ with_nonce header (hashes - 1))
    × (pow.verify header' ≡ true)
    × ((k : ℕ) → k + 1 < hashes → pow.verify (with_nonce header k) ≡ false)
Ground pow header max_iters (header', exhausted hashes) =
    (hashes ≡ max_iters)
    × (header' ≡ with_nonce header max_iters)
    × ((k : ℕ) → k < max_iters → pow.verify (with_nonce header k) ≡ false)

next_nonce-with_nonce :
    (h : BlockHeader) (i : ℕ) → next_nonce (with_nonce h i) ≡ with_nonce h (i + 1)
unfolding next_nonce
next_nonce-with_nonce h i = ap (λ (n : ℕ). record h { nonce = n }) (omega arith)

module _ (pow : PowAlgorithm) (h : BlockHeader) where
  -- No nonce of the first i verifies.
  abbrev Missed : ℕ → Type 0
  Missed i = (k : ℕ) → k < i → pow.verify (with_nonce h k) ≡ false

  Missed-suc : (i : ℕ) → Missed i → pow.verify (with_nonce h i) ≡ false → Missed (i + 1)
  Missed-suc i missed miss k lt = elim (lt-cases k i lt) [
    | inl less ↦ missed k less
    | inr last ↦ rw last miss
  ]
    where
      lt-cases : (k i : ℕ) → k < i + 1 → (k < i) ⊎ (k ≡ i)
      lt-cases k i lt = omega arith

  grind_from_hit :
      (left i : ℕ) (cur : BlockHeader)
      → pow.verify cur ≡ true
      → grind_from pow (suc left) i cur ≡ (cur, found (i + 1))
  unfolding grind_from
  grind_from_hit left i cur hit = rw (hit, grind_from)

  grind_from_miss :
      (left i : ℕ) (cur : BlockHeader)
      → pow.verify cur ≡ false
      → grind_from pow (suc left) i cur ≡ grind_from pow left (i + 1) (next_nonce cur)
  unfolding grind_from
  grind_from_miss left i cur miss = rw (miss, grind_from)

  grind_from_lem :
      (left i total : ℕ) (cur : BlockHeader)
      → i + left ≡ total
      → cur ≡ with_nonce h i
      → Missed i
      → Ground pow h total (grind_from pow left i cur)
  unfolding grind_from
  grind_from_lem zero i total cur sum here missed =
      let e : i ≡ total = omega arith in (e, here ∙ ap (with_nonce h) e, rw e at missed)
  grind_from_lem (suc left) i total cur sum here missed = elim (Bool-cases (pow.verify cur)) [
    | inl hit ↦ subst (Ground pow h total) (sym (grind_from_hit left i cur hit)) (
      omega arith,
      omega arith,
      here ∙ ap (with_nonce h) (omega arith),
      hit,
      λ k lt. missed k (omega arith),
    )
    | inr miss ↦ subst (Ground pow h total) (sym (grind_from_miss left i cur miss)) (
        grind_from_lem left (i + 1) total (next_nonce cur) (omega arith)
          (ap next_nonce here ∙ next_nonce-with_nonce h i) (Missed-suc i missed (rw here at miss)))
  ]

-- Within its rounds the search returns the header with the first nonce that verifies, counted from
-- the header's own, and the number of hashes tried; or, if none verifies, it is exhausted.
pub grind_lem :
    (h : BlockHeader) (pow : PowAlgorithm) (max_iters : ℕ)
    → h.nonce < 2 ^ 64
    → Ground pow h max_iters (grind h pow max_iters)
unfolding grind
grind_lem h pow max_iters fits =
    grind_from_lem pow h max_iters 0 max_iters h (omega arith)
      (ap (λ (n : ℕ). record h { nonce = n }) (omega arith)) (λ k lt. elim lt [ ])
