-- ===== src/Ghostdag/Best.antt =====
-- The choice of the block with the highest blue score.
use tao.Common.{
  suc, some_inj, sym, ◌∙◌, All, ℕ, true, false, some, List, [], ◌∷◌, ◌≡◌, refl, length,
  if◌then◌else◌, arith, Bool-cases, inl, inr,
}
use tao.Common.Keys.{nat_eq, contains, beq_refl, beq-cases}
use tao.Ghostdag.{BlockId, Node, Dag, node, blue_score, scored, outranks, max_scored, max_by_score}
use tao.Ghostdag.Anticone.{Known, Known-head}

-- `b` has the score `t`, and no block of the list has a higher one, nor the same with a smaller id.
pub record IsBest (dag : Dag) (ids : List BlockId) (b : BlockId) : Type 0 where
  pub among : contains ids b ≡ true
  pub most :
      (a : BlockId) (n m : Node)
      → contains ids a ≡ true
      → node dag a ≡ some n
      → node dag b ≡ some m
      → outranks (length m.blue_set, b) (length n.blue_set, a) ≡ true

outranks_trans :
    (x y z : ℕ × BlockId) → outranks x y ≡ true → outranks y z ≡ true → outranks x z ≡ true
outranks_trans x y z h i = ground arith

outranks_total : (x y : ℕ × BlockId) → outranks x y ≡ false → outranks y x ≡ true
outranks_total x y h = ground arith

outranks_refl : (x : ℕ × BlockId) → outranks x x ≡ true
outranks_refl x = ground arith

abbrev better : ℕ × BlockId → ℕ × BlockId → ℕ × BlockId
better x best = if outranks x best then x else best

better_old : (x best : ℕ × BlockId) → outranks (better x best) best ≡ true
better_old x best = elim (Bool-cases (outranks x best)) [
  | inl h ↦ rw h h
  | inr h ↦ rw h (outranks_refl best)
]

better_new : (x best : ℕ × BlockId) → outranks (better x best) x ≡ true
better_new x best = elim (Bool-cases (outranks x best)) [
  | inl h ↦ rw h (outranks_refl x)
  | inr h ↦ rw h (outranks_total x best h)
]

better-All : (P : ℕ × BlockId → Type 0) (x best : ℕ × BlockId) → P x → P best → P (better x best)
better-All P x best hx hb = elim (Bool-cases (outranks x best)) [
  | inl h ↦ rw h hx
  | inr h ↦ rw h hb
]

Dominates : ℕ × BlockId → List (ℕ × BlockId) → Type 0
Dominates x [] = Unit
Dominates x (y ∷ ys) = (outranks x y ≡ true) × Dominates x ys

Dominates-trans :
    (x y : ℕ × BlockId) (ys : List (ℕ × BlockId))
    → outranks x y ≡ true
    → Dominates y ys
    → Dominates x ys
unfolding Dominates
Dominates-trans x y [] h d = tt
Dominates-trans x y (z ∷ zs) h d = (outranks_trans x y z h d.0, Dominates-trans x y zs h d.1)

max_scored-Dominates :
    (best : ℕ × BlockId) (xs : List (ℕ × BlockId)) → Dominates (max_scored best xs) (best ∷ xs)
unfolding Dominates max_scored
max_scored-Dominates best [] = (outranks_refl best, tt)
max_scored-Dominates best (x ∷ xs) =
    let d = max_scored-Dominates (better x best) xs in
    let m = max_scored (better x best) xs in
    (
      outranks_trans m (better x best) best d.0 (better_old x best),
      (outranks_trans m (better x best) x d.0 (better_new x best), d.1),
    )

-- The pair of a block of the list and its score.
abbrev IsScored : Dag → List BlockId → ℕ × BlockId → Type 0
IsScored dag ids x =
    (contains ids x.1 ≡ true) × ((n : Node) × (node dag x.1 ≡ some n) × (x.0 ≡ length n.blue_set))

max_scored-All :
    (P : ℕ × BlockId → Type 0) (best : ℕ × BlockId) (xs : List (ℕ × BlockId))
    → P best
    → All P xs
    → P (max_scored best xs)
unfolding max_scored
max_scored-All P best [] h t = h
max_scored-All P best (x ∷ xs) h t =
    max_scored-All P (better x best) xs (better-All P x best t.0 h) t.1

record Scoring (dag : Dag) (whole ids : List BlockId) (xs : List (ℕ × BlockId)) : Type 0 where
  run : scored dag ids ≡ some xs
  scores : All (IsScored dag whole) xs
  covered :
      (m : ℕ × BlockId) (a : BlockId) (n : Node)
      → contains ids a ≡ true
      → node dag a ≡ some n
      → Dominates m xs
      → outranks m (length n.blue_set, a) ≡ true

scored_lem :
    (dag : Dag) (whole ids : List BlockId)
    → Known dag whole
    → ((a : BlockId) → contains ids a ≡ true → contains whole a ≡ true)
    → (xs : List (ℕ × BlockId)) × Scoring dag whole ids xs
unfolding scored blue_score Dominates
scored_lem dag whole [] known sub =
    ([], record { run = refl; scores = tt; covered = λ m a n h _ _. absurd (ground arith) })
scored_lem dag whole (p ∷ ps) known sub =
    let among : contains whole p ≡ true = sub p (ground (arith, beq_refl p)) in
    let (n, hp) = known p among in
    let (xs, r) = scored_lem dag whole ps known (λ a m. sub a (ground arith)) in
    (
      (length n.blue_set, p) ∷ xs,
      record {
        run = rw (hp, r.run) refl;
        scores = ((among, (n, hp, refl)), r.scores);
        covered = λ m a q h ha d. elim (beq-cases p a) [
          | inl (e, _) ↦ ground (arith, d.0)
          | inr f ↦ r.covered m a q (ground arith) ha d.1
        ];
      },
    )

pub max_by_score_lem :
    (dag : Dag) (p : BlockId) (ps : List BlockId)
    → Known dag (p ∷ ps)
    → (b : BlockId) × (max_by_score dag (p ∷ ps) ≡ some b) × IsBest dag (p ∷ ps) b
unfolding max_by_score Dominates
max_by_score_lem dag p ps known =
    let (xs, r) = scored_lem dag (p ∷ ps) (p ∷ ps) known (λ a m. m) in best_of xs r
  where
    best_of :
        (xs : List (ℕ × BlockId))
        → Scoring dag (p ∷ ps) (p ∷ ps) xs
        → (b : BlockId) × (max_by_score dag (p ∷ ps) ≡ some b) × IsBest dag (p ∷ ps) b
    best_of [] r =
        let (n, hp) = Known-head dag p ps known in
        absurd (ground (arith, r.covered (0, suc p) p n (ground (arith, beq_refl p)) hp tt))
    best_of (x ∷ xs) r =
        let best = max_scored x xs in
        let (among, (m, hm, score)) =
          max_scored-All (IsScored dag (p ∷ ps)) x xs r.scores.0 r.scores.1 in
        (
          best.1,
          rw r.run refl,
          record {
            among = among;
            most = λ a n q ha hn hq.
                let won = r.covered best a n ha hn (max_scored-Dominates x xs) in
                let same : q ≡ m = some_inj (sym hq ∙ hm) in rw (same, sym score) won;
          },
        )
