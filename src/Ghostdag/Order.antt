-- ===== src/Ghostdag/Order.antt =====
-- The total order of a well-formed DAG: it returns, and holds the tip and its ancestors, once each.
pub mod Walk
use mathlib.Core.List.{append_assoc, append-nil}
use tao.Common.{
  ℕ, zero, suc, ◌≤◌, ◌<◌, Bool, true, false, Option, none, some, List, [], ◌∷◌, ◌++◌, ◌≡◌, ◌≢◌,
  refl, sym, ◌∙◌, arith, inl, inr, length, ◌>>=◌, map, ap, nat_beq, if◌then◌else◌, ◌||◌,
}
use tao.Common.Keys.{nat_eq, contains, beq_refl, beq-cases}
use tao.Common.Maps.{HashMap, lookup}
use tao.Common.Sets.{Distinct, contains-append, Distinct-append}
use tao.Ghostdag.{
  BlockId, Node, Dag, node, blue_score, sort_by_key, chain_down, emit, tip, order, max_by_score,
}
use tao.Ghostdag.Anticone.{Holds, Known}
use tao.Ghostdag.Sort.{Arranged, sort_by_key_lem}
use tao.Ghostdag.Best.{IsBest, max_by_score_lem}
use tao.Ghostdag.Valid.{IsNode, IsValid, IsOrigin, Merges}
use tao.Ghostdag.Order.Walk.{Chain, chain_lem}

keys_known :
    (m : HashMap BlockId Node) (b : BlockId)
    → contains (map (λ x. x.0) m) b ≡ true
    → (n : Node) × (lookup b m ≡ some n)
unfolding lookup
keys_known [] b h = absurd (ground arith)
keys_known (x ∷ m) b h = elim (beq-cases x.0 b) [
  | inl (_, e) ↦ (x.1, rw e refl)
  | inr e ↦ rw e (keys_known m b (ground arith))
]

key_of :
    (m : HashMap BlockId Node) (b : BlockId) (n : Node)
    → lookup b m ≡ some n
    → contains (map (λ x. x.0) m) b ≡ true
unfolding lookup
key_of [] b n h = cc
key_of (x ∷ m) b n h = ground (arith, key_of m b n)

-- The tip of a well-formed DAG is a block that no other outranks.
pub tip_lem :
    (dag : Dag)
    → IsValid dag
    → (t : BlockId) × (n : Node) × (tip dag ≡ some t)
      × (node dag t ≡ some n)
      × IsBest dag (map (λ x. x.0) dag.nodes) t
unfolding tip
tip_lem dag valid =
    let (g, held) = valid.root in
    best_of (map (λ x. x.0) dag.nodes) (keys_known dag.nodes) (key_of dag.nodes dag.genesis g held)
  where
    best_of :
        (ids : List BlockId)
        → Known dag ids
        → contains ids dag.genesis ≡ true
        → (t : BlockId) × (n : Node) × (max_by_score dag ids ≡ some t)
          × (node dag t ≡ some n)
          × IsBest dag ids t
    best_of [] known there = absurd (ground arith)
    best_of (p ∷ ps) known there =
        let (t, run, best) = max_by_score_lem dag p ps known in
        let (n, held) = known t best.among in (t, n, run, held, best)

-- `order` of a well-formed DAG returns. Its result holds the tip and the ancestors of the tip, and
-- nothing else, each once; the tip has the highest blue score, and the smallest id of those with it.
pub order_lem :
    (dag : Dag)
    → IsValid dag
    → (t : BlockId) × (n : Node) × (blocks : List BlockId) × (order dag ≡ some blocks)
      × (node dag t ≡ some n)
      × IsBest dag (map (λ x. x.0) dag.nodes) t
      × Distinct blocks
      × ((a : BlockId) → contains blocks a ≡ contains (t ∷ n.past) a)
unfolding order blue_score emit
order_lem dag valid =
    let (t, n, run, held, best) = tip_lem dag valid in
    let r = chain_lem dag (length n.blue_set) t n valid held (omega arith) in
    (t, n, r.listed, rw (run, held, r.down []) (r.emits [] []), held, best, r.distinct, r.members)
