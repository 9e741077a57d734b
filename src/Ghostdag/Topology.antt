-- ===== src/Ghostdag/Topology.antt =====
-- Ancestors have fewer ancestors, so a list in the order of the topological key has no block before
-- one of its ancestors.
use tao.Common.{
  ◌<◌, true, some, List, ◌∷◌, ◌≡◌, sym, arith, inl, inr, length, not, ◌&&◌, ◌||◌, nat_beq,
}
use tao.Common.Keys.{nat_eq, contains, beq-cases}
use tao.Common.Sets.{Distinct-length}
use tao.Ghostdag.{BlockId, Node, Dag, node}
use tao.Ghostdag.Anticone.{Known}
use tao.Ghostdag.Sort.{IsSorted}
use tao.Ghostdag.Valid.{IsValid}

pub fewer_ancestors :
    (dag : Dag) (a c : BlockId) (p q : Node)
    → IsValid dag
    → node dag a ≡ some p
    → node dag c ≡ some q
    → contains q.past a ≡ true
    → length p.past < length q.past
fewer_ancestors dag a c p q valid ha hc m =
    let node_a = valid.each a p ha in
    Distinct-length (a ∷ p.past) q.past (node_a.acyclic, node_a.past_distinct)
      λ x h. elim (beq-cases a x) [
        | inl (e, _) ↦ rw (sym e) m
        | inr f ↦ (valid.each c q hc).closed a x p m ha (ground arith)
      ]

InOrder : Dag → List BlockId → Type 0
InOrder dag xs = Known dag xs × IsSorted dag xs

-- The mergeset of a block over its selected parent: the ancestors of the block that neither are the
-- selected parent nor its ancestors.
abbrev pub MergesOthers : Dag → Node → Type 0
MergesOthers dag n =
    (sp : BlockId) × (m : Node) × (n.selected_parent ≡ some sp)
    × (node dag sp ≡ some m)
    × ((x : BlockId)
        → (contains n.mergeset_blues x || contains n.mergeset_reds x)
          ≡ ((not (nat_beq x sp) && not (contains m.past x)) && contains n.past x))
