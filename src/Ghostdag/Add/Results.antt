-- ===== src/Ghostdag/Add/Results.antt =====
-- What `add_block` returns on a well-formed DAG, and the DAGs that its calls build.
use tao.Common.{
  true, false, Option, none, some, List, [], ◌∷◌, ◌≡◌, ◌≢◌, refl, sym, arith, inl, inr, ◌⊎◌,
  Option-cases,
}
use tao.Common.Keys.{nat_eq, contains, beq_refl, beq-cases}
use tao.Common.Maps.{contains_key, lookup-insert_cases}
use tao.Ghostdag.{BlockId, DagError, Node, Dag, node, all_known, add_block}
use tao.Ghostdag.Anticone.{Holds, Known}
use tao.Ghostdag.Valid.{IsNode, IsValid, extend, extend-keeps, IsNode-extend}
use tao.Ghostdag.Add.Merge.{build_node_lem}

IsValid-extend :
    (dag : Dag) (id : BlockId) (n : Node)
    → IsValid dag
    → node dag id ≡ none
    → IsNode (extend dag id n) id n
    → IsValid (extend dag id n)
IsValid-extend dag id n valid free fresh = record {
  root = let (g, hg) = valid.root in (g, extend-keeps dag id n free dag.genesis g hg);
  each = λ b m hb. elim (lookup-insert_cases id b n dag.nodes hb) [
    | inl (e, same) ↦ rw (sym e, same) fresh
    | inr old ↦ IsNode-extend dag id n free b m old (valid.each b m old)
  ];
}

-- The outcomes of a call, each with what holds of the DAG before it.
pub data Added (dag : Dag) (id : BlockId) (ps : List BlockId) (e : Option DagError) (after : Dag)
    : Type 0 where
  repeated : e ≡ some DagError.duplicate → after ≡ dag → Holds dag id → Added dag id ps e after
  orphan :
      e ≡ some DagError.no_parents
      → after ≡ dag
      → node dag id ≡ none
      → ps ≡ []
      → Added dag id ps e after
  unlinked :
      (p : BlockId)
      → e ≡ some DagError.unknown_parent
      → after ≡ dag
      → node dag id ≡ none
      → contains ps p ≡ true
      → node dag p ≡ none
      → Added dag id ps e after
  added :
      (n : Node)
      → e ≡ none
      → after ≡ extend dag id n
      → node dag id ≡ none
      → ps ≢ []
      → Known dag ps
      → n.parents ≡ ps
      → Added dag id ps e after

contains_key-some :
    (dag : Dag) (id : BlockId) (n : Node) → node dag id ≡ some n → contains_key id dag.nodes ≡ true
unfolding contains_key
contains_key-some dag id n h = ground arith

contains_key-none :
    (dag : Dag) (id : BlockId) → node dag id ≡ none → contains_key id dag.nodes ≡ false
unfolding contains_key
contains_key-none dag id h = ground arith

all_known-cases :
    (dag : Dag) (ps : List BlockId)
    → (all_known dag ps ≡ true) × Known dag ps
      ⊎ ((all_known dag ps ≡ false)
          × ((p : BlockId) × (contains ps p ≡ true) × (node dag p ≡ none)))
all_known-cases dag [] = inl (refl, λ b m. absurd (ground arith))
all_known-cases dag (p ∷ ps) = elim (Option-cases (node dag p)) [
  | inl gone ↦ inr (rw (contains_key-none dag p gone) refl, (p, ground (arith, beq_refl p), gone))
  | inr (n, hp) ↦ elim (all_known-cases dag ps) [
    | inl (all, known) ↦ inl (
      rw (contains_key-some dag p n hp) all,
      λ b m. elim (beq-cases p b) [
        | inl (e, _) ↦ rw (sym e) (n, hp)
        | inr f ↦ known b (ground arith)
      ],
    )
    | inr (some_gone, (q, hq, gone)) ↦
        inr (rw (contains_key-some dag p n hp) some_gone, (q, ground arith, gone))
  ]
]

-- On a well-formed DAG `add_block` does not panic and keeps the DAG well formed, whatever the call. A
-- known block is refused, then a block without parents, then one with an unknown parent, and these
-- errors change nothing. Any other block is added, with the given parents.
pub add_block_lem :
    (dag : Dag) (id : BlockId) (ps : List BlockId)
    → IsValid dag
    → (e : Option DagError) × (after : Dag) × (add_block dag id ps ≡ some (e, after))
      × IsValid after
      × Added dag id ps e after
unfolding add_block
add_block_lem dag id ps valid = elim (Option-cases (node dag id)) [
  | inr (n, h) ↦ (
    some DagError.duplicate,
    dag,
    rw (contains_key-some dag id n h) refl,
    valid,
    repeated refl refl (n, h),
  )
  | inl free ↦ fresh ps free
]
  where
    fresh :
        (qs : List BlockId)
        → node dag id ≡ none
        → (e : Option DagError) × (after : Dag) × (add_block dag id qs ≡ some (e, after))
          × IsValid after
          × Added dag id qs e after
    fresh [] free = (
      some DagError.no_parents,
      dag,
      rw (contains_key-none dag id free) refl,
      valid,
      orphan refl refl free refl,
    )
    fresh (q ∷ qs) free = elim (all_known-cases dag (q ∷ qs)) [
      | inr (some_gone, (p, hp, gone)) ↦ (
        some DagError.unknown_parent,
        dag,
        rw (contains_key-none dag id free, some_gone) refl,
        valid,
        unlinked p refl refl free hp gone,
      )
      | inl (all, known) ↦
          let (n, run, parents, good) = build_node_lem dag id q qs valid free known in
          (
            none,
            extend dag id n,
            rw (contains_key-none dag id free, all, run) refl,
            IsValid-extend dag id n valid free good,
            added n refl refl free (λ bad. cc) known parents,
          )
    ]
