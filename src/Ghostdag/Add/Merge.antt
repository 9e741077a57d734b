-- ===== src/Ghostdag/Add/Merge.antt =====
-- The node that a new block gets is a well-formed node of the extended DAG.
use tao.Common.{
  true, false, not, none, some, List, ◌∷◌, ◌++◌, ◌≡◌, sym, ◌∙◌, arith, inl, inr, ◌||◌, ◌&&◌,
  nat_beq, Bool-cases,
}
use tao.Common.Keys.{nat_eq, contains, beq_refl, beq-cases}
use tao.Common.Maps.{lookup-insert_self}
use tao.Common.Sets.{
  set_extend, Distinct, contains-select, Distinct-select, contains-set_insert, contains-set_extend,
  Distinct-set_insert, Distinct-set_extend, length-set_insert_new, length-set_extend_le,
}
use tao.Ghostdag.{BlockId, Node, Dag, node, build_node}
use tao.Ghostdag.Anticone.{Known, apart, apart_irrefl, apart_sym, apart-past}
use tao.Ghostdag.Cluster.{IsCluster, IsCluster-set_extend, IsCluster-set_insert}
use tao.Ghostdag.Sort.{IsSorted}
use tao.Ghostdag.Valid.{
  IsNode, IsValid, Merges, extend, extend-keeps, extend-agrees, Known-extend, IsCluster-extend,
  IsSorted-extend, IsBest-extend,
}
use tao.Ghostdag.Add.Ancestors.{past-Known, past_closed, past_acyclic, past-parent}
use tao.Ghostdag.Add.Build.{Parts, made, parents_made, build_node_run}

module _ (dag : Dag) (id : BlockId) (ps : List BlockId) (valid : IsValid dag)
    (free : node dag id ≡ none) (known : Known dag ps) (parts : Parts dag ps) where
  abbrev bigger : Dag
  bigger = extend dag id (made id ps parts)

  within : Known dag parts.past
  within = past-Known dag valid ps parts.past parts.gathered

  top-IsNode : IsNode dag parts.sp parts.top
  top-IsNode = valid.each parts.sp parts.top parts.held

  sp_past : contains parts.past parts.sp ≡ true
  sp_past = past-parent dag valid ps parts.past parts.gathered parts.sp known parts.best.among

  acyclic : contains parts.past id ≡ false
  acyclic = past_acyclic dag valid ps parts.past parts.gathered id free

  -- the mergeset is what the selected parent does not have below it
  merged_members :
      (a : BlockId)
      → (contains parts.coloured.blues a || contains parts.coloured.reds a)
        ≡ ((not (nat_beq a parts.sp) && not (contains parts.top.past a)) && contains parts.past a)
  merged_members a =
      rw (parts.split.blues_eq, parts.split.reds_eq)
        (parts.split.members a
          ∙ (parts.arranged.members a
              ∙ contains-select (λ b. not (nat_beq b parts.sp) && not (contains parts.top.past b))
                  parts.past a))

  blue_past :
      (a : BlockId)
      → contains (set_extend parts.top.blue_set parts.coloured.blues) a ≡ true
      → contains parts.past a ≡ true
  blue_past a m = elim (Bool-cases (contains parts.coloured.blues a)) [
    | inl blue ↦ ground (arith, merged_members a)
    | inr other ↦
        let old : contains parts.top.blue_set a ≡ true =
          ground (arith, contains-set_extend parts.top.blue_set parts.coloured.blues a) in
        elim (beq-cases parts.sp a) [
          | inl (e, _) ↦ rw (sym e) sp_past
          | inr f ↦
              past_closed dag valid ps parts.past parts.gathered parts.sp a parts.top sp_past
                parts.held (ground (arith, top-IsNode.blue_past a old))
        ]
  ]

  blue_fresh : contains (set_extend parts.top.blue_set parts.coloured.blues) id ≡ false
  blue_fresh =
      elim (Bool-cases (contains (set_extend parts.top.blue_set parts.coloured.blues) id)) [
        | inl m ↦ ground (arith, blue_past id m, acyclic)
        | inr h ↦ h
      ]

  merged-Distinct : Distinct parts.merged
  merged-Distinct = parts.arranged.distinct (
      Distinct-select (λ b. not (nat_beq b parts.sp) && not (contains parts.top.past b)) parts.past
        (parts.gathered.distinct tt))

  blues-Distinct : Distinct parts.coloured.blues
  blues-Distinct = rw parts.split.blues_eq (parts.split.distinct merged-Distinct).0

  reds-Distinct : Distinct parts.coloured.reds
  reds-Distinct = rw parts.split.reds_eq (parts.split.distinct merged-Distinct).1.0

  disjoint :
      (a : BlockId)
      → contains parts.coloured.blues a ≡ true
      → contains parts.coloured.reds a ≡ false
  disjoint =
      rw (parts.split.blues_eq, parts.split.reds_eq) (parts.split.distinct merged-Distinct).1.1

  -- a blue of the mergeset is not a blue of the selected parent
  blues_new :
      (a : BlockId) → contains parts.coloured.blues a ≡ true → contains parts.top.blue_set a ≡ false
  blues_new a m = elim (Bool-cases (contains parts.top.blue_set a)) [
    | inl old ↦
        let below = top-IsNode.blue_past a old in
        ground (arith, merged_members a, nat_eq.same_iff a parts.sp, nat_eq.same_iff parts.sp a)
    | inr h ↦ h
  ]

  found : node bigger id ≡ some (made id ps parts)
  found = lookup-insert_self id (made id ps parts) dag.nodes

  cluster : IsCluster (apart bigger) dag.k (made id ps parts).blue_set
  unfolding made
  cluster =
      let together : IsCluster (apart dag) dag.k (parts.top.blue_set ++ parts.coloured.blues) =
        rw (parts.split.blues_eq, sym parts.split.accepted_eq) parts.split.cluster in
      let blues = set_extend parts.top.blue_set parts.coloured.blues in
      IsCluster-set_insert (apart bigger) (apart_irrefl bigger) (apart_sym bigger) dag.k id blues
        blue_fresh (λ y m. apart-past bigger y id (made id ps parts) found (blue_past y m))
        (IsCluster-extend dag id (made id ps parts) free blues (λ b m. within b (blue_past b m))
          (IsCluster-set_extend (apart dag) dag.k parts.top.blue_set parts.coloured.blues
            blues-Distinct blues_new together))

  IsSorted-reds : IsSorted dag parts.coloured.reds
  IsSorted-reds = rw parts.split.reds_eq (parts.split.sorted (parts.arranged.sorted tt)).1

  IsSorted-blues : IsSorted dag parts.coloured.blues
  IsSorted-blues = rw parts.split.blues_eq (parts.split.sorted (parts.arranged.sorted tt)).0

  merges : Merges bigger id (made id ps parts) parts.sp parts.top
  unfolding made
  merges = record {
    other = λ e.
        let (n, hn) = valid.root in
        let gone : node dag dag.genesis ≡ none = rw (sym e) free in absurd (ground arith);
    held = extend-keeps dag id (made id ps parts) free parts.sp parts.top parts.held;
    best = IsBest-extend dag id (made id ps parts) free ps parts.sp known parts.best;
    rises = omega (
      arith,
      length-set_insert_new id (set_extend parts.top.blue_set parts.coloured.blues) blue_fresh,
      length-set_extend_le parts.top.blue_set parts.coloured.blues,
    );
    members = merged_members;
    disjoint = disjoint;
    blues_distinct = blues-Distinct;
    reds_distinct = reds-Distinct;
    blues_sorted =
        IsSorted-extend dag id (made id ps parts) free parts.coloured.blues
          (λ a m. within a (ground (arith, merged_members a))) IsSorted-blues;
    reds_sorted =
        IsSorted-extend dag id (made id ps parts) free parts.coloured.reds
          (λ a m. within a (ground (arith, merged_members a))) IsSorted-reds;
  }

  made-IsNode : IsNode bigger id (made id ps parts)
  unfolding made
  made-IsNode =
      let blues = set_extend parts.top.blue_set parts.coloured.blues in
      record {
        known = Known-extend dag id (made id ps parts) free parts.past within;
        closed = λ a c m ha hm hc.
            past_closed dag valid ps parts.past parts.gathered a c m ha
              (extend-agrees dag id (made id ps parts) free a m (within a ha) hm) hc;
        acyclic = acyclic;
        past_distinct = parts.gathered.distinct tt;
        blue_distinct =
            Distinct-set_insert id blues (
              Distinct-set_extend parts.top.blue_set parts.coloured.blues top-IsNode.blue_distinct);
        blue_self = ground (arith, contains-set_insert id id blues, beq_refl id);
        blue_past = λ a m. ground (arith, contains-set_insert id a blues, blue_past a);
        cluster = cluster;
        parents_past = λ p m. past-parent dag valid ps parts.past parts.gathered p known m;
        origin = (parts.top, merges);
      }

pub build_node_lem :
    (dag : Dag) (id p : BlockId) (ps : List BlockId)
    → IsValid dag
    → node dag id ≡ none
    → Known dag (p ∷ ps)
    → (n : Node) × (build_node dag id (p ∷ ps) ≡ some n)
      × (n.parents ≡ p ∷ ps)
      × IsNode (extend dag id n) id n
build_node_lem dag id p ps valid free known =
    let (parts, run) = build_node_run dag id p ps valid known in
    (
      made id (p ∷ ps) parts,
      run,
      parents_made id (p ∷ ps) parts,
      made-IsNode dag id (p ∷ ps) valid free known parts,
    )
