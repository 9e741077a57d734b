-- ===== src/Ghostdag/Tests.antt =====
-- Runs of the GHOSTDAG prototype.
use tao.Common.{length, ◌≤◌, map, Option, none, some, List, [], ◌∷◌, ◌≡◌, refl, ◌>>=◌}
use tao.Common.Keys.{nat_eq, contains}
use tao.Common.Maps.{lookup, insert, contains_key}
use tao.Common.Sets.{select, set_insert, set_extend, Distinct}
use tao.Ghostdag.{
  BlockId, DagError, Dag, Node, node, genesis_node, new, add_block, tip, order, blue_score,
  build_node, gather_past, max_by_score, scored, max_scored, mergeset, sort_by_key, insert_by_key,
  colour, colour_all, anticone_in, chain_down, emit, is_anticone, keeps_blues, topo_key,
}
use tao.Ghostdag.Anticone.{apart}
use tao.Ghostdag.Best.{IsBest}
use tao.Ghostdag.Valid.{IsValid}
use tao.Ghostdag.Add.Results.{Added, add_block_lem}
use tao.Ghostdag.History.{Built, Built-IsValid, Built_cluster}
use tao.Ghostdag.History.Built.{start, call}
use tao.Ghostdag.Order.{order_lem}

-- Several calls of `add_block`, with `unwrap`.
build : Dag → List (BlockId × List BlockId) → Option Dag
build dag [] = some dag
build dag (x ∷ xs) = add_block dag x.0 x.1 >>= λ r. elim r.0 [ none ↦ build r.1 xs | some _ ↦ none ]

-- A chain of four blocks, and a block that ignores it.
abbrev ignoring : List (BlockId × List BlockId)
ignoring = (1, 0 ∷ []) ∷ (2, 1 ∷ []) ∷ (3, 2 ∷ []) ∷ (4, 0 ∷ []) ∷ (5, 3 ∷ 4 ∷ []) ∷ []

ignoring-order : (build (new 1 0) ignoring >>= order) ≡ some (0 ∷ 1 ∷ 2 ∷ 3 ∷ 4 ∷ 5 ∷ [])
unfolding build new order tip contains_key insert lookup build_node gather_past max_by_score scored
    blue_score max_scored mergeset sort_by_key select set_extend set_insert colour_all insert_by_key
    colour anticone_in add_block chain_down emit is_anticone keeps_blues topo_key
ignoring-order = refl

-- The block 11 is blue although its parent 10 is red: the order has the child first.
abbrev red_parent : List (BlockId × List BlockId)
red_parent =
    (1, 0 ∷ [])
    ∷ (2, 1 ∷ [])
    ∷ (3, 2 ∷ [])
    ∷ (10, 0 ∷ [])
    ∷ (11, 10 ∷ 2 ∷ [])
    ∷ (12, 3 ∷ 11 ∷ [])
    ∷ []

red_parent-order : (build (new 1 0) red_parent >>= order) ≡ some (0 ∷ 1 ∷ 2 ∷ 3 ∷ 11 ∷ 10 ∷ 12 ∷ [])
unfolding build new order tip contains_key insert lookup build_node gather_past max_by_score scored
    blue_score max_scored mergeset sort_by_key select set_extend set_insert colour_all insert_by_key
    colour anticone_in add_block chain_down emit is_anticone keeps_blues topo_key
red_parent-order = refl

-- Two branches of two blocks, and a block that merges them, with the nodes that they get.
abbrev node_1 : Node
node_1 = record {
  parents = 0 ∷ [];
  past = 0 ∷ [];
  blue_set = 1 ∷ 0 ∷ [];
  selected_parent = some 0;
  mergeset_blues = [];
  mergeset_reds = [];
}

abbrev node_2 : Node
node_2 = record {
  parents = 0 ∷ [];
  past = 0 ∷ [];
  blue_set = 2 ∷ 0 ∷ [];
  selected_parent = some 0;
  mergeset_blues = [];
  mergeset_reds = [];
}

abbrev node_3 : Node
node_3 = record {
  parents = 2 ∷ [];
  past = 0 ∷ 2 ∷ [];
  blue_set = 3 ∷ 2 ∷ 0 ∷ [];
  selected_parent = some 2;
  mergeset_blues = [];
  mergeset_reds = [];
}

abbrev node_4 : Node
node_4 = record {
  parents = 1 ∷ [];
  past = 0 ∷ 1 ∷ [];
  blue_set = 4 ∷ 1 ∷ 0 ∷ [];
  selected_parent = some 1;
  mergeset_blues = [];
  mergeset_reds = [];
}

abbrev node_5 : Node
node_5 = record {
  parents = 3 ∷ 4 ∷ [];
  past = 1 ∷ 4 ∷ 2 ∷ 0 ∷ 3 ∷ [];
  blue_set = 5 ∷ 4 ∷ 1 ∷ 3 ∷ 2 ∷ 0 ∷ [];
  selected_parent = some 3;
  mergeset_blues = 1 ∷ 4 ∷ [];
  mergeset_reds = [];
}

abbrev ladder_1 : Dag
ladder_1 = record { k = 3; genesis = 0; nodes = (0, genesis_node 0) ∷ (1, node_1) ∷ [] }

abbrev ladder_2 : Dag
ladder_2 = record {
  k = 3;
  genesis = 0;
  nodes = (0, genesis_node 0) ∷ (1, node_1) ∷ (2, node_2) ∷ [];
}

abbrev ladder_3 : Dag
ladder_3 = record {
  k = 3;
  genesis = 0;
  nodes = (0, genesis_node 0) ∷ (1, node_1) ∷ (2, node_2) ∷ (3, node_3) ∷ [];
}

abbrev ladder_4 : Dag
ladder_4 = record {
  k = 3;
  genesis = 0;
  nodes = (0, genesis_node 0) ∷ (1, node_1) ∷ (2, node_2) ∷ (3, node_3) ∷ (4, node_4) ∷ [];
}

abbrev ladder_5 : Dag
ladder_5 = record {
  k = 3;
  genesis = 0;
  nodes =
      (0, genesis_node 0)
      ∷ (1, node_1)
      ∷ (2, node_2)
      ∷ (3, node_3)
      ∷ (4, node_4)
      ∷ (5, node_5)
      ∷ [];
}

run_1 : add_block (new 3 0) 1 (0 ∷ []) ≡ some (none, ladder_1)
unfolding new contains_key insert lookup build_node gather_past max_by_score scored blue_score
    max_scored mergeset sort_by_key select set_extend set_insert colour_all insert_by_key colour
    anticone_in add_block is_anticone keeps_blues topo_key
run_1 = refl

run_2 : add_block ladder_1 2 (0 ∷ []) ≡ some (none, ladder_2)
unfolding new contains_key insert lookup build_node gather_past max_by_score scored blue_score
    max_scored mergeset sort_by_key select set_extend set_insert colour_all insert_by_key colour
    anticone_in add_block is_anticone keeps_blues topo_key
run_2 = refl

run_3 : add_block ladder_2 3 (2 ∷ []) ≡ some (none, ladder_3)
unfolding new contains_key insert lookup build_node gather_past max_by_score scored blue_score
    max_scored mergeset sort_by_key select set_extend set_insert colour_all insert_by_key colour
    anticone_in add_block is_anticone keeps_blues topo_key
run_3 = refl

run_4 : add_block ladder_3 4 (1 ∷ []) ≡ some (none, ladder_4)
unfolding new contains_key insert lookup build_node gather_past max_by_score scored blue_score
    max_scored mergeset sort_by_key select set_extend set_insert colour_all insert_by_key colour
    anticone_in add_block is_anticone keeps_blues topo_key
run_4 = refl

run_5 : add_block ladder_4 5 (3 ∷ 4 ∷ []) ≡ some (none, ladder_5)
unfolding new contains_key insert lookup build_node gather_past max_by_score scored blue_score
    max_scored mergeset sort_by_key select set_extend set_insert colour_all insert_by_key colour
    anticone_in add_block is_anticone keeps_blues topo_key
run_5 = refl

built_1 : Built 3 0 ladder_1
built_1 = call 1 (0 ∷ []) start run_1

built_2 : Built 3 0 ladder_2
built_2 = call 2 (0 ∷ []) built_1 run_2

built_3 : Built 3 0 ladder_3
built_3 = call 3 (2 ∷ []) built_2 run_3

built_4 : Built 3 0 ladder_4
built_4 = call 4 (1 ∷ []) built_3 run_4

built_5 : Built 3 0 ladder_5
built_5 = call 5 (3 ∷ 4 ∷ []) built_4 run_5

held_5 : node ladder_5 5 ≡ some node_5
unfolding lookup
held_5 = refl

add_block_lem_example :
    (e : Option DagError) × (after : Dag) × (add_block ladder_4 5 (3 ∷ 4 ∷ []) ≡ some (e, after))
    × IsValid after
    × Added ladder_4 5 (3 ∷ 4 ∷ []) e after
add_block_lem_example = add_block_lem ladder_4 5 (3 ∷ 4 ∷ []) (Built-IsValid built_4)

Built_cluster_example : length (select (λ y. apart ladder_5 y 1) node_5.blue_set) ≤ 3
Built_cluster_example = Built_cluster 5 1 node_5 built_5 held_5 refl

order_lem_example :
    (t : BlockId) × (n : Node) × (blocks : List BlockId) × (order ladder_5 ≡ some blocks)
    × (node ladder_5 t ≡ some n)
    × IsBest ladder_5 (map (λ x. x.0) ladder_5.nodes) t
    × Distinct blocks
    × ((a : BlockId) → contains blocks a ≡ contains (t ∷ n.past) a)
order_lem_example = order_lem ladder_5 (Built-IsValid built_5)
