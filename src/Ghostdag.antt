-- ===== src/Ghostdag.antt =====
-- crates/tao-dag/src/lib.rs: the GHOSTDAG prototype, which orders a DAG of blocks by explicit sets
-- of ancestors. `none` is a panic: the index of a block that the map of nodes does not hold, or
-- `unwrap` of no value. A hash set is a list without repeats: the program leaves the order of its
-- iteration open.
pub mod Anticone
pub mod Cluster
pub mod Sort
pub mod Best
pub mod Past
pub mod Valid
pub mod Colour
pub mod Add
pub mod History
pub mod Topology
pub mod Order
mod Tests
use tao.Common.{
  ℕ, zero, suc, ◌+◌, Bool, true, false, not, Option, none, some, List, [], ◌∷◌, ◌++◌, map, ltb, leb,
  nat_beq, if◌then◌else◌, length, ◌&&◌, ◌||◌, ◌>>=◌,
}
use tao.Common.Keys.{nat_eq, contains}
use tao.Common.Maps.{HashMap, lookup, insert, contains_key}
use tao.Common.Sets.{select, set_insert, set_extend}

abbrev pub BlockId : Type 0
BlockId = ℕ

pub data DagError : Type 0 where
  duplicate unknown_parent no_parents : DagError

pub record Node : Type 0 where
  pub parents : List BlockId
  pub past : List BlockId
  pub blue_set : List BlockId
  pub selected_parent : Option BlockId
  pub mergeset_blues : List BlockId
  pub mergeset_reds : List BlockId

pub record Dag : Type 0 where
  pub k : ℕ
  pub genesis : BlockId
  pub nodes : HashMap BlockId Node

-- `new`
abbrev pub genesis_node : BlockId → Node
genesis_node genesis = record {
  parents = [];
  past = [];
  blue_set = genesis ∷ [];
  selected_parent = none;
  mergeset_blues = [];
  mergeset_reds = [];
}

pub new : ℕ → BlockId → Dag
new k genesis = record {
  k = k;
  genesis = genesis;
  nodes = insert genesis (genesis_node genesis) [];
}

-- `self.nodes[&id]`
abbrev pub node : Dag → BlockId → Option Node
node dag id = lookup id dag.nodes

pub blue_score : Dag → BlockId → Option ℕ
blue_score dag id = node dag id >>= λ n. some (length n.blue_set)

pub is_anticone : Dag → BlockId → BlockId → Option Bool
is_anticone dag x c =
    if nat_beq x c
    then some false
    else (node dag c >>= λ n.
        if contains n.past x
        then some false
        else (node dag x >>= λ m. some (not (contains m.past c))))

pub topo_key : Dag → BlockId → Option (ℕ × BlockId)
topo_key dag b = node dag b >>= λ n. some (length n.past, b)

abbrev pub key_le : ℕ × BlockId → ℕ × BlockId → Bool
key_le (m, b) (n, c) = ltb m n || nat_beq m n && leb b c

-- `sort_by_key` with `topo_key`, a stable sort
pub insert_by_key : Dag → BlockId → List BlockId → Option (List BlockId)
insert_by_key dag b [] = some (b ∷ [])
insert_by_key dag b (c ∷ cs) = do
  i ← topo_key dag b
  j ← topo_key dag c
  if key_le i j then some (b ∷ c ∷ cs) else (insert_by_key dag b cs >>= λ rest. some (c ∷ rest))

pub sort_by_key : Dag → List BlockId → Option (List BlockId)
sort_by_key dag [] = some []
sort_by_key dag (b ∷ bs) = sort_by_key dag bs >>= insert_by_key dag b

-- past(id) = ∪ (past(p) ∪ {p})
pub gather_past : Dag → List BlockId → List BlockId → Option (List BlockId)
gather_past dag past [] = some past
gather_past dag past (p ∷ ps) = do
  n ← node dag p
  gather_past dag (set_extend (set_insert p past) n.past) ps

-- `max_by_key` with the key (blue score, Reverse id), which keeps the last of equal items
pub scored : Dag → List BlockId → Option (List (ℕ × BlockId))
scored dag [] = some []
scored dag (p ∷ ps) = do s ← blue_score dag p; rest ← scored dag ps; some ((s, p) ∷ rest)

abbrev pub outranks : ℕ × BlockId → ℕ × BlockId → Bool
outranks (t, p) (s, b) = ltb s t || nat_beq s t && leb p b

pub max_scored : ℕ × BlockId → List (ℕ × BlockId) → ℕ × BlockId
max_scored best [] = best
max_scored best (x ∷ xs) = max_scored (if outranks x best then x else best) xs

pub max_by_score : Dag → List BlockId → Option BlockId
max_by_score dag ids =
    scored dag ids >>= λ xs. elim xs [ [] ↦ none | x ∷ rest ↦ some (max_scored x rest).1 ]

-- the items of a list in the anticone of `c`
pub anticone_in : Dag → BlockId → List BlockId → Option (List BlockId)
anticone_in dag c [] = some []
anticone_in dag c (x ∷ xs) = do
  b ← is_anticone dag x c
  rest ← anticone_in dag c xs
  some (if b then x ∷ rest else rest)

-- Condition 2: does every affected blue stay within k?
pub keeps_blues : Dag → List BlockId → List BlockId → Option Bool
keeps_blues dag accepted [] = some true
keeps_blues dag accepted (x ∷ xs) =
    let rest = keeps_blues dag accepted xs in
    anticone_in dag x accepted >>= λ x_anti.
    if ltb dag.k (length x_anti + 1) then some false else rest

pub record Colouring : Type 0 where
  pub accepted : List BlockId
  pub blues : List BlockId
  pub reds : List BlockId

-- one round of the greedy classification
pub colour : Dag → BlockId → Colouring → Option Colouring
colour dag c s = do
  anti ← anticone_in dag c s.accepted
  ok ← (if ltb dag.k (length anti) then some false else keeps_blues dag s.accepted anti)
  some (
      if ok
      then record s { accepted = s.accepted ++ c ∷ []; blues = s.blues ++ c ∷ [] }
      else record s { reds = s.reds ++ c ∷ [] })

pub colour_all : Dag → List BlockId → Colouring → Option Colouring
colour_all dag [] s = some s
colour_all dag (c ∷ cs) s = colour dag c s >>= colour_all dag cs

-- `past(id) \ (past(sp) ∪ {sp})`, in topological order
pub mergeset : Dag → BlockId → List BlockId → List BlockId → Option (List BlockId)
mergeset dag sp sp_past past =
    sort_by_key dag (select (λ b. not (nat_beq b sp) && not (contains sp_past b)) past)

-- the node that `add_block` builds for a block
pub build_node : Dag → BlockId → List BlockId → Option Node
build_node dag id parents = do
  past ← gather_past dag [] parents
  sp ← max_by_score dag parents
  n ← node dag sp
  merged ← mergeset dag sp n.past past
  s ← colour_all dag merged (record { accepted = n.blue_set; blues = []; reds = [] })
  some (record {
    parents = parents;
    past = past;
    blue_set = set_insert id (set_extend n.blue_set s.blues);
    selected_parent = some sp;
    mergeset_blues = s.blues;
    mergeset_reds = s.reds;
  })

abbrev pub is_empty : List BlockId → Bool
is_empty [] = true
is_empty (p ∷ ps) = false

abbrev pub all_known : Dag → List BlockId → Bool
all_known dag [] = true
all_known dag (p ∷ ps) = contains_key p dag.nodes && all_known dag ps

-- `add_block`: the error, if any, and the DAG after the call
pub add_block : Dag → BlockId → List BlockId → Option (Option DagError × Dag)
add_block dag id parents =
    if contains_key id dag.nodes
    then some (some DagError.duplicate, dag)
    else if is_empty parents
    then some (some DagError.no_parents, dag)
    else if not (all_known dag parents)
    then some (some DagError.unknown_parent, dag)
    else (build_node dag id parents >>= λ n.
        some (none, record dag { nodes = insert id n dag.nodes }))

pub tip : Dag → Option BlockId
tip dag = max_by_score dag (map (λ x. x.0) dag.nodes)

pub is_blue_at_tip : Dag → BlockId → Option Bool
is_blue_at_tip dag block = do t ← tip dag; n ← node dag t; some (contains n.blue_set block)

-- The chain of selected parents in front of `chain`, from the block `cur` down. The fuel counts its
-- blocks: `none` also stands for a chain that is longer.
pub chain_down : ℕ → Dag → Option BlockId → List BlockId → Option (List BlockId)
chain_down fuel dag none chain = some chain
chain_down zero dag (some b) chain = none
chain_down (suc fuel) dag (some b) chain = do
  n ← node dag b
  chain_down fuel dag n.selected_parent (b ∷ chain)

pub emit : Dag → List BlockId → List BlockId → Option (List BlockId)
emit dag [] out = some out
emit dag (b ∷ bs) out =
    if nat_beq b dag.genesis
    then emit dag bs (out ++ b ∷ [])
    else (node dag b >>= λ n. sort_by_key dag n.mergeset_blues >>= λ blues.
        sort_by_key dag n.mergeset_reds >>= λ reds.
        emit dag bs (((out ++ blues) ++ reds) ++ b ∷ []))

-- The blue score falls along selected parents, and is the fuel of the chain.
pub order : Dag → Option (List BlockId)
order dag = do
  t ← tip dag
  score ← blue_score dag t
  chain ← chain_down score dag (some t) []
  emit dag chain []
