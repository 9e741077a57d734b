-- ===== src/Ghostdag/Add/Build.antt =====
-- `build_node` returns on a well-formed DAG, and what it computes.
use tao.Common.{not, some, List, [], ◌∷◌, ◌≡◌, refl, arith, ◌&&◌, nat_beq}
use tao.Common.Keys.{nat_eq, contains}
use tao.Common.Sets.{select, set_insert, set_extend, contains-select}
use tao.Ghostdag.{BlockId, Node, Dag, Colouring, node, build_node, mergeset}
use tao.Ghostdag.Anticone.{Known}
use tao.Ghostdag.Sort.{Arranged, sort_by_key_lem}
use tao.Ghostdag.Best.{IsBest, max_by_score_lem}
use tao.Ghostdag.Past.{Gathered, gather_past_lem}
use tao.Ghostdag.Colour.{Coloured, colour_all_lem}
use tao.Ghostdag.Valid.{IsValid, blue-Known}
use tao.Ghostdag.Add.Ancestors.{past-Known}

-- What `build_node` computes before it makes the node.
pub record Parts (dag : Dag) (ps : List BlockId) : Type 0 where
  pub past : List BlockId
  pub sp : BlockId
  pub top : Node
  pub merged : List BlockId
  pub coloured : Colouring
  pub gathered : Gathered dag [] ps past
  pub best : IsBest dag ps sp
  pub held : node dag sp ≡ some top
  pub arranged :
      Arranged dag
        (Unit {0})
        (select (λ b. not (nat_beq b sp) && not (contains top.past b)) past)
        merged
  pub split :
      Coloured dag merged (record { accepted = top.blue_set; blues = []; reds = [] }) coloured

unfoldable pub made : {dag : Dag} (id : BlockId) (ps : List BlockId) → Parts dag ps → Node
made id ps parts = record {
  parents = ps;
  past = parts.past;
  blue_set = set_insert id (set_extend parts.top.blue_set parts.coloured.blues);
  selected_parent = some parts.sp;
  mergeset_blues = parts.coloured.blues;
  mergeset_reds = parts.coloured.reds;
}

pub parents_made :
    {dag : Dag} (id : BlockId) (ps : List BlockId) (parts : Parts dag ps)
    → (made id ps parts).parents ≡ ps
unfolding made
parents_made id ps parts = refl

pub build_node_run :
    (dag : Dag) (id p : BlockId) (ps : List BlockId)
    → IsValid dag
    → Known dag (p ∷ ps)
    → (parts : Parts dag (p ∷ ps)) × (build_node dag id (p ∷ ps) ≡ some (made id (p ∷ ps) parts))
unfolding build_node mergeset made
build_node_run dag id p ps valid known =
    let (past, run_past, gathered) = gather_past_lem dag [] (p ∷ ps) known in
    let (sp, run_sp, best) = max_by_score_lem dag p ps known in
    let (top, held) = known sp best.among in
    let keep = λ (b : BlockId). not (nat_beq b sp) && not (contains top.past b) in
    let within = past-Known dag valid (p ∷ ps) past gathered in
    let (merged, run_sort, arranged) =
      sort_by_key_lem dag (select keep past)
        (λ b m. within b (ground (arith, contains-select keep past b))) in
    let start : Colouring = record { accepted = top.blue_set; blues = []; reds = [] } in
    let node_top = valid.each sp top held in
    let (u, run_colour, split) =
      colour_all_lem dag merged start
        (λ b m. within b (ground (arith, contains-select keep past b, arranged.members b)))
        (blue-Known dag sp top held node_top) node_top.cluster in
    (
      record {
        past = past;
        sp = sp;
        top = top;
        merged = merged;
        coloured = u;
        gathered = gathered;
        best = best;
        held = held;
        arranged = arranged;
        split = split;
      },
      rw (run_past, run_sp, held, run_sort, run_colour) refl,
    )
