-- ===== src/Ghostdag/History.antt =====
-- The DAGs that calls of `add_block` build from `new`.
use mathlib.Core.Path.{subst}
use tao.Common.{
  ℕ, ◌≤◌, true, Option, some, List, [], ◌∷◌, ◌≡◌, refl, sym, arith, inl, inr, length, some_inj, ap,
  ◌∙◌,
}
use tao.Common.Keys.{nat_eq, contains, beq_refl, beq-cases}
use tao.Common.Maps.{lookup, lookup-insert_self, lookup-insert_cases}
use tao.Common.Sets.{select}
use tao.Ghostdag.{BlockId, DagError, Node, Dag, new, genesis_node, node, add_block}
use tao.Ghostdag.Anticone.{apart, apart_irrefl}
use tao.Ghostdag.Cluster.{degree, degree-one}
use tao.Ghostdag.Valid.{IsNode, IsValid}
use tao.Ghostdag.Add.Results.{add_block_lem}

-- The DAG after some calls of `add_block`, refused ones included.
pub data Built (k : ℕ) (genesis : BlockId) : Dag → Type 0 where
  start : Built k genesis (new k genesis)
  call :
      {dag after : Dag} {e : Option DagError} (id : BlockId) (ps : List BlockId)
      → Built k genesis dag
      → add_block dag id ps ≡ some (e, after)
      → Built k genesis after

genesis_cluster :
    (dag : Dag) (g x : BlockId) → contains (g ∷ []) x ≡ true → degree (apart dag) x (g ∷ []) ≤ dag.k
genesis_cluster dag g x m = elim (beq-cases g x) [
  | inl (e, _) ↦ rw (sym e) ground (arith, degree-one (apart dag) g g, apart_irrefl dag g)
  | inr f ↦ absurd (ground arith)
]

genesis-IsNode : (k : ℕ) (g : BlockId) → IsNode (new k g) g (genesis_node g)
unfolding new
genesis-IsNode k g = record {
  known = λ b m. absurd (ground arith);
  closed = λ a c m ha _ _. absurd (ground arith);
  acyclic = refl;
  past_distinct = tt;
  blue_distinct = (refl, tt);
  blue_self = ground (arith, beq_refl g);
  blue_past = λ a m. m;
  cluster = genesis_cluster (new k g) g;
  parents_past = λ p m. m;
  origin = (refl, refl, refl, refl);
}

pub new-IsValid : (k : ℕ) (g : BlockId) → IsValid (new k g)
unfolding new lookup
new-IsValid k g = record {
  root = (genesis_node g, lookup-insert_self g (genesis_node g) []);
  each = λ b n hb. elim (lookup-insert_cases g b (genesis_node g) [] hb) [
    | inl (e, same) ↦ rw (sym e, same) (genesis-IsNode k g)
    | inr bad ↦ absurd (ground arith)
  ];
}

pub Built-IsValid : {k : ℕ} {g : BlockId} {dag : Dag} → Built k g dag → IsValid dag
Built-IsValid start = new-IsValid _ _
Built-IsValid (call {dag} id ps before run) =
    let (e, after, ran, valid, _) = add_block_lem dag id ps (Built-IsValid before) in
    subst IsValid (ap (λ x. x.1) (some_inj (sym ran ∙ run))) valid

-- In every DAG that calls of `add_block` build from `new`, each blue block in the view of a block has
-- at most k blocks in its anticone among the blues of that view.
pub Built_cluster :
    {k : ℕ} {g : BlockId} {dag : Dag} (b x : BlockId) (n : Node)
    → Built k g dag
    → node dag b ≡ some n
    → contains n.blue_set x ≡ true
    → length (select (λ y. apart dag y x) n.blue_set) ≤ dag.k
unfolding select
Built_cluster b x n built held blue = ((Built-IsValid built).each b n held).cluster x blue
