-- ===== src/Ghostdag/Valid.antt =====
-- Well-formed DAGs, and that a new node leaves the old ones well formed.
use tao.Common.{
  ◌<◌, true, false, not, Option, none, some, List, [], ◌∷◌, ◌≡◌, sym, ◌∙◌, length, arith, ◌≢◌,
  nat_beq, ◌&&◌, ◌||◌, inl, inr,
}
use tao.Common.Keys.{nat_eq, contains, beq-cases}
use tao.Common.Maps.{insert, lookup-insert_new}
use tao.Common.Sets.{Distinct}
use tao.Ghostdag.{BlockId, Node, Dag, node}
use tao.Ghostdag.Anticone.{Holds, Known, Known-head, Known-tail, apart, apart_cong}
use tao.Ghostdag.Cluster.{IsCluster, IsCluster-cong}
use tao.Ghostdag.Sort.{IsSorted}
use tao.Ghostdag.Best.{IsBest}

-- The block `b` with the node `n` was merged on top of the selected parent `sp` with the node `m`.
pub record Merges (dag : Dag) (b : BlockId) (n : Node) (sp : BlockId) (m : Node) : Type 0 where
  pub other : b ≢ dag.genesis
  pub held : node dag sp ≡ some m
  pub best : IsBest dag n.parents sp
  pub rises : length m.blue_set < length n.blue_set
  -- the mergeset, split into blues and reds
  pub members :
      (a : BlockId)
      → (contains n.mergeset_blues a || contains n.mergeset_reds a)
        ≡ ((not (nat_beq a sp) && not (contains m.past a)) && contains n.past a)
  pub disjoint :
      (a : BlockId) → contains n.mergeset_blues a ≡ true → contains n.mergeset_reds a ≡ false
  pub blues_distinct : Distinct n.mergeset_blues
  pub reds_distinct : Distinct n.mergeset_reds
  pub blues_sorted : IsSorted dag n.mergeset_blues
  pub reds_sorted : IsSorted dag n.mergeset_reds

abbrev pub IsOrigin : Dag → BlockId → Node → Option BlockId → Type 0
IsOrigin dag b n none =
    (b ≡ dag.genesis) × (n.past ≡ []) × (n.mergeset_blues ≡ []) × (n.mergeset_reds ≡ [])
IsOrigin dag b n (some sp) = (m : Node) × Merges dag b n sp m

pub record IsNode (dag : Dag) (b : BlockId) (n : Node) : Type 0 where
  pub known : Known dag n.past
  pub closed :
      (a c : BlockId) (m : Node)
      → contains n.past a ≡ true
      → node dag a ≡ some m
      → contains m.past c ≡ true
      → contains n.past c ≡ true
  pub acyclic : contains n.past b ≡ false
  pub past_distinct : Distinct n.past
  pub blue_distinct : Distinct n.blue_set
  pub blue_self : contains n.blue_set b ≡ true
  pub blue_past : (a : BlockId) → contains n.blue_set a ≡ true → contains (b ∷ n.past) a ≡ true
  pub cluster : IsCluster (apart dag) dag.k n.blue_set
  pub parents_past : (p : BlockId) → contains n.parents p ≡ true → contains n.past p ≡ true
  pub origin : IsOrigin dag b n n.selected_parent

pub record IsValid (dag : Dag) : Type 0 where
  pub root : Holds dag dag.genesis
  pub each : (b : BlockId) (n : Node) → node dag b ≡ some n → IsNode dag b n

pub blue-Known :
    (dag : Dag) (b : BlockId) (n : Node)
    → node dag b ≡ some n
    → IsNode dag b n
    → Known dag n.blue_set
blue-Known dag b n hb r a m = elim (beq-cases b a) [
  | inl (e, _) ↦ rw (sym e) (n, hb)
  | inr f ↦ r.known a (ground (arith, r.blue_past a m))
]

-- The DAG with one more node.
abbrev pub extend : Dag → BlockId → Node → Dag
extend dag id new = record dag { nodes = insert id new dag.nodes }

module _ (dag : Dag) (id : BlockId) (new : Node) (free : node dag id ≡ none) where
  pub extend-keeps :
      (a : BlockId) (m : Node) → node dag a ≡ some m → node (extend dag id new) a ≡ some m
  extend-keeps a m h = lookup-insert_new id a new dag.nodes free h

  pub extend-agrees :
      (a : BlockId) (m : Node)
      → Holds dag a
      → node (extend dag id new) a ≡ some m
      → node dag a ≡ some m
  extend-agrees a m (q, hq) h = hq ∙ (sym (extend-keeps a q hq) ∙ h)

  pub Known-extend : (xs : List BlockId) → Known dag xs → Known (extend dag id new) xs
  Known-extend xs known b m = let (q, hq) = known b m in (q, extend-keeps b q hq)

  pub apart-extend :
      (x y : BlockId) → Holds dag x → Holds dag y → apart dag x y ≡ apart (extend dag id new) x y
  apart-extend x y (m, hx) (n, hy) =
      apart_cong dag (extend dag id new) x y (hx ∙ sym (extend-keeps x m hx))
        (hy ∙ sym (extend-keeps y n hy))

  pub IsCluster-extend :
      (xs : List BlockId)
      → Known dag xs
      → IsCluster (apart dag) dag.k xs
      → IsCluster (apart (extend dag id new)) dag.k xs
  IsCluster-extend xs known =
      IsCluster-cong (apart dag) (apart (extend dag id new)) dag.k xs
        (λ x y hx hy. apart-extend x y (known x hx) (known y hy))

  pub IsSorted-extend :
      (xs : List BlockId) → Known dag xs → IsSorted dag xs → IsSorted (extend dag id new) xs
  IsSorted-extend [] known s = tt
  IsSorted-extend (x ∷ xs) known s = (
    λ c m p q hp hq.
        s.0 c m p q (extend-agrees x p (Known-head dag x xs known) hp)
          (extend-agrees c q (Known-tail dag x xs known c m) hq),
    IsSorted-extend xs (Known-tail dag x xs known) s.1,
  )

  pub IsBest-extend :
      (ids : List BlockId) (b : BlockId)
      → Known dag ids
      → IsBest dag ids b
      → IsBest (extend dag id new) ids b
  IsBest-extend ids b known r = record {
    among = r.among;
    most = λ a n m ha hn hm.
        r.most a n m ha (extend-agrees a n (known a ha) hn)
          (extend-agrees b m (known b r.among) hm);
  }

  Merges-extend :
      (b : BlockId) (n : Node) (sp : BlockId) (m : Node)
      → IsNode dag b n
      → Merges dag b n sp m
      → Merges (extend dag id new) b n sp m
  Merges-extend b n sp m r o = record {
    other = o.other;
    held = extend-keeps sp m o.held;
    best = IsBest-extend n.parents sp (λ a h. r.known a (r.parents_past a h)) o.best;
    rises = o.rises;
    members = o.members;
    disjoint = o.disjoint;
    blues_distinct = o.blues_distinct;
    reds_distinct = o.reds_distinct;
    blues_sorted =
        IsSorted-extend n.mergeset_blues (λ a h. r.known a (ground (arith, o.members a)))
          o.blues_sorted;
    reds_sorted =
        IsSorted-extend n.mergeset_reds (λ a h. r.known a (ground (arith, o.members a)))
          o.reds_sorted;
  }

  IsOrigin-extend :
      (b : BlockId) (n : Node)
      → IsNode dag b n
      → (o : Option BlockId) → IsOrigin dag b n o
      → IsOrigin (extend dag id new) b n o
  IsOrigin-extend b n r none h = h
  IsOrigin-extend b n r (some sp) (m, h) = (m, Merges-extend b n sp m r h)

  -- What a valid DAG holds, the extension holds as well.
  pub IsNode-extend :
      (b : BlockId) (n : Node)
      → node dag b ≡ some n
      → IsNode dag b n
      → IsNode (extend dag id new) b n
  IsNode-extend b n hb r = record {
    known = Known-extend n.past r.known;
    closed = λ a c m ha hm hc. r.closed a c m ha (extend-agrees a m (r.known a ha) hm) hc;
    acyclic = r.acyclic;
    past_distinct = r.past_distinct;
    blue_distinct = r.blue_distinct;
    blue_self = r.blue_self;
    blue_past = r.blue_past;
    cluster = IsCluster-extend n.blue_set (blue-Known dag b n hb r) r.cluster;
    parents_past = r.parents_past;
    origin = IsOrigin-extend b n r n.selected_parent r.origin;
  }
