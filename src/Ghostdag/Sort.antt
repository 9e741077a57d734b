-- ===== src/Ghostdag/Sort.antt =====
-- The sort by topological key: total on known blocks, with the same blocks, in order.
use tao.Common.{
  ℕ, true, false, some, List, [], ◌∷◌, ◌≡◌, refl, length, arith, Bool-cases, inl, inr, sym,
}
use tao.Common.Keys.{nat_eq, contains, beq-cases}
use tao.Common.Sets.{Distinct}
use tao.Ghostdag.{BlockId, Node, Dag, node, topo_key, key_le, insert_by_key, sort_by_key}
use tao.Ghostdag.Anticone.{Holds, Known, Known-head, Known-tail}

-- The first block has at most as many ancestors, and with as many its id is not above the other's.
abbrev pub NotAfter : Dag → BlockId → BlockId → Type 0
NotAfter dag b c =
    (n m : Node)
    → node dag b ≡ some n
    → node dag c ≡ some m
    → key_le (length n.past, b) (length m.past, c) ≡ true

abbrev pub IsSorted : Dag → List BlockId → Type 0
IsSorted dag [] = Unit
IsSorted dag (b ∷ bs) = ((c : BlockId) → contains bs c ≡ true → NotAfter dag b c) × IsSorted dag bs

-- `ds` holds the blocks of `bs`, in order if they were.
pub record Arranged (dag : Dag) (ordered : Type 0) (bs ds : List BlockId) : Type 0 where
  pub members : (a : BlockId) → contains ds a ≡ contains bs a
  pub distinct : Distinct bs → Distinct ds
  pub sorted : ordered → IsSorted dag ds

key_le_total : (x y : ℕ × BlockId) → key_le x y ≡ false → key_le y x ≡ true
key_le_total x y h = ground arith

key_le_trans : (x y z : ℕ × BlockId) → key_le x y ≡ true → key_le y z ≡ true → key_le x z ≡ true
key_le_trans x y z h i = ground arith

NotAfter-trans :
    (dag : Dag) (a b c : BlockId)
    → Holds dag b
    → NotAfter dag a b
    → NotAfter dag b c
    → NotAfter dag a c
NotAfter-trans dag a b c (n, hb) f g p q hp hq =
    key_le_trans (length p.past, a) (length n.past, b) (length q.past, c) (f p n hp hb)
      (g n q hb hq)

NotAfter-of :
    (dag : Dag) (b c : BlockId) (n m : Node)
    → node dag b ≡ some n
    → node dag c ≡ some m
    → key_le (length n.past, b) (length m.past, c) ≡ true
    → NotAfter dag b c
NotAfter-of dag b c n m hb hc le p q hp hq = ground arith

insert_front :
    (dag : Dag) (b c : BlockId) (cs : List BlockId)
    → Known dag (c ∷ cs)
    → NotAfter dag b c
    → IsSorted dag (c ∷ cs)
    → IsSorted dag (b ∷ c ∷ cs)
insert_front dag b c cs known le s = (
  λ a m. elim (beq-cases c a) [
    | inl (e, _) ↦ rw (sym e) le
    | inr f ↦ NotAfter-trans dag b c a (Known-head dag c cs known) le (s.0 a (ground arith))
  ],
  s,
)

insert_back :
    (dag : Dag) (b c : BlockId) (cs ds : List BlockId)
    → NotAfter dag c b
    → Arranged dag (IsSorted dag cs) (b ∷ cs) ds
    → Arranged dag (IsSorted dag (c ∷ cs)) (b ∷ c ∷ cs) (c ∷ ds)
insert_back dag b c cs ds le r = record {
  members = λ a. ground (arith, r.members a);
  distinct = λ d. (
    ground (arith, r.members c, nat_eq.same_iff b c, nat_eq.same_iff c b),
    r.distinct (ground arith),
  );
  sorted = λ s. (
    λ a m. elim (beq-cases b a) [
      | inl (e, _) ↦ rw (sym e) le
      | inr f ↦ s.0 a (ground (arith, r.members a))
    ],
    r.sorted s.1,
  );
}

insert_by_key_lem :
    (dag : Dag) (b : BlockId) (cs : List BlockId)
    → Holds dag b
    → Known dag cs
    → (ds : List BlockId) × (insert_by_key dag b cs ≡ some ds)
      × Arranged dag (IsSorted dag cs) (b ∷ cs) ds
unfolding insert_by_key topo_key
insert_by_key_lem dag b [] hb known = (
  b ∷ [],
  refl,
  record {
    members = λ a. refl;
    distinct = λ d. d;
    sorted = λ s. (λ c m. absurd (ground arith), tt);
  },
)
insert_by_key_lem dag b (c ∷ cs) (n, hb) known =
    let (m, hc) = Known-head dag c cs known in
    let (ds, run, r) = insert_by_key_lem dag b cs (n, hb) (Known-tail dag c cs known) in
    elim (Bool-cases (key_le (length n.past, b) (length m.past, c))) [
      | inl le ↦ (
        b ∷ c ∷ cs,
        rw (hb, hc, le) refl,
        record {
          members = λ a. refl;
          distinct = λ d. d;
          sorted = insert_front dag b c cs known (NotAfter-of dag b c n m hb hc le);
        },
      )
      | inr gt ↦ (
        c ∷ ds,
        rw (hb, hc, gt, run) refl,
        insert_back dag b c cs ds
            (NotAfter-of dag c b m n hc hb (key_le_total (length n.past, b) (length m.past, c) gt))
            r,
      )
    ]

pub sort_by_key_lem :
    (dag : Dag) (bs : List BlockId)
    → Known dag bs
    → (ds : List BlockId) × (sort_by_key dag bs ≡ some ds) × Arranged dag (Unit {0}) bs ds
unfolding sort_by_key
sort_by_key_lem dag [] known =
    ([], refl, record { members = λ a. refl; distinct = λ d. d; sorted = λ _. tt })
sort_by_key_lem dag (b ∷ bs) known =
    let (cs, run, r) = sort_by_key_lem dag bs (Known-tail dag b bs known) in
    let (ds, more, q) =
      insert_by_key_lem dag b cs (Known-head dag b bs known)
        (λ a m. known a (ground (arith, r.members a))) in
    (
      ds,
      rw (run, more) refl,
      record {
        members = λ a. ground (arith, q.members a, r.members a);
        distinct = λ d. q.distinct (ground (arith, r.members b, r.distinct));
        sorted = λ _. q.sorted (r.sorted tt);
      },
    )
