-- ===== src/Ghostdag/Colour.antt =====
-- The greedy classification: it splits the mergeset, and keeps the accepted blocks a k-cluster.
use tao.Common.{
  ◌≤◌, ◌+◌, Bool, true, false, some, List, [], ◌∷◌, ◌++◌, ◌≡◌, refl, ltb, arith, Bool-cases, inl,
  inr, ◌||◌, sym, ◌⊎◌, ◌∙◌,
}
use mathlib.Core.List.{append-nil}
use mathlib.Core.Path.{subst}
use tao.Common.Keys.{nat_eq, contains, beq-cases}
use tao.Common.Sets.{select, Distinct, contains-append, contains-select}
use tao.Ghostdag.{BlockId, Dag, Colouring, keeps_blues, colour, colour_all}
use tao.Ghostdag.Anticone.{
  Holds, Known, Known-head, Known-tail, apart, apart_irrefl, apart_sym, anticone_in_total,
}
use tao.Ghostdag.Cluster.{degree, IsCluster, IsCluster-append}
use tao.Ghostdag.Sort.{IsSorted}

-- `keeps_blues` returns, and tells whether each of the blocks has room for one more.
keeps_blues_lem :
    (dag : Dag) (accepted xs : List BlockId)
    → Known dag accepted
    → Known dag xs
    → (ok : Bool) × (keeps_blues dag accepted xs ≡ some ok)
      × (ok ≡ true
          → (x : BlockId) → contains xs x ≡ true
          → degree (apart dag) x accepted + 1 ≤ dag.k)
unfolding keeps_blues select
keeps_blues_lem dag accepted [] ka kx = (true, refl, λ _ x m. absurd (ground arith))
keeps_blues_lem dag accepted (x ∷ xs) ka kx =
    let hx = Known-head dag x xs kx in
    let anti = anticone_in_total dag x accepted hx ka in
    let (ok, run, room) = keeps_blues_lem dag accepted xs ka (Known-tail dag x xs kx) in
    elim (Bool-cases (ltb dag.k (degree (apart dag) x accepted + 1))) [
      | inl full ↦ (false, rw (anti, full) refl, λ bad. absurd (ground arith))
      | inr free ↦ (
        ok,
        rw (anti, free) run,
        λ good y m. elim (beq-cases x y) [
          | inl (e, _) ↦ rw (sym e) ground arith
          | inr f ↦ room good y (ground arith)
        ],
      )
    ]

-- One round: the block is accepted as a blue, or set aside as a red.
abbrev Joined : Dag → BlockId → Colouring → Colouring → Type 0
Joined dag c s t =
    IsCluster (apart dag) dag.k t.accepted
    × ((t ≡ record s { accepted = s.accepted ++ c ∷ []; blues = s.blues ++ c ∷ [] })
        ⊎ (t ≡ record s { reds = s.reds ++ c ∷ [] }))

colour_lem :
    (dag : Dag) (c : BlockId) (s : Colouring)
    → Holds dag c
    → Known dag s.accepted
    → IsCluster (apart dag) dag.k s.accepted
    → (t : Colouring) × (colour dag c s ≡ some t) × Joined dag c s t
unfolding colour select
colour_lem dag c s hc known cluster =
    let anti = anticone_in_total dag c s.accepted hc known in
    let red = record s { reds = s.reds ++ c ∷ [] } in
    elim (Bool-cases (ltb dag.k (degree (apart dag) c s.accepted))) [
      | inl over ↦ (red, rw (anti, over) refl, (cluster, inr refl))
      | inr within ↦
          let (ok, run, room) =
            keeps_blues_lem dag s.accepted (select (λ x. apart dag x c) s.accepted) known (λ b m.
              known b (ground (arith, contains-select (λ x. apart dag x c) s.accepted b))) in
          elim (Bool-cases ok) [
            | inl good ↦ (
              record s { accepted = s.accepted ++ c ∷ []; blues = s.blues ++ c ∷ [] },
              rw (anti, within, run, good) refl,
              (
                IsCluster-append (apart dag) (apart_irrefl dag) (apart_sym dag) dag.k c s.accepted
                    cluster (ground arith) (room good),
                inl refl,
              ),
            )
            | inr bad ↦ (red, rw (anti, within, run, bad) refl, (cluster, inr refl))
          ]
    ]

-- The classification of `cs` after `s`: the blocks `blues` are accepted, the blocks `reds` are not.
pub record Coloured (dag : Dag) (cs : List BlockId) (s t : Colouring) : Type 0 where
  pub blues : List BlockId
  pub reds : List BlockId
  pub accepted_eq : t.accepted ≡ s.accepted ++ blues
  pub blues_eq : t.blues ≡ s.blues ++ blues
  pub reds_eq : t.reds ≡ s.reds ++ reds
  pub members : (a : BlockId) → (contains blues a || contains reds a) ≡ contains cs a
  pub distinct :
      Distinct cs
      → Distinct blues
        × (Distinct reds × ((a : BlockId) → contains blues a ≡ true → contains reds a ≡ false))
  pub sorted : IsSorted dag cs → IsSorted dag blues × IsSorted dag reds
  pub cluster : IsCluster (apart dag) dag.k t.accepted

Known-snoc :
    (dag : Dag) (c : BlockId) (xs : List BlockId)
    → Holds dag c
    → Known dag xs
    → Known dag (xs ++ c ∷ [])
Known-snoc dag c xs hc known b m = elim (beq-cases c b) [
  | inl (e, _) ↦ rw (sym e) hc
  | inr f ↦ known b (ground (arith, contains-append xs (c ∷ []) b))
]

append-cons :
    (xs : List BlockId) (c : BlockId) (ys : List BlockId) → (xs ++ c ∷ []) ++ ys ≡ xs ++ c ∷ ys
append-cons [] c ys = refl
append-cons (x ∷ xs) c ys = rw (append-cons xs c ys) refl

Coloured-blue :
    (dag : Dag) (c : BlockId) (cs : List BlockId) (s u : Colouring)
    → Coloured dag cs (record s { accepted = s.accepted ++ c ∷ []; blues = s.blues ++ c ∷ [] }) u
    → Coloured dag (c ∷ cs) s u
Coloured-blue dag c cs s u r = record {
  blues = c ∷ r.blues;
  reds = r.reds;
  accepted_eq = r.accepted_eq ∙ append-cons s.accepted c r.blues;
  blues_eq = r.blues_eq ∙ append-cons s.blues c r.blues;
  reds_eq = r.reds_eq;
  members = λ a. ground (arith, r.members a);
  distinct = λ d.
      let (db, (dr, split)) = r.distinct d.1 in
      (
        (ground (arith, r.members c), db),
        (
          dr,
          λ a m. elim (beq-cases c a) [
            | inl (e, _) ↦ rw (sym e) ground (arith, r.members c)
            | inr f ↦ split a (ground arith)
          ],
        ),
      );
  sorted =
      λ o. let (ob, or) = r.sorted o.1 in ((λ a m. o.0 a (ground (arith, r.members a)), ob), or);
  cluster = r.cluster;
}

Coloured-red :
    (dag : Dag) (c : BlockId) (cs : List BlockId) (s u : Colouring)
    → Coloured dag cs (record s { reds = s.reds ++ c ∷ [] }) u
    → Coloured dag (c ∷ cs) s u
Coloured-red dag c cs s u r = record {
  blues = r.blues;
  reds = c ∷ r.reds;
  accepted_eq = r.accepted_eq;
  blues_eq = r.blues_eq;
  reds_eq = r.reds_eq ∙ append-cons s.reds c r.reds;
  members = λ a. ground (arith, r.members a);
  distinct = λ d.
      let (db, (dr, split)) = r.distinct d.1 in
      (
        db,
        (
          (ground (arith, r.members c), dr),
          λ a m. elim (beq-cases c a) [
            | inl (e, _) ↦ absurd (ground (arith, r.members c))
            | inr f ↦ ground (arith, split a m)
          ],
        ),
      );
  sorted =
      λ o. let (ob, or) = r.sorted o.1 in (ob, (λ a m. o.0 a (ground (arith, r.members a)), or));
  cluster = r.cluster;
}

pub colour_all_lem :
    (dag : Dag) (cs : List BlockId) (s : Colouring)
    → Known dag cs
    → Known dag s.accepted
    → IsCluster (apart dag) dag.k s.accepted
    → (u : Colouring) × (colour_all dag cs s ≡ some u) × Coloured dag cs s u
unfolding colour_all
colour_all_lem dag [] s kc ka cluster = (
  s,
  refl,
  record {
    blues = [];
    reds = [];
    accepted_eq = sym (append-nil _);
    blues_eq = sym (append-nil _);
    reds_eq = sym (append-nil _);
    members = λ a. refl;
    distinct = λ _. (tt, (tt, λ a m. refl));
    sorted = λ _. (tt, tt);
    cluster = cluster;
  },
)
colour_all_lem dag (c ∷ cs) s kc ka cluster =
    let hc = Known-head dag c cs kc in
    let rest = Known-tail dag c cs kc in
    let (t, run, (joined, how)) = colour_lem dag c s hc ka cluster in
    elim how [
      | inl e ↦
          let blue = record s { accepted = s.accepted ++ c ∷ []; blues = s.blues ++ c ∷ [] } in
          let (u, more, r) =
            colour_all_lem dag cs blue rest (Known-snoc dag c s.accepted hc ka)
              (subst (λ o. IsCluster (apart dag) dag.k o.accepted) e joined) in
          (u, rw (run, e) more, Coloured-blue dag c cs s u r)
      | inr e ↦
          let red = record s { reds = s.reds ++ c ∷ [] } in
          let (u, more, r) = colour_all_lem dag cs red rest ka cluster in
          (u, rw (run, e) more, Coloured-red dag c cs s u r)
    ]
