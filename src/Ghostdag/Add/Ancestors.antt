-- ===== src/Ghostdag/Add/Ancestors.antt =====
-- The ancestors of a new block: closed under ancestors, and without the block.
use tao.Common.{true, false, none, some, List, [], ◌≡◌, sym, arith, inl, inr, Bool-cases}
use tao.Common.Keys.{nat_eq, contains, beq_refl, beq-cases}
use tao.Ghostdag.{BlockId, Node, Dag, node}
use tao.Ghostdag.Anticone.{Known}
use tao.Ghostdag.Past.{Reaches, Gathered}
use tao.Ghostdag.Valid.{IsValid}

module _ (dag : Dag) (valid : IsValid dag) (ps past : List BlockId)
    (r : Gathered dag [] ps past) where
  reached : (a : BlockId) → contains past a ≡ true → Reaches dag ps a
  reached a m = elim (r.sound a m) [ inl bad ↦ absurd (ground arith) | inr found ↦ found ]

  pub past-Known : Known dag past
  past-Known a m =
      let (p, n, hp, hn, e) = reached a m in
      elim (beq-cases p a) [
        | inl (same, _) ↦ (n, rw (sym same) hn)
        | inr other ↦ (valid.each p n hn).known a (ground arith)
      ]

  pub past_closed :
      (a c : BlockId) (m : Node)
      → contains past a ≡ true
      → node dag a ≡ some m
      → contains m.past c ≡ true
      → contains past c ≡ true
  past_closed a c m ha hm hc =
      let (p, n, hp, hn, e) = reached a ha in
      elim (beq-cases p a) [
        | inl (same, _) ↦ r.complete c (a, m, rw (sym same) hp, hm, ground arith)
        | inr other ↦
            let up : contains n.past c ≡ true =
              (valid.each p n hn).closed a c m (ground arith) hm hc in
            r.complete c (p, n, hp, hn, ground arith)
      ]

  pub past-parent : (p : BlockId) → Known dag ps → contains ps p ≡ true → contains past p ≡ true
  past-parent p known hp =
      let (n, hn) = known p hp in r.complete p (p, n, hp, hn, ground (arith, beq_refl p))

  pub past_acyclic : (id : BlockId) → node dag id ≡ none → contains past id ≡ false
  past_acyclic id free = elim (Bool-cases (contains past id)) [
    | inl m ↦ let (n, hn) = past-Known id m in absurd (ground arith)
    | inr h ↦ h
  ]
