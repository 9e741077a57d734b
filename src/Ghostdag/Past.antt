-- ===== src/Ghostdag/Past.antt =====
-- The ancestors of a new block: its parents and theirs.
use tao.Common.{
  Bool-cases, some_inj, sym, true, some, List, [], ◌∷◌, ◌≡◌, refl, arith, inl, inr, ◌⊎◌, ◌||◌,
}
use tao.Common.Keys.{◌==◌, nat_eq, contains, beq_refl, beq-cases}
use tao.Common.Sets.{
  set_insert, set_extend, Distinct, contains-set_insert, contains-set_extend, Distinct-set_insert,
  Distinct-set_extend,
}
use tao.Ghostdag.{BlockId, Node, Dag, node, gather_past}
use tao.Ghostdag.Anticone.{Known, Known-head, Known-tail}

-- The block is a parent, or an ancestor of one.
abbrev pub Reaches : Dag → List BlockId → BlockId → Type 0
Reaches dag ps a =
    (p : BlockId) × (n : Node) × (contains ps p ≡ true)
    × (node dag p ≡ some n)
    × ((p == a || contains n.past a) ≡ true)

pub record Gathered (dag : Dag) (start ps past : List BlockId) : Type 0 where
  pub sound : (a : BlockId) → contains past a ≡ true → (contains start a ≡ true) ⊎ Reaches dag ps a
  pub kept : (a : BlockId) → contains start a ≡ true → contains past a ≡ true
  pub complete : (a : BlockId) → Reaches dag ps a → contains past a ≡ true
  pub distinct : Distinct start → Distinct past

contains-start :
    (p a : BlockId) (start xs : List BlockId)
    → contains (set_extend (set_insert p start) xs) a
      ≡ ((p == a || contains xs a) || contains start a)
contains-start p a start xs =
    ground (arith, contains-set_extend (set_insert p start) xs a, contains-set_insert p a start)

pub gather_past_lem :
    (dag : Dag) (start ps : List BlockId)
    → Known dag ps
    → (past : List BlockId) × (gather_past dag start ps ≡ some past) × Gathered dag start ps past
unfolding gather_past
gather_past_lem dag start [] known = (
  start,
  refl,
  record {
    sound = λ a m. inl m;
    kept = λ a m. m;
    complete = λ a (p, n, m, _, _). absurd (ground arith);
    distinct = λ d. d;
  },
)
gather_past_lem dag start (p ∷ ps) known =
    let (n, hp) = Known-head dag p ps known in
    let next = set_extend (set_insert p start) n.past in
    let (past, run, r) = gather_past_lem dag next ps (Known-tail dag p ps known) in
    (
      past,
      rw hp run,
      record {
        sound = λ a m. elim (r.sound a m) [
          | inl old ↦ elim (Bool-cases (contains start a)) [
            | inl h ↦ inl h
            | inr h ↦ inr (
              p,
              n,
              ground (arith, beq_refl p),
              hp,
              ground (arith, contains-start p a start n.past),
            )
          ]
          | inr (q, o, hq, ho, e) ↦ inr (q, o, ground arith, ho, e)
        ];
        kept = λ a m. r.kept a (ground (arith, contains-start p a start n.past));
        complete = λ a (q, o, hq, ho, e). elim (beq-cases p q) [
          | inl (same, _) ↦
              let alike : o ≡ n = some_inj (rw (sym ho, sym same) hp) in
              let there : (p == a || contains n.past a) ≡ true = rw (sym alike, same) e in
              r.kept a (ground (arith, contains-start p a start n.past))
          | inr f ↦ r.complete a (q, o, ground arith, ho, e)
        ];
        distinct = λ d.
            r.distinct
              (Distinct-set_extend (set_insert p start) n.past (Distinct-set_insert p start d));
      },
    )
