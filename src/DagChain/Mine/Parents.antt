-- ===== src/DagChain/Mine/Parents.antt =====
-- The parents of a mined block are known, distinct, some, and not too many.
use tao.Common.{
  ℕ, zero, suc, ◌-◌, ◌≤◌, ◌≡◌, refl, true, false, List, [], ◌∷◌, ltb, inl, inr, arith, length, take,
  All, Bool-cases, length-take,
}
use tao.Common.Keys.{nat_eq, list_eq, contains}
use tao.Consensus.Block.{BlockId}
use tao.DagChain.{Externals, DagChain, max_parents}
use tao.DagChain.Validate.{all_distinct, all_known}
use tao.DagChain.Accept.Invariant.{IsValid, Known}
use tao.DagChain.Mine.{without, tip_parents}

-- What is left of a list of tips.
contains-take :
    (n : ℕ) (ps : List BlockId) (a : BlockId)
    → contains ps a ≡ false
    → contains (take n ps) a ≡ false
contains-take zero ps a e = refl
contains-take (suc n) [] a e = refl
contains-take (suc n) (p ∷ ps) a e = ground (arith, contains-take n ps a)

contains-without :
    (h : BlockId) (ps : List BlockId) (a : BlockId)
    → contains ps a ≡ false
    → contains (without h ps) a ≡ false
unfolding without
contains-without h [] a e = refl
contains-without h (p ∷ ps) a e = ground (arith, contains-without h ps a)

without_gone : (h : BlockId) (ps : List BlockId) → contains (without h ps) h ≡ false
unfolding without
without_gone h [] = refl
without_gone h (p ∷ ps) = ground (arith, without_gone h ps)

all_distinct-take :
    (n : ℕ) (ps : List BlockId) → all_distinct ps ≡ true → all_distinct (take n ps) ≡ true
unfolding all_distinct
all_distinct-take zero ps e = refl
all_distinct-take (suc n) [] e = refl
all_distinct-take (suc n) (p ∷ ps) e = ground (arith, contains-take n ps p, all_distinct-take n ps)

all_distinct-without :
    (h : BlockId) (ps : List BlockId) → all_distinct ps ≡ true → all_distinct (without h ps) ≡ true
unfolding all_distinct without
all_distinct-without h [] e = refl
all_distinct-without h (p ∷ ps) e =
    ground (arith, contains-without h ps p, all_distinct-without h ps)

all_known-take :
    (n : ℕ) (blocks ps : List BlockId)
    → all_known blocks ps ≡ true
    → all_known blocks (take n ps) ≡ true
unfolding all_known
all_known-take zero blocks ps e = refl
all_known-take (suc n) blocks [] e = refl
all_known-take (suc n) blocks (p ∷ ps) e = ground (arith, all_known-take n blocks ps)

all_known-without :
    (h : BlockId) (blocks ps : List BlockId)
    → all_known blocks ps ≡ true
    → all_known blocks (without h ps) ≡ true
unfolding all_known without
all_known-without h blocks [] e = refl
all_known-without h blocks (p ∷ ps) e = ground (arith, all_known-without h blocks ps)

All-all_known : (blocks ps : List BlockId) → All (Known blocks) ps → all_known blocks ps ≡ true
unfolding all_known
All-all_known blocks [] k = refl
All-all_known blocks (p ∷ ps) k = rw (k.0, All-all_known blocks ps k.1) refl

module _ (x : Externals) (s : DagChain x) where
  pub tip_parents-all_known :
      IsValid s → Known s.blocks (x.dag_tip s.engine) → all_known s.blocks (tip_parents x s) ≡ true
  unfolding tip_parents all_known
  tip_parents-all_known v k =
      let tips : all_known s.blocks s.tips ≡ true = All-all_known s.blocks s.tips v.tips_known in
      elim (Bool-cases (ltb max_parents (length s.tips))) [
        | inl e ↦
            rw (tip_parents, e, k)
              (all_known-take (max_parents - 1) s.blocks (without (x.dag_tip s.engine) s.tips)
                (all_known-without (x.dag_tip s.engine) s.blocks s.tips tips))
        | inr e ↦ rw (tip_parents, e) tips
      ]

  pub tip_parents-all_distinct : all_distinct s.tips ≡ true → all_distinct (tip_parents x s) ≡ true
  unfolding tip_parents all_distinct
  tip_parents-all_distinct d =
      let h : BlockId = x.dag_tip s.engine in
      elim (Bool-cases (ltb max_parents (length s.tips))) [
        | inl e ↦
            rw
              (
                tip_parents,
                e,
                contains-take (max_parents - 1) (without h s.tips) h (without_gone h s.tips),
              )
              (all_distinct-take (max_parents - 1) (without h s.tips)
                (all_distinct-without h s.tips d))
        | inr e ↦ rw (tip_parents, e) d
      ]

  pub length-tip_parents :
      IsValid s → (1 ≤ length (tip_parents x s)) × (length (tip_parents x s) ≤ max_parents)
  unfolding tip_parents
  length-tip_parents v = elim (Bool-cases (ltb max_parents (length s.tips))) [
    | inl e ↦
        rw (tip_parents, e)
          (
            omega arith,
            omega (arith, length-take (max_parents - 1) (without (x.dag_tip s.engine) s.tips)),
          )
    | inr e ↦
        let (t, rest, some_tip) = v.some_tip in
        rw (tip_parents, e) (rw some_tip (omega arith), ground arith)
  ]
