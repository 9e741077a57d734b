-- ===== src/Ghostdag/Order/Walk.antt =====
-- The chain of selected parents, and the blocks that it puts out.
use mathlib.Core.List.{append_assoc}
use tao.Common.{
  ℕ, zero, suc, ◌≤◌, ◌<◌, true, false, Option, none, some, List, [], ◌∷◌, ◌++◌, ◌≡◌, ◌≢◌, refl, sym,
  ◌∙◌, arith, inl, inr, length, ap, nat_beq,
}
use tao.Common.Keys.{nat_eq, contains, beq_refl, beq-cases}
use tao.Common.Sets.{Distinct, contains-append, Distinct-append}
use tao.Ghostdag.{BlockId, Node, Dag, node, chain_down, emit}
use tao.Ghostdag.Sort.{sort_by_key_lem}
use tao.Ghostdag.Valid.{IsNode, IsValid, IsOrigin, Merges}

-- The chain of selected parents down from a block, and the blocks that it puts out.
pub record Chain (dag : Dag) (b : BlockId) (n : Node) (fuel : ℕ) : Type 0 where
  chain : List BlockId
  pub listed : List BlockId
  pub down : (acc : List BlockId) → chain_down fuel dag (some b) acc ≡ some (chain ++ acc)
  pub emits :
      (rest out : List BlockId) → emit dag (chain ++ rest) out ≡ emit dag rest (out ++ listed)
  pub members : (a : BlockId) → contains listed a ≡ contains (b ∷ n.past) a
  pub distinct : Distinct listed

Chain-genesis :
    (dag : Dag) (n : Node) (fuel : ℕ)
    → node dag dag.genesis ≡ some n
    → n.selected_parent ≡ none
    → n.past ≡ []
    → Chain dag dag.genesis n (suc fuel)
unfolding chain_down emit
Chain-genesis dag n fuel held none_sp empty = record {
  chain = dag.genesis ∷ [];
  listed = dag.genesis ∷ [];
  down = λ acc. rw (held, none_sp) refl;
  emits = λ rest out. rw (beq_refl dag.genesis) refl;
  members = λ a. rw empty refl;
  distinct = (refl, tt);
}

-- What a block puts out after its selected parent's blocks `below`.
abbrev after_parent : List BlockId → List BlockId → List BlockId → BlockId → List BlockId
after_parent below blues reds b = ((below ++ blues) ++ reds) ++ b ∷ []

after_parent_assoc :
    (out below blues reds : List BlockId) (b : BlockId)
    → after_parent (out ++ below) blues reds b ≡ out ++ after_parent below blues reds b
after_parent_assoc out below blues reds b = simp append_assoc

module _ (dag : Dag) (valid : IsValid dag) (b : BlockId) (n : Node) (held : node dag b ≡ some n)
    (sp : BlockId) (m : Node) (o : Merges dag b n sp m) where
  IsNode-b : IsNode dag b n
  IsNode-b = valid.each b n held

  sp_past : contains n.past sp ≡ true
  sp_past = IsNode-b.parents_past sp o.best.among

  module _ (below blues reds : List BlockId)
      (hl : (a : BlockId) → contains below a ≡ contains (sp ∷ m.past) a)
      (hb : (a : BlockId) → contains blues a ≡ contains n.mergeset_blues a)
      (hr : (a : BlockId) → contains reds a ≡ contains n.mergeset_reds a) where
    members_before : (a : BlockId) → contains ((below ++ blues) ++ reds) a ≡ contains n.past a
    members_before a = ground (
      arith,
      contains-append (below ++ blues) reds a,
      contains-append below blues a,
      hl a,
      hb a,
      hr a,
      o.members a,
      sp_past,
      nat_eq.same_iff a sp,
      nat_eq.same_iff sp a,
      IsNode-b.closed sp a m sp_past o.held,
    )

    members_split :
        (a : BlockId) → contains (after_parent below blues reds b) a ≡ contains (b ∷ n.past) a
    members_split a =
        ground (arith, contains-append ((below ++ blues) ++ reds) (b ∷ []) a, members_before a)

    Distinct-split :
        Distinct below → Distinct blues → Distinct reds → Distinct (after_parent below blues reds b)
    Distinct-split dl db dr =
        Distinct-append ((below ++ blues) ++ reds) (b ∷ [])
          (Distinct-append (below ++ blues) reds
            (Distinct-append below blues dl db (λ a h.
              ground (arith, hl a, hb a, o.members a, nat_eq.same_iff a sp, nat_eq.same_iff sp a)))
            dr
            (λ a h. ground (
              arith,
              contains-append below blues a,
              hl a,
              hb a,
              hr a,
              o.members a,
              o.disjoint a,
              nat_eq.same_iff a sp,
              nat_eq.same_iff sp a,
            )))
          (refl, tt)
          (λ a h. elim (beq-cases b a) [
            | inl (e, _) ↦
                let low : contains n.past b ≡ true = rw e (sym (members_before a) ∙ h) in
                absurd (ground (arith, IsNode-b.acyclic))
            | inr f ↦ ground arith
          ])

Chain-step :
    (dag : Dag) (b : BlockId) (n : Node) (fuel : ℕ) (sp : BlockId) (m : Node)
    → IsValid dag
    → node dag b ≡ some n
    → n.selected_parent ≡ some sp
    → Merges dag b n sp m
    → Chain dag sp m fuel
    → Chain dag b n (suc fuel)
unfolding chain_down emit
Chain-step dag b n fuel sp m valid held top o r =
    let good = valid.each b n held in
    let (blues, run_b, ab) =
      sort_by_key_lem dag n.mergeset_blues (λ a h. good.known a (ground (arith, o.members a))) in
    let (reds, run_r, ar) =
      sort_by_key_lem dag n.mergeset_reds (λ a h. good.known a (ground (arith, o.members a))) in
    record {
      chain = r.chain ++ b ∷ [];
      listed = after_parent r.listed blues reds b;
      down = λ acc.
          rw (held, top)
            (r.down (b ∷ acc) ∙ ap (λ l. some l) (sym (append_assoc r.chain (b ∷ []) acc)));
      emits = λ rest out. rw append_assoc (
          r.emits (b ∷ rest) out
          ∙ rw
              (
                not-genesis o.other,
                held,
                run_b,
                run_r,
                after_parent_assoc out r.listed blues reds b,
              )
              refl);
      members =
          members_split dag valid b n held sp m o r.listed blues reds r.members ab.members
            ar.members;
      distinct =
          Distinct-split dag valid b n held sp m o r.listed blues reds r.members ab.members
            ar.members r.distinct (ab.distinct o.blues_distinct) (ar.distinct o.reds_distinct);
    }
  where
    not-genesis : b ≢ dag.genesis → nat_beq b dag.genesis ≡ false
    not-genesis other = ground arith

Chain-of :
    (dag : Dag) (b : BlockId) (n : Node) (fuel : ℕ)
    → IsValid dag
    → node dag b ≡ some n
    → ((sp : BlockId) (m : Node) → Merges dag b n sp m → Chain dag sp m fuel)
    → (o : Option BlockId) → n.selected_parent ≡ o
    → IsOrigin dag b n o
    → Chain dag b n (suc fuel)
Chain-of dag b n fuel valid held below none e (first, empty, _, _) =
    rw first (Chain-genesis dag n fuel (rw (sym first) held) e empty)
Chain-of dag b n fuel valid held below (some sp) e (m, r) =
    Chain-step dag b n fuel sp m valid held e r (below sp m r)

positive : (xs : List BlockId) (b : BlockId) → contains xs b ≡ true → 0 < length xs
positive [] b h = absurd (ground arith)
positive (x ∷ xs) b h = omega arith

-- With the blue score as fuel the chain reaches genesis.
pub chain_lem :
    (dag : Dag) (fuel : ℕ) (b : BlockId) (n : Node)
    → IsValid dag
    → node dag b ≡ some n
    → length n.blue_set ≤ fuel
    → Chain dag b n fuel
chain_lem dag zero b n valid held small =
    absurd (omega (arith, positive n.blue_set b (valid.each b n held).blue_self))
chain_lem dag (suc fuel) b n valid held small =
    Chain-of dag b n fuel valid held
      (λ sp m r. chain_lem dag fuel sp m valid r.held (omega (arith, r.rises))) n.selected_parent
      refl (valid.each b n held).origin
