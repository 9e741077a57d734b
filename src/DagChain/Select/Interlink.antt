-- ===== src/DagChain/Select/Interlink.antt =====
-- The pointers that a block commits to.
use mathlib.Core.List.{append_assoc}
use tao.Common.{
  ℕ, zero, suc, ◌+◌, ◌≡◌, refl, ap, ◌∙◌, List, [], ◌∷◌, ◌++◌, arith, length, drop, replicate, some,
  sym, length-append,
}
use tao.Consensus.Block.{BlockId, DagBlockHeader}
use tao.DagChain.Select.{set, point, interlink_for_parent}
use tao.Common.Maps.{lookup}
use tao.Common.Keys.{nat_eq, list_eq}
use tao.Consensus.Target.{pow_level}
use tao.DagChain.{Externals, DagChain}

-- An entry at the position of a list, or at its end.
set-append :
    (front il : List BlockId) (sp : BlockId)
    → set (front ++ il) (length front) sp ≡ front ++ sp ∷ drop 1 il
set-append [] [] sp = refl
set-append [] (i ∷ il) sp = refl
set-append (f ∷ front) il sp = ap (λ t. f ∷ t) (set-append front il sp)

set-append' :
    (front il : List BlockId) (sp : BlockId) (k : ℕ)
    → k ≡ length front
    → set (front ++ il) k sp ≡ front ++ sp ∷ drop 1 il
set-append' front il sp k e = rw e (set-append front il sp)

drop-suc : (n : ℕ) (il : List BlockId) → drop n (drop 1 il) ≡ drop (suc n) il
drop-suc zero [] = refl
drop-suc (suc n) [] = refl
drop-suc n (i ∷ il) = refl

point-append :
    (rounds k : ℕ) (front il : List BlockId) (sp : BlockId)
    → k ≡ length front
    → point rounds k sp (front ++ il) ≡ front ++ (replicate rounds sp ++ drop rounds il)
unfolding point
point-append zero k front il sp e = refl
point-append (suc rounds) k front il sp e =
    ap (point rounds (k + 1) sp)
      (set-append' front il sp k e ∙ sym (append_assoc front (sp ∷ []) (drop 1 il)))
    ∙ point-append rounds (k + 1) (front ++ sp ∷ []) (drop 1 il) sp
        (omega (arith, length-append front (sp ∷ []), e))
    ∙ append_assoc front (sp ∷ []) (replicate rounds sp ++ drop rounds (drop 1 il))
    ∙ ap (λ t. front ++ sp ∷ (replicate rounds sp ++ t)) (drop-suc rounds il)

module _ (x : Externals) where
  -- For a known parent of level n, the pointers of the levels 0 to n are to the parent, those above
  -- are the parent's own.
  pub interlink_for_parent_lem :
      (s : DagChain x) (sp : BlockId) (h : DagBlockHeader)
      → lookup sp s.headers ≡ some h
      → interlink_for_parent x s sp
        ≡ replicate (pow_level x.codec sp h.target + 1) sp
          ++ drop (pow_level x.codec sp h.target + 1) h.interlink
  unfolding interlink_for_parent
  interlink_for_parent_lem s sp h found =
      rw (interlink_for_parent, found)
        (point-append (pow_level x.codec sp h.target + 1) 0 [] h.interlink sp refl)
