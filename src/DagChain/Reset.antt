-- ===== src/DagChain/Reset.antt =====
-- The parts of a chain that the replay of a log does not give back.
use tao.Common.{false, none, [], ◌≡◌, refl, ◌⊎◌, inl, inr}
use tao.Consensus.Bytes.{Bytes}
use tao.DagChain.{
  Externals, DagChain, ChainError, Result, ok, err, panicked, default_finality_depth,
}
use tao.DagChain.Accept.{Exec}

module _ {x : Externals} where
  -- The chain over a log with the given content; the caches, the depth of finality and the marks of a
  -- bootstrap are as a start has them.
  abbrev pub reset : Bytes → DagChain x → DagChain x
  reset l s = record s {
    log = l;
    executed = [];
    finality_depth = default_finality_depth;
    checkpoint = none;
    bootstrapped = false;
    bootstrap_work = 0;
  }

  abbrev pub reset_exec : Bytes → Exec x → Exec x
  reset_exec l r = (reset l r.0, r.1)

  abbrev pub relog : Bytes → DagChain x → DagChain x
  relog l s = record s { log = l }

  abbrev pub relog_exec : Bytes → Exec x → Exec x
  relog_exec l r = (relog l r.0, r.1)

  abbrev pub reset_result : Bytes → Result (DagChain x) → Result (DagChain x)
  reset_result l (ok s) = ok (reset l s)
  reset_result l (err e) = err e
  reset_result l panicked = panicked

pub Result-cases {ℓ} :
    {A : Type ℓ} (r : Result A)
    → ((a : A) × (r ≡ ok a)) ⊎ ((e : ChainError) × (r ≡ err e)) ⊎ (r ≡ panicked)
Result-cases (ok a) = inl (a, refl)
Result-cases (err e) = inr (inl (e, refl))
Result-cases panicked = inr (inr refl)
