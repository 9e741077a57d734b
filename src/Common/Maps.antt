-- ===== src/Common/Maps.antt =====
-- A hash map as an association list: at most one entry counts, the first with the key.
use mathlib.Core.Path.{◌≡◌, refl}
use mathlib.Core.Logic.{◌⊎◌}
use mathlib.Core.Bool.{Bool, true, false}
use mathlib.Core.Option.{Option, none, some}
use mathlib.Core.List.{List, [], ◌∷◌}
use native.Mathlib.Omega.{arith}
use tao.Common.Tests.{if◌then◌else◌}
use tao.Common.Keys.{Key, ◌==◌, beq_refl}

abbrev pub HashMap {ℓ κ} : Type ℓ → Type κ → Type (ℓ ⊔ κ)
HashMap K V = List (K × V)

module _ {ℓ κ} {K : Type ℓ} {V : Type κ} ⦃key : Key K⦄ where
  unfoldable pub lookup : K → HashMap K V → Option V
  lookup k [] = none
  lookup k (x ∷ m) = if x.0 == k then some x.1 else lookup k m

  unfoldable pub contains_key : K → HashMap K V → Bool
  unfolding lookup
  contains_key k m = elim (lookup k m) [ none ↦ false | some _ ↦ true ]

  unfoldable pub insert : K → V → HashMap K V → HashMap K V
  insert k v [] = (k, v) ∷ []
  insert k v (x ∷ m) = if x.0 == k then (k, v) ∷ m else x ∷ insert k v m

  pub lookup-insert :
      (k j : K) (v : V) (m : HashMap K V)
      → lookup j (insert k v m) ≡ (if k == j then some v else lookup j m)
  unfolding lookup insert
  lookup-insert k j v [] = refl
  lookup-insert k j v (x ∷ m) =
      ground
        (arith, key.same_iff k j, key.same_iff x.0 k, key.same_iff x.0 j, lookup-insert k j v m)

  pub lookup-insert_self : (k : K) (v : V) (m : HashMap K V) → lookup k (insert k v m) ≡ some v
  lookup-insert_self k v m = rw lookup-insert (rw (beq_refl k) refl)

  -- A new key hides no entry.
  pub lookup-insert_new :
      (k j : K) (v : V) (m : HashMap K V) {w : V}
      → lookup k m ≡ none
      → lookup j m ≡ some w
      → lookup j (insert k v m) ≡ some w
  lookup-insert_new k j v m new old = ground (arith, lookup-insert k j v m, key.same_iff k j)

  pub lookup-insert_cases :
      (k j : K) (v : V) (m : HashMap K V) {w : V}
      → lookup j (insert k v m) ≡ some w
      → (k ≡ j) × (w ≡ v) ⊎ (lookup j m ≡ some w)
  lookup-insert_cases k j v m found = ground (arith, lookup-insert k j v m, key.same_iff k j)
