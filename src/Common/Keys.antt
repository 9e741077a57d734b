-- ===== src/Common/Keys.antt =====
-- Boolean equality of keys as an interface, with the byte strings of the program as an instance.
use Prim.Native.Nat.{ℕ}
use mathlib.Core.Path.{◌≡◌, refl}
use mathlib.Core.Logic.{◌↔◌, ◌⊎◌, ◌≢◌}
use mathlib.Core.Bool.{Bool, true, false, ◌&&◌, ◌||◌}
use mathlib.Core.List.{List, [], ◌∷◌}
use native.Mathlib.Omega.{arith}
use tao.Common.Tests.{nat_beq, nat_beq_iff}

pub record Key {ℓ} (K : Type ℓ) : Type ℓ where
  pub same : K → K → Bool
  pub same_iff : (i j : K) → (same i j ≡ true) ↔ (i ≡ j)

module _ {ℓ} {K : Type ℓ} ⦃key : Key K⦄ where
  infix 50 ◌==◌
  abbrev pub ◌==◌ : K → K → Bool
  i == j = key.same i j

instance abbrev pub nat_eq : Key ℕ
nat_eq = record { same_iff = nat_beq_iff; same = nat_beq }

module _ {ℓ} {A : Type ℓ} ⦃key : Key A⦄ where
  abbrev pub list_beq : List A → List A → Bool
  list_beq [] [] = true
  list_beq [] (y ∷ ys) = false
  list_beq (x ∷ xs) [] = false
  list_beq (x ∷ xs) (y ∷ ys) = key.same x y && list_beq xs ys

  pub list_beq_iff : (xs ys : List A) → (list_beq xs ys ≡ true) ↔ (xs ≡ ys)
  list_beq_iff [] [] = (λ _. refl, λ _. refl)
  list_beq_iff [] (y ∷ ys) = (λ h. cc, λ h. cc)
  list_beq_iff (x ∷ xs) [] = (λ h. cc, λ h. cc)
  list_beq_iff (x ∷ xs) (y ∷ ys) = ground (arith, key.same_iff x y, list_beq_iff xs ys)

  instance abbrev pub list_eq : Key (List A)
  list_eq = record { same_iff = list_beq_iff; same = list_beq }

  pub beq_refl : (a : A) → (a == a) ≡ true
  beq_refl a = (key.same_iff a a).1 refl

  -- `iter().any(|x| x == a)`, and membership in a hash set
  abbrev pub contains : List A → A → Bool
  contains [] a = false
  contains (x ∷ xs) a = x == a || contains xs a

  pub beq-cases : (a b : A) → (a ≡ b) × ((a == b) ≡ true) ⊎ ((a == b) ≡ false)
  beq-cases a b = ground (arith, key.same_iff a b)

  pub eq-cases : (a b : A) → (a ≡ b) ⊎ (a ≢ b)
  eq-cases a b = ground (arith, key.same_iff a b)
