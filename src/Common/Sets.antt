-- ===== src/Common/Sets.antt =====
-- Hash sets as lists without repeats, filtered lists, and what they hold.
use Prim.Native.Nat.{suc, ◌≤◌, ◌<◌}
use mathlib.Core.Path.{◌≡◌, refl}
use mathlib.Core.Logic.{inl, inr}
use mathlib.Core.Bool.{Bool, true, false, not, ◌&&◌, ◌||◌}
use mathlib.Core.List.{List, [], ◌∷◌, ◌++◌}
use native.Mathlib.Omega.{arith}
use tao.Common.Tests.{if◌then◌else◌}
use tao.Common.Keys.{Key, ◌==◌, contains, beq_refl, beq-cases}
use tao.Common.Lists.{length}

module _ {ℓ} {A : Type ℓ} where
  unfoldable pub select : (A → Bool) → List A → List A
  select p [] = []
  select p (x ∷ xs) = let rest = select p xs in if p x then x ∷ rest else rest

module _ {ℓ} {A : Type ℓ} ⦃key : Key A⦄ where
  unfoldable pub set_insert : A → List A → List A
  set_insert a s = if contains s a then s else a ∷ s

  unfoldable pub set_extend : List A → List A → List A
  set_extend s [] = s
  set_extend s (x ∷ xs) = set_extend (set_insert x s) xs

  abbrev pub Distinct : List A → Type 0
  Distinct [] = Unit
  Distinct (x ∷ xs) = (contains xs x ≡ false) × Distinct xs

  pub contains-set_insert :
      (a b : A) (s : List A) → contains (set_insert a s) b ≡ (a == b || contains s b)
  unfolding set_insert
  contains-set_insert a b s = ground (arith, key.same_iff a b)

  pub contains-set_extend :
      (s xs : List A) (b : A) → contains (set_extend s xs) b ≡ (contains xs b || contains s b)
  unfolding set_extend
  contains-set_extend s [] b = refl
  contains-set_extend s (x ∷ xs) b =
      ground (arith, contains-set_extend (set_insert x s) xs b, contains-set_insert x b s)

  pub contains-append :
      (xs ys : List A) (b : A) → contains (xs ++ ys) b ≡ (contains xs b || contains ys b)
  contains-append [] ys b = refl
  contains-append (x ∷ xs) ys b = ground (arith, contains-append xs ys b)

  pub contains-select :
      (p : A → Bool) (xs : List A) (b : A) → contains (select p xs) b ≡ (p b && contains xs b)
  unfolding select
  contains-select p [] b = ground arith
  contains-select p (x ∷ xs) b = elim (beq-cases x b) [
    | inl (e, t) ↦ rw e ground (arith, contains-select p xs b, beq_refl b)
    | inr f ↦ ground (arith, contains-select p xs b)
  ]

  pub Distinct-set_insert : (a : A) (s : List A) → Distinct s → Distinct (set_insert a s)
  unfolding set_insert
  Distinct-set_insert a s d = ground arith

  pub Distinct-set_extend : (s xs : List A) → Distinct s → Distinct (set_extend s xs)
  unfolding set_extend
  Distinct-set_extend s [] d = d
  Distinct-set_extend s (x ∷ xs) d =
      Distinct-set_extend (set_insert x s) xs (Distinct-set_insert x s d)

  pub Distinct-select : (p : A → Bool) (xs : List A) → Distinct xs → Distinct (select p xs)
  unfolding select
  Distinct-select p [] d = tt
  Distinct-select p (x ∷ xs) d = ground (arith, Distinct-select p xs d.1, contains-select p xs x)

  -- Two lists without a common item.
  abbrev pub Apart : List A → List A → Type ℓ
  Apart xs ys = (a : A) → contains xs a ≡ true → contains ys a ≡ false

  pub Distinct-append :
      (xs ys : List A) → Distinct xs → Distinct ys → Apart xs ys → Distinct (xs ++ ys)
  Distinct-append [] ys dx dy f = dy
  Distinct-append (x ∷ xs) ys dx dy f = (
    ground (arith, contains-append xs ys x, f x, beq_refl x),
    Distinct-append xs ys dx.1 dy (λ a h. f a (ground arith)),
  )

  pub length-set_insert_new :
      (a : A) (s : List A) → contains s a ≡ false → length (set_insert a s) ≡ suc (length s)
  unfolding set_insert
  length-set_insert_new a s h = rw h refl

  pub length-set_insert_le : (a : A) (s : List A) → length s ≤ length (set_insert a s)
  unfolding set_insert
  length-set_insert_le a s = ground arith

  pub length-set_extend_le : (s xs : List A) → length s ≤ length (set_extend s xs)
  unfolding set_extend
  length-set_extend_le s [] = omega arith
  length-set_extend_le s (x ∷ xs) =
      omega (arith, length-set_extend_le (set_insert x s) xs, length-set_insert_le x s)

  length-select_le : (p : A → Bool) (xs : List A) → length (select p xs) ≤ length xs
  unfolding select
  length-select_le p [] = omega arith
  length-select_le p (x ∷ xs) = ground (arith, length-select_le p xs)

  length-select_lt :
      (p : A → Bool) (xs : List A) (b : A)
      → contains xs b ≡ true
      → p b ≡ false
      → length (select p xs) < length xs
  unfolding select
  length-select_lt p [] b h off = absurd (ground arith)
  length-select_lt p (x ∷ xs) b h off = elim (beq-cases x b) [
    | inl (e, _) ↦ let skip : p x ≡ false = rw e off in ground (arith, length-select_le p xs)
    | inr f ↦ ground (arith, length-select_lt p xs b)
  ]

  -- A set is at most as large as one that holds its items.
  pub Distinct-length :
      (xs ys : List A)
      → Distinct xs
      → ((a : A) → contains xs a ≡ true → contains ys a ≡ true)
      → length xs ≤ length ys
  Distinct-length [] ys d h = omega arith
  Distinct-length (x ∷ xs) ys d h =
      let others = λ (y : A). not (y == x) in
      let rest = Distinct-length xs (select others ys) d.1 (λ a m.
        ground (arith, contains-select others ys a, h a, d.0, key.same_iff a x, beq_refl a)) in
      let less =
        length-select_lt others ys x (h x (ground (arith, beq_refl x)))
          (ground (arith, beq_refl x)) in
      omega (arith, rest, less)
