-- ===== src/Ghostdag/Cluster.antt =====
-- k-clusters of a symmetric relation: each item is related to at most k of the others.
use tao.Common.{
  ℕ, ◌+◌, ◌≤◌, Bool, true, false, List, [], ◌∷◌, ◌++◌, ◌≡◌, refl, length, if◌then◌else◌, arith, inl,
  inr, sym,
}
use tao.Common.Keys.{nat_eq, contains, beq-cases, beq_refl}
use tao.Common.Sets.{
  select, set_insert, set_extend, Distinct, contains-append, contains-select, contains-set_insert,
  contains-set_extend,
}

abbrev pub degree : (ℕ → ℕ → Bool) → ℕ → List ℕ → ℕ
unfolding select
degree r c xs = length (select (λ x. r x c) xs)

abbrev pub IsCluster : (ℕ → ℕ → Bool) → ℕ → List ℕ → Type 0
IsCluster r k xs = (x : ℕ) → contains xs x ≡ true → degree r x xs ≤ k

pub degree-append :
    (r : ℕ → ℕ → Bool) (c : ℕ) (xs ys : List ℕ)
    → degree r c (xs ++ ys) ≡ degree r c xs + degree r c ys
unfolding select
degree-append r c [] ys = omega arith
degree-append r c (x ∷ xs) ys = ground (arith, degree-append r c xs ys)

pub degree-one : (r : ℕ → ℕ → Bool) (c x : ℕ) → degree r c (x ∷ []) ≡ (if r x c then 1 else 0)
unfolding select
degree-one r c x = ground arith

-- The rule of the classification: an item with at most k related ones, each of which has room for
-- one more, joins the cluster.
pub IsCluster-append :
    (r : ℕ → ℕ → Bool)
    → ((x : ℕ) → r x x ≡ false)
    → ((x y : ℕ) → r x y ≡ r y x)
    → (k c : ℕ) (xs : List ℕ) → IsCluster r k xs
    → degree r c xs ≤ k
    → ((x : ℕ) → contains (select (λ x. r x c) xs) x ≡ true → degree r x xs + 1 ≤ k)
    → IsCluster r k (xs ++ c ∷ [])
IsCluster-append r irr symm k c xs old one two x m = elim (beq-cases c x) [
  | inl (e, _) ↦ rw (sym e) ground (arith, degree-append r c xs (c ∷ []), degree-one r c c, irr c)
  | inr f ↦ ground (
    arith,
    degree-append r x xs (c ∷ []),
    degree-one r x c,
    symm x c,
    old x,
    two x,
    contains-append xs (c ∷ []) x,
    contains-select (λ x. r x c) xs x,
  )
]

-- Only the related pairs among the items count.
degree_cong :
    (r q : ℕ → ℕ → Bool) (c : ℕ) (xs : List ℕ)
    → ((x : ℕ) → contains xs x ≡ true → r x c ≡ q x c)
    → degree r c xs ≡ degree q c xs
unfolding select
degree_cong r q c [] h = refl
degree_cong r q c (x ∷ xs) h =
    ground (arith, degree_cong r q c xs (λ y m. h y (ground arith)), h x, beq_refl x)

pub IsCluster-cong :
    (r q : ℕ → ℕ → Bool) (k : ℕ) (xs : List ℕ)
    → ((x y : ℕ) → contains xs x ≡ true → contains xs y ≡ true → r x y ≡ q x y)
    → IsCluster r k xs
    → IsCluster q k xs
IsCluster-cong r q k xs h old x m = omega (arith, old x m, degree_cong r q x xs (λ y n. h y x n m))

degree-set_insert :
    (r : ℕ → ℕ → Bool) (c a : ℕ) (s : List ℕ)
    → contains s a ≡ false
    → degree r c (set_insert a s) ≡ degree r c (a ∷ []) + degree r c s
unfolding set_insert select
degree-set_insert r c a s h = rw h ground arith

fresh-tail :
    (s : List ℕ) (x : ℕ) (xs : List ℕ)
    → Distinct (x ∷ xs)
    → ((a : ℕ) → contains (x ∷ xs) a ≡ true → contains s a ≡ false)
    → (a : ℕ) → contains xs a ≡ true
    → contains (set_insert x s) a ≡ false
fresh-tail s x xs d h a m = elim (beq-cases x a) [
  | inl (e, _) ↦ let t : contains xs x ≡ true = rw e m in ground (arith, d.0)
  | inr f ↦ ground (arith, contains-set_insert x a s, h a)
]

pub degree-set_extend :
    (r : ℕ → ℕ → Bool) (c : ℕ) (s xs : List ℕ)
    → Distinct xs
    → ((a : ℕ) → contains xs a ≡ true → contains s a ≡ false)
    → degree r c (set_extend s xs) ≡ degree r c (s ++ xs)
unfolding set_extend degree
degree-set_extend r c s [] d h = omega (arith, degree-append r c s [])
degree-set_extend r c s (x ∷ xs) d h = omega (
  arith,
  degree-set_extend r c (set_insert x s) xs d.1 (fresh-tail s x xs d h),
  degree-set_insert r c x s (h x (ground (arith, beq_refl x))),
  degree-append r c (set_insert x s) xs,
  degree-append r c s (x ∷ xs),
  degree-append r c (x ∷ []) xs,
)

pub IsCluster-set_extend :
    (r : ℕ → ℕ → Bool) (k : ℕ) (s xs : List ℕ)
    → Distinct xs
    → ((a : ℕ) → contains xs a ≡ true → contains s a ≡ false)
    → IsCluster r k (s ++ xs)
    → IsCluster r k (set_extend s xs)
IsCluster-set_extend r k s xs d f old x m = omega (
  arith,
  degree-set_extend r x s xs d f,
  old x (ground (arith, contains-set_extend s xs x, contains-append s xs x)),
)

degree_none :
    (r : ℕ → ℕ → Bool) (c : ℕ) (xs : List ℕ)
    → ((y : ℕ) → contains xs y ≡ true → r y c ≡ false)
    → degree r c xs ≡ 0
unfolding select
degree_none r c [] h = refl
degree_none r c (x ∷ xs) h =
    ground (arith, degree_none r c xs (λ y m. h y (ground arith)), h x, beq_refl x)

-- An item that is related to none of the others may always join.
pub IsCluster-set_insert :
    (r : ℕ → ℕ → Bool)
    → ((x : ℕ) → r x x ≡ false)
    → ((x y : ℕ) → r x y ≡ r y x)
    → (k c : ℕ) (s : List ℕ) → contains s c ≡ false
    → ((y : ℕ) → contains s y ≡ true → r y c ≡ false)
    → IsCluster r k s
    → IsCluster r k (set_insert c s)
IsCluster-set_insert r irr symm k c s fresh none old x m = elim (beq-cases c x) [
  | inl (e, _) ↦
      rw (sym e) ground
        (arith, degree-set_insert r c c s fresh, degree-one r c c, irr c, degree_none r c s none)
  | inr f ↦
      let there : contains s x ≡ true = ground (arith, contains-set_insert c x s) in
      ground (
        arith,
        degree-set_insert r x c s fresh,
        degree-one r x c,
        symm x c,
        none x there,
        old x there,
      )
]
