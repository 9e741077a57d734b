-- ===== src/Runtime/BlockhashQueue/Expiry.antt =====
-- How long a block hash is known: as long as fewer than `max_age` blocks follow it.
use tao.Common.{
  ℕ, zero, suc, ◌+◌, ◌≤◌, ◌≡◌, refl, ap, sym, ◌∙◌, inl, inr, true, false, Option, none, some, List,
  [], ◌∷◌, arith, ltb, if◌then◌else◌, length, take, Bool-cases, Option-cases,
}
use tao.Common.Keys as Keys
use tao.Common.Keys.{◌==◌, nat_eq, list_eq, list_beq_iff, beq_refl}
use tao.Consensus.Bytes.{Bytes}
use native.Mathlib.Nat.{add-zero, zero-add}
use tao.Runtime.BlockhashQueue.{
  BlockhashQueue, pop_back, shrink, register, contains, position, age_of,
}

length-pop_back : (x : Bytes) (xs : List Bytes) → length (pop_back (x ∷ xs)) ≡ length xs
unfolding pop_back
length-pop_back x [] = refl
length-pop_back x (y ∷ xs) = ap suc (length-pop_back y xs)

take-pop_back :
    (n : ℕ) (x : Bytes) (xs : List Bytes)
    → n ≤ length xs
    → take n (pop_back (x ∷ xs)) ≡ take n (x ∷ xs)
unfolding pop_back
take-pop_back zero x xs h = refl
take-pop_back (suc n) x [] h = absurd (omega arith)
take-pop_back (suc n) x (y ∷ xs) h = rw (take-pop_back n y xs (omega arith))

take-all : (n : ℕ) (xs : List Bytes) → length xs ≤ n → take n xs ≡ xs
take-all zero [] h = refl
take-all zero (x ∷ xs) h = absurd (omega arith)
take-all (suc n) [] h = refl
take-all (suc n) (x ∷ xs) h = rw (take-all n xs (omega arith))

shrink-take :
    (fuel max_age : ℕ) (xs : List Bytes)
    → length xs ≤ fuel
    → shrink fuel max_age xs ≡ take max_age xs
unfolding shrink
shrink-take zero max_age xs h = sym (take-all max_age xs (omega arith))
shrink-take (suc fuel) max_age [] h = ground (arith, take-all max_age [] (omega arith))
shrink-take (suc fuel) max_age (x ∷ xs) h = elim (Bool-cases (ltb max_age (length (x ∷ xs)))) [
  | inr short ↦ rw short (sym (take-all max_age (x ∷ xs) (ground arith)))
  | inl long ↦ rw long (
      shrink-take fuel max_age (pop_back (x ∷ xs)) (omega (arith, length-pop_back x xs))
      ∙ take-pop_back max_age x xs (ground arith))
]

-- Registering a hash puts it in front, and the queue is cut to its newest `max_age`.
pub register-take :
    (q : BlockhashQueue) (hash : Bytes)
    → (register q hash).recent ≡ take q.max_age (hash ∷ q.recent)
unfolding register
register-take q hash =
    shrink-take (length (hash ∷ q.recent)) q.max_age (hash ∷ q.recent) (omega arith)

-- The blocks of a list, registered in their order.
abbrev pub register_all : BlockhashQueue → List Bytes → BlockhashQueue
register_all q [] = q
register_all q (hash ∷ hashes) = register_all (register q hash) hashes

-- What `position` finds in a list cut to n elements.
abbrev pub cut : ℕ → ℕ → Option ℕ
cut n i = if ltb i n then some i else none

position-take :
    (n : ℕ) (hash : Bytes) (xs : List Bytes) (i : ℕ)
    → position hash xs ≡ some i
    → position hash (take n xs) ≡ cut n i
unfolding position
position-take zero hash xs i h = ground arith
position-take (suc n) hash [] i h = cc
position-take (suc n) hash (x ∷ xs) i h = elim (Bool-cases (x == hash)) [
  | inl same ↦ ground arith
  | inr other ↦ elim (Option-cases (position hash xs)) [
    | inl e ↦ ground arith
    | inr (j, e) ↦ ground (arith, position-take n hash xs j e)
  ]
]

position-take-none :
    (n : ℕ) (hash : Bytes) (xs : List Bytes)
    → position hash xs ≡ none
    → position hash (take n xs) ≡ none
unfolding position
position-take-none zero hash xs h = refl
position-take-none (suc n) hash [] h = refl
position-take-none (suc n) hash (x ∷ xs) h = elim (Bool-cases (x == hash)) [
  | inl same ↦ ground arith
  | inr other ↦ elim (Option-cases (position hash xs)) [
    | inl e ↦ ground (arith, position-take-none n hash xs e)
    | inr (j, e) ↦ ground arith
  ]
]

position-grown :
    (n : ℕ) (hash x : Bytes) (xs : List Bytes) (i : ℕ)
    → (x == hash) ≡ false
    → position hash xs ≡ cut n i
    → position hash (take n (x ∷ xs)) ≡ cut n (suc i)
position-grown zero hash x xs i other h = unfold position in ground arith
position-grown (suc n) hash x xs i other h = elim (Bool-cases (ltb i (suc n))) [
  | inl near ↦
      let found : position hash xs ≡ some i = ground arith in
      unfold position in ground (arith, position-take n hash xs i found)
  | inr far ↦
      let lost : position hash xs ≡ none = ground arith in
      unfold position in ground (arith, position-take-none n hash xs lost)
]

contains-position :
    (hash : Bytes) (xs : List Bytes)
    → Keys.contains xs hash ≡ elim (position hash xs) [ none ↦ false | some i ↦ true ]
unfolding position
contains-position hash [] = refl
contains-position hash (x ∷ xs) = ground (arith, contains-position hash xs)

newest : (n : ℕ) (hash : Bytes) (xs : List Bytes) → position hash (take n (hash ∷ xs)) ≡ cut n 0
unfolding position
newest zero hash xs = ground arith
newest (suc n) hash xs = rw (beq_refl hash) (ground arith)

max_age-register : (q : BlockhashQueue) (x : Bytes) → (register q x).max_age ≡ q.max_age
unfolding register
max_age-register q x = refl

age_of-later :
    (later : List Bytes) (q : BlockhashQueue) (hash : Bytes) (i : ℕ)
    → Keys.contains later hash ≡ false
    → position hash q.recent ≡ cut q.max_age i
    → position hash (register_all q later).recent ≡ cut q.max_age (i + length later)
age_of-later [] q hash i other h = rw (add-zero i) h
age_of-later (x ∷ later) q hash i other h =
    let apart : (x == hash) ≡ false = ground arith in
    let rest : Keys.contains later hash ≡ false = ground arith in
    let step : position hash (register q x).recent ≡ cut (register q x).max_age (suc i) =
      rw (register-take q x, max_age-register q x)
        (position-grown q.max_age hash x q.recent i apart h) in
    let far : suc i + length later ≡ i + suc (length later) = omega arith in
    age_of-later later (register q x) hash (suc i) rest step ∙ rw (far, max_age-register q x) refl

-- After a block and then others, none with its hash again, the hash has the number of those others
-- for its age and is known as long as they are fewer than `max_age`; from then on it is unknown.
pub age_of-register_all :
    (q : BlockhashQueue) (hash : Bytes) (later : List Bytes)
    → Keys.contains later hash ≡ false
    → (age_of (register_all (register q hash) later) hash
        ≡ (if ltb (length later) q.max_age then some (length later) else none))
      × (contains (register_all (register q hash) later) hash ≡ ltb (length later) q.max_age)
unfolding age_of contains
age_of-register_all q hash later other =
    let q' = register_all (register q hash) later in
    let start : position hash (register q hash).recent ≡ cut (register q hash).max_age 0 =
      rw (register-take q hash, max_age-register q hash) (newest q.max_age hash q.recent) in
    let age : position hash q'.recent ≡ cut q.max_age (length later) =
      age_of-later later (register q hash) hash 0 other start
      ∙ rw (zero-add (length later), max_age-register q hash) refl in
    (age, contains-position hash q'.recent ∙ rw age (ground arith))
