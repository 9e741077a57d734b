-- ===== src/Database/Smt/Nodes/Sorting.antt =====
-- The sort and the removal of repeated keys of `from_entries`, for entries with distinct keys.
use tao.Common.{
  ◌≡◌, refl, ◌∙◌, true, false, arith, if◌then◌else◌, inl, inr, Bool-cases, none, some, List, [],
  ◌∷◌, All,
}
use tao.Common.Keys.{◌==◌, nat_eq, list_eq, list_beq_iff}
use tao.Common.Maps.{lookup}
use tao.Consensus.Bytes.{Bytes}
use tao.Database.Smt.{Leaf, key_leb, insert_sorted, sort_by_key, dedup_from, dedup_by_key}

abbrev pub IsSorted : List Leaf → Type 0
IsSorted [] = Unit
IsSorted (x ∷ xs) = All (λ y. key_leb x.0 y.0 ≡ true) xs × IsSorted xs

abbrev pub DistinctKeys : List Leaf → Type 0
DistinctKeys [] = Unit
DistinctKeys (x ∷ xs) = (lookup x.0 xs ≡ none) × DistinctKeys xs

pub All-map :
    (P Q : Leaf → Type 0) (f : (x : Leaf) → P x → Q x) (xs : List Leaf) → All P xs → All Q xs
All-map P Q f [] a = tt
All-map P Q f (x ∷ xs) a = (f x a.0, All-map P Q f xs a.1)

key_leb_trans : (a b c : Bytes) → key_leb a b ≡ true → key_leb b c ≡ true → key_leb a c ≡ true
unfolding key_leb
key_leb_trans [] b c h i = refl
key_leb_trans (x ∷ a) [] c h i = cc
key_leb_trans (x ∷ a) (y ∷ b) [] h i = cc
key_leb_trans (x ∷ a) (y ∷ b) (z ∷ c) h i = ground (arith, key_leb_trans a b c)

key_leb_total : (a b : Bytes) → key_leb a b ≡ false → key_leb b a ≡ true
unfolding key_leb
key_leb_total [] b h = cc
key_leb_total (x ∷ a) [] h = refl
key_leb_total (x ∷ a) (y ∷ b) h = ground (arith, key_leb_total a b)

lookup-insert_sorted :
    (e : Leaf) (xs : List Leaf) (c : Bytes)
    → lookup e.0 xs ≡ none
    → lookup c (insert_sorted e xs) ≡ (if e.0 == c then some e.1 else lookup c xs)
unfolding lookup insert_sorted
lookup-insert_sorted e [] c new = refl
lookup-insert_sorted e (x ∷ xs) c new = ground (
  arith,
  lookup-insert_sorted e xs c,
  list_beq_iff x.0 e.0,
  list_beq_iff e.0 c,
  list_beq_iff x.0 c,
)

All-insert_sorted :
    (P : Leaf → Type 0) (e : Leaf) (xs : List Leaf) → P e → All P xs → All P (insert_sorted e xs)
unfolding insert_sorted
All-insert_sorted P e [] pe a = (pe, tt)
All-insert_sorted P e (x ∷ xs) pe a = elim (Bool-cases (key_leb e.0 x.0)) [
  | inl h ↦ rw h (pe, a)
  | inr h ↦ rw h (a.0, All-insert_sorted P e xs pe a.1)
]

insert_sorted-IsSorted : (e : Leaf) (xs : List Leaf) → IsSorted xs → IsSorted (insert_sorted e xs)
unfolding insert_sorted
insert_sorted-IsSorted e [] s = (tt, tt)
insert_sorted-IsSorted e (x ∷ xs) s = elim (Bool-cases (key_leb e.0 x.0)) [
  | inl h ↦ rw h (
    (
      h,
      All-map (λ y. key_leb x.0 y.0 ≡ true) (λ y. key_leb e.0 y.0 ≡ true)
          (λ y l. key_leb_trans e.0 x.0 y.0 h l) xs s.0,
    ),
    s,
  )
  | inr h ↦ rw h (
    All-insert_sorted (λ y. key_leb x.0 y.0 ≡ true) e xs (key_leb_total e.0 x.0 h) s.0,
    insert_sorted-IsSorted e xs s.1,
  )
]

insert_sorted-DistinctKeys :
    (e : Leaf) (xs : List Leaf)
    → lookup e.0 xs ≡ none
    → DistinctKeys xs
    → DistinctKeys (insert_sorted e xs)
unfolding insert_sorted lookup
insert_sorted-DistinctKeys e [] new d = (refl, tt)
insert_sorted-DistinctKeys e (x ∷ xs) new d = elim (Bool-cases (key_leb e.0 x.0)) [
  | inl h ↦ rw h (new, d)
  | inr h ↦
      let rest_new : lookup e.0 xs ≡ none = ground arith in
      rw h (
        ground (
          arith,
          lookup-insert_sorted e xs x.0 rest_new,
          list_beq_iff x.0 e.0,
          list_beq_iff e.0 x.0,
        ),
        insert_sorted-DistinctKeys e xs rest_new d.1,
      )
]

pub record Sorting (xs ys : List Leaf) : Type 0 where
  pub sorted : IsSorted ys
  pub distinct : DistinctKeys ys
  pub held : (c : Bytes) → lookup c ys ≡ lookup c xs

pub sort_by_key_lem : (xs : List Leaf) → DistinctKeys xs → Sorting xs (sort_by_key xs)
unfolding sort_by_key
sort_by_key_lem [] d = record { sorted = tt; distinct = tt; held = λ c. refl }
sort_by_key_lem (e ∷ xs) d =
    let r = sort_by_key_lem xs d.1 in
    let new : lookup e.0 (sort_by_key xs) ≡ none = r.held e.0 ∙ d.0 in
    record {
      sorted = insert_sorted-IsSorted e (sort_by_key xs) r.sorted;
      distinct = insert_sorted-DistinctKeys e (sort_by_key xs) new r.distinct;
      held = λ c.
          lookup-insert_sorted e (sort_by_key xs) c new ∙ rw (r.held c) (unfold lookup in refl);
    }

pub All-sort_by_key : (P : Leaf → Type 0) (xs : List Leaf) → All P xs → All P (sort_by_key xs)
unfolding sort_by_key
All-sort_by_key P [] a = tt
All-sort_by_key P (e ∷ xs) a = All-insert_sorted P e (sort_by_key xs) a.0 (All-sort_by_key P xs a.1)

dedup_from-distinct : (e : Leaf) (xs : List Leaf) → DistinctKeys (e ∷ xs) → dedup_from e xs ≡ e ∷ xs
unfolding dedup_from lookup
dedup_from-distinct e [] d = refl
dedup_from-distinct e (x ∷ xs) d =
    let other : (x.0 == e.0) ≡ false = ground (arith, list_beq_iff x.0 e.0) in
    rw (other, dedup_from-distinct x xs d.1) refl

pub dedup_by_key-distinct : (xs : List Leaf) → DistinctKeys xs → dedup_by_key xs ≡ xs
unfolding dedup_by_key
dedup_by_key-distinct [] d = refl
dedup_by_key-distinct (e ∷ xs) d = dedup_from-distinct e xs d
