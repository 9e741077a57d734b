-- ===== src/Mempool/Seen.antt =====
-- The set of signatures next to the queue: it holds the signatures of the queue, each once.
use tao.Common.{◌≡◌, refl, false, not, ◌&&◌, ◌||◌, List, [], ◌∷◌, ◌++◌, arith, inl, inr}
use tao.Common.Keys.{◌==◌, nat_eq, list_eq, contains, beq_refl, list_beq_iff, beq-cases}
use tao.Consensus.Bytes.{Bytes}
use tao.Mempool.{insert, remove}

abbrev pub Distinct : List Bytes → Type 0
Distinct [] = Unit
Distinct (k ∷ ks) = (contains ks k ≡ false) × Distinct ks

-- The set holds exactly these keys.
abbrev pub Holds : List Bytes → List Bytes → Type 0
Holds seen ks = (j : Bytes) → contains seen j ≡ contains ks j

pub contains-remove :
    (k : Bytes) (seen : List Bytes) (j : Bytes)
    → contains (remove k seen) j ≡ (contains seen j && not (k == j))
unfolding remove
contains-remove k [] j = refl
contains-remove k (s ∷ seen) j =
    ground (arith, contains-remove k seen j, list_beq_iff s k, list_beq_iff s j, list_beq_iff k j)

pub contains-insert :
    (k : Bytes) (seen : List Bytes) (j : Bytes)
    → contains (insert k seen) j ≡ (k == j || contains seen j)
unfolding insert
contains-insert k seen j = elim (beq-cases k j) [
  | inl (same, e) ↦ rw e (ground (arith, beq_refl k))
  | inr e ↦ rw e (ground arith)
]

pub contains-append :
    (ks : List Bytes) (k j : Bytes) → contains (ks ++ k ∷ []) j ≡ (k == j || contains ks j)
contains-append [] k j = ground arith
contains-append (x ∷ ks) k j = ground (arith, contains-append ks k j)

pub Holds-remove :
    (seen : List Bytes) (k : Bytes) (ks : List Bytes)
    → Holds seen (k ∷ ks)
    → contains ks k ≡ false
    → Holds (remove k seen) ks
Holds-remove seen k ks h fresh j = elim (beq-cases k j) [
  | inl (same, e) ↦ rw (contains-remove k seen j, e) (ground (arith, rw same at fresh))
  | inr e ↦ rw (contains-remove k seen j, h j, e) (ground arith)
]

pub Holds-insert :
    (seen : List Bytes) (k : Bytes) (ks : List Bytes)
    → Holds seen ks
    → Holds (insert k seen) (ks ++ k ∷ [])
Holds-insert seen k ks h j = rw (contains-insert k seen j, contains-append ks k j, h j)

pub Distinct-append :
    (ks : List Bytes) (k : Bytes) → Distinct ks → contains ks k ≡ false → Distinct (ks ++ k ∷ [])
Distinct-append [] k d fresh = (refl, tt)
Distinct-append (x ∷ ks) k d fresh = (
  ground (arith, contains-append ks k x, list_beq_iff x k, list_beq_iff k x),
  Distinct-append ks k d.1 (ground arith),
)
