-- ===== src/Ghostdag/Anticone.antt =====
-- The anticone as a symmetric relation on the blocks that the DAG holds.
use tao.Common.{
  Bool, true, false, none, some, List, [], ◌∷◌, ◌≡◌, refl, arith, Option-cases, inl, inr,
}
use tao.Common.Keys.{nat_eq, contains, beq_refl, beq-cases}
use tao.Common.Sets.{select}
use tao.Ghostdag.{BlockId, Node, Dag, node, is_anticone, anticone_in}

-- The DAG holds the block.
abbrev pub Holds : Dag → BlockId → Type 0
Holds dag b = (n : Node) × (node dag b ≡ some n)

abbrev pub Known : Dag → List BlockId → Type 0
Known dag xs = (b : BlockId) → contains xs b ≡ true → Holds dag b

pub Known-head : (dag : Dag) (x : BlockId) (xs : List BlockId) → Known dag (x ∷ xs) → Holds dag x
Known-head dag x xs known = known x (ground (arith, beq_refl x))

pub Known-tail : (dag : Dag) (x : BlockId) (xs : List BlockId) → Known dag (x ∷ xs) → Known dag xs
Known-tail dag x xs known b m = known b (ground arith)

-- Neither of two different blocks is an ancestor of the other.
unfoldable pub apart : Dag → BlockId → BlockId → Bool
unfolding is_anticone
apart dag x c = elim (is_anticone dag x c) [ none ↦ false | some b ↦ b ]

pub apart_irrefl : (dag : Dag) (x : BlockId) → apart dag x x ≡ false
unfolding apart is_anticone
apart_irrefl dag x = ground (arith, beq_refl x)

pub apart_sym : (dag : Dag) (x c : BlockId) → apart dag x c ≡ apart dag c x
unfolding apart is_anticone
apart_sym dag x c = elim (beq-cases x c) [
  | inl (e, _) ↦ rw e refl
  | inr f ↦ elim (Option-cases (node dag c)) [
    | inl none_c ↦ elim (Option-cases (node dag x)) [
      | inl none_x ↦ ground arith
      | inr (m, some_x) ↦ ground arith
    ]
    | inr (n, some_c) ↦ elim (Option-cases (node dag x)) [
      | inl none_x ↦ ground arith
      | inr (m, some_x) ↦ ground arith
    ]
  ]
]

pub is_anticone_total :
    (dag : Dag) (x c : BlockId)
    → Holds dag x
    → Holds dag c
    → is_anticone dag x c ≡ some (apart dag x c)
unfolding apart is_anticone
is_anticone_total dag x c (m, hx) (n, hc) = ground arith

-- The relation depends on the nodes of its two blocks only.
pub apart_cong :
    (d e : Dag) (x c : BlockId)
    → node d x ≡ node e x
    → node d c ≡ node e c
    → apart d x c ≡ apart e x c
unfolding apart is_anticone
apart_cong d e x c hx hc = ground arith

-- A block and its ancestor are not apart.
pub apart-past :
    (dag : Dag) (x c : BlockId) (n : Node)
    → node dag c ≡ some n
    → contains n.past x ≡ true
    → apart dag x c ≡ false
unfolding apart is_anticone
apart-past dag x c n hc m = ground arith

pub anticone_in_total :
    (dag : Dag) (c : BlockId) (xs : List BlockId)
    → Holds dag c
    → Known dag xs
    → anticone_in dag c xs ≡ some (select (λ x. apart dag x c) xs)
unfolding anticone_in select
anticone_in_total dag c [] hc known = refl
anticone_in_total dag c (x ∷ xs) hc known =
    rw
      (
        is_anticone_total dag x c (Known-head dag x xs known) hc,
        anticone_in_total dag c xs hc (Known-tail dag x xs known),
      )
      refl
