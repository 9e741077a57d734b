-- ===== src/Pouw/Commitment/Proofs.antt =====
-- Proofs of a tile: those that are made verify, and a position of the tree has one leaf.
use tao.Common.{
  ℕ, zero, suc, ◌*◌, ◌/◌, ◌%◌, ◌^◌, ◌<◌, ◌≡◌, refl, sym, ◌∙◌, ◌⊎◌, inl, inr, true, some, List, [],
  ◌∷◌, ◌++◌, arith, ap, length-append, length, All, nat_beq, ltb, if◌then◌else◌, get_elem?,
  Bool-cases, lt→ltb, Option-cases, some_inj,
}
use tao.Common.Keys.{nat_eq, list_eq, beq_refl, list_beq_iff}
use tao.Common.Powers.{pow2-suc, pow2-pos, lt-pow2}
use tao.Consensus.Bytes.{Bytes, Hasher, Collision, blake3-cases, append-injective}
use tao.Pouw.Commitment.{
  MerkleProof, flip_low, node_hash, parents, reduce, merkle_root, siblings_from, merkle_proof,
  climb, merkle_verify,
}

parity-suc : (n : ℕ) → suc (suc n) % 2 ≡ n % 2
parity-suc n = omega arith

half-suc : (n : ℕ) → suc (suc n) / 2 ≡ suc (n / 2)
half-suc n = omega arith

flip_low-suc : (n : ℕ) → flip_low (suc (suc n)) ≡ suc (suc (flip_low n))
unfolding flip_low
flip_low-suc n = ground (arith, parity-suc n)

module _ (h : Hasher) where
  abbrev parent : ℕ → Bytes → Bytes → Bytes
  parent idx node sib = if nat_beq (idx % 2) 0 then node_hash h node sib else node_hash h sib node

  length-parents :
      (n : ℕ) (level : List Bytes)
      → length level ≡ 2 * n
      → (next : List Bytes) × (parents h level ≡ some next) × (length next ≡ n)
  unfolding parents
  length-parents zero [] e = ([], refl, refl)
  length-parents zero (x ∷ level) e = absurd (omega arith)
  length-parents (suc n) [] e = absurd (omega arith)
  length-parents (suc n) (x ∷ []) e = absurd (omega arith)
  length-parents (suc n) (x ∷ y ∷ level) e =
      let (next, made, size) = length-parents n level (omega arith) in
      (node_hash h x y ∷ next, rw made refl, omega arith)

  -- What stands above a node: the hash of it and of its sibling, in their order.
  parents-get :
      (idx : ℕ) (level next : List Bytes) (node : Bytes)
      → parents h level ≡ some next
      → get_elem? level idx ≡ some node
      → (sib : Bytes) × (get_elem? level (flip_low idx) ≡ some sib)
        × (get_elem? next (idx / 2) ≡ some (parent idx node sib))
  unfolding parents flip_low
  parents-get idx [] next node made found = cc
  parents-get idx (x ∷ []) next node made found = cc
  parents-get zero (x ∷ y ∷ level) next node made found = elim (Option-cases (parents h level)) [
    | inl e ↦ let bad = rw e at made in cc
    | inr (rest, e) ↦
        let whole : node_hash h x y ∷ rest ≡ next = some_inj (rw e at made) in
        let head : x ≡ node = some_inj found in (y, refl, rw (← whole, head) refl)
  ]
  parents-get (suc zero) (x ∷ y ∷ level) next node made found =
      elim (Option-cases (parents h level)) [
        | inl e ↦ let bad = rw e at made in cc
        | inr (rest, e) ↦
            let whole : node_hash h x y ∷ rest ≡ next = some_inj (rw e at made) in
            let head : y ≡ node = some_inj found in (x, refl, rw (← whole, head) refl)
      ]
  parents-get (suc (suc idx)) (x ∷ y ∷ level) next node made found =
      elim (Option-cases (parents h level)) [
        | inl e ↦ let bad = rw e at made in cc
        | inr (rest, e) ↦
            let whole : node_hash h x y ∷ rest ≡ next = some_inj (rw e at made) in
            let (sib, beside, above) = parents-get idx level rest node e found in
            (sib, rw (flip_low-suc idx) beside, rw (half-suc idx, parity-suc idx, ← whole) above)
      ]

  abbrev pub AreHashes : List Bytes → Type 0
  AreHashes = All (λ s. length s ≡ 32)

  node_hash-cases :
      (l r l' r' : Bytes)
      → length l ≡ length l'
      → node_hash h l r ≡ node_hash h l' r'
      → (l ≡ l') × (r ≡ r') ⊎ Collision h.blake3
  unfolding node_hash
  node_hash-cases l r l' r' n e = elim (blake3-cases h (l ++ r) (l' ++ r') e) [
    | inr c ↦ inr c
    | inl same ↦ inl (append-injective l r l' r' n same)
  ]

  parent-cases :
      (idx : ℕ) (node sib node' sib' : Bytes)
      → length node ≡ 32
      → length node' ≡ 32
      → parent idx node sib ≡ parent idx node' sib'
      → (node ≡ node') × (sib ≡ sib') ⊎ Collision h.blake3
  unfolding node_hash
  parent-cases idx node sib node' sib' n n' e = elim (Bool-cases (nat_beq (idx % 2) 0)) [
    | inl left ↦ node_hash-cases node sib node' sib' (n ∙ sym n') (rw left at e)
    | inr right ↦ elim (blake3-cases h (sib ++ node) (sib' ++ node') (rw right at e)) [
      | inr c ↦ inr c
      | inl same ↦
          let beside : length sib ≡ length sib' =
            omega (arith, length-append sib node, length-append sib' node', ap length same) in
          let (sibs, below) = append-injective sib node sib' node' beside same in inl (below, sibs)
    ]
  ]

  length-parent : (idx : ℕ) (node sib : Bytes) → length (parent idx node sib) ≡ 32
  unfolding node_hash
  length-parent idx node sib = elim (Bool-cases (nat_beq (idx % 2) 0)) [
    | inl left ↦ rw left (h.blake3_size _)
    | inr right ↦ rw right (h.blake3_size _)
  ]

  climb-cases :
      (idx : ℕ) (node node' : Bytes) (ss ss' : List Bytes)
      → length ss ≡ length ss'
      → length node ≡ 32
      → length node' ≡ 32
      → climb h idx node ss ≡ climb h idx node' ss'
      → (node ≡ node') × (ss ≡ ss') ⊎ Collision h.blake3
  climb-cases idx node node' [] [] n p p' e = inl (unfold climb in e, refl)
  climb-cases idx node node' [] (s' ∷ ss') n p p' e = absurd (omega arith)
  climb-cases idx node node' (s ∷ ss) [] n p p' e = absurd (omega arith)
  climb-cases idx node node' (s ∷ ss) (s' ∷ ss') n p p' e =
      elim (climb-cases (idx / 2) (parent idx node s) (parent idx node' s') ss ss' (omega arith)
        (length-parent idx node s) (length-parent idx node' s') (unfold climb in e)) [
          | inr c ↦ inr c
          | inl (up, rest) ↦ elim (parent-cases idx node s node' s' p p' up) [
            | inr c ↦ inr c
            | inl (same, sib) ↦ inl (same, cc)
          ]
        ]

  pub merkle_verify-cases :
      (top leaf leaf' : Bytes) (p p' : MerkleProof)
      → p.index ≡ p'.index
      → length p.siblings ≡ length p'.siblings
      → length leaf ≡ 32
      → length leaf' ≡ 32
      → merkle_verify h top leaf p ≡ true
      → merkle_verify h top leaf' p' ≡ true
      → (leaf ≡ leaf') × (p.siblings ≡ p'.siblings) ⊎ Collision h.blake3
  unfolding merkle_verify
  merkle_verify-cases top leaf leaf' p p' i n q q' e e' =
      let up = (list_beq_iff (climb h p.index leaf p.siblings) top).0 e in
      let up' = (list_beq_iff (climb h p'.index leaf' p'.siblings) top).0 e' in
      climb-cases p.index leaf leaf' p.siblings p'.siblings n q q' (up ∙ sym (rw (← i) at up'))

  -- Two proofs of one position and of one height, of leaves and siblings of 32 bytes, that verify
  -- against one root are of one leaf and have the same siblings, or a collision of the hash is
  -- found.
  pub merkle_verify-binding :
      (top leaf leaf' : Bytes) (p p' : MerkleProof)
      → p.index ≡ p'.index
      → length p.siblings ≡ length p'.siblings
      → AreHashes p.siblings
      → AreHashes p'.siblings
      → length leaf ≡ 32
      → length leaf' ≡ 32
      → merkle_verify h top leaf p ≡ true
      → merkle_verify h top leaf' p' ≡ true
      → (leaf ≡ leaf') × (p.siblings ≡ p'.siblings) ⊎ Collision h.blake3
  merkle_verify-binding top leaf leaf' p p' i n a a' q q' e e' =
      merkle_verify-cases top leaf leaf' p p' i n q q' e e'

  reduce_step :
      (fuel : ℕ) (level next : List Bytes)
      → ltb 1 (length level) ≡ true
      → parents h level ≡ some next
      → reduce h (suc fuel) level ≡ reduce h fuel next
  unfolding reduce
  reduce_step fuel level next long made = rw (reduce, long, made) refl

  siblings_step :
      (fuel : ℕ) (level next : List Bytes) (idx : ℕ) (sib : Bytes) (rest : List Bytes)
      → ltb 1 (length level) ≡ true
      → get_elem? level (flip_low idx) ≡ some sib
      → parents h level ≡ some next
      → siblings_from h fuel next (idx / 2) ≡ some rest
      → siblings_from h (suc fuel) level idx ≡ some (sib ∷ rest)
  unfolding siblings_from
  siblings_step fuel level next idx sib rest long beside made above =
      rw (siblings_from, long, beside, made, above) refl

  climb_step :
      (idx : ℕ) (node sib : Bytes) (siblings : List Bytes)
      → climb h idx node (sib ∷ siblings) ≡ climb h (idx / 2) (parent idx node sib) siblings
  unfolding climb
  climb_step idx node sib siblings = refl

  abbrev Proven : ℕ → List Bytes → ℕ → Bytes → Type 0
  Proven fuel level idx node =
      (top : Bytes) × (siblings : List Bytes) × (reduce h fuel level ≡ some top)
      × (siblings_from h fuel level idx ≡ some siblings)
      × (climb h idx node siblings ≡ top)

  proven :
      (k fuel : ℕ) (level : List Bytes) (idx : ℕ) (node : Bytes)
      → k < fuel
      → length level ≡ 2 ^ k
      → get_elem? level idx ≡ some node
      → Proven fuel level idx node
  proven k zero level idx node f n found = absurd (omega arith)
  proven zero (suc fuel) [] idx node f n found = cc
  proven zero (suc fuel) (x ∷ []) zero node f n found = (
    x,
    [],
    unfold reduce in refl,
    unfold siblings_from in refl,
    unfold climb in sym (some_inj found),
  )
  proven zero (suc fuel) (x ∷ []) (suc idx) node f n found = cc
  proven zero (suc fuel) (x ∷ y ∷ level) idx node f n found = absurd (omega arith)
  proven (suc k) (suc fuel) level idx node f n found =
      let double : length level ≡ 2 * 2 ^ k = n ∙ pow2-suc k in
      let (next, made, size) = length-parents (2 ^ k) level double in
      let (sib, beside, above) = parents-get idx level next node made found in
      let (top, siblings, up, path, same) =
        proven k fuel next (idx / 2) (parent idx node sib) (omega arith) size above in
      let long : ltb 1 (length level) ≡ true =
        lt→ltb 1 (length level) (omega (arith, double, pow2-pos k)) in
      (
        top,
        sib ∷ siblings,
        reduce_step fuel level next long made ∙ up,
        siblings_step fuel level next idx sib siblings long beside made path,
        climb_step idx node sib siblings ∙ same,
      )

  -- In a tree over a power of two of leaves, the proof made for a position verifies against the root
  -- with the leaf of that position.
  pub merkle_verify-proof :
      (k : ℕ) (leaves : List Bytes) (index : ℕ) (leaf : Bytes)
      → length leaves ≡ 2 ^ k
      → get_elem? leaves index ≡ some leaf
      → (top : Bytes) × (p : MerkleProof) × (merkle_root h leaves ≡ some top)
        × (merkle_proof h leaves index ≡ some p)
        × (p.index ≡ index)
        × (merkle_verify h top leaf p ≡ true)
  unfolding merkle_root merkle_proof merkle_verify
  merkle_verify-proof k leaves index leaf n found =
      let (top, siblings, up, path, same) =
        proven k (length leaves) leaves index leaf (rw n (lt-pow2 k)) n found in
      (
        top,
        record { index = index; siblings = siblings },
        up,
        rw path refl,
        refl,
        rw same (beq_refl top),
      )
