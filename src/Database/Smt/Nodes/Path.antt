-- ===== src/Database/Smt/Nodes/Path.antt =====
-- The ids of nodes: two keys have one id at a depth exactly if their bits above it agree.
use tao.Common.{
  ℕ, zero, suc, ◌+◌, ◌-◌, ◌*◌, ◌<◌, ◌≤◌, ◌≡◌, ◌↔◌, refl, sym, ap, ◌∙◌, [], ◌∷◌, arith, length, inl,
  inr, cons-injective,
}
use tao.Consensus.Bytes.{Bytes, IsBytes32, append-injective, be_value}
use tao.Consensus.BigEndian.{to_bytes, be_value-mod}
use tao.Database.Smt.{bit}
use tao.Database.Smt.Nodes.{mask, flip, id_bytes, flip_bit, node_id}
use tao.Database.Smt.Nodes.Ids.{byte_bit, mask_step, mask_first, Flipped, flip_lem}
use tao.Database.Smt.Nodes.Octets.{
  AreOctets, low-or-high, bit_low, bit_high, id_zero, id_low, id_high, id_high_suc, flip_low,
  flip_high,
}

agree_low :
    (b x : ℕ) (k c : Bytes) (d : ℕ)
    → b < 256
    → x < 256
    → d < 8
    → (id_bytes (b ∷ k) (suc d) ≡ id_bytes (x ∷ c) (suc d))
      ↔ ((id_bytes (b ∷ k) d ≡ id_bytes (x ∷ c) d) × (byte_bit b d ≡ byte_bit x d))
agree_low b x k c zero hb hx small =
    rw
      (
        id_low b k 1 (omega arith) (omega arith),
        id_low x c 1 (omega arith) (omega arith),
        id_zero (b ∷ k),
        id_zero (x ∷ c),
      )
      (
        λ e. (refl, (mask_first b x hb hx).0 (cons-injective e).0),
        λ p. ap (λ m. m ∷ []) ((mask_first b x hb hx).1 p.1),
      )
agree_low b x k c (suc d) hb hx small =
    rw
      (
        id_low b k (suc (suc d)) (omega arith) (omega arith),
        id_low x c (suc (suc d)) (omega arith) (omega arith),
        id_low b k (suc d) (omega arith) (omega arith),
        id_low x c (suc d) (omega arith) (omega arith),
      )
      (let step = mask_step b x (suc d) hb hx (omega arith) small in
        (
          λ e. let (same, bits) = step.0 (cons-injective e).0 in (ap (λ m. m ∷ []) same, bits),
          λ p. ap (λ m. m ∷ []) (step.1 ((cons-injective p.0).0, p.1)),
        ))

-- One bit more of two keys agrees exactly if the bits before do and this one does.
agree_step :
    (k c : Bytes) (d : ℕ)
    → AreOctets k
    → AreOctets c
    → d < 8 * length k
    → d < 8 * length c
    → (id_bytes k (suc d) ≡ id_bytes c (suc d))
      ↔ ((id_bytes k d ≡ id_bytes c d) × (bit k d ≡ bit c d))
agree_step [] c d ok oc hk hc = absurd (omega arith)
agree_step (b ∷ k) [] d ok oc hk hc = absurd (omega arith)
agree_step (b ∷ k) (x ∷ c) d ok oc hk hc = elim (low-or-high d) [
  | inl low ↦ rw (bit_low b k d low, bit_low x c d low) (agree_low b x k c d ok.0 oc.0 low)
  | inr (e, high) ↦
      let deeper = agree_step k c e ok.1 oc.1 (omega arith) (omega arith) in
      rw
        (
          high,
          id_high_suc b k e,
          id_high_suc x c e,
          id_high b k e,
          id_high x c e,
          bit_high b k e,
          bit_high x c e,
        )
        (
          λ h.
              let (top, rest) = cons-injective h in
              let (same, bits) = deeper.0 rest in
              (ap (λ l. b ∷ l) same ∙ ap (λ t. t ∷ id_bytes c e) top, bits),
          λ p.
              let (top, rest) = cons-injective p.0 in
              ap (λ l. b ∷ l) (deeper.1 (rest, p.1)) ∙ ap (λ t. t ∷ id_bytes c (suc e)) top,
        )
]

-- The flip of a bit of a key.
record FlippedKey (k : Bytes) (d : ℕ) : Type 0 where
  octets : AreOctets (flip_bit k d)
  size : length (flip_bit k d) ≡ length k
  other : bit (flip_bit k d) d + bit k d ≡ 1
  before : id_bytes (flip_bit k d) d ≡ id_bytes k d

FlippedKey-low :
    (b : ℕ) (k : Bytes) (d : ℕ)
    → AreOctets (b ∷ k)
    → d < 8
    → Flipped b (flip b (7 - d)) d
    → FlippedKey (b ∷ k) d
FlippedKey-low b k d ok low f = record {
  octets = rw (flip_low b k d low) (f.octet, ok.1);
  size = rw (flip_low b k d low) refl;
  other = rw (flip_low b k d low, bit_low (flip b (7 - d)) k d low, bit_low b k d low) f.other;
  before = rw (flip_low b k d low) (first_bits d low f.before);
}
  where
    first_bits :
        (n : ℕ)
        → n < 8
        → (0 < n → mask (flip b (7 - d)) n ≡ mask b n)
        → id_bytes (flip b (7 - d) ∷ k) n ≡ id_bytes (b ∷ k) n
    first_bits zero small same = rw (id_zero (flip b (7 - d) ∷ k), id_zero (b ∷ k)) refl
    first_bits (suc n) small same =
        rw
          (
            id_low (flip b (7 - d)) k (suc n) (omega arith) (omega arith),
            id_low b k (suc n) (omega arith) (omega arith),
          )
          (ap (λ m. m ∷ []) (same (omega arith)))

flip_bit_lem : (k : Bytes) (d : ℕ) → AreOctets k → d < 8 * length k → FlippedKey k d
flip_bit_lem [] d ok h = absurd (omega arith)
flip_bit_lem (b ∷ k) d ok h = elim (low-or-high d) [
  | inl low ↦ FlippedKey-low b k d ok low (flip_lem b d ok.0 low)
  | inr (e, high) ↦
      let f = flip_bit_lem k e ok.1 (omega arith) in
      rw high (record {
        octets = rw (flip_high b k e) (ok.0, f.octets);
        size = rw (flip_high b k e) (ap suc f.size);
        other = rw (flip_high b k e, bit_high b (flip_bit k e) e, bit_high b k e) f.other;
        before =
            rw (flip_high b k e, id_high b (flip_bit k e) e, id_high b k e)
              (ap (λ l. b ∷ l) f.before);
      })
]

id_whole : (k : Bytes) → id_bytes k (8 * length k) ≡ k
id_whole [] = unfold id_bytes in refl
id_whole (b ∷ k) =
    let m : 8 * suc (length k) ≡ 8 + 8 * length k = omega arith in
    ap (id_bytes (b ∷ k)) m ∙ (id_high b k (8 * length k) ∙ ap (λ l. b ∷ l) (id_whole k))

-- The two keys have one node at the depth.
abbrev pub Meets : ℕ → Bytes → Bytes → Type 0
Meets d k c = id_bytes k d ≡ id_bytes c d

module _ (k : Bytes) (key : IsBytes32 k) where
  pub flip_bit-IsBytes32 : (d : ℕ) → d < 256 → IsBytes32 (flip_bit k d)
  flip_bit-IsBytes32 d h =
      let f = flip_bit_lem k d key.octets (omega (arith, key.size)) in
      record { size = f.size ∙ key.size; octets = f.octets }

  pub bit-flip_bit : (d : ℕ) → d < 256 → bit (flip_bit k d) d + bit k d ≡ 1
  bit-flip_bit d h = (flip_bit_lem k d key.octets (omega (arith, key.size))).other

  pub Meets-flip_bit : (d : ℕ) → d < 256 → Meets d (flip_bit k d) k
  Meets-flip_bit d h = (flip_bit_lem k d key.octets (omega (arith, key.size))).before

  module _ (c : Bytes) (other : IsBytes32 c) where
    pub Meets-suc : (d : ℕ) → d < 256 → Meets (suc d) k c ↔ (Meets d k c × (bit k d ≡ bit c d))
    Meets-suc d h =
        agree_step k c d key.octets other.octets (omega (arith, key.size))
          (omega (arith, other.size))

    pub Meets-whole : Meets 256 k c → k ≡ c
    Meets-whole h =
        let m : 8 * length k ≡ 256 = omega (arith, key.size) in
        let n : 8 * length c ≡ 256 = omega (arith, other.size) in
        sym (id_whole k) ∙ (ap (id_bytes k) m ∙ (h ∙ (sym (ap (id_bytes c) n) ∙ id_whole c)))

-- An id tells the depth and the bits above it.
pub node_id-cases :
    (k c : Bytes) (d e : ℕ)
    → d ≤ 256
    → e ≤ 256
    → node_id k d ≡ node_id c e
    → (d ≡ e) × (id_bytes k d ≡ id_bytes c e)
unfolding node_id
node_id-cases k c d e hd he same =
    let (depth, bits) =
      append-injective (to_bytes 2 d) (id_bytes k d) (to_bytes 2 e) (id_bytes c e) refl same in
    let value = sym (be_value-mod 2 d) ∙ (ap be_value depth ∙ be_value-mod 2 e) in
    (omega (arith, value), bits)

pub node_id-Meets : (k c : Bytes) (d : ℕ) → Meets d k c → node_id k d ≡ node_id c d
unfolding node_id
node_id-Meets k c d h = rw h refl
