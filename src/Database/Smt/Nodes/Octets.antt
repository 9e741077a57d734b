-- ===== src/Database/Smt/Nodes/Octets.antt =====
-- The bits, the ids and the flips of a key, byte by byte.
use tao.Common.{
  ℕ, zero, suc, ◌+◌, ◌-◌, ◌/◌, ◌%◌, ◌^◌, ◌<◌, ◌≤◌, ◌≡◌, ◌⊎◌, refl, ap, ◌∙◌, [], ◌∷◌, arith, ltb,
  All, get_elem?, inl, inr, none, some, Bool-cases,
}
use tao.Consensus.Bytes.{Bytes}
use tao.Database.Smt.{bit}
use tao.Database.Smt.Nodes.{mask, flip, id_bytes, flip_bit}
use tao.Database.Smt.Nodes.Ids.{byte_bit, mask_all}

abbrev pub AreOctets : Bytes → Type 0
AreOctets = All (λ x. x < 256)

pub low-or-high : (d : ℕ) → (d < 8) ⊎ ((e : ℕ) × (d ≡ 8 + e))
low-or-high d = elim (Bool-cases (ltb d 8)) [
  | inl h ↦ inl (ground arith)
  | inr h ↦ inr (d - 8, ground arith)
]

-- a bit by its byte and its place in the byte
abbrev bit_at : Bytes → ℕ → ℕ → ℕ
bit_at key i j = elim (get_elem? key i) [ none ↦ 0 | some byte ↦ byte / 2 ^ (7 - j) % 2 ]

pub bit_low : (b : ℕ) (key : Bytes) (d : ℕ) → d < 8 → bit (b ∷ key) d ≡ byte_bit b d
unfolding bit
bit_low b key d h =
    let q : d / 8 ≡ 0 = omega arith in
    let r : d % 8 ≡ d = omega arith in
    ap (λ i. bit_at (b ∷ key) i (d % 8)) q ∙ ap (bit_at (b ∷ key) 0) r

pub bit_high : (b : ℕ) (key : Bytes) (e : ℕ) → bit (b ∷ key) (8 + e) ≡ bit key e
unfolding bit
bit_high b key e =
    let q : (8 + e) / 8 ≡ suc (e / 8) = omega arith in
    let r : (8 + e) % 8 ≡ e % 8 = omega arith in
    ap (λ i. bit_at (b ∷ key) i ((8 + e) % 8)) q ∙ ap (bit_at key (e / 8)) r

pub id_zero : (key : Bytes) → id_bytes key 0 ≡ []
unfolding id_bytes
id_zero [] = refl
id_zero (b ∷ key) = refl

pub id_low : (b : ℕ) (key : Bytes) (d : ℕ) → 0 < d → d ≤ 8 → id_bytes (b ∷ key) d ≡ mask b d ∷ []
unfolding id_bytes
id_low b key d pos small = ground arith

pub id_high : (b : ℕ) (key : Bytes) (e : ℕ) → id_bytes (b ∷ key) (8 + e) ≡ b ∷ id_bytes key e
unfolding id_bytes
id_high b key zero = rw (id_zero key, mask_all b) refl
id_high b key (suc e) =
    let m : 8 + suc e - 8 ≡ suc e = omega arith in ground (arith, ap (id_bytes key) m)

pub id_high_suc :
    (b : ℕ) (key : Bytes) (e : ℕ) → id_bytes (b ∷ key) (suc (8 + e)) ≡ b ∷ id_bytes key (suc e)
id_high_suc b key e =
    let m : suc (8 + e) ≡ 8 + suc e = omega arith in
    ap (id_bytes (b ∷ key)) m ∙ id_high b key (suc e)

pub flip_low : (b : ℕ) (key : Bytes) (d : ℕ) → d < 8 → flip_bit (b ∷ key) d ≡ flip b (7 - d) ∷ key
unfolding flip_bit
flip_low b key d h = ground arith

pub flip_high : (b : ℕ) (key : Bytes) (e : ℕ) → flip_bit (b ∷ key) (8 + e) ≡ b ∷ flip_bit key e
unfolding flip_bit
flip_high b key e = let m : 8 + e - 8 ≡ e = omega arith in ground (arith, ap (flip_bit key) m)
