-- ===== src/Database/Smt/Nodes/Order.antt =====
-- Keys in order: of two keys with the same bits up to a place, the later one has no smaller bit there.
use tao.Common.{
  ℕ, ◌*◌, ◌<◌, ◌≤◌, ◌≡◌, ◌⊎◌, sym, ap, ◌∙◌, true, [], ◌∷◌, arith, length, inl, inr, cons-injective,
}
use tao.Consensus.Bytes.{Bytes, IsBytes32}
use tao.Database.Smt.{bit, key_leb}
use tao.Database.Smt.Nodes.{mask, id_bytes}
use tao.Database.Smt.Nodes.Ids.{mask_lt}
use tao.Database.Smt.Nodes.Path.{Meets}
use tao.Database.Smt.Nodes.Octets.{AreOctets, low-or-high, bit_low, bit_high, id_low, id_high}

key_leb-cases :
    (b c : ℕ) (k l : Bytes)
    → key_leb (b ∷ k) (c ∷ l) ≡ true
    → (b < c) ⊎ ((b ≡ c) × (key_leb k l ≡ true))
unfolding key_leb
key_leb-cases b c k l h = ground arith

bit_ordered :
    (k l : Bytes) (d : ℕ)
    → AreOctets k
    → AreOctets l
    → d < 8 * length k
    → d < 8 * length l
    → key_leb k l ≡ true
    → id_bytes k d ≡ id_bytes l d
    → bit k d ≤ bit l d
bit_ordered [] l d ok ol hk hl le same = absurd (omega arith)
bit_ordered (b ∷ k) [] d ok ol hk hl le same = absurd (omega arith)
bit_ordered (b ∷ k) (c ∷ l) d ok ol hk hl le same = elim (low-or-high d) [
  | inl low ↦
      rw (bit_low b k d low, bit_low c l d low)
        (elim (key_leb-cases b c k l le) [
          | inl less ↦ mask_lt b c d ok.0 ol.0 low less (λ pos. same_mask d pos low same)
          | inr (e, _) ↦ rw e (omega arith)
        ])
  | inr (e, high) ↦
      let (head, rest) = cons-injective (
        sym (id_high b k e)
        ∙ (sym (ap (id_bytes (b ∷ k)) high)
            ∙ (same ∙ (ap (id_bytes (c ∷ l)) high ∙ id_high c l e)))) in
      rw (high, bit_high b k e, bit_high c l e)
        (elim (key_leb-cases b c k l le) [
          | inl less ↦ absurd (omega (arith, head))
          | inr (_, deeper) ↦ bit_ordered k l e ok.1 ol.1 (omega arith) (omega arith) deeper rest
        ])
]
  where
    same_mask :
        (n : ℕ) → 0 < n → n < 8 → id_bytes (b ∷ k) n ≡ id_bytes (c ∷ l) n → mask b n ≡ mask c n
    same_mask n pos small h =
        (cons-injective
          (sym (id_low b k n pos (omega arith)) ∙ (h ∙ id_low c l n pos (omega arith)))).0

pub key_leb-bit :
    (k l : Bytes) (d : ℕ)
    → IsBytes32 k
    → IsBytes32 l
    → d < 256
    → key_leb k l ≡ true
    → Meets d k l
    → bit k d ≤ bit l d
key_leb-bit k l d hk hl h le same =
    bit_ordered k l d hk.octets hl.octets (omega (arith, hk.size)) (omega (arith, hl.size)) le same
