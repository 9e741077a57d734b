-- ===== src/Database/Smt/Nodes/Ids.antt =====
-- One byte of a key: the masks and the flips of its bits.
use tao.Common.{
  ℕ, zero, suc, ◌+◌, ◌-◌, ◌/◌, ◌%◌, ◌^◌, ◌<◌, ◌≤◌, ◌≡◌, ◌↔◌, refl, arith, nat_beq, Bool-cases, inl,
  inr,
}
use tao.Database.Smt.Nodes.{mask, flip}

-- the bit of a byte at a place, the most significant first
abbrev pub byte_bit : ℕ → ℕ → ℕ
byte_bit b i = b / 2 ^ (7 - i) % 2

-- Masks of one bit more agree exactly if the masks do and the bit does.
pub mask_step :
    (b c i : ℕ)
    → b < 256
    → c < 256
    → 0 < i
    → i < 8
    → (mask b (suc i) ≡ mask c (suc i)) ↔ ((mask b i ≡ mask c i) × (byte_bit b i ≡ byte_bit c i))
unfolding mask
mask_step b c zero hb hc pos small = absurd (omega arith)
mask_step b c (suc zero) hb hc pos small =
    (λ e. (omega arith, omega arith), λ p. omega (arith, p.0, p.1))
mask_step b c (suc (suc zero)) hb hc pos small =
    (λ e. (omega arith, omega arith), λ p. omega (arith, p.0, p.1))
mask_step b c (suc (suc (suc zero))) hb hc pos small =
    (λ e. (omega arith, omega arith), λ p. omega (arith, p.0, p.1))
mask_step b c (suc (suc (suc (suc zero)))) hb hc pos small =
    (λ e. (omega arith, omega arith), λ p. omega (arith, p.0, p.1))
mask_step b c (suc (suc (suc (suc (suc zero))))) hb hc pos small =
    (λ e. (omega arith, omega arith), λ p. omega (arith, p.0, p.1))
mask_step b c (suc (suc (suc (suc (suc (suc zero)))))) hb hc pos small =
    (λ e. (omega arith, omega arith), λ p. omega (arith, p.0, p.1))
mask_step b c (suc (suc (suc (suc (suc (suc (suc zero))))))) hb hc pos small =
    (λ e. (omega arith, omega arith), λ p. omega (arith, p.0, p.1))
mask_step b c (suc (suc (suc (suc (suc (suc (suc (suc i)))))))) hb hc pos small =
    absurd (omega arith)

pub mask_first :
    (b c : ℕ) → b < 256 → c < 256 → (mask b 1 ≡ mask c 1) ↔ (byte_bit b 0 ≡ byte_bit c 0)
unfolding mask
mask_first b c hb hc = (λ e. omega arith, λ e. omega arith)

pub mask_all : (b : ℕ) → mask b 8 ≡ b
unfolding mask
mask_all b = omega arith

-- The flip of a bit gives a byte with the other bit there, and the same bits before.
pub record Flipped (b c i : ℕ) : Type 0 where
  pub octet : c < 256
  pub other : byte_bit c i + byte_bit b i ≡ 1
  pub before : 0 < i → mask c i ≡ mask b i

flip_at :
    (b i m : ℕ)
    → ((b / m % 2 ≡ 0) → Flipped b (b + m) i)
    → ((b / m % 2 ≡ 1) → Flipped b (b - m) i)
    → 2 ^ (7 - i) ≡ m
    → Flipped b (flip b (7 - i)) i
unfolding flip
flip_at b i m zero_bit one_bit e = rw e (elim (Bool-cases (nat_beq (b / m % 2) 0)) [
  | inl h ↦ rw h (zero_bit (ground arith))
  | inr h ↦ rw h (one_bit (ground arith))
])

pub flip_lem : (b i : ℕ) → b < 256 → i < 8 → Flipped b (flip b (7 - i)) i
unfolding mask
flip_lem b zero hb small =
    flip_at b 0 128
      (λ off. record { octet = omega arith; other = omega arith; before = λ pos. omega arith })
      (λ on. record { octet = omega arith; other = omega arith; before = λ pos. omega arith }) refl
flip_lem b (suc zero) hb small =
    flip_at b 1 64
      (λ off. record { octet = omega arith; other = omega arith; before = λ pos. omega arith })
      (λ on. record { octet = omega arith; other = omega arith; before = λ pos. omega arith }) refl
flip_lem b (suc (suc zero)) hb small =
    flip_at b 2 32
      (λ off. record { octet = omega arith; other = omega arith; before = λ pos. omega arith })
      (λ on. record { octet = omega arith; other = omega arith; before = λ pos. omega arith }) refl
flip_lem b (suc (suc (suc zero))) hb small =
    flip_at b 3 16
      (λ off. record { octet = omega arith; other = omega arith; before = λ pos. omega arith })
      (λ on. record { octet = omega arith; other = omega arith; before = λ pos. omega arith }) refl
flip_lem b (suc (suc (suc (suc zero)))) hb small =
    flip_at b 4 8
      (λ off. record { octet = omega arith; other = omega arith; before = λ pos. omega arith })
      (λ on. record { octet = omega arith; other = omega arith; before = λ pos. omega arith }) refl
flip_lem b (suc (suc (suc (suc (suc zero))))) hb small =
    flip_at b 5 4
      (λ off. record { octet = omega arith; other = omega arith; before = λ pos. omega arith })
      (λ on. record { octet = omega arith; other = omega arith; before = λ pos. omega arith }) refl
flip_lem b (suc (suc (suc (suc (suc (suc zero)))))) hb small =
    flip_at b 6 2
      (λ off. record { octet = omega arith; other = omega arith; before = λ pos. omega arith })
      (λ on. record { octet = omega arith; other = omega arith; before = λ pos. omega arith }) refl
flip_lem b (suc (suc (suc (suc (suc (suc (suc zero))))))) hb small =
    flip_at b 7 1
      (λ off. record { octet = omega arith; other = omega arith; before = λ pos. omega arith })
      (λ on. record { octet = omega arith; other = omega arith; before = λ pos. omega arith }) refl
flip_lem b (suc (suc (suc (suc (suc (suc (suc (suc i)))))))) hb small = absurd (omega arith)

-- A smaller byte with the same bits before a place has no larger bit there.
pub mask_lt :
    (b c i : ℕ)
    → b < 256
    → c < 256
    → i < 8
    → b < c
    → (0 < i → mask b i ≡ mask c i)
    → byte_bit b i ≤ byte_bit c i
unfolding mask
mask_lt b c zero hb hc small less same = omega arith
mask_lt b c (suc zero) hb hc small less same = omega (arith, same (omega arith))
mask_lt b c (suc (suc zero)) hb hc small less same = omega (arith, same (omega arith))
mask_lt b c (suc (suc (suc zero))) hb hc small less same = omega (arith, same (omega arith))
mask_lt b c (suc (suc (suc (suc zero)))) hb hc small less same = omega (arith, same (omega arith))
mask_lt b c (suc (suc (suc (suc (suc zero))))) hb hc small less same =
    omega (arith, same (omega arith))
mask_lt b c (suc (suc (suc (suc (suc (suc zero)))))) hb hc small less same =
    omega (arith, same (omega arith))
mask_lt b c (suc (suc (suc (suc (suc (suc (suc zero))))))) hb hc small less same =
    omega (arith, same (omega arith))
mask_lt b c (suc (suc (suc (suc (suc (suc (suc (suc i)))))))) hb hc small less same =
    absurd (omega arith)
