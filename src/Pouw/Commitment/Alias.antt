-- ===== src/Pouw/Commitment/Alias.antt =====
-- The bits of an index above the height of a proof are not read.
use tao.Common.{
  ℕ, ◌+◌, ◌*◌, ◌/◌, ◌%◌, ◌^◌, ◌≡◌, refl, ap, List, [], ◌∷◌, arith, length, nat_beq, if◌then◌else◌,
}
use tao.Common.Keys.{◌==◌, nat_eq, list_eq}
use tao.Common.Powers.{pow2-suc}
use tao.Consensus.Bytes.{Bytes, Hasher}
use tao.Pouw.Commitment.{node_hash, climb, merkle_verify}

low_bit : (idx p : ℕ) → (idx + 2 * p) % 2 ≡ idx % 2
low_bit idx p = omega arith

upper_bits : (idx p : ℕ) → (idx + 2 * p) / 2 ≡ idx / 2 + p
upper_bits idx p = omega arith

module _ (h : Hasher) where
  climb-alias :
      (idx : ℕ) (node : Bytes) (siblings : List Bytes)
      → climb h (idx + 2 ^ length siblings) node siblings ≡ climb h idx node siblings
  unfolding climb
  climb-alias idx node [] = refl
  climb-alias idx node (sib ∷ siblings) =
      let up = if nat_beq (idx % 2) 0 then node_hash h node sib else node_hash h sib node in
      rw
        (
          pow2-suc (length siblings),
          low_bit idx (2 ^ length siblings),
          upper_bits idx (2 ^ length siblings),
        )
        (climb-alias (idx / 2) up siblings)

  -- A proof verifies for a position exactly when it does for the position moved on by the number of
  -- leaves that its height allows: positions outside the tree stand for positions in it.
  pub merkle_verify-alias :
      (root leaf : Bytes) (idx : ℕ) (siblings : List Bytes)
      → merkle_verify h root leaf
          (record { index = idx + 2 ^ length siblings; siblings = siblings })
        ≡ merkle_verify h root leaf (record { index = idx; siblings = siblings })
  unfolding merkle_verify
  merkle_verify-alias root leaf idx siblings =
      ap (λ (top : Bytes). top == root) (climb-alias idx leaf siblings)
