-- ===== src/Database/Smt/Tests.antt =====
-- A tree of two accounts, with a small function in the place of the hash.
use tao.Common.{ℕ, zero, suc, ◌≡◌, refl, ◌⊎◌, true, List, [], ◌∷◌, replicate, map}
use tao.Consensus.Bytes.{Bytes, Collision, zero_hash}
use tao.Common.Keys.{nat_eq, list_eq, beq_refl}
use tao.Consensus.Models.{hasher}
use tao.Database.Smt.{
  height, MerkleProof, SparseMerkleTree, from_entries, sort_by_key, dedup_by_key, root, proof,
  verify, bit, fold_up,
}
use tao.Database.Smt.Proofs.{AreHashes, verify-binding}

abbrev key_one : Bytes
key_one = 128 ∷ replicate 31 0

abbrev key_two : Bytes
key_two = 1 ∷ replicate 31 7

abbrev value : Bytes
value = replicate 32 9

abbrev tree : SparseMerkleTree
tree = record { leaves = (key_two, value) ∷ (key_one, value) ∷ [] }

sorted :
    map (λ e. e.0) (sort_by_key ((key_one, value) ∷ (key_two, value) ∷ [])) ≡ key_two ∷ key_one ∷ []
unfolding sort_by_key tao.Database.Smt.insert_sorted tao.Database.Smt.key_leb
sorted = refl

first_kept : dedup_by_key ((key_one, value) ∷ (key_one, zero_hash) ∷ []) ≡ (key_one, value) ∷ []
unfolding dedup_by_key
first_kept = refl

top_bit : bit key_one 0 ≡ 1
unfolding bit
top_bit = refl

abbrev siblings : List Bytes
siblings = replicate height value

-- The root over one leaf with those siblings.
abbrev top : Bytes
top = fold_up hasher key_one 0 siblings zero_hash

AreHashes-replicate : (n : ℕ) → AreHashes hasher (replicate n value)
AreHashes-replicate zero = tt
AreHashes-replicate (suc n) = (refl, AreHashes-replicate n)

verify_siblings : verify hasher top key_one zero_hash (record { siblings = siblings }) ≡ true
unfolding verify
verify_siblings = beq_refl top

verify-binding_example : (zero_hash ≡ zero_hash) × (siblings ≡ siblings) ⊎ Collision hasher.blake3
verify-binding_example =
    verify-binding hasher top key_one zero_hash zero_hash (record { siblings = siblings })
      (record { siblings = siblings }) refl refl (AreHashes-replicate height)
      (AreHashes-replicate height) verify_siblings verify_siblings
