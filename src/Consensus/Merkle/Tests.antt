-- ===== src/Consensus/Merkle/Tests.antt =====
-- Runs of `tx_merkle_root`, and the theorems at concrete inputs.
use tao.Common.{◌≡◌, refl, ◌⊎◌, List, [], ◌∷◌, ◌++◌, arith}
use tao.Consensus.Bytes.{Bytes, Collision}
use tao.Consensus.Models.{hasher}
use tao.Consensus.Merkle.{tx_merkle_root}
use tao.Consensus.Merkle.Duplicate.{tx_merkle_root-repeat}
use tao.Consensus.Merkle.Binding.{tx_merkle_root-binding}

abbrev three : List Bytes
three = (1 ∷ []) ∷ (2 ∷ []) ∷ (3 ∷ []) ∷ []

tx_merkle_root-repeat_example :
    tx_merkle_root hasher (three ++ (3 ∷ []) ∷ []) ≡ tx_merkle_root hasher three
tx_merkle_root-repeat_example =
    tx_merkle_root-repeat hasher three (3 ∷ []) (omega arith) (omega arith) refl

tx_merkle_root-binding_example : (three ≡ three) ⊎ Collision hasher.blake3
tx_merkle_root-binding_example = tx_merkle_root-binding hasher three three refl refl
