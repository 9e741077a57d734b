-- ===== src/Pouw/Matmul/Tests.antt =====
-- One tile of one entry.
use tao.Common.{◌≡◌, refl, ap, suc, zero, none, [], ◌∷◌, replicate, arith}
use tao.Common.Int.{pos}
use tao.Consensus.Bytes.{zero_hash}
use tao.Consensus.Models.{hasher, bincode}
use tao.Consensus.Block.{BlockHeader}
use tao.Pouw.Gemm.{Xof}
use tao.Pouw.Gemm.Total.{Fills}
use tao.Pouw.Gate.{all_sized}
use tao.Pouw.Matmul.{UtilityGatePow, new, work}
use tao.Pouw.Matmul.Total.{IsSized}

abbrev xof : Xof
xof seed count = replicate count 255

xof-Fills : Fills xof
xof-Fills seed zero = refl
xof-Fills seed (suc n) = ap suc (xof-Fills seed n)

rank_too_large : new 2 3 ≡ none
unfolding new
rank_too_large = refl

abbrev header : BlockHeader
header = record {
  version = 1;
  prev_hash = zero_hash;
  height = 3;
  timestamp = pos 5;
  tx_merkle_root = zero_hash;
  state_root = zero_hash;
  target = zero_hash;
  nonce = 7;
  miner = zero_hash;
}

abbrev gate_pow : UtilityGatePow
gate_pow = record { weights = (3 ∷ []) ∷ (4 ∷ []) ∷ []; n = 1; rank = 1; model_id = zero_hash }

gate_pow-IsSized : IsSized gate_pow
unfolding all_sized
gate_pow-IsSized = record { nonempty = omega arith; sized = refl }

same_work :
    work hasher xof bincode gate_pow header
    ≡ work hasher xof bincode gate_pow (record header { nonce = 8 })
unfolding work
same_work = refl
