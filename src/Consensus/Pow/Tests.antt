-- ===== src/Consensus/Pow/Tests.antt =====
-- The search for a nonce at a concrete header.
use tao.Common.{◌≡◌, refl, nat_beq, ◌%◌, arith}
use tao.Common.Int.{pos}
use tao.Consensus.Bytes.{zero_hash}
use tao.Consensus.Block.{BlockHeader}
use tao.Consensus.Pow.{PowAlgorithm, found, exhausted, grind}
use tao.Consensus.Pow.Mining.{Ground, grind_lem}

abbrev header : BlockHeader
header = record {
  version = 1;
  prev_hash = zero_hash;
  height = 0;
  timestamp = pos 0;
  tx_merkle_root = zero_hash;
  state_root = zero_hash;
  target = zero_hash;
  nonce = 5;
  miner = zero_hash;
}

-- Nonces that 7 divides win.
abbrev sevens : PowAlgorithm
sevens = record { pow_hash = λ h. zero_hash; verify = λ h. nat_beq (h.nonce % 7) 0 }

grind_runs : (grind header sevens 9).1 ≡ found 3
unfolding grind
grind_runs = refl

grind_gives_up : (grind header sevens 2).1 ≡ exhausted 2
unfolding grind
grind_gives_up = refl

grind_lem_example : Ground sevens header 9 (grind header sevens 9)
grind_lem_example = grind_lem header sevens 9 (omega arith)
