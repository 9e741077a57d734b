-- ===== src/Consensus/Pow.antt =====
-- crates/tao-consensus/src/pow and mine.rs: proof-of-work algorithms as records of functions, the
-- switch at a height, and the search for a nonce.
pub mod Mining
mod Tests
use tao.Common.{ℕ, zero, suc, ◌+◌, ◌%◌, ◌^◌, Bool, true, false, leb, if◌then◌else◌}
use tao.Consensus.Bytes.{Bytes, U256Codec, Hasher}
use tao.Consensus.Target.{meets_target}
use tao.Consensus.Block.{BlockHeader, Bincode}

-- The trait `PowAlgorithm`, without the name for logs.
pub record PowAlgorithm : Type 0 where
  pub pow_hash : BlockHeader → Bytes
  pub verify : BlockHeader → Bool

-- The trait's own `verify`, for the algorithms that do not override it.
pub default_verify : U256Codec → (BlockHeader → Bytes) → BlockHeader → Bool
default_verify u pow_hash header = meets_target u (pow_hash header) header.target

-- `Blake3Pow`
pub blake3_pow : U256Codec → Hasher → Bincode → PowAlgorithm
blake3_pow u h c =
    let pow_hash = λ (header : BlockHeader). h.blake3 (c.serialize_header header) in
    record { pow_hash = pow_hash; verify = default_verify u pow_hash }

pub record HeightSwitchPow : Type 0 where
  pub before : PowAlgorithm
  pub after : PowAlgorithm
  pub activation_height : ℕ

pub active : HeightSwitchPow → ℕ → PowAlgorithm
active s height = if leb s.activation_height height then s.after else s.before

pub height_switch : HeightSwitchPow → PowAlgorithm
unfolding active
height_switch s = record {
  pow_hash = λ header. (active s header.height).pow_hash header;
  verify = λ header. (active s header.height).verify header;
}

pub data GrindResult : Type 0 where
  found : ℕ → GrindResult
  exhausted : ℕ → GrindResult

-- `nonce.wrapping_add(1)`
pub next_nonce : BlockHeader → BlockHeader
next_nonce header = record header { nonce = (header.nonce + 1) % 2 ^ 64 }

-- The loop for i in 0..max_iters, with the rounds left and i.
pub grind_from : PowAlgorithm → ℕ → ℕ → BlockHeader → BlockHeader × GrindResult
unfolding next_nonce
grind_from pow zero i header = (header, exhausted i)
grind_from pow (suc left) i header = elim (pow.verify header) [
  | true ↦ (header, found (i + 1))
  | false ↦ grind_from pow left (i + 1) (next_nonce header)
]

pub grind : BlockHeader → PowAlgorithm → ℕ → BlockHeader × GrindResult
unfolding grind_from
grind header pow max_iters = grind_from pow max_iters 0 header
