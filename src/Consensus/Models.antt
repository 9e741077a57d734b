-- ===== src/Consensus/Models.antt =====
-- Concrete values for the parameters of the consensus code: conversions that satisfy the documented
-- laws, a function in the place of the hash, and a serialisation.
use tao.Common.{ℕ, ◌^◌, ◌<◌, ◌≡◌, refl, ◌∙◌, none, [], ◌∷◌}
use tao.Common.Int.{pos_part}
use tao.Consensus.Bytes.{IsBytes32, be_value, U256Codec, Hasher}
use tao.Consensus.BigEndian.{to_bytes, length-to_bytes, be_value-mod, to_bytes_octets}
use tao.Consensus.Block.{Bincode}
use native.Mathlib.Nat.{mod-eq_of_lt}

pub be_value-to_bytes : (v : ℕ) → v < 2 ^ 256 → be_value (to_bytes 32 v) ≡ v
be_value-to_bytes v h = be_value-mod 32 v ∙ mod-eq_of_lt h

pub to_bytes-IsBytes32 : (v : ℕ) → IsBytes32 (to_bytes 32 v)
to_bytes-IsBytes32 v = record { size = length-to_bytes 32 v; octets = to_bytes_octets 32 v }

abbrev pub codec : U256Codec
codec = record {
  from_big_endian = be_value;
  to_big_endian = to_bytes 32;
  from_value = λ b h. refl;
  to_size = λ v h. to_bytes-IsBytes32 v;
  from_to = λ v h. be_value-to_bytes v h;
}

abbrev pub hasher : Hasher
hasher = record {
  blake3 = λ b. to_bytes 32 (be_value b);
  blake3_size = λ b. length-to_bytes 32 (be_value b);
}

abbrev pub bincode : Bincode
bincode = record {
  serialize_header = λ h. h.nonce ∷ h.height ∷ pos_part h.timestamp ∷ [];
  serialize_dag_header = λ h. h.nonce ∷ pos_part h.timestamp ∷ [];
  deserialize_dag_block = λ b. none;
  deserialize_v2 = λ b. none;
  deserialize_v1 = λ b. none;
}
