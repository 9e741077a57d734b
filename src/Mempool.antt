-- ===== src/Mempool.antt =====
-- crates/tao-mempool/src/lib.rs: the pool of pending transactions. A transaction is a type of the
-- Solana crates: the pool reads its list of signatures only. `none` is a fault (a panic).
pub mod Seen
pub mod Laws
pub mod Liveness
mod Tests
use tao.Common.{
  ℕ, ◌≤◌, Bool, true, false, not, Option, none, some, List, [], ◌∷◌, ◌++◌, min, leb, nat_beq,
  if◌then◌else◌, length, take, drop, first, ◌>>=◌,
}
use tao.Common.Keys.{◌==◌, nat_eq, list_eq, contains}
use tao.Consensus.Bytes.{Bytes}

-- `seen` is a hash set of signatures, as a list.
pub record Mempool {ℓ} (T : Type ℓ) : Type ℓ where
  pub txs : List T
  pub seen : List Bytes
  pub max_size : ℕ

-- `HashSet::insert` and `HashSet::remove`
unfoldable pub insert : Bytes → List Bytes → List Bytes
insert sig seen = if contains seen sig then seen else sig ∷ seen

unfoldable pub remove : Bytes → List Bytes → List Bytes
remove sig [] = []
remove sig (s ∷ seen) = let rest = remove sig seen in if s == sig then rest else s ∷ rest

-- `TryInto::<[u8; 64]>`
abbrev to_array64 : Bytes → Option Bytes
to_array64 sig = if nat_beq (length sig) 64 then some sig else none

module _ {ℓ} {T : Type ℓ} where
  pub new : ℕ → Mempool T
  new max_size = record { txs = []; seen = []; max_size = max_size }

  pub len : Mempool T → ℕ
  len p = length p.txs

  pub is_empty : Mempool T → Bool
  is_empty p = nat_beq (length p.txs) 0

module _ {ℓ} {T : Type ℓ} (signatures : T → List Bytes) where
  -- The first signature of a transaction, as 64 bytes.
  pub signature : T → Option Bytes
  signature tx = do sig ← first (signatures tx); to_array64 sig

  pub forget : List Bytes → T → List Bytes
  forget seen tx = elim (signature tx) [ none ↦ seen | some sig ↦ remove sig seen ]

  -- The eviction in `submit`: `txs.remove(0)` panics on an empty list.
  pub evict : Mempool T → Option (Mempool T)
  evict p = elim p.txs [
    | [] ↦ none
    | old ∷ rest ↦ some (record p { txs = rest; seen = forget p.seen old })
  ]

  -- Simple eviction: drop the oldest when full.
  pub make_room : Mempool T → Option (Mempool T)
  make_room p = if leb p.max_size (length p.txs) then evict p else some p

  pub submit : Mempool T → T → Option (Bool × Mempool T)
  submit p tx = elim (signature tx) [
    | none ↦ some (false, p)
    | some sig ↦ if contains p.seen sig then some (false, p) else do
      p' ← make_room p
      some (true, record p' { txs = p'.txs ++ tx ∷ []; seen = insert sig p'.seen })
  ]

  pub forget_all : List Bytes → List T → List Bytes
  forget_all seen [] = seen
  forget_all seen (tx ∷ txs) = forget_all (forget seen tx) txs

  pub drain : Mempool T → ℕ → List T × Mempool T
  drain p max_count =
      let count = min max_count (length p.txs) in
      let drained = take count p.txs in
      (drained, record p { txs = drop count p.txs; seen = forget_all p.seen drained })
