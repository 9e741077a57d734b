-- ===== src/Runtime/BlockhashQueue.antt =====
-- crates/tao-runtime/src/blockhash_queue.rs: the queue of recent block hashes, newest first.
pub mod Expiry
mod Tests
use tao.Common.{
  ℕ, zero, suc, Bool, Option, none, some, List, [], ◌∷◌, ltb, nat_beq, if◌then◌else◌, length, first,
  ◌>>=◌, ◌>>◌, ensure,
}
use tao.Common.Keys as Keys
use tao.Common.Keys.{◌==◌, nat_eq, list_eq}
use tao.Consensus.Bytes.{Bytes}

pub record BlockhashQueue : Type 0 where
  pub recent : List Bytes
  pub max_age : ℕ

-- `none` is the failed assertion.
pub new : ℕ → Option BlockhashQueue
new max_age = do ensure (ltb 0 max_age); some (record { recent = []; max_age = max_age })

pub pop_back : List Bytes → List Bytes
pop_back [] = []
pop_back (x ∷ []) = []
pop_back (x ∷ y ∷ xs) = x ∷ pop_back (y ∷ xs)

-- The loop of `register`: on one round for each hash, which is enough.
pub shrink : ℕ → ℕ → List Bytes → List Bytes
shrink zero max_age recent = recent
shrink (suc fuel) max_age recent =
    let rest = shrink fuel max_age (pop_back recent) in
    if ltb max_age (length recent) then rest else recent

pub register : BlockhashQueue → Bytes → BlockhashQueue
register q hash = record q {
  recent = shrink (length (hash ∷ q.recent)) q.max_age (hash ∷ q.recent);
}

pub contains : BlockhashQueue → Bytes → Bool
contains q hash = Keys.contains q.recent hash

pub latest : BlockhashQueue → Option Bytes
latest q = first q.recent

-- `iter().position(|h| h == hash)`
pub position : Bytes → List Bytes → Option ℕ
position hash [] = none
position hash (h ∷ hs) = if h == hash then some 0 else do i ← position hash hs; some (suc i)

pub age_of : BlockhashQueue → Bytes → Option ℕ
age_of q hash = position hash q.recent

pub len : BlockhashQueue → ℕ
len q = length q.recent

pub is_empty : BlockhashQueue → Bool
is_empty q = nat_beq (length q.recent) 0
