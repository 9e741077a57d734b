-- ===== src/Runtime/Genesis/Tests.antt =====
-- The genesis accounts of a small file: an address is its own key, the empty one is not valid.
use tao.Common.{ℕ, ◌≡◌, ◌+◌, refl, true, Option, none, some, List, [], ◌∷◌, length}
use tao.Consensus.Bytes.{Bytes}
use tao.Database.Accounts.{AccountModel, AccountsDb, get}
use tao.Runtime.Genesis.{Allocation, loaded, invalid_address, load_from, load_allocations}
use tao.Runtime.Genesis.Again.{load_allocations-again}

abbrev model : AccountModel ℕ
model = record {
  lamports = λ a. a;
  data_is_empty = λ a. true;
  set_lamports = λ a n. n;
  new_system = λ n. n;
}

from_str : Bytes → Option Bytes
from_str [] = none
from_str (b ∷ bytes) = some (b ∷ bytes)

abbrev two : List Allocation
two = record { address = 1 ∷ []; lamports = 5 } ∷ record { address = 2 ∷ []; lamports = 7 } ∷ []

abbrev before : AccountsDb ℕ
before = ((2 ∷ []), 3) ∷ []

abbrev after : AccountsDb ℕ
after = ((2 ∷ []), 3) ∷ ((1 ∷ []), 5) ∷ []

load_two :
    load_allocations model from_str before two
    ≡ (after, loaded (record { created = 1; skipped = 1 }))
unfolding load_allocations load_from from_str get tao.Common.Maps.lookup tao.Common.Maps.insert
    tao.Database.Accounts.set
load_two = refl

load_invalid :
    load_allocations model from_str before
      (record { address = 1 ∷ []; lamports = 5 } ∷ record { address = []; lamports = 1 } ∷ two)
    ≡ (after, invalid_address [])
unfolding load_allocations load_from from_str get tao.Common.Maps.lookup tao.Common.Maps.insert
    tao.Database.Accounts.set
load_invalid = refl

load_allocations-again_example :
    (1 + 1 ≡ length two)
    × ((pubkey : Bytes) (account : ℕ)
        → get before pubkey ≡ some account
        → get after pubkey ≡ some account)
    × (load_allocations model from_str after two
        ≡ (after, loaded (record { created = 0; skipped = length two })))
load_allocations-again_example =
    load_allocations-again model from_str before after (record { created = 1; skipped = 1 }) two
      load_two
