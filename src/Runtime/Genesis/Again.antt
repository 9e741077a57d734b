-- ===== src/Runtime/Genesis/Again.antt =====
-- Loading again changes nothing: what a load has written is skipped by the next.
use tao.Common.{
  ℕ, ◌+◌, ◌≡◌, ◌∙◌, Option, some, List, [], ◌∷◌, arith, length, inl, inr, Option-cases, ap,
}
use tao.Common.Keys.{nat_eq, list_eq}
use tao.Common.Maps.{lookup-insert_new, lookup-insert_self}
use tao.Consensus.Bytes.{Bytes}
use tao.Database.Accounts.{AccountModel, AccountsDb, get, set}
use tao.Runtime.Genesis.{Allocation, GenesisLoad, loaded, load_from, load_allocations}

module _ {Account : Type 0} (m : AccountModel Account) (from_str : Bytes → Option Bytes) where
  -- Every allocation has an address with an account.
  AllPresent : AccountsDb Account → List Allocation → Type 0
  AllPresent db [] = Unit
  AllPresent db (alloc ∷ allocations) =
      ((pubkey : Bytes) × (account : Account) × (from_str alloc.address ≡ some pubkey)
        × (get db pubkey ≡ some account))
      × AllPresent db allocations

  -- A load that ends without an error keeps the accounts that exist, and leaves one for every allocation.
  record Loads (before after : AccountsDb Account) (load end : GenesisLoad)
      (allocations : List Allocation) : Type 0 where
    pub count : end.created + end.skipped ≡ load.created + load.skipped + length allocations
    pub keeps :
        (pubkey : Bytes) (account : Account)
        → get before pubkey ≡ some account
        → get after pubkey ≡ some account
    pub present : AllPresent after allocations

  load_from-Loads :
      (load end : GenesisLoad) (before after : AccountsDb Account) (allocations : List Allocation)
      → load_from m from_str load before allocations ≡ (after, loaded end)
      → Loads before after load end allocations
  unfolding load_from AllPresent get set
  load_from-Loads load end before after [] e =
      let same : end ≡ load = cc in
      record { count = rw same (omega arith); keeps = λ pubkey account h. cc; present = tt }
  load_from-Loads load end before after (alloc ∷ allocations) e =
      elim (Option-cases (from_str alloc.address)) [
        | inl bad ↦ let stop = rw (load_from, bad) at e in cc
        | inr (pubkey, good) ↦ elim (Option-cases (get before pubkey)) [
          | inr (account, old) ↦
              let skip : GenesisLoad = record load { skipped = load.skipped + 1 } in
              let rest =
                load_from-Loads skip end before after allocations
                  (rw (load_from, good, old) at e) in
              record {
                count = omega (arith, rest.count);
                keeps = rest.keeps;
                present = ((pubkey, account, good, rest.keeps pubkey account old), rest.present);
              }
          | inl new ↦
              let made : GenesisLoad = record load { created = load.created + 1 } in
              let account = m.new_system alloc.lamports in
              let rest =
                load_from-Loads made end (set before pubkey account) after allocations
                  (rw (load_from, good, new) at e) in
              record {
                count = omega (arith, rest.count);
                keeps = λ p a h. rest.keeps p a (lookup-insert_new pubkey p account before new h);
                present = (
                  (
                    pubkey,
                    account,
                    good,
                    rest.keeps pubkey account (lookup-insert_self pubkey account before),
                  ),
                  rest.present,
                );
              }
        ]
      ]

  load_from-AllPresent :
      (created skipped : ℕ) (db : AccountsDb Account) (allocations : List Allocation)
      → AllPresent db allocations
      → load_from m from_str (record { created = created; skipped = skipped }) db allocations
        ≡ (db, loaded (record { created = created; skipped = skipped + length allocations }))
  unfolding load_from AllPresent
  load_from-AllPresent created skipped db [] h =
      ap (λ n. (db, loaded (record { created = created; skipped = n }))) (omega arith)
  load_from-AllPresent created skipped db (alloc ∷ allocations) ((pubkey, account, good, old), h) =
      rw (load_from, good, old)
        (load_from-AllPresent created (skipped + 1) db allocations h
          ∙ ap (λ n. (db, loaded (record { created = created; skipped = n }))) (omega arith))

  -- When a load ends without an error, each allocation was created or skipped, the accounts that
  -- existed are as they were, and another load of the same allocations skips all of them and
  -- changes nothing.
  pub load_allocations-again :
      (before after : AccountsDb Account) (end : GenesisLoad) (allocations : List Allocation)
      → load_allocations m from_str before allocations ≡ (after, loaded end)
      → (end.created + end.skipped ≡ length allocations)
        × ((pubkey : Bytes) (account : Account)
            → get before pubkey ≡ some account
            → get after pubkey ≡ some account)
        × (load_allocations m from_str after allocations
            ≡ (after, loaded (record { created = 0; skipped = length allocations })))
  unfolding load_allocations
  load_allocations-again before after end allocations e =
      let start : GenesisLoad = record { created = 0; skipped = 0 } in
      let done = load_from-Loads start end before after allocations e in
      (
        omega (arith, done.count),
        done.keeps,
        load_from-AllPresent 0 0 after allocations done.present
            ∙ ap (λ n. (after, loaded (record { created = 0; skipped = n }))) (omega arith),
      )
