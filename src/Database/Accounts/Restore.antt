-- ===== src/Database/Accounts/Restore.antt =====
-- A store that is written out and read back: its dump restores it, entry by entry.
use tao.Common.{
  ◌≡◌, refl, sym, ap, ◌∙◌, false, ◌&&◌, none, some, List, [], ◌∷◌, ◌++◌, arith, nat_beq, inl, inr,
  Bool-cases, All,
}
use mathlib.Core.List.{append_assoc, append-nil}
use tao.Common.Keys.{◌==◌, nat_eq, list_eq, beq-cases, list_beq_iff}
use tao.Common.Maps.{lookup, insert, lookup-insert}
use tao.Consensus.Bytes.{Bytes}
use tao.Database.Accounts.{AccountModel, AccountsDb, commit, dump, erase}

module _ {Account : Type 0} where
  -- No key has two entries.
  unfoldable pub HasDistinctKeys : AccountsDb Account → Type 0
  HasDistinctKeys [] = Unit
  HasDistinctKeys (e ∷ db) = (lookup e.0 db ≡ none) × HasDistinctKeys db

  -- The account is not one that `commit` removes.
  abbrev pub IsAlive : AccountModel Account → Account → Type 0
  IsAlive m account = (nat_beq (m.lamports account) 0 && m.data_is_empty account) ≡ false

  -- Each account is stored once, and none is one that `commit` removes.
  pub record IsClean (m : AccountModel Account) (db : AccountsDb Account) : Type 0 where
    pub distinct : HasDistinctKeys db
    pub alive : All (λ e. IsAlive m e.1) db

  pub nothing-IsClean : (m : AccountModel Account) → IsClean m []
  unfolding HasDistinctKeys
  nothing-IsClean m = record { distinct = tt; alive = tt }

  insert-new :
      (key : Bytes) (account : Account) (db : AccountsDb Account)
      → lookup key db ≡ none
      → insert key account db ≡ db ++ (key, account) ∷ []
  unfolding insert lookup
  insert-new key account [] new = refl
  insert-new key account (e ∷ db) new = elim (beq-cases e.0 key) [
    | inl (q, b) ↦ let bad = rw b at new in cc
    | inr f ↦ rw f (ap (λ l. e ∷ l) (insert-new key account db (rw f at new)))
  ]

  -- Writing what is there changes nothing.
  pub insert-same :
      (key : Bytes) (account : Account) (db : AccountsDb Account)
      → lookup key db ≡ some account
      → insert key account db ≡ db
  unfolding insert lookup
  insert-same key account [] old = cc
  insert-same key account (e ∷ db) old = elim (beq-cases e.0 key) [
    | inl (q, b) ↦ let same = rw b at old in rw b cc
    | inr f ↦ rw f (ap (λ l. e ∷ l) (insert-same key account db (rw f at old)))
  ]

  commit-append :
      (m : AccountModel Account) (db more : AccountsDb Account)
      → HasDistinctKeys more
      → All (λ e. IsAlive m e.1) more
      → ((key : Bytes) (account : Account) → lookup key more ≡ some account → lookup key db ≡ none)
      → commit m db more ≡ db ++ more
  unfolding commit HasDistinctKeys lookup
  commit-append m db [] d g apart = sym (append-nil db)
  commit-append m db (e ∷ more) (fresh, d) (alive, g) apart =
      let new : lookup e.0 db ≡ none = apart e.0 e.1 (ground (arith, list_beq_iff e.0 e.0)) in
      let rest =
        commit-append m (insert e.0 e.1 db) more d g (λ k a found.
          ground (arith, lookup-insert e.0 k e.1 db, apart k a, list_beq_iff e.0 k)) in
      rw alive
        (rest ∙ ap (λ l. l ++ more) (insert-new e.0 e.1 db new) ∙ append_assoc db (e ∷ []) more)

  insert-HasDistinctKeys :
      (key : Bytes) (account : Account) (db : AccountsDb Account)
      → HasDistinctKeys db
      → HasDistinctKeys (insert key account db)
  unfolding insert HasDistinctKeys lookup
  insert-HasDistinctKeys key account [] d = (refl, tt)
  insert-HasDistinctKeys key account (e ∷ db) (fresh, d) = elim (beq-cases e.0 key) [
    | inl (q, b) ↦ rw b (rw (sym q) fresh, d)
    | inr f ↦
        let apart : lookup e.0 (insert key account db) ≡ none =
          ground
            (arith, lookup-insert key e.0 account db, list_beq_iff key e.0, list_beq_iff e.0 key) in
        rw f (apart, insert-HasDistinctKeys key account db d)
  ]

  insert-All :
      (m : AccountModel Account) (key : Bytes) (account : Account) (db : AccountsDb Account)
      → IsAlive m account
      → All (λ e. IsAlive m e.1) db
      → All (λ e. IsAlive m e.1) (insert key account db)
  unfolding insert
  insert-All m key account [] a c = (a, tt)
  insert-All m key account (e ∷ db) a (here, c) = elim (Bool-cases (e.0 == key)) [
    | inl b ↦ rw b (a, c)
    | inr f ↦ rw f (here, insert-All m key account db a c)
  ]

  erase-All :
      (m : AccountModel Account) (key : Bytes) (db : AccountsDb Account)
      → All (λ e. IsAlive m e.1) db
      → All (λ e. IsAlive m e.1) (erase key db)
  unfolding erase
  erase-All m key [] c = c
  erase-All m key (e ∷ db) (here, c) = elim (Bool-cases (e.0 == key)) [
    | inl b ↦ rw b (erase-All m key db c)
    | inr f ↦ rw f (here, erase-All m key db c)
  ]

  lookup-erase :
      (key j : Bytes) (db : AccountsDb Account)
      → lookup j db ≡ none
      → lookup j (erase key db) ≡ none
  unfolding erase lookup
  lookup-erase key j [] h = h
  lookup-erase key j (e ∷ db) h = ground (arith, lookup-erase key j db)

  erase-HasDistinctKeys :
      (key : Bytes) (db : AccountsDb Account) → HasDistinctKeys db → HasDistinctKeys (erase key db)
  unfolding erase HasDistinctKeys
  erase-HasDistinctKeys key [] d = d
  erase-HasDistinctKeys key (e ∷ db) (fresh, d) =
      let rest = erase-HasDistinctKeys key db d in
      elim (beq-cases e.0 key) [
        | inl (q, b) ↦ rw b rest
        | inr f ↦ rw f (lookup-erase key e.0 db fresh, rest)
      ]

  pub insert-IsClean :
      (m : AccountModel Account) (key : Bytes) (account : Account) (db : AccountsDb Account)
      → IsAlive m account
      → IsClean m db
      → IsClean m (insert key account db)
  insert-IsClean m key account db a c = record {
    distinct = insert-HasDistinctKeys key account db c.distinct;
    alive = insert-All m key account db a c.alive;
  }

  pub commit-IsClean :
      (m : AccountModel Account) (db : AccountsDb Account) (changes : List (Bytes × Account))
      → IsClean m db
      → IsClean m (commit m db changes)
  unfolding commit
  commit-IsClean m db [] c = c
  commit-IsClean m db (e ∷ changes) c =
      elim (Bool-cases (nat_beq (m.lamports e.1) 0 && m.data_is_empty e.1)) [
        | inl gone ↦
            let less : IsClean m (erase e.0 db) = record {
              distinct = erase-HasDistinctKeys e.0 db c.distinct;
              alive = erase-All m e.0 db c.alive;
            } in
            rw gone (commit-IsClean m (erase e.0 db) changes less)
        | inr stays ↦
            rw stays
              (commit-IsClean m (insert e.0 e.1 db) changes (insert-IsClean m e.0 e.1 db stays c))
      ]

  -- A store without double keys and accounts to remove is restored by the commit of its dump to the
  -- empty store.
  pub commit-dump :
      (m : AccountModel Account) (db : AccountsDb Account)
      → IsClean m db
      → commit m [] (dump db) ≡ db
  unfolding dump lookup
  commit-dump m db c = commit-append m [] db c.distinct c.alive (λ key account found. refl)
