-- ===== src/DagChain/State/Replay.antt =====
-- The virtual state is the state that a full replay gives.
use tao.Common.{
  ℕ, ◌≡◌, refl, ap, sym, ◌∙◌, true, false, none, some, List, [], ◌∷◌, ◌++◌, length, take, drop,
  get_elem?, Option, ◌-◌, inl, inr, ◌⊎◌, Bool-cases, Option-cases, take-append-drop,
}
use tao.Common.Keys.{◌==◌, nat_eq, list_eq, list_beq_iff}
use tao.Consensus.Block.{BlockId}
use tao.Runtime.Bank.{Svm, Bank, BankError, Result, ok, err}
use tao.Database.Accounts as Accounts
use tao.DagChain.{Externals, DagChain, Checkpoint}
use tao.DagChain.State.{
  State, is_prefix, fresh_bank, replay_block, replay_blocks, is_lost, rebuild_state, matching,
  rebuild_from, bank_at, next_checkpoint, maybe_advance_checkpoint, bank_of, virtual_state, pay,
  open_bank, seed, restore,
}

pub Result-cases {ℓ} :
    {A : Type ℓ} (r : Result A) → ((a : A) × (r ≡ ok a)) ⊎ ((e : BankError) × (r ≡ err e))
Result-cases (ok a) = inl (a, refl)
Result-cases (err e) = inr (e, refl)

is_prefix-append :
    (xs order : List BlockId) → is_prefix xs order ≡ true → order ≡ xs ++ drop (length xs) order
unfolding is_prefix
is_prefix-append [] order e = refl
is_prefix-append (b ∷ xs) [] e = let bad : false ≡ true = e in cc
is_prefix-append (b ∷ xs) (o ∷ order) e = elim (Bool-cases (b == o)) [
  | inl same ↦
      let rest : order ≡ xs ++ drop (length xs) order = is_prefix-append xs order (rw same at e) in
      ap (λ t. t ∷ order) (sym ((list_beq_iff b o).0 same)) ∙ ap (λ t. b ∷ t) rest
  | inr other ↦ let bad : false ≡ true = rw other at e in cc
]

module _ (x : Externals) (m : Svm x.Tx x.Account) where
  abbrev then_replay : DagChain x → Result (Bank x.Account) → List BlockId → Result (Bank x.Account)
  then_replay s (ok bank) blocks = replay_blocks x m s bank blocks
  then_replay s (err e) blocks = err e

  -- The blocks that are appended are replayed on the bank of those before.
  pub replay_blocks-append :
      (s : DagChain x) (bank : Bank x.Account) (xs ys : List BlockId)
      → replay_blocks x m s bank (xs ++ ys) ≡ then_replay s (replay_blocks x m s bank xs) ys
  unfolding replay_blocks
  replay_blocks-append s bank [] ys = refl
  replay_blocks-append s bank (b ∷ xs) ys = elim (Result-cases (replay_block x m s bank b)) [
    | inl (next, e) ↦ rw (replay_blocks, e) (replay_blocks-append s next xs ys)
    | inr (f, e) ↦ rw (replay_blocks, e) refl
  ]

  -- The order that was executed last does not matter.
  replay_blocks-executed :
      (s : DagChain x) (order : List BlockId) (bank : Bank x.Account) (blocks : List BlockId)
      → replay_blocks x m (record s { executed = order }) bank blocks
        ≡ replay_blocks x m s bank blocks
  unfolding replay_blocks replay_block pay
  replay_blocks-executed s order bank [] = refl
  replay_blocks-executed s order bank (b ∷ blocks) =
      elim (Result-cases (replay_block x m s bank b)) [
        | inl (next, e) ↦ rw (replay_blocks, e) (replay_blocks-executed s order next blocks)
        | inr (f, e) ↦ rw (replay_blocks, e) refl
      ]

  -- The cached bank is that of the executed order.
  abbrev pub IsCached : State x → Type 0
  IsCached st =
      (bank : Bank x.Account)
      → st.bank ≡ some bank
      → replay_blocks x m st.chain (fresh_bank x m st.chain) st.chain.executed ≡ ok bank

  matching-none :
      (s : DagChain x) (order : List BlockId) → s.checkpoint ≡ none → matching x m s order ≡ none
  unfolding matching
  matching-none s order c = rw (matching, c) refl

  bank_at-none :
      (s : DagChain x) (target : ℕ)
      → s.checkpoint ≡ none
      → bank_at x m s target ≡ replay_blocks x m s (fresh_bank x m s) (take target s.executed)
  unfolding bank_at
  bank_at-none s target c =
      ap
        (λ (o : Option (Checkpoint x.Account)). elim o [
          | some cp ↦ replay_blocks x m s (restore x m s cp) (drop cp.len (take target s.executed))
          | none ↦ replay_blocks x m s (fresh_bank x m s) (take target s.executed)
        ])
        c

  rebuild_from_lem :
      (s : DagChain x) (order : List BlockId)
      → s.checkpoint ≡ none
      → is_lost x m s ≡ false
      → rebuild_from x m s order ≡ replay_blocks x m s (fresh_bank x m s) order
  unfolding rebuild_from
  rebuild_from_lem s order c l = rw (rebuild_from, matching-none s order c, l) refl

  bank_of_lem :
      (st : State x) (order : List BlockId)
      → st.chain.checkpoint ≡ none
      → is_lost x m st.chain ≡ false
      → IsCached st
      → bank_of x m st order ≡ replay_blocks x m st.chain (fresh_bank x m st.chain) order
  unfolding bank_of
  bank_of_lem st order c l cached = elim (Option-cases st.bank) [
    | inl e ↦ rw (bank_of, e) (rebuild_from_lem st.chain order c l)
    | inr (bank, e) ↦ elim (Bool-cases (is_prefix st.chain.executed order)) [
      | inl p ↦
          rw (bank_of, e, p)
            (sym (
              ap (replay_blocks x m st.chain (fresh_bank x m st.chain))
                (is_prefix-append st.chain.executed order p)
              ∙ replay_blocks-append st.chain (fresh_bank x m st.chain) st.chain.executed
                  (drop (length st.chain.executed) order)
              ∙ ap (λ r. then_replay st.chain r (drop (length st.chain.executed) order))
                  (cached bank e)))
      | inr p ↦ rw (bank_of, e, p) (rebuild_from_lem st.chain order c l)
    ]
  ]

  -- A prefix of what is replayed is replayed.
  replay_blocks-take :
      (s : DagChain x) (bank end : Bank x.Account) (n : ℕ) (blocks : List BlockId)
      → replay_blocks x m s bank blocks ≡ ok end
      → (b : Bank x.Account) × (replay_blocks x m s bank (take n blocks) ≡ ok b)
  replay_blocks-take s bank end n blocks done =
      let whole : then_replay s (replay_blocks x m s bank (take n blocks)) (drop n blocks)
          ≡ ok end =
        sym (replay_blocks-append s bank (take n blocks) (drop n blocks))
        ∙ ap (replay_blocks x m s bank) (take-append-drop n blocks)
        ∙ done in
      elim (Result-cases (replay_blocks x m s bank (take n blocks))) [
        | inl found ↦ found
        | inr (f, e) ↦ let bad : err f ≡ ok end = rw e at whole in cc
      ]

  -- An attempt at a checkpoint fails only when the replay of the executed order fails.
  advance_ok :
      (s : DagChain x) (end : Bank x.Account)
      → s.checkpoint ≡ none
      → replay_blocks x m s (fresh_bank x m s) s.executed ≡ ok end
      → (s' : DagChain x) × (maybe_advance_checkpoint x m s ≡ ok s')
  unfolding maybe_advance_checkpoint
  advance_ok s end c done = elim (Option-cases (next_checkpoint x m s)) [
    | inl e ↦ (s, rw (maybe_advance_checkpoint, e) refl)
    | inr (target, e) ↦
        let (bank, prefix) = replay_blocks-take s (fresh_bank x m s) end target s.executed done in
        let f : bank_at x m s target ≡ ok bank = bank_at-none s target c ∙ prefix in
        elim (Option-cases (get_elem? s.executed (target - 1))) [
          | inl g ↦ (s, rw (maybe_advance_checkpoint, e, f, g) refl)
          | inr (last_id, g) ↦
              let s' : DagChain x = record s {
                checkpoint =
                    some
                      (record { len = target; last_id = last_id; accounts = Accounts.dump bank });
              } in
              (s', rw (maybe_advance_checkpoint, e, f, g) refl)
        ]
  ]

  fresh_bank-executed :
      (s : DagChain x) (order : List BlockId)
      → fresh_bank x m (record s { executed = order }) ≡ fresh_bank x m s
  unfolding fresh_bank open_bank seed
  fresh_bank-executed s order = refl

  -- While there is no checkpoint and the history is not lost, and if a cached bank is the state of
  -- the executed order, the virtual state is the state that a full replay of the order gives, its
  -- errors included, whatever part of the order the cached bank has seen.
  pub virtual_state-rebuild_state :
      (st : State x)
      → st.chain.checkpoint ≡ none
      → is_lost x m st.chain ≡ false
      → IsCached st
      → (virtual_state x m st).1 ≡ rebuild_state x m st.chain
  unfolding virtual_state rebuild_state
  virtual_state-rebuild_state st c l cached =
      let order : List BlockId = x.total_order st.chain.engine in
      let s' : DagChain x = record st.chain { executed = order } in
      let fresh = fresh_bank x m st.chain in
      let b = bank_of_lem st order c l cached in
      elim (Result-cases (replay_blocks x m st.chain fresh order)) [
        | inl (bank, e) ↦
            let here : replay_blocks x m s' (fresh_bank x m s') order ≡ ok bank =
              ap (λ f. replay_blocks x m s' f order) (fresh_bank-executed st.chain order)
              ∙ replay_blocks-executed st.chain order fresh order
              ∙ e in
            let (s'', a) = advance_ok s' bank c here in
            rw (virtual_state, rebuild_state, b, e, a, l) refl
        | inr (f, e) ↦ rw (virtual_state, rebuild_state, b, e, l) refl
      ]
