-- ===== src/Mempool/Laws.antt =====
-- The invariant of the pool, and what submission and draining do with it.
use tao.Common.{
  ℕ, zero, suc, ◌+◌, ◌-◌, ◌≤◌, ◌<◌, ◌≡◌, ◌≢◌, ◌↔◌, refl, sym, ◌∙◌, ap, ◌⊎◌, inl, inr, Bool, true,
  false, none, some, List, [], ◌∷◌, ◌++◌, map, arith, leb, leb→le, le→leb, Bool-cases, Option-cases,
  List-cases, min, length, take, drop, length-append, length-take, length-drop, take-append-drop,
  cons-injective,
}
use tao.Common.Keys.{nat_eq, list_eq, contains}
use tao.Consensus.Bytes.{Bytes}
use tao.Mempool.{
  Mempool, insert, new, signature, forget, evict, make_room, submit, forget_all, drain,
}
use tao.Mempool.Seen.{Distinct, Holds, Holds-remove, Holds-insert, contains-remove, Distinct-append}

module _ {ℓ} {T : Type ℓ} (signatures : T → List Bytes) where
  -- Every transaction has a signature, no two have the same, and the set holds just these.
  pub record Tracks (txs : List T) (seen : List Bytes) : Type 0 where
    pub keys : List Bytes
    pub signed : map (signature signatures) txs ≡ map some keys
    pub distinct : Distinct keys
    pub holds : Holds seen keys

  pub record IsValid (p : Mempool T) : Type 0 where
    pub room : 0 < p.max_size
    pub size : length p.txs ≤ p.max_size
    pub tracks : Tracks p.txs p.seen

  Tracks-pop :
      (tx : T) (txs : List T) (seen : List Bytes)
      → Tracks (tx ∷ txs) seen
      → Tracks txs (forget signatures seen tx)
  unfolding forget
  Tracks-pop tx txs seen t = elim (List-cases t.keys) [
    | inl e ↦ let bad = rw e at t.signed in cc
    | inr (k, ks, e) ↦
        let (head, rest) = cons-injective (rw e at t.signed) in
        let distinct : Distinct (k ∷ ks) = rw e at t.distinct in
        let holds : Holds seen (k ∷ ks) = rw e at t.holds in
        rw (forget, head)
          (record {
            keys = ks;
            signed = rest;
            distinct = distinct.1;
            holds = Holds-remove seen k ks holds distinct.0;
          })
  ]

  signed_append :
      (txs : List T) (keys : List Bytes) (tx : T) (sig : Bytes)
      → map (signature signatures) txs ≡ map some keys
      → signature signatures tx ≡ some sig
      → map (signature signatures) (txs ++ tx ∷ []) ≡ map some (keys ++ sig ∷ [])
  signed_append [] [] tx sig e s = rw s
  signed_append [] (k ∷ ks) tx sig e s = cc
  signed_append (x ∷ txs) [] tx sig e s = cc
  signed_append (x ∷ txs) (k ∷ ks) tx sig e s =
      let (head, rest) = cons-injective e in let tail = signed_append txs ks tx sig rest s in cc

  Tracks-push :
      (txs : List T) (seen : List Bytes) (tx : T) (sig : Bytes)
      → Tracks txs seen
      → signature signatures tx ≡ some sig
      → contains seen sig ≡ false
      → Tracks (txs ++ tx ∷ []) (insert sig seen)
  Tracks-push txs seen tx sig t s fresh = record {
    keys = t.keys ++ sig ∷ [];
    signed = signed_append txs t.keys tx sig t.signed s;
    distinct = Distinct-append t.keys sig t.distinct (sym (t.holds sig) ∙ fresh);
    holds = Holds-insert seen sig t.keys t.holds;
  }

  Tracks-drop :
      (n : ℕ) (txs : List T) (seen : List Bytes)
      → Tracks txs seen
      → Tracks (drop n txs) (forget_all signatures seen (take n txs))
  unfolding forget_all
  Tracks-drop zero txs seen t = t
  Tracks-drop (suc n) [] seen t = t
  Tracks-drop (suc n) (tx ∷ txs) seen t =
      Tracks-drop n txs (forget signatures seen tx) (Tracks-pop tx txs seen t)

  -- An empty pool with room is valid.
  pub new-IsValid : (max_size : ℕ) → 0 < max_size → IsValid (new max_size)
  unfolding new
  new-IsValid max_size h = record {
    room = h;
    size = omega arith;
    tracks = record { keys = []; signed = refl; distinct = tt; holds = λ j. refl };
  }

  -- Draining a valid pool takes its oldest transactions, as many as asked for or all of them, leaves
  -- the others in their order, and the pool stays valid.
  pub drain_lem :
      (p : Mempool T)
      → IsValid p
      → (max_count : ℕ)
      → IsValid (drain signatures p max_count).1
        × ((drain signatures p max_count).0 ++ (drain signatures p max_count).1.txs ≡ p.txs)
        × (length (drain signatures p max_count).0 ≡ min max_count (length p.txs))
  unfolding drain
  drain_lem p v max_count =
      let count = min max_count (length p.txs) in
      (
        record {
          room = v.room;
          size = omega (arith, length-drop count p.txs, v.size);
          tracks = Tracks-drop count p.txs p.seen v.tracks;
        },
        take-append-drop count p.txs,
        omega (arith, length-take count p.txs),
      )

  -- `submit` behind its checks: what is kept of the queue, the oldest transaction having made room.
  pub record Added (p : Mempool T) (tx : T) (p' : Mempool T) : Type ℓ where
    pub queue : p'.txs ≡ drop (length p.txs + 1 - p.max_size) p.txs ++ tx ∷ []
    pub sig : Bytes
    pub signed : signature signatures tx ≡ some sig
    pub fresh : contains p.seen sig ≡ false
    pub cap : p'.max_size ≡ p.max_size

  abbrev pub Refused : Mempool T → T → Type 0
  Refused p tx =
      (signature signatures tx ≡ none)
      ⊎ ((sig : Bytes) × (signature signatures tx ≡ some sig) × (contains p.seen sig ≡ true))

  abbrev pub Submitted : Mempool T → T → Bool → Mempool T → Type ℓ
  Submitted p tx added p' =
      (added ≡ true) × Added p tx p' ⊎ (added ≡ false) × (p' ≡ p) × Refused p tx

  abbrev Room : Mempool T → Mempool T → Type ℓ
  Room p q =
      Tracks q.txs q.seen
      × (q.txs ≡ drop (length p.txs + 1 - p.max_size) p.txs)
      × (q.max_size ≡ p.max_size)
      × ((j : Bytes) → contains p.seen j ≡ false → contains q.seen j ≡ false)

  forget_fresh :
      (seen : List Bytes) (tx : T) (j : Bytes)
      → contains seen j ≡ false
      → contains (forget signatures seen tx) j ≡ false
  unfolding forget
  forget_fresh seen tx j fresh = elim (Option-cases (signature signatures tx)) [
    | inl e ↦ rw (forget, e) fresh
    | inr (sig, e) ↦ rw (forget, e) (contains-remove sig seen j ∙ rw fresh refl)
  ]

  make_room_lem :
      (p : Mempool T) → IsValid p → (q : Mempool T) × (make_room signatures p ≡ some q) × Room p q
  unfolding make_room evict
  make_room_lem p v = elim (Bool-cases (leb p.max_size (length p.txs))) [
    | inr open_ ↦
        let space : length p.txs < p.max_size = ground (arith, le→leb p.max_size (length p.txs)) in
        let none_dropped : length p.txs + 1 - p.max_size ≡ 0 = omega arith in
        (p, rw open_, (v.tracks, rw none_dropped, refl, λ j fresh. fresh))
    | inl full ↦
        let tight : p.max_size ≤ length p.txs = leb→le p.max_size (length p.txs) full in
        let one_dropped : length p.txs + 1 - p.max_size ≡ 1 = omega (arith, v.size) in
        elim (List-cases p.txs) [
          | inl e ↦ absurd (omega (arith, v.room, ap length e))
          | inr (old, rest, e) ↦ (
            record p { txs = rest; seen = forget signatures p.seen old },
            rw (full, e),
            (
              Tracks-pop old rest p.seen (rw e at v.tracks),
              rw (one_dropped, e),
              refl,
              forget_fresh p.seen old,
            ),
          )
        ]
  ]

  length_kept :
      (p : Mempool T) (tx : T)
      → IsValid p
      → length (drop (length p.txs + 1 - p.max_size) p.txs ++ tx ∷ []) ≤ p.max_size
  length_kept p tx v =
      let n = length p.txs + 1 - p.max_size in
      omega (arith, length-append (drop n p.txs) (tx ∷ []), length-drop n p.txs, v.size, v.room)

  -- On a valid pool a submission never fails. A transaction without a signature, or with one that the
  -- pool holds, is refused and changes nothing; any other joins the end of the queue, from which
  -- the oldest has gone if the pool was full, so that a full pool takes a transaction too. The
  -- pool stays valid.
  pub submit_lem :
      (p : Mempool T)
      → IsValid p
      → (tx : T)
      → (added : Bool) × (p' : Mempool T) × (submit signatures p tx ≡ some (added, p'))
        × IsValid p'
        × Submitted p tx added p'
  unfolding submit
  submit_lem p v tx = elim (Option-cases (signature signatures tx)) [
    | inl e ↦ (false, p, rw (submit, e), v, inr (refl, refl, inl e))
    | inr (sig, e) ↦ elim (Bool-cases (contains p.seen sig)) [
      | inl old ↦ (false, p, rw (submit, e, old), v, inr (refl, refl, inr (sig, e, old)))
      | inr fresh ↦
          let (q, made, (tracks, queue, cap, kept)) = make_room_lem p v in
          (
            true,
            record q { txs = q.txs ++ tx ∷ []; seen = insert sig q.seen },
            rw (submit, e, fresh, made),
            record {
              room = omega (arith, v.room);
              size = rw (queue, cap) (length_kept p tx v);
              tracks = Tracks-push q.txs q.seen tx sig tracks e (kept sig fresh);
            },
            inl (
              refl,
              record { queue = rw queue; sig = sig; signed = e; fresh = fresh; cap = cap },
            ),
          )
    ]
  ]

  -- The pool that `new(0)` makes faults on every transaction with a signature, and on no other:
  -- the eviction removes from an empty list.
  pub submit-fault :
      (tx : T) → (submit signatures (new 0) tx ≡ none) ↔ (signature signatures tx ≢ none)
  unfolding submit new make_room evict
  submit-fault tx = elim (Option-cases (signature signatures tx)) [
    | inl e ↦ (λ h. let bad = rw (submit, e) at h in cc, λ h. absurd (h e))
    | inr (sig, e) ↦ (λ h c. cc, λ h. rw (submit, e) refl)
  ]
