-- ===== src/Consensus/Chain/Candidate.antt =====
-- What `build_candidate` proposes, `add_header` accepts once the nonce is found.
use tao.Common.{
  ℕ, ◌+◌, ◌^◌, ◌≡◌, refl, sym, true, false, none, some, List, nat_beq_iff, Option-cases, inl, inr,
  checked, some_inj,
}
use tao.Common.Int.{ℤ, ltb_ℤ}
use tao.Common.Keys.{nat_eq, list_eq, beq_refl}
use tao.Common.Maps.{lookup}
use tao.Consensus.Bytes.{Bytes, U256Codec, Hasher, zero_hash}
use tao.Consensus.Block.{BlockHeader, Bincode, header_version}
use tao.Consensus.Merkle.{tx_merkle_root}
use tao.Consensus.Chain.{
  Entry, ChainState, tip_header, next_target, build_candidate, check, check_work,
}

module _ (u : U256Codec) (h : Hasher) (c : Bincode) where
  -- The header that is proposed, from its computed fields.
  abbrev pub candidate : ChainState → Bytes → ℤ → ℕ → Bytes → Bytes → ℕ → BlockHeader
  candidate s miner timestamp height root target nonce = record {
    version = header_version;
    prev_hash = s.tip;
    height = height;
    timestamp = timestamp;
    tx_merkle_root = root;
    state_root = zero_hash;
    target = target;
    nonce = nonce;
    miner = miner;
  }

  record Proposed (s : ChainState) (miner : Bytes) (timestamp : ℤ) (txs : List Bytes) (tip : Entry)
      (header : BlockHeader) : Type 0 where
    height : ℕ
    root : Bytes
    target : Bytes
    next : checked (2 ^ 64) (tip.header.height + 1) ≡ some height
    rooted : tx_merkle_root h txs ≡ some root
    expected : next_target u h c s ≡ some target
    same : header ≡ candidate s miner timestamp height root target 0

  build_candidate-Proposed :
      (s : ChainState) (miner : Bytes) (timestamp : ℤ) (txs : List Bytes) (tip : Entry)
      (header : BlockHeader)
      → lookup s.tip s.blocks ≡ some tip
      → build_candidate u h c s miner timestamp txs ≡ some header
      → Proposed s miner timestamp txs tip header
  unfolding build_candidate tip_header
  build_candidate-Proposed s miner timestamp txs tip header known built =
      elim (Option-cases (checked (2 ^ 64) (tip.header.height + 1))) [
        | inl e ↦ let bad = rw (known, e) at built in absurd (cc)
        | inr (height, next) ↦ elim (Option-cases (tx_merkle_root h txs)) [
          | inl e ↦ let bad = rw (known, next, e) at built in absurd (cc)
          | inr (root, rooted) ↦ elim (Option-cases (next_target u h c s)) [
            | inl e ↦ let bad = rw (known, next, rooted, e) at built in absurd (cc)
            | inr (target, expected) ↦ record {
              height = height;
              root = root;
              target = target;
              next = next;
              rooted = rooted;
              expected = expected;
              same = sym (some_inj (rw (known, next, rooted, expected) at built));
            }
          ]
        ]
      ]

  -- A header that `build_candidate` proposes, with a nonce for which its proof of work verifies and a
  -- time not before the tip's, passes every check of `add_header` against the tip.
  pub build_candidate-check :
      (s : ChainState) (miner : Bytes) (timestamp : ℤ) (txs : List Bytes) (tip : Entry)
      (header : BlockHeader) (nonce : ℕ)
      → lookup s.tip s.blocks ≡ some tip
      → build_candidate u h c s miner timestamp txs ≡ some header
      → ltb_ℤ timestamp tip.header.timestamp ≡ false
      → s.pow.verify (record header { nonce = nonce }) ≡ true
      → (header.prev_hash ≡ s.tip)
        × (check u h c s (record header { nonce = nonce }) tip ≡ some none)
  unfolding check check_work next_target
  build_candidate-check s miner timestamp txs tip header nonce known built later proof =
      let p = build_candidate-Proposed s miner timestamp txs tip header known built in
      let proof' : s.pow.verify (candidate s miner timestamp p.height p.root p.target nonce)
          ≡ true =
        rw p.same at proof in
      rw p.same (
        refl,
        rw
            (
              p.next,
              (nat_beq_iff p.height p.height).1 refl,
              later,
              p.expected,
              beq_refl p.target,
              proof',
            )
            refl,
      )
