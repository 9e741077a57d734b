-- ===== src/DagChain/Codec.antt =====
-- A serialisation for each kind of value of a log record, with its law: a concrete function in the
-- place of bincode.
use tao.Common.{ℕ, zero, suc, ◌≡◌, refl, ap, map, Option, none, some, List, [], ◌∷◌, length}
use tao.Common.Int.{ℤ, pos, negsuc}
use tao.Consensus.Bytes.{Bytes}
use tao.Consensus.Block.{DagBlock, DagBlockHeader}
use tao.DagChain.{SyncSnapshot, LogRecord}

pub record Codec (A : Type 0) : Type 0 where
  pub put : A → Bytes → Bytes
  pub get : Bytes → Option (A × Bytes)
  pub get-put : (a : A) (rest : Bytes) → get (put a rest) ≡ some (a, rest)

abbrev get_nat : Bytes → Option (ℕ × Bytes)
get_nat [] = none
get_nat (n ∷ rest) = some (n, rest)

abbrev pub nat : Codec ℕ
nat = record { put = λ n rest. n ∷ rest; get = get_nat; get-put = λ n rest. refl }

abbrev put_int : ℤ → Bytes → Bytes
put_int (pos n) rest = 0 ∷ n ∷ rest
put_int (negsuc n) rest = 1 ∷ n ∷ rest

abbrev get_int : Bytes → Option (ℤ × Bytes)
get_int [] = none
get_int (s ∷ []) = none
get_int (zero ∷ n ∷ rest) = some (pos n, rest)
get_int (suc s ∷ n ∷ rest) = some (negsuc n, rest)

pub get_int-put : (i : ℤ) (rest : Bytes) → get_int (put_int i rest) ≡ some (i, rest)
get_int-put (pos n) rest = refl
get_int-put (negsuc n) rest = refl

abbrev pub int : Codec ℤ
int = record { put = put_int; get = get_int; get-put = get_int-put }

pub record Both (A B : Type 0) : Type 0 where
  pub fst : A
  pub snd : B

module _ {A B : Type 0} (c : Codec A) (d : Codec B) where
  abbrev put_both : Both A B → Bytes → Bytes
  put_both p rest = c.put p.fst (d.put p.snd rest)

  abbrev get_both : Bytes → Option (Both A B × Bytes)
  get_both bytes = elim (c.get bytes) [
    | none ↦ none
    | some (a, more) ↦ elim (d.get more) [
      | none ↦ none
      | some (b, rest) ↦ some (record { fst = a; snd = b }, rest)
    ]
  ]

  pub get_both-put : (p : Both A B) (rest : Bytes) → get_both (put_both p rest) ≡ some (p, rest)
  get_both-put p rest = rw (get_both, c.get-put p.fst (d.put p.snd rest), d.get-put p.snd rest) refl

  abbrev pub both : Codec (Both A B)
  both = record { put = put_both; get = get_both; get-put = get_both-put }

module _ {A B : Type 0} (c : Codec A) (from : B → A) (to : A → B)
    (law : (b : B) → to (from b) ≡ b) where
  abbrev get_as : Bytes → Option (B × Bytes)
  get_as bytes = elim (c.get bytes) [ none ↦ none | some (a, rest) ↦ some (to a, rest) ]

  pub get_as-put : (b : B) (rest : Bytes) → get_as (c.put (from b) rest) ≡ some (b, rest)
  get_as-put b rest = rw (get_as, c.get-put (from b) rest, law b) refl

  -- The values of a type by those of another.
  abbrev pub via : Codec B
  via = record { put = λ b rest. c.put (from b) rest; get = get_as; get-put = get_as-put }

module _ {A : Type 0} (c : Codec A) where
  abbrev put_each : List A → Bytes → Bytes
  put_each [] rest = rest
  put_each (a ∷ xs) rest = c.put a (put_each xs rest)

  abbrev get_each : ℕ → Bytes → Option (List A × Bytes)
  get_each zero bytes = some ([], bytes)
  get_each (suc n) bytes = elim (c.get bytes) [
    | none ↦ none
    | some (a, more) ↦ elim (get_each n more) [
      | none ↦ none
      | some (xs, rest) ↦ some (a ∷ xs, rest)
    ]
  ]

  pub get_each-put :
      (xs : List A) (rest : Bytes) → get_each (length xs) (put_each xs rest) ≡ some (xs, rest)
  get_each-put [] rest = refl
  get_each-put (a ∷ xs) rest =
      rw (get_each, c.get-put a (put_each xs rest), get_each-put xs rest) refl

  abbrev get_list : Bytes → Option (List A × Bytes)
  get_list [] = none
  get_list (n ∷ bytes) = get_each n bytes

  abbrev pub list : Codec (List A)
  list = record {
    put = λ xs rest. length xs ∷ put_each xs rest;
    get = get_list;
    get-put = get_each-put;
  }

abbrev pub bytes : Codec Bytes
bytes = list nat

abbrev as_both : Bytes × ℕ → Both Bytes ℕ
as_both p = record { fst = p.0; snd = p.1 }

abbrev of_both : Both Bytes ℕ → Bytes × ℕ
of_both b = (b.fst, b.snd)

pub map-both : (xs : List (Bytes × ℕ)) → map of_both (map as_both xs) ≡ xs
map-both [] = refl
map-both (x ∷ xs) = ap (λ t. x ∷ t) (map-both xs)

abbrev with_accounts : SyncSnapshot ℕ → List (Bytes × ℕ) → SyncSnapshot ℕ
with_accounts s accounts = record s { accounts = accounts }

abbrev HeaderFields : Type 0
HeaderFields =
    Both (Both (Both ℕ (List Bytes)) (Both ℤ Bytes))
      (Both (Both Bytes Bytes) (Both (List Bytes) (Both ℕ Bytes)))

abbrev header_fields : DagBlockHeader → HeaderFields
header_fields h = record {
  fst = record {
    fst = record { fst = h.version; snd = h.parents };
    snd = record { fst = h.timestamp; snd = h.tx_merkle_root };
  };
  snd = record {
    fst = record { fst = h.state_root; snd = h.target };
    snd = record { fst = h.interlink; snd = record { fst = h.nonce; snd = h.miner } };
  };
}

abbrev as_header : HeaderFields → DagBlockHeader
as_header f = record {
  version = f.fst.fst.fst;
  parents = f.fst.fst.snd;
  timestamp = f.fst.snd.fst;
  tx_merkle_root = f.fst.snd.snd;
  state_root = f.snd.fst.fst;
  target = f.snd.fst.snd;
  interlink = f.snd.snd.fst;
  nonce = f.snd.snd.snd.fst;
  miner = f.snd.snd.snd.snd;
}

abbrev pub header : Codec DagBlockHeader
header =
    via
      (both (both (both nat (list bytes)) (both int bytes))
        (both (both bytes bytes) (both (list bytes) (both nat bytes))))
      header_fields as_header (λ h. refl)

abbrev pub block : Codec DagBlock
block =
    via (both header (list bytes)) (λ b. record { fst = b.header; snd = b.transactions })
      (λ f. record { header = f.fst; transactions = f.snd }) (λ b. refl)

-- An account is a number of lamports.
abbrev pub snapshot : Codec (SyncSnapshot ℕ)
snapshot =
    via (both (both header (list (both bytes nat))) (both (list block) (list header)))
      (λ s. record {
        fst = record { fst = s.origin_header; snd = map as_both s.accounts };
        snd = record { fst = s.suffix; snd = s.proof };
      })
      (λ f. record {
        origin_header = f.fst.fst;
        accounts = map of_both f.fst.snd;
        suffix = f.snd.fst;
        proof = f.snd.snd;
      })
      (λ s. ap (with_accounts s) (map-both s.accounts))

abbrev pub put_record : LogRecord ℕ → Bytes
put_record (LogRecord.block b) = 0 ∷ block.put b []
put_record (LogRecord.snapshot h accounts proof) =
    1
    ∷ snapshot.put (record { origin_header = h; accounts = accounts; suffix = []; proof = proof })
        []

abbrev pub get_record : Bytes → Option (LogRecord ℕ)
get_record [] = none
get_record (zero ∷ rest) = elim (block.get rest) [
  | none ↦ none
  | some (b, more) ↦ some (LogRecord.block b)
]
get_record (suc n ∷ rest) = elim (snapshot.get rest) [
  | none ↦ none
  | some (s, more) ↦ some (LogRecord.snapshot s.origin_header s.accounts s.proof)
]

pub get_record-put : (r : LogRecord ℕ) → get_record (put_record r) ≡ some r
get_record-put (LogRecord.block b) = rw (block.get-put b []) refl
get_record-put (LogRecord.snapshot h a p) =
    rw (snapshot.get-put (record { origin_header = h; accounts = a; suffix = []; proof = p }) [])
      refl
