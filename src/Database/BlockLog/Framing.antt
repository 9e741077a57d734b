-- ===== src/Database/BlockLog/Framing.antt =====
-- Reading back what was written, whole or torn.
use mathlib.Core.List.{append_assoc, append-nil}
use tao.Common.{
  ℕ, zero, suc, ◌+◌, ◌^◌, ◌≤◌, ◌<◌, ◌≡◌, refl, sym, ap, ◌∙◌, ◌⊎◌, inl, inr, some, none, false, List,
  [], ◌∷◌, ◌++◌, arith, ltb, length, take, drop, All, length-append,
}
use tao.Consensus.Bytes.{Bytes, be_value}
use tao.Consensus.BigEndian.{to_bytes, be_value-mod, length-to_bytes}
use tao.Database.BlockLog.{
  LogError, truncated, too_large, Result, ok, err, append, frame, cons_ok, read_exact, read_from,
  read_all, replace_all,
}
use native.Mathlib.Nat.{mod-eq_of_lt}

-- The content of a log with these records.
abbrev pub written : List Bytes → Bytes
written [] = []
written (payload ∷ records) = frame payload ++ written records

abbrev pub AreSmall : List Bytes → Type 0
AreSmall = All (λ payload. length payload < 2 ^ 32)

header_value : (n : ℕ) → n < 2 ^ 32 → be_value (to_bytes 4 n) ≡ n
header_value n small = be_value-mod 4 n ∙ mod-eq_of_lt small

pub length-frame : (payload : Bytes) → length (frame payload) ≡ 4 + length payload
unfolding frame
length-frame payload =
    omega (
      arith,
      length-append (to_bytes 4 (length payload)) payload,
      length-to_bytes 4 (length payload),
    )

take-length_append : (xs ys : Bytes) → take (length xs) (xs ++ ys) ≡ xs
take-length_append [] ys = refl
take-length_append (x ∷ xs) ys = rw (take-length_append xs ys)

drop-length_append : (xs ys : Bytes) → drop (length xs) (xs ++ ys) ≡ ys
drop-length_append [] ys = refl
drop-length_append (x ∷ xs) ys = drop-length_append xs ys

read_header :
    (n : ℕ) (body : Bytes) → read_exact 4 (to_bytes 4 n ++ body) ≡ some (to_bytes 4 n, body)
unfolding read_exact
read_header n body =
    let long : ltb (length (to_bytes 4 n ++ body)) 4 ≡ false = ground arith in rw long refl

read_payload :
    (payload tail : Bytes) → read_exact (length payload) (payload ++ tail) ≡ some (payload, tail)
unfolding read_exact
read_payload payload tail =
    let enough : ltb (length (payload ++ tail)) (length payload) ≡ false =
      ground (arith, length-append payload tail) in
    rw (enough, take-length_append payload tail, drop-length_append payload tail) refl

read_from-frame :
    (fuel : ℕ) (payload tail : Bytes)
    → length payload < 2 ^ 32
    → read_from (suc fuel) (frame payload ++ tail) ≡ cons_ok payload (read_from fuel tail)
unfolding read_from frame
read_from-frame fuel payload tail small =
    rw
      (
        frame,
        append_assoc (to_bytes 4 (length payload)) payload tail,
        read_from,
        read_header (length payload) (payload ++ tail),
        header_value (length payload) small,
        read_payload payload tail,
      )
      refl

abbrev pub prepend : List Bytes → Result (List Bytes) → Result (List Bytes)
prepend [] r = r
prepend (payload ∷ records) r = cons_ok payload (prepend records r)

-- The records of a log are read, and then what follows them, on fuel enough for it.
read_from-written :
    (records : List Bytes) (fuel : ℕ) (tail : Bytes)
    → AreSmall records
    → length (written records ++ tail) ≤ fuel
    → (fuel' : ℕ) × (length tail ≤ fuel')
      × (read_from fuel (written records ++ tail) ≡ prepend records (read_from fuel' tail))
read_from-written [] fuel tail small f = (fuel, f, refl)
read_from-written (payload ∷ records) zero tail small f = absurd (
    omega (
      arith,
      length-append (frame payload ++ written records) tail,
      length-append (frame payload) (written records),
      length-frame payload,
    ))
read_from-written (payload ∷ records) (suc fuel) tail small f =
    let rest = written records ++ tail in
    let split = append_assoc (frame payload) (written records) tail in
    let (fuel', enough, same) =
      read_from-written records fuel tail small.1 (
        omega (arith, length-append (frame payload) rest, length-frame payload, ap length split)) in
    (
      fuel',
      enough,
      rw split (read_from-frame fuel payload rest small.0 ∙ ap (cons_ok payload) same),
    )

pub prepend-ok : (records more : List Bytes) → prepend records (ok more) ≡ ok (records ++ more)
prepend-ok [] more = refl
prepend-ok (payload ∷ records) more = rw (prepend-ok records more)

pub prepend-err : (records : List Bytes) (e : LogError) → prepend records (err e) ≡ err e
prepend-err [] e = refl
prepend-err (payload ∷ records) e = rw (prepend-err records e)

pub read_all-prepend :
    (records : List Bytes) (tail : Bytes) (r : Result (List Bytes))
    → AreSmall records
    → ((fuel : ℕ) → length tail ≤ fuel → read_from fuel tail ≡ r)
    → read_all (written records ++ tail) ≡ prepend records r
unfolding read_all
read_all-prepend records tail r small reads =
    let (fuel, enough, same) =
      read_from-written records (length (written records ++ tail)) tail small (omega arith) in
    same ∙ ap (prepend records) (reads fuel enough)

-- What is read of a tail: nothing of a torn header, an error of a torn payload, a whole record.
pub read_from-header : (tail : Bytes) (fuel : ℕ) → length tail < 4 → read_from fuel tail ≡ ok []
unfolding read_from read_exact
read_from-header tail zero short = refl
read_from-header tail (suc fuel) short = ground arith

pub read_from-torn :
    (n : ℕ) (body : Bytes) (fuel : ℕ)
    → n < 2 ^ 32
    → length body < n
    → length (to_bytes 4 n ++ body) ≤ fuel
    → read_from fuel (to_bytes 4 n ++ body) ≡ err truncated
unfolding read_from
read_from-torn n body zero small short f =
    absurd (omega (arith, length-append (to_bytes 4 n) body, length-to_bytes 4 n))
read_from-torn n body (suc fuel) small short f =
    let ends : read_exact n body ≡ none = unfold read_exact in ground arith in
    rw (read_from, read_header n body, header_value n small, ends) refl

pub read_from-one :
    (payload : Bytes) (fuel : ℕ)
    → length payload < 2 ^ 32
    → length (frame payload) ≤ fuel
    → read_from fuel (frame payload) ≡ ok (payload ∷ [])
read_from-one payload zero small f = absurd (omega (arith, length-frame payload))
read_from-one payload (suc fuel) small f =
    rw (append-nil (frame payload)) at (read_from-frame fuel payload [] small)
    ∙ ap (cons_ok payload) (read_from-header [] fuel (omega arith))

pub append-ok :
    (file payload : Bytes)
    → length payload < 2 ^ 32
    → append file payload ≡ ok (file ++ frame payload)
unfolding append
append-ok file payload small = ground arith

pub written-append :
    (records : List Bytes) (payload : Bytes)
    → written (records ++ payload ∷ []) ≡ written records ++ frame payload
written-append [] payload = append-nil (frame payload)
written-append (r ∷ records) payload =
    rw (written-append records payload)
      (sym (append_assoc (frame r) (written records) (frame payload)))

pub read_all-written :
    (records : List Bytes) → AreSmall records → read_all (written records) ≡ ok records
read_all-written records small =
    rw (append-nil (written records), append-nil records) at
      (read_all-prepend records [] (ok []) small (λ fuel h. read_from-header [] fuel (omega arith))
        ∙ prepend-ok records [])

pub AreSmall-append :
    (records : List Bytes) (payload : Bytes)
    → AreSmall records
    → length payload < 2 ^ 32
    → AreSmall (records ++ payload ∷ [])
AreSmall-append [] payload small h = (h, tt)
AreSmall-append (r ∷ records) payload small h = (small.0, AreSmall-append records payload small.1 h)

pub append-cases :
    (file payload : Bytes)
    → ((length payload < 2 ^ 32) × (append file payload ≡ ok (file ++ frame payload)))
      ⊎ (append file payload ≡ err too_large)
unfolding append
append-cases file payload = ground arith

Result-cases {ℓ} :
    {A : Type ℓ} (r : Result A) → ((a : A) × (r ≡ ok a)) ⊎ ((e : LogError) × (r ≡ err e))
Result-cases (ok a) = inl (a, refl)
Result-cases (err e) = inr (e, refl)

pub read_all-cases :
    (file : Bytes)
    → ((records : List Bytes) × (read_all file ≡ ok records))
      ⊎ ((e : LogError) × (read_all file ≡ err e))
read_all-cases file = Result-cases (read_all file)

pub replace_all-cases :
    (records : List Bytes)
    → ((file : Bytes) × (replace_all records ≡ ok file))
      ⊎ ((e : LogError) × (replace_all records ≡ err e))
replace_all-cases records = Result-cases (replace_all records)
