-- ===== src/Database/BlockLog/Crash.antt =====
-- What the log holds after it is replaced and appended to, and after an append that was cut off.
use mathlib.Core.List.{append_assoc, append-nil}
use tao.Common.{
  ℕ, zero, suc, ◌+◌, ◌^◌, ◌≤◌, ◌<◌, ◌≡◌, refl, sym, ap, ◌∙◌, List, [], ◌∷◌, ◌++◌, arith, ltb,
  lt→ltb, ltb→lt, if◌then◌else◌, length, take, ◌-◌, length-take, Bool-cases, inl, inr,
}
use tao.Consensus.Bytes.{Bytes}
use tao.Consensus.BigEndian.{to_bytes}
use tao.Database.BlockLog.{
  truncated, too_large, ok, err, frame, append, write_all, replace_all, read_all,
}
use tao.Database.BlockLog.Framing.{
  written, AreSmall, length-frame, prepend-ok, prepend-err, read_all-prepend, read_from-header,
  read_from-torn, read_from-one,
}

write_all-written :
    (temp : Bytes) (records : List Bytes)
    → AreSmall records
    → write_all temp records ≡ ok (temp ++ written records)
unfolding write_all
write_all-written temp [] small = rw (append-nil temp)
write_all-written temp (payload ∷ records) small =
    rw
      (
        lt→ltb (length payload) (2 ^ 32) small.0,
        ← append_assoc temp (frame payload) (written records),
      )
      (write_all-written (temp ++ frame payload) records small.1)

write_all-ok :
    (temp file : Bytes) (records : List Bytes)
    → write_all temp records ≡ ok file
    → AreSmall records × (file ≡ temp ++ written records)
unfolding write_all
write_all-ok temp file [] done =
    let same : temp ≡ file = cc in (tt, sym same ∙ sym (append-nil temp))
write_all-ok temp file (payload ∷ records) done =
    elim (Bool-cases (ltb (length payload) (2 ^ 32))) [
      | inl e ↦
          let (small, f) =
            write_all-ok (temp ++ frame payload) file records (rw (write_all, e) at done) in
          (
            (ltb→lt (length payload) (2 ^ 32) e, small),
            f ∙ append_assoc temp (frame payload) (written records),
          )
      | inr e ↦ let bad : err too_large ≡ ok file = rw (write_all, e) at done in cc
    ]

-- What is written when it succeeds.
pub replace_all-ok :
    (records : List Bytes) (file : Bytes)
    → replace_all records ≡ ok file
    → AreSmall records × (file ≡ written records)
unfolding replace_all
replace_all-ok records file done = write_all-ok [] file records done

-- Replacing the log by records below 4 GiB and appending one more succeeds; the records are read back
-- in their order before the append, and with the appended one at their end after it.
pub read_all-append :
    (records : List Bytes) (payload : Bytes)
    → AreSmall records
    → length payload < 2 ^ 32
    → (file : Bytes) × (file' : Bytes) × (replace_all records ≡ ok file)
      × (append file payload ≡ ok file')
      × (read_all file ≡ ok records)
      × (read_all file' ≡ ok (records ++ payload ∷ []))
unfolding replace_all append
read_all-append records payload small fits = (
  written records,
  written records ++ frame payload,
  write_all-written [] records small,
  rw (lt→ltb (length payload) (2 ^ 32) fits) refl,
  rw (append-nil (written records)) at (
        read_all-prepend records [] (ok []) small
          (λ fuel enough. read_from-header [] fuel (omega arith)))
      ∙ prepend-ok records []
      ∙ ap ok (append-nil records),
  read_all-prepend records (frame payload) (ok (payload ∷ [])) small
        (λ fuel enough. read_from-one payload fuel fits enough)
      ∙ prepend-ok records (payload ∷ []),
)

take-all : (n : ℕ) (xs : Bytes) → length xs ≤ n → take n xs ≡ xs
take-all zero [] h = refl
take-all zero (x ∷ xs) h = absurd (omega arith)
take-all (suc n) [] h = refl
take-all (suc n) (x ∷ xs) h = rw (take-all n xs (omega arith))

take-frame :
    (m : ℕ) (payload : Bytes)
    → take (suc (suc (suc (suc m)))) (frame payload) ≡ to_bytes 4 (length payload) ++ take m payload
unfolding frame
take-frame m payload = refl

torn_length :
    (n m : ℕ) (payload : Bytes)
    → n < 4 + length payload
    → n ≡ suc (suc (suc (suc m)))
    → length (take m payload) < length payload
torn_length n m payload part same = omega (arith, length-take m payload)

-- Over records below 4 GiB, of an append that is cut off after n bytes, fewer than four leave the
-- records as they were and a whole record is read with them; in between, the log cannot be read
-- any more, its older records included.
pub read_all-torn :
    (records : List Bytes) (payload : Bytes) (n : ℕ)
    → AreSmall records
    → length payload < 2 ^ 32
    → read_all (written records ++ take n (frame payload)) ≡ (
        if ltb n 4
        then ok records
        else if ltb n (4 + length payload)
        then err truncated
        else ok (records ++ payload ∷ []))
read_all-torn records payload n small fits = elim (Bool-cases (ltb n 4)) [
  | inl header ↦
      let short : length (take n (frame payload)) < 4 =
        omega (arith, length-take n (frame payload), ltb→lt n 4 header) in
      rw header (
        read_all-prepend records (take n (frame payload)) (ok []) small
          (λ fuel enough. read_from-header (take n (frame payload)) fuel short)
        ∙ prepend-ok records []
        ∙ ap ok (append-nil records))
  | inr body ↦ elim (Bool-cases (ltb n (4 + length payload))) [
    | inl part ↦
        let m = n - 4 in
        let same : n ≡ suc (suc (suc (suc m))) = ground arith in
        let tail : take n (frame payload) ≡ to_bytes 4 (length payload) ++ take m payload =
          ap (λ k. take k (frame payload)) same ∙ take-frame m payload in
        let short = torn_length n m payload (ltb→lt n (4 + length payload) part) same in
        rw (body, part, tail)
          (read_all-prepend records (to_bytes 4 (length payload) ++ take m payload) (err truncated)
              small
              (λ fuel enough.
                read_from-torn (length payload) (take m payload) fuel fits short enough)
            ∙ prepend-err records truncated)
    | inr whole ↦
        let full : take n (frame payload) ≡ frame payload =
          take-all n (frame payload) (ground (arith, length-frame payload)) in
        rw (body, whole, full)
          (read_all-prepend records (frame payload) (ok (payload ∷ [])) small
              (λ fuel enough. read_from-one payload fuel fits enough)
            ∙ prepend-ok records (payload ∷ []))
  ]
]
