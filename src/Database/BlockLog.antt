-- ===== src/Database/BlockLog.antt =====
-- crates/tao-database/src/block_log.rs: the append-only log of blocks. The state is the content of the
-- file; locks, flushes and errors of the file system are left out.
pub mod Framing
pub mod Crash
mod Tests
use tao.Common.{
  ℕ, zero, suc, ◌^◌, Bool, true, false, Option, none, some, List, [], ◌∷◌, ◌++◌, ltb, if◌then◌else◌,
  length, take, drop, nat_beq,
}
use tao.Consensus.Bytes.{Bytes, be_value}
use tao.Consensus.BigEndian.{to_bytes}

pub data LogError : Type 0 where
  too_large truncated : LogError

pub data Result {ℓ} (A : Type ℓ) : Type ℓ where
  ok : A → Result A
  err : LogError → Result A

-- A record: the length in four bytes, then the payload.
unfoldable pub frame : Bytes → Bytes
frame payload = to_bytes 4 (length payload) ++ payload

unfoldable pub append : Bytes → Bytes → Result Bytes
append file payload =
    if ltb (length payload) (2 ^ 32) then ok (file ++ frame payload) else err too_large

-- The loop of `replace_all` over the temporary file.
unfoldable pub write_all : Bytes → List Bytes → Result Bytes
write_all temp [] = ok temp
write_all temp (payload ∷ records) =
    let rest = write_all (temp ++ frame payload) records in
    if ltb (length payload) (2 ^ 32) then rest else err too_large

-- `replace_all`: the new content, which takes the place of the old one by a rename.
unfoldable pub replace_all : List Bytes → Result Bytes
unfolding write_all
replace_all records = write_all [] records

abbrev cons_ok : Bytes → Result (List Bytes) → Result (List Bytes)
cons_ok payload (ok records) = ok (payload ∷ records)
cons_ok payload (err e) = err e

-- `read_exact` into a buffer of n bytes: what was read and what is left, or the end of the file.
pub read_exact : ℕ → Bytes → Option (Bytes × Bytes)
read_exact n bytes = if ltb (length bytes) n then none else some (take n bytes, drop n bytes)

-- The loop of `read_all` over what is left of the file, on fuel that its size gives. The end of the
-- file within a length ends the loop.
pub read_from : ℕ → Bytes → Result (List Bytes)
read_from zero bytes = ok []
read_from (suc fuel) bytes = elim (read_exact 4 bytes) [
  | none ↦ ok []
  | some (len_buf, body) ↦ elim (read_exact (be_value len_buf) body) [
    | none ↦ err truncated
    | some (payload, rest) ↦ cons_ok payload (read_from fuel rest)
  ]
]

pub read_all : Bytes → Result (List Bytes)
read_all file = read_from (length file) file

-- `len`: the number of records.
pub len : Bytes → Result ℕ
len file = elim (read_all file) [ ok records ↦ ok (length records) | err e ↦ err e ]

pub is_empty : Bytes → Result Bool
unfolding len
is_empty file = elim (len file) [ ok n ↦ ok (nat_beq n 0) | err e ↦ err e ]
