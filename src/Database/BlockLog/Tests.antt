-- ===== src/Database/BlockLog/Tests.antt =====
-- A log of two small records.
use tao.Common.{◌≡◌, refl, List, [], ◌∷◌, ◌++◌, take, arith}
use tao.Consensus.Bytes.{Bytes}
use tao.Database.BlockLog.{truncated, ok, err, frame, read_all, read_from, read_exact}
use tao.Database.BlockLog.Framing.{written}
use tao.Database.BlockLog.Crash.{read_all-torn}

abbrev records : List Bytes
records = (1 ∷ 2 ∷ []) ∷ [] ∷ []

read_two : read_all (0 ∷ 0 ∷ 0 ∷ 1 ∷ 9 ∷ 0 ∷ 0 ∷ 0 ∷ 0 ∷ []) ≡ ok ((9 ∷ []) ∷ [] ∷ [])
unfolding read_all read_from read_exact
read_two = refl

read_torn : read_all (0 ∷ 0 ∷ 0 ∷ 2 ∷ 9 ∷ []) ≡ err truncated
unfolding read_all read_from read_exact
read_torn = refl

read_all-torn_example : read_all (written records ++ take 4 (frame (7 ∷ []))) ≡ err truncated
read_all-torn_example =
    read_all-torn records (7 ∷ []) 4 (omega arith, (omega arith, tt)) (omega arith)
