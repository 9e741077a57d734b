-- ===== src/DagChain/Mine/Tests.antt =====
-- A block is mined on the genesis.
use tao.Common.{◌≡◌, refl, arith, some, [], ◌∷◌, map, true}
use tao.Common.Int.{ℤ, pos, ◌+ℤ◌, ◌-ℤ◌}
use tao.Common.Keys.{nat_eq, list_eq}
use tao.Common.Maps.{lookup}
use tao.Consensus.Bytes.{Bytes}
use tao.Consensus.Target.{meets_target, to_u256}
use tao.Consensus.Models.{hasher}
use tao.Consensus.Block.{DagBlock, dag_id}
use tao.Consensus.Merkle.Rounds.{tx_merkle_root_total}
use tao.Consensus.Difficulty.{new, checked_i64}
use tao.Consensus.Difficulty as Difficulty
use tao.Database.Smt.{key_leb}
use tao.DagChain.{ok}
use tao.DagChain.Models.{externals, cfg, started, easy}
use tao.DagChain.Select.{
  as_header, work_leb, max_by_work, selected_parent_dag, walk_selected, headers_of,
  selected_chain_target, next_target,
}
use tao.DagChain.Validate.{all_distinct, total_bytes, saturating_add, check_timestamp, validate}
use tao.DagChain.Open.{genesis_header, start}
use tao.DagChain.Open.Valid.{start-IsValid}
use tao.DagChain.Mine.{encode_tx, tip_parents, candidate, search, build_block_at}
use tao.DagChain.Mine.Candidate.{IsReady, build_block_at-validate, meets, with_nonce}

abbrev timestamp : ℤ
timestamp = pos 1_750_000_010

abbrev root : Bytes
root = (tx_merkle_root_total hasher (map (encode_tx externals) (5 ∷ []))).0

target_now : next_target externals started ≡ some easy
unfolding next_target selected_chain_target walk_selected headers_of as_header dag_id genesis_header
    start new Difficulty.next_target lookup
target_now = refl

ready : IsReady externals started (pos 1_750_000_000) (5 ∷ []) timestamp
unfolding tip_parents encode_tx check_timestamp all_distinct total_bytes saturating_add
    selected_parent_dag max_by_work work_leb dag_id genesis_header start checked_i64 lookup ◌+ℤ◌
    ◌-ℤ◌ key_leb
ready = record {
  valid = start-IsValid cfg [];
  tip_known = refl;
  tip_selected = refl;
  tips_distinct = refl;
  few = omega arith;
  short = omega arith;
  not_future = refl;
  not_past = refl;
}

first_meets :
    meets externals easy (with_nonce externals (candidate externals started timestamp easy root) 0)
    ≡ true
unfolding candidate meets_target to_u256 dag_id
first_meets = refl

-- The block that is built.
abbrev built : DagBlock
built = record {
  header = with_nonce externals (candidate externals started timestamp easy root) 0;
  transactions = map (encode_tx externals) (5 ∷ []);
}

searched :
    search externals 1 easy (candidate externals started timestamp easy root) ≡ some built.header
unfolding search candidate
searched = rw (search, first_meets) refl

built-some : build_block_at externals 1 started (5 ∷ []) timestamp ≡ ok (some built)
unfolding build_block_at
built-some =
    rw
      (
        build_block_at,
        target_now,
        (tx_merkle_root_total hasher (map (encode_tx externals) (5 ∷ []))).1,
        searched,
      )
      refl

build_block_at-validate_example : validate externals (pos 1_750_000_000) started built ≡ ok tt
build_block_at-validate_example =
    build_block_at-validate externals started (pos 1_750_000_000) 1 (5 ∷ []) timestamp built ready
      built-some
