-- ===== src/DagChain/Tests.antt =====
-- A chain with a block, a block that is not decoded, and the theorems at them.
use tao.Common.{◌↔◌, ◌^◌, ◌≡◌, ◌<◌, refl, arith, false, [], length}
use tao.Common.Int.{pos, ◌+ℤ◌, ◌-ℤ◌}
use tao.Common.Keys.{contains, nat_eq, list_eq}
use tao.Common.Maps.{lookup, insert}
use tao.Consensus.Target.{
  meets_target, to_u256, from_u256, pow_level, leading_zero_bits, count_zero_bits, leading_zeros,
}
use tao.Consensus.Models.{hasher, bincode}
use tao.Consensus.Block.{dag_id}
use tao.Consensus.Merkle.{pad_odd, hash_pairs, next_level, reduce, tx_merkle_root}
use tao.Consensus.Difficulty.{new, next_target, checked_i64}
use tao.Database.Smt.{key_leb}
use tao.DagChain.{ok, err, decode_tx, from_the_future, LogRecord}
use tao.DagChain.Models.{externals, cfg, started, good, bad}
use tao.DagChain.Codec.{put_record}
use tao.DagChain.Select.{
  as_header, point, work_leb, max_by_work, selected_parent_dag, interlink_for_parent, walk_selected,
  headers_of, selected_chain_target,
}
use tao.DagChain.Validate.{
  all_distinct, total_bytes, saturating_add, all_known, misses_other_than, validate_block_intrinsic,
  check_parents, check_timestamp, check_context, validate,
}
use tao.DagChain.Accept.{decode_all, accept}
use tao.DagChain.Open.{genesis_header, start, open_with_genesis}
use tao.DagChain.Open.Replay.{start-IsDurable}
use tao.DagChain.Open.Durable.{accept_poisons}
use tao.DagChain.Open.Valid.{start-IsValid, open-IsValid}
use tao.DagChain.Accept.Invariant.{IsValid, accept-IsValid}
use tao.DagChain.Accept.Results.{IsTaken, accept-IsTaken, accept-err}
use tao.DagChain.Reset.{reset}

validate-bad : validate externals (pos 1_750_000_000) started bad ≡ ok tt
unfolding validate validate_block_intrinsic check_context check_parents check_timestamp all_distinct
    total_bytes saturating_add all_known misses_other_than selected_parent_dag max_by_work work_leb
    selected_chain_target walk_selected headers_of as_header interlink_for_parent point dag_id
    genesis_header start new next_target checked_i64 meets_target to_u256 from_u256 pow_level
    leading_zero_bits count_zero_bits leading_zeros pad_odd hash_pairs next_level reduce
    tx_merkle_root lookup insert ◌+ℤ◌ ◌-ℤ◌ key_leb
validate-bad = refl

fresh : contains started.blocks (dag_id hasher bincode good.header) ≡ false
unfolding dag_id genesis_header start
fresh = refl

small-bad : length (put_record (LogRecord.block bad)) < 2 ^ 32
unfolding interlink_for_parent point pow_level leading_zero_bits count_zero_bits leading_zeros
    meets_target to_u256 dag_id genesis_header start lookup tx_merkle_root reduce pad_odd hash_pairs
    next_level
small-bad = omega arith

accept_poisons_example :
    ((accept externals (pos 1_750_000_000) started bad).1 ≡ err decode_tx)
    × (open_with_genesis externals cfg (accept externals (pos 1_750_000_000) started bad).0.log
        ≡ err decode_tx)
unfolding decode_all dag_id
accept_poisons_example =
    accept_poisons cfg (pos 1_750_000_000) started bad (put_record (LogRecord.block bad))
      (start-IsDurable cfg) fresh validate-bad refl refl small-bad

accept-IsValid_example : IsValid (accept externals (pos 1_750_000_000) started good).0
accept-IsValid_example = accept-IsValid (pos 1_750_000_000) started good (start-IsValid cfg [])

accept-IsTaken_example :
    ((accept externals (pos 1_750_000_000) started good).1 ≡ ok tt)
    ↔ IsTaken (pos 1_750_000_000) started good (accept externals (pos 1_750_000_000) started good).0
accept-IsTaken_example = accept-IsTaken (pos 1_750_000_000) started good fresh

-- A block of the future is refused.
early : (accept externals (pos 0) started good).1 ≡ err from_the_future
unfolding accept validate validate_block_intrinsic check_context check_parents check_timestamp
    all_distinct total_bytes saturating_add all_known misses_other_than selected_parent_dag
    max_by_work work_leb selected_chain_target walk_selected headers_of as_header
    interlink_for_parent point dag_id genesis_header start new next_target checked_i64 meets_target
    to_u256 from_u256 pow_level leading_zero_bits count_zero_bits leading_zeros pad_odd hash_pairs
    next_level reduce tx_merkle_root lookup insert ◌+ℤ◌ ◌-ℤ◌ key_leb
early = refl

accept-err_example : (accept externals (pos 0) started good).0 ≡ started
accept-err_example = accept-err (pos 0) started good from_the_future early (λ e. cc)

open-IsValid_example : IsValid (reset [] started)
unfolding start
open-IsValid_example =
    let (records, all_small, e, opened) = start-IsDurable cfg in
    open-IsValid cfg [] (reset [] started) opened
