-- ===== src/DagChain/Snapshot/Tests.antt =====
-- Snapshots that are adopted and one that is not, a proof, and the theorems at them.
use tao.Common.{ℕ, ◌≡◌, ◌≢◌, ◌↔◌, refl, true, some, List, [], ◌∷◌, ◌++◌, replicate, drop, min, ◌+◌}
use tao.Common.Int.{ℤ}
use tao.Common.Maps.{lookup}
use tao.Common.Keys.{nat_eq, list_eq}
use tao.Consensus.Bytes.{Bytes, u256_max}
use tao.Consensus.Target.{
  meets_target, to_u256, pow_level, leading_zero_bits, count_zero_bits, leading_zeros,
}
use tao.Consensus.Models.{codec, hasher, bincode}
use tao.Consensus.Block.{DagBlockHeader, dag_id}
use tao.Consensus.Merkle.{pad_odd, hash_pairs, next_level, reduce, tx_merkle_root}
use tao.Database.BlockLog.{frame, write_all, replace_all}
use tao.DagChain.{DagChain, SyncSnapshot, ok, err, decode_tx}
use tao.DagChain.Models.{externals, cfg, started, genesis_id, good, bad}
use tao.DagChain.Select.{interlink_for_parent, point}
use tao.DagChain.Select.Interlink.{interlink_for_parent_lem}
use tao.DagChain.Accept.{remap, remap_all, dag_parents, decode_all, apply_with_id, apply}
use tao.DagChain.Snapshot.{
  load_snapshot, apply_all, block_records, snapshot_records, persist_snapshot, adopt, verify_proof,
  import_snapshot,
}
use tao.DagChain.Snapshot.Proof.{IsProof, total_work, verify_proof_iff}
use tao.DagChain.Snapshot.Stranded.{IsStranded, adopt-IsStranded}
use tao.DagChain.Open.{genesis_header, start, open_with_genesis}
use tao.DagChain.Open.Replay.{IsDurable, start-IsDurable}
use tao.DagChain.Open.Adopted.{adopt-IsDurable, adopt_restart}

genesis_found : lookup genesis_id started.headers ≡ some (genesis_header cfg)
unfolding dag_id genesis_header start lookup
genesis_found = refl

interlink_for_parent_lem_example :
    interlink_for_parent externals started genesis_id
    ≡ replicate (pow_level codec genesis_id (genesis_header cfg).target + 1) genesis_id
      ++ drop
          (pow_level codec genesis_id (genesis_header cfg).target + 1)
          (genesis_header cfg).interlink
interlink_for_parent_lem_example =
    interlink_for_parent_lem externals started genesis_id (genesis_header cfg) genesis_found

abbrev proof : List DagBlockHeader
proof = genesis_header cfg ∷ good.header ∷ []

verify_proof_iff_example :
    (verify_proof externals proof (dag_id hasher bincode good.header) genesis_id
      ≡ ok (min (total_work externals proof) u256_max))
    ↔ (IsProof externals proof (dag_id hasher bincode good.header) genesis_id
        × (min (total_work externals proof) u256_max ≡ min (total_work externals proof) u256_max))
verify_proof_iff_example =
    verify_proof_iff externals proof (dag_id hasher bincode good.header) genesis_id
      (min (total_work externals proof) u256_max)

-- The block as a pruning point, alone or with a block whose transaction has no byte.
abbrev pruned : SyncSnapshot ℕ
pruned = record { origin_header = good.header; accounts = []; suffix = []; proof = proof }

abbrev broken : SyncSnapshot ℕ
broken = record {
  origin_header = genesis_header cfg;
  accounts = [];
  suffix = bad ∷ [];
  proof = proof;
}

adopted_pruned : (adopt externals started pruned 512).1 ≡ ok true
unfolding adopt load_snapshot apply_all block_records snapshot_records persist_snapshot frame
    write_all replace_all apply apply_with_id decode_all remap remap_all dag_parents dag_id
    genesis_header start interlink_for_parent point pow_level leading_zero_bits count_zero_bits
    leading_zeros meets_target to_u256 lookup pad_odd hash_pairs next_level reduce tx_merkle_root
adopted_pruned = refl

adopt-IsDurable_example : IsDurable cfg (adopt externals started pruned 512).0
adopt-IsDurable_example =
    adopt-IsDurable cfg started pruned 512 (start-IsDurable cfg) adopted_pruned

adopt_restart_example :
    (t : DagChain externals) × (open_with_genesis externals cfg
        (adopt externals started pruned 512).0.log
      ≡ ok t)
    × ((clock : ℕ → ℤ) (bytes : Bytes) → (import_snapshot externals clock t bytes).1 ≢ ok true)
adopt_restart_example = adopt_restart cfg started pruned 512 (start-IsDurable cfg) adopted_pruned

failed_broken :
    (apply_all externals
      (load_snapshot externals started broken.origin_header broken.accounts broken.proof)
      broken.suffix).1
    ≡ err decode_tx
unfolding adopt load_snapshot apply_all block_records snapshot_records persist_snapshot frame
    write_all replace_all apply apply_with_id decode_all remap remap_all dag_parents dag_id
    genesis_header start interlink_for_parent point pow_level leading_zero_bits count_zero_bits
    leading_zeros meets_target to_u256 lookup pad_odd hash_pairs next_level reduce tx_merkle_root
failed_broken = refl

adopt-IsStranded_example :
    ((adopt externals started broken 512).1 ≡ err decode_tx)
    × ((adopt externals started broken 512).0.log ≡ started.log)
    × ((adopt externals started broken 512).0.genesis_dag
        ≡ dag_id hasher bincode broken.origin_header)
    × IsStranded (adopt externals started broken 512).0
    × ((clock : ℕ → ℤ) (bytes : Bytes)
        → ((import_snapshot externals clock (adopt externals started broken 512).0 bytes).0
            ≡ (adopt externals started broken 512).0)
          × ((import_snapshot externals clock (adopt externals started broken 512).0 bytes).1
              ≢ ok true))
unfolding start
adopt-IsStranded_example = adopt-IsStranded started broken 512 decode_tx refl failed_broken
