-- ===== src/Lib.antt =====
-- Verification library of the Tao node, a proof-of-work chain that executes Solana programs.
--
-- The program is a Rust workspace under crates/. A block header carries a 256-bit target and a
-- nonce; a proof-of-work function decides whether the header is valid, and the miner grinds
-- nonces until it is. The difficulty is retargeted from recent headers, the chain state keeps a
-- tree of headers and picks the tip with the most work (all in crates/tao-consensus). Pending
-- transactions wait in a queue (crates/tao-mempool) from which the miner fills its blocks. A
-- queue of recent block hashes bounds the age of transactions (crates/tao-runtime). Accounts
-- are committed to by a sparse Merkle tree, and accepted blocks are kept in a log that is
-- replayed at start (crates/tao-database). The node itself keeps a DAG of blocks, checks those of
-- its peers, logs them and orders them by GHOSTDAG; its state is what the ordered
-- transactions give (crates/tao-dagvm). A prototype of GHOSTDAG shows the ordering with explicit
-- sets of ancestors (crates/tao-dag). An alternative proof of work ties a matrix product to a
-- registered model (crates/tao-pouw).
--
-- Which file models which part:
--   Common                 helpers: Boolean tests, lists, integers, keys, hash maps, powers
--   Consensus/Bytes        byte strings; bincode, BLAKE3 and U256 conversions as parameters
--   Consensus/BigEndian    to_be_bytes of fixed-width integers
--   Consensus/Target       crates/tao-consensus/src/target.rs
--   Consensus/Block        crates/tao-consensus/src/block.rs, headers, blocks, their upgrades
--   Consensus/Merkle       crates/tao-consensus/src/block.rs, the transaction Merkle root
--   Consensus/Difficulty   crates/tao-consensus/src/difficulty.rs
--   Consensus/Pow          crates/tao-consensus/src/pow and crates/tao-consensus/src/mine.rs
--   Consensus/Chain        crates/tao-consensus/src/chain.rs
--   Consensus/Models       concrete instances of the parameters, for tests and witnesses
--   Mempool                crates/tao-mempool/src/lib.rs
--   Runtime/BlockhashQueue crates/tao-runtime/src/blockhash_queue.rs
--   Runtime/Bank           crates/tao-runtime/src/bank.rs over the Solana machine as a parameter
--   Runtime/Genesis        crates/tao-runtime/src/genesis.rs, the accounts of the genesis file
--   Database/Accounts      crates/tao-database/src/accounts_db.rs, without its Merkle tree
--   Database/Smt           crates/tao-database/src/smt.rs, the tree built at once
--   Database/Smt/Nodes     the same file: the tree kept in a store of nodes
--   Database/Overlay       crates/tao-database/src/accounts_db.rs, the store of nodes
--   Database/BlockLog      crates/tao-database/src/block_log.rs, the framing
--   DagChain               crates/tao-dagvm/src/dag_chain.rs, the state and what it calls
--   DagChain/Select        the same file: selected parent, interlink, target
--   DagChain/Validate      the same file: the checks of a received block
--   DagChain/Accept        the same file: accept, apply and the record in the log
--   DagChain/Mine          the same file: build_block_at and mine_at
--   DagChain/State         the same file: virtual state, checkpoints, pruning of transactions
--   DagChain/Snapshot      the same file: pruning proofs, snapshots of peers
--   DagChain/Prune         the same file: the pruning of the DAG below a finalized block
--   DagChain/Export        the same file: get_block and export_snapshot
--   DagChain/Open          the same file: open and the replay of the log
--   DagChain/Codec, Models concrete instances of the parameters, for tests and witnesses
--   Ghostdag               crates/tao-dag/src/lib.rs, the GHOSTDAG prototype
--   Pouw/Gemm              crates/tao-pouw/src/gemm.rs
--   Pouw/Commitment        crates/tao-pouw/src/utility_gate.rs, the tree over weight tiles
--   Pouw/Gate              crates/tao-pouw/src/utility_gate.rs, registry, work items, the gate
--   Pouw/Matmul            crates/tao-pouw/src/lib.rs, matrix products as the proof of work
--
-- A function of the source has the same name in snake case, a method takes its object first and
-- returns the new object where it changes it: ChainState::add_header is add_header, from a
-- state and a header to an outcome and a state.
--
-- Conventions. Integers are natural numbers; signed ones are the ℤ of Common/Int, and the i64
-- of the matrix products, which wrap around, are bit patterns below 2^64. A panic, a failed
-- assertion, an overflow that the code does not mean to have and a division by zero are the
-- fault `none`; a rejected operation is a value of the source's error type. Hash maps are
-- association lists of which the first match counts, hash sets are lists. What is third-party
-- (hashes, codecs, 256-bit conversions, transactions) is a parameter, a record or a function,
-- with the laws the code relies on. The GHOSTDAG engine is a parameter of the DAG chain.
--
-- Bounds and fuel. The Merkle loops run on as many rounds as there are leaves, which suffices
-- because a round at least halves a level, rounded up. Grinding runs on the source's own
-- iteration bound, a walk back through the chain on the source's own count. The eviction loop
-- of the hash queue, the doubling loop of the padding and the loop that reads the log run on
-- the size of their input, of which every round uses up a part. `solve` of the gate has no
-- bound in the source: its fuel is any number above the first nonce that meets the target.
-- So is that of mine_at.
-- The chain of selected parents in the order of a DAG runs on the blue score of the tip, which
-- falls from a block to its selected parent.
--
-- The walk for a pruning proof has the source's bound, 1,000,001 headers. In the DAG chain an
-- operation returns the chain beside its result, also when it fails; `panicked` is a panic there, in the
-- pruning `none`. The selected chain that a pruning walks has a fuel of one more than the blocks
-- of the order, of which the chain is a part.
--
-- Not modelled: the flush of the account store's tree to the database and the errors of
-- RocksDB; the Solana machine with the conversion of a transaction (which panics on one that does
-- not sanitize), the deployment of programs and the codecs, which are parameters;
-- the node loop, networking, logging, the command line and JSON-RPC, which call the modelled
-- operations from threads and sockets; the configuration and the header that is filled from it,
-- which are data; the execution over a DAG without headers, which only tests use; and the port
-- of the GHOSTDAG and reachability code of another project.
pub mod Common
pub mod Consensus
pub mod Mempool
pub mod Runtime
pub mod Database
pub mod Pouw
pub mod DagChain
pub mod Ghostdag
