-- ===== src/Database/Overlay.antt =====
-- crates/tao-database/src/accounts_db.rs: the store of tree nodes over the database, with the writes
-- that are not flushed yet. Errors of the database read as no node, as in the source.
mod Tests
use tao.Common.{
  ◌≡◌, refl, Bool, true, false, Option, none, some, List, [], ◌∷◌, arith, length, nat_beq,
  if◌then◌else◌,
}
use tao.Common.Keys.{◌==◌, nat_eq, list_eq}
use tao.Common.Maps.{HashMap, lookup, insert, lookup-insert}
use tao.Consensus.Bytes.{Bytes, Hasher}
use tao.Database.Smt.{Leaf}
use tao.Database.Smt.Nodes.{NodeStore, update_leaf}

pub record Overlay : Type 0 where
  pub db : HashMap Bytes Bytes
  pub pending : HashMap Bytes (Option Bytes)

-- `(bytes.len() == 32).then(...)`
abbrev sized : Bytes → Option Bytes
sized bytes = if nat_beq (length bytes) 32 then some bytes else none

pub get_node : Overlay → Bytes → Option Bytes
get_node o id = elim (lookup id o.pending) [
  | some v ↦ v
  | none ↦ elim (lookup id o.db) [ some bytes ↦ sized bytes | none ↦ none ]
]

pub set_node : Overlay → Bytes → Bytes → Overlay
set_node o id hash = record o { pending = insert id (some hash) o.pending }

pub del_node : Overlay → Bytes → Overlay
del_node o id = record o { pending = insert id none o.pending }

pub get-set :
    (o : Overlay) (id j hash : Bytes)
    → get_node (set_node o id hash) j ≡ (if id == j then some hash else get_node o j)
unfolding get_node set_node
get-set o id j hash = ground (arith, lookup-insert id j (some hash) o.pending)

pub get-del :
    (o : Overlay) (id j : Bytes)
    → get_node (del_node o id) j ≡ (if id == j then none else get_node o j)
unfolding get_node del_node
get-del o id j = ground (arith, lookup-insert id j none o.pending)

-- The overlay is a store: what is written is read back, before it is flushed.
abbrev pub overlay : NodeStore Overlay
overlay = record {
  get_node = get_node;
  set_node = set_node;
  del_node = del_node;
  get-set = get-set;
  get-del = get-del;
}
