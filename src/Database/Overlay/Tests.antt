-- ===== src/Database/Overlay/Tests.antt =====
-- The tree of nodes over an empty database, and what its theorems give there.
use tao.Common.{ℕ, ◌≡◌, refl, true, none, List, [], ◌∷◌, arith, replicate, map}
use tao.Common.Keys.{nat_eq, list_eq}
use tao.Common.Maps.{lookup}
use tao.Consensus.Bytes.{Bytes}
use tao.Consensus.Models.{hasher}
use tao.Database.Smt.{empty_leaf, Leaf, root, from_entries, verify}
use tao.Database.Smt.Nodes.{update_leaf, update_leaves, stored_root, stored_proof}
use tao.Database.Smt.Nodes.Tree.{put_leaf}
use tao.Database.Smt.Nodes.Update.{Represents, update_leaf-Represents, empty-Represents}
use tao.Database.Smt.Nodes.Stored.{replicate-IsBytes32, verify-stored_proof}
use tao.Database.Smt.Nodes.Equal.{hashed, stored_root-from_entries}
use tao.Database.Overlay.{Overlay, get_node, overlay}

abbrev key : ℕ → Bytes
key b = replicate 32 b

abbrev empty : Overlay
empty = record { db = []; pending = [] }

empty-get_node : (id : Bytes) → overlay.get_node empty id ≡ none
unfolding get_node lookup
empty-get_node id = refl

abbrev entries : List Leaf
entries = (key 200, key 1) ∷ (key 3, key 2) ∷ []

different : lookup (key 200) ((key 3, key 2) ∷ []) ≡ none
unfolding lookup
different = refl

abbrev no_leaves : List Leaf
no_leaves = []

last_one : lookup (key 3) no_leaves ≡ none
unfolding lookup
last_one = refl

stored_root-from_entries_example :
    stored_root hasher overlay (update_leaves hasher overlay empty (map (hashed hasher) entries))
    ≡ root hasher (from_entries hasher entries)
stored_root-from_entries_example =
    stored_root-from_entries hasher overlay empty entries empty-get_node
      (replicate-IsBytes32 200 (omega arith), (replicate-IsBytes32 3 (omega arith), tt))
      (different, (last_one, tt))

one_leaf :
    Represents hasher overlay
      (update_leaf hasher overlay empty (key 200) (key 9))
      (put_leaf (λ _. empty_leaf) (key 200) (key 9))
one_leaf =
    update_leaf-Represents hasher overlay empty (λ _. empty_leaf) (key 200) (key 9)
      (replicate-IsBytes32 200 (omega arith)) (empty-Represents hasher overlay empty empty-get_node)

update_leaf-Represents_example :
    Represents hasher overlay
      (update_leaf hasher overlay empty (key 200) (key 9))
      (put_leaf (λ _. empty_leaf) (key 200) (key 9))
update_leaf-Represents_example =
    update_leaf-Represents hasher overlay empty (λ _. empty_leaf) (key 200) (key 9)
      (replicate-IsBytes32 200 (omega arith)) (empty-Represents hasher overlay empty empty-get_node)

verify-stored_proof_example :
    verify hasher
      (stored_root hasher overlay (update_leaf hasher overlay empty (key 200) (key 9)))
      (key 200)
      (put_leaf (λ _. empty_leaf) (key 200) (key 9) (key 200))
      (stored_proof hasher overlay (update_leaf hasher overlay empty (key 200) (key 9)) (key 200))
    ≡ true
verify-stored_proof_example =
    verify-stored_proof hasher overlay (update_leaf hasher overlay empty (key 200) (key 9))
      (put_leaf (λ _. empty_leaf) (key 200) (key 9)) (key 200)
      (replicate-IsBytes32 200 (omega arith)) one_leaf
