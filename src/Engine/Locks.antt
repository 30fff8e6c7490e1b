-- ===== src/Engine/Locks.antt =====
-- engine.go and branchlock.go: the locks that a commit takes, in the order in which it takes them: the
-- graph, the structure of the tables by name, the branches by their roots, and the resources.
pub mod Sorted
pub mod Keys
pub mod Distinct
pub mod Ordered
pub mod Steps
pub mod Progress
pub mod Finish
use nestory.Common.{
  ℕ, zero, suc, ◌+◌, ◌-◌, Ordering, Bool, true, false, ◌||◌, Option, none, some, List, [], ◌∷◌,
  ◌++◌, map, if◌then◌else◌, length,
}
use nestory.Common.Bytes.{Bytes}
use nestory.Common.Int.{ℤ}
use nestory.Common.Maps.{find}
use nestory.SecondaryIndex.Value.{compare_int, compare_bytes}
use nestory.SecondaryIndex.Search.{first, is_equal, above}
use nestory.Relations.Node.{NodeKey, has_node, node_equality}
use nestory.Relations.Cycles.{Owners}
use nestory.Engine.Resources.{TransactionResourceKey, TouchedResource, same_key, resource_key}

-- `slices.SortFunc` and `sort.Strings`, on elements that are all different
unfoldable pub insert_by : {A : Type 0} → (A → A → Ordering) → A → List A → List A
unfolding above
insert_by cmp x [] = x ∷ []
insert_by cmp x (y ∷ ys) =
    let rest = insert_by cmp x ys in if above (cmp x y) then y ∷ rest else x ∷ y ∷ ys

unfoldable pub sort_by : {A : Type 0} → (A → A → Ordering) → List A → List A
unfolding insert_by
sort_by cmp [] = []
sort_by cmp (x ∷ xs) = insert_by cmp x (sort_by cmp xs)

-- by name and then by id
unfoldable pub compare_resource : TransactionResourceKey → TransactionResourceKey → Ordering
unfolding compare_int compare_bytes
compare_resource a b = first (compare_bytes a.db_name b.db_name) (compare_int a.id b.id)

unfoldable pub compare_node : NodeKey → NodeKey → Ordering
unfolding compare_int compare_bytes
compare_node a b = first (compare_bytes a.typ b.typ) (compare_int a.id b.id)

unfoldable pub has_resource : TransactionResourceKey → List TransactionResourceKey → Bool
unfolding same_key
has_resource key [] = false
has_resource key (x ∷ xs) = same_key key x || has_resource key xs

unfoldable pub has_name : Bytes → List Bytes → Bool
unfolding compare_bytes
has_name name [] = false
has_name name (x ∷ xs) = is_equal (compare_bytes name x) || has_name name xs

abbrev pub node_resource : NodeKey → TransactionResourceKey
node_resource key = record { db_name = key.typ; id = key.id }

-- the loop over the deletes in `transactionResourceLocks`
unfoldable pub add_delete_locks :
    List NodeKey → List NodeKey → List TransactionResourceKey → List TransactionResourceKey
unfolding has_node has_resource
add_delete_locks creates [] locks = locks
add_delete_locks creates (key ∷ deletes) locks = add_delete_locks creates deletes (
    if has_node key creates || has_resource (node_resource key) locks
    then locks
    else locks ++ node_resource key ∷ [])

unfoldable pub transaction_resource_locks :
    {A : Type 0}
    → List (TouchedResource A)
    → List NodeKey
    → List NodeKey
    → List TransactionResourceKey
unfolding add_delete_locks sort_by compare_resource
transaction_resource_locks resources creates deletes =
    sort_by compare_resource (add_delete_locks creates deletes (map resource_key resources))

-- a set of names
unfoldable pub add_names : List Bytes → List Bytes → List Bytes
unfolding has_name
add_names [] names = names
add_names (name ∷ more) names =
    add_names more (if has_name name names then names else names ++ name ∷ [])

-- the names of the tables with secondary indexes that are written
unfoldable pub indexed_names : {A : Type 0} → (Bytes → Bool) → List (TouchedResource A) → List Bytes
indexed_names has_secondary_indexes [] = []
indexed_names has_secondary_indexes (r ∷ resources) =
    let rest = indexed_names has_secondary_indexes resources in
    if has_secondary_indexes r.db_name then r.db_name ∷ rest else rest

unfoldable pub transaction_structural_db_names :
    {A : Type 0}
    → (Bytes → Bool)
    → List (TouchedResource A)
    → List NodeKey
    → List NodeKey
    → List Bytes
unfolding add_names indexed_names sort_by
transaction_structural_db_names has_secondary_indexes resources creates deletes =
    sort_by compare_bytes (
      add_names (map (λ key. key.typ) deletes) (
        add_names (map (λ key. key.typ) creates)
          (add_names (indexed_names has_secondary_indexes resources) [])))

-- the loop of `committedOwnershipRoot`
unfoldable pub climb_to_root : ℕ → Owners → NodeKey → NodeKey
unfolding find
climb_to_root zero owners node = node
climb_to_root (suc bound) owners node = elim (find node owners) [
  | none ↦ node
  | some owner ↦ climb_to_root bound owners owner
]

unfoldable pub committed_ownership_root : Option Owners → NodeKey → NodeKey
unfolding climb_to_root
committed_ownership_root none node = node
committed_ownership_root (some owners) node = climb_to_root (length owners + 1) owners node

-- the zero value of a node, without a type, is `none`
unfoldable pub committed_branch_root :
    (Bytes → Bool) → Option Owners → TransactionResourceKey → Option NodeKey
unfolding committed_ownership_root
committed_branch_root registered owners resource =
    if registered resource.db_name
    then some
        (committed_ownership_root owners (record { typ = resource.db_name; id = resource.id }))
    else none

-- the loop over the resources in `lockTouchedBranches`
unfoldable pub add_roots :
    (Bytes → Bool) → Option Owners → List TransactionResourceKey → List NodeKey → List NodeKey
unfolding committed_branch_root has_node
add_roots registered owners [] roots = roots
add_roots registered owners (resource ∷ resources) roots =
    add_roots registered owners resources (elim (committed_branch_root registered owners resource) [
      | none ↦ roots
      | some root ↦ if has_node root roots then roots else roots ++ root ∷ []
    ])

unfoldable pub touched_branches :
    (Bytes → Bool) → Option Owners → List TransactionResourceKey → List NodeKey
unfolding add_roots sort_by compare_node
touched_branches registered owners resources =
    sort_by compare_node (add_roots registered owners resources [])

pub data GraphAccess : Type 0 where
  graph_access_none graph_access_read graph_access_write : GraphAccess

unfoldable pub any_participant : (Bytes → Bool) → List Bytes → Bool
any_participant participant [] = false
any_participant participant (name ∷ names) = participant name || any_participant participant names

-- `participant` is `relationGraphParticipant`
unfoldable pub transaction_graph_access :
    {A : Type 0}
    → (Bytes → Bool)
    → List (TouchedResource A)
    → List NodeKey
    → List NodeKey
    → Bool
    → GraphAccess
unfolding any_participant
transaction_graph_access participant resources creates deletes relation_changed =
    if relation_changed
    then graph_access_write
    else if any_participant participant (map (λ key. key.typ) creates)
    then graph_access_write
    else if any_participant participant (map (λ key. key.typ) deletes)
    then graph_access_write
    else if any_participant participant (map (λ r. r.db_name) resources)
    then graph_access_read
    else graph_access_none

pub data Lock : Type 0 where
  graph_lock : Lock
  structure_lock : Bytes → Lock
  branch_lock : NodeKey → Lock
  resource_lock : TransactionResourceKey → Lock

-- `RLock` asks for the lock shared, `Lock` for the lock alone
pub record LockRequest : Type 0 where
  pub lock : Lock
  pub shared : Bool

abbrev pub alone : Lock → LockRequest
alone lock = record { lock = lock; shared = false }

unfoldable pub graph_request : GraphAccess → List LockRequest
graph_request graph_access_none = []
graph_request graph_access_read = record { lock = graph_lock; shared = true } ∷ []
graph_request graph_access_write = alone graph_lock ∷ []

-- what a commit does with the locks, before it gives all back at its end
pub data LockStep : Type 0 where
  locks : LockRequest → LockStep
  unlocks : Lock → LockStep

-- `snapshotTouchedResource` of each row: it locks the row while it copies it
unfoldable pub snapshot_steps : List TransactionResourceKey → List LockStep
snapshot_steps [] = []
snapshot_steps (key ∷ rows) =
    locks (alone (resource_lock key)) ∷ unlocks (resource_lock key) ∷ snapshot_steps rows

-- what `materializeOwnBackReferences` comes to; it is called where the graph changes
unfoldable pub materialized : {B : Type 0} → GraphAccess → List B → List B
materialized graph_access_none rows = []
materialized graph_access_read rows = []
materialized graph_access_write rows = rows

-- what a commit locks: `hasSecondaryIndexes`, `relationGraphParticipant`, the registry of the tables
-- and the committed owners are given
module _ {A : Type 0} (has_secondary_indexes participant registered : Bytes → Bool)
    (owners : Option Owners) where
  -- the locks behind that of the graph, which a commit keeps to its end
  unfoldable pub later_locks :
      List (TouchedResource A) → List NodeKey → List NodeKey → List LockRequest
  unfolding transaction_structural_db_names transaction_resource_locks touched_branches
  later_locks resources creates deletes =
      let locked = transaction_resource_locks resources creates deletes in
      map (λ name. alone (structure_lock name))
        (transaction_structural_db_names has_secondary_indexes resources creates deletes)
      ++ map (λ root. alone (branch_lock root)) (touched_branches registered owners locked)
      ++ map (λ key. alone (resource_lock key)) locked

  -- `snapshots` are the rows that `materializeOwnBackReferences` copies, and `added` the resources that
  -- it adds to those that the transaction has changed
  unfoldable pub commit_locks :
      List (TouchedResource A)
      → List TransactionResourceKey
      → List (TouchedResource A)
      → List NodeKey
      → List NodeKey
      → Bool
      → List LockStep
  unfolding transaction_graph_access graph_request snapshot_steps materialized later_locks
  commit_locks resources snapshots added creates deletes relation_changed =
      let access =
        transaction_graph_access participant resources creates deletes relation_changed in
      map locks (graph_request access)
      ++ (snapshot_steps (materialized access snapshots)
          ++ map locks (later_locks (resources ++ materialized access added) creates deletes))
