-- ===== src/Relations/Deletion.antt =====
-- relation_runtime.go: `deletionClosure`, the nodes that go with the nodes that are deleted, and the
-- references that forbid it. A node is queued when it is added to the set, so there are at most as
-- many rounds as nodes.
pub mod Closure
pub mod Doomed
pub mod Outcome
use nestory.Common.{
  ℕ, zero, suc, ◌+◌, ◌-◌, Bool, false, ◌&&◌, ◌||◌, not, Option, none, some, List, [], ◌∷◌, ◌++◌,
  map, if◌then◌else◌, length, concat, Result, ok, err, bind_option,
}
use nestory.Common.Maps.{find}
use nestory.Relations.Node.{
  NodeKey, same_node, has_node, node_equality, RelationKind, is_own, is_borrow, ResolvedRelation,
}
use nestory.Relations.Model.{
  GraphNode, RelationModel, RelationError, MissingRelation, delete_missing, delete_restricted,
  required_missing,
}
use nestory.Relations.Build.{children_of, node_keys}

-- whether the model gives the node an owner other than `owner`
unfoldable pub is_reparented : RelationModel → NodeKey → NodeKey → Bool
unfolding find same_node
is_reparented m owner child = elim (find child m.owners) [
  | none ↦ false
  | some proposed ↦ not (same_node proposed owner)
]

-- the committed children that the model still has under the owner and that are not listed yet
unfoldable pub add_committed : RelationModel → NodeKey → List NodeKey → List NodeKey → List NodeKey
unfolding is_reparented has_node
add_committed m owner [] children = children
add_committed m owner (child ∷ committed) children = add_committed m owner committed (
    if not (has_node child (node_keys m.nodes))
      || is_reparented m owner child
      || has_node child children
    then children
    else children ++ child ∷ [])

-- the loop over the children of one node: the set and the queue
unfoldable pub add_children :
    List NodeKey → List NodeKey → List NodeKey → List NodeKey × List NodeKey
unfolding has_node
add_children [] deleted queue = (deleted, queue)
add_children (child ∷ children) deleted queue =
    let seen = has_node child deleted in
    add_children children (if seen then deleted else deleted ++ child ∷ [])
      (if seen then queue else queue ++ child ∷ [])

-- `committed` is `committedOwnership.outgoing`, the children of the last committed model
module _ (committed : List (NodeKey × List NodeKey)) where
  unfoldable pub deletion_children : RelationModel → NodeKey → List NodeKey
  unfolding add_committed children_of
  deletion_children m owner =
      add_committed m owner (children_of owner committed) (children_of owner m.outgoing)

  -- the loop over the queue, `none` when the fuel is used up
  unfoldable pub close_deleted :
      ℕ → RelationModel → List NodeKey → List NodeKey → Option (List NodeKey)
  unfolding deletion_children add_children
  close_deleted fuel m deleted [] = some deleted
  close_deleted zero m deleted (owner ∷ queue) = none
  close_deleted (suc fuel) m deleted (owner ∷ queue) =
      let (grown, longer) = add_children (deletion_children m owner) deleted queue in
      close_deleted fuel m grown longer

-- a reference that forbids to delete its target without its holder
unfoldable pub restricts : ResolvedRelation → Bool
restricts r = is_borrow r.spec.kind || is_own r.spec.kind && not r.spec.many

unfoldable pub find_restriction : List NodeKey → List ResolvedRelation → Option ResolvedRelation
unfolding has_node restricts
find_restriction deleted [] = none
find_restriction deleted (r ∷ refs) =
    let rest = find_restriction deleted refs in
    if has_node r.holder deleted || not (has_node r.target deleted)
    then rest
    else if restricts r
    then some r
    else rest

-- the first loop: the nodes to delete, all of which the model has to have
unfoldable pub queue_explicit :
    RelationModel → List NodeKey → List NodeKey → Result RelationError (List NodeKey)
unfolding has_node
queue_explicit m [] deleted = ok deleted
queue_explicit m (key ∷ keys) deleted =
    let rest = queue_explicit m keys (deleted ++ key ∷ []) in
    if has_node key (node_keys m.nodes) then rest else err (delete_missing key)

-- all nodes that can be among the children of a node
abbrev pub all_nodes : RelationModel → List NodeKey
all_nodes m = node_keys m.nodes ++ concat (map (λ p. p.1) m.outgoing)

unfoldable pub deletion_closure :
    List (NodeKey × List NodeKey)
    → RelationModel
    → List NodeKey
    → Option (Result RelationError (List NodeKey))
unfolding queue_explicit close_deleted find_restriction
deletion_closure committed m explicit = elim (queue_explicit m explicit []) [
  | err e ↦ some (err e)
  | ok queue ↦
      bind_option (close_deleted committed (length queue + length (all_nodes m)) m queue queue)
        λ deleted. some (elim (find_restriction deleted m.refs) [
          | none ↦ ok deleted
          | some r ↦ err (delete_restricted r)
        ])
]

unfoldable pub validate_required_relations :
    List NodeKey → List MissingRelation → Result RelationError Unit
unfolding has_node
validate_required_relations deleted [] = ok tt
validate_required_relations deleted (missing ∷ rest) =
    let next = validate_required_relations deleted rest in
    if has_node missing.holder deleted then next else err (required_missing missing)
