-- ===== src/Relations/Build.antt =====
-- relation_runtime.go: the owners of the nodes, `attachNodeOwner`, and `buildRelationModelFromTargets`.
-- A map is visited in the order of its list, which is any order.
pub mod Attach
pub mod Attached
pub mod Given
pub mod Owners
use nestory.Common.{
  ◌+◌, ◌-◌, ◌&&◌, not, Option, none, some, List, [], ◌∷◌, ◌++◌, map, ltb, ◌==◌, if◌then◌else◌,
  Result, ok, err, bind_result, bind_option,
}
use nestory.Common.Bytes.{Bytes}
use nestory.Common.Maps.{find, put}
use nestory.Relations.Node.{NodeKey, same_node, node_equality, RelationSpec}
use nestory.Relations.Model.{
  GraphNode, RelationTargetKey, IndexedRelationTarget, IncomingOwn, IncomingOwns, RelationModel,
  RelationError, more_than_one_owner, owners_disagree,
}
use nestory.Relations.Scan.{ScanState, incoming_of, scan_nodes}
use nestory.Relations.Cycles.{validate_ownership_cycles}

-- the owner of the edge, if there is one
abbrev pub edge_owner : Option IncomingOwn → Option NodeKey
edge_owner none = none
edge_owner (some edge) = some edge.owner

unfoldable pub resolved_owner : IncomingOwns → Option IncomingOwn → Option NodeKey
resolved_owner raw back = if raw.count == 1 then edge_owner raw.first else edge_owner back

-- the two owners that `own` and `ownedby` name where they differ
unfoldable pub disagreement : IncomingOwns → Option IncomingOwn → Option (NodeKey × NodeKey)
unfolding same_node
disagreement raw back = elim raw.first [
  | none ↦ none
  | some first ↦ elim back [
    | none ↦ none
    | some named ↦
        if raw.count == 1 && not (same_node first.owner named.owner)
        then some (first.owner, named.owner)
        else none
  ]
]

unfoldable pub children_of : NodeKey → List (NodeKey × List NodeKey) → List NodeKey
unfolding find
children_of owner outgoing = elim (find owner outgoing) [ none ↦ [] | some children ↦ children ]

-- `owners[child] = owner` and the child among the owner's
unfoldable pub set_owner : NodeKey → Option NodeKey → RelationModel → RelationModel
unfolding children_of put
set_owner child none m = m
set_owner child (some owner) m = record m {
  owners = put child owner m.owners;
  outgoing = put owner (children_of owner m.outgoing ++ child ∷ []) m.outgoing;
}

unfoldable pub attach_node_owner :
    RelationModel → NodeKey → IncomingOwns → Option IncomingOwn → Result RelationError RelationModel
unfolding disagreement resolved_owner set_owner
attach_node_owner m child raw back =
    if ltb 1 raw.count then err (more_than_one_owner child) else elim (disagreement raw back) [
      | some (owning, named) ↦ err (owners_disagree child owning named)
      | none ↦ ok (set_owner child (resolved_owner raw back) m)
    ]

unfoldable pub attach_owners :
    ScanState → List NodeKey → RelationModel → Result RelationError RelationModel
unfolding incoming_of attach_node_owner find
attach_owners s [] m = ok m
attach_owners s (child ∷ children) m =
    bind_result (attach_node_owner m child (incoming_of child s.incoming) (find child s.owned_by))
      (attach_owners s children)

abbrev pub node_keys : List GraphNode → List NodeKey
node_keys nodes = map (λ node. node.key) nodes

abbrev pub empty_model :
    List GraphNode → List (RelationTargetKey × IndexedRelationTarget) → RelationModel
empty_model nodes targets = record {
  nodes = nodes;
  targets = targets;
  refs = [];
  unresolved = [];
  missing = [];
  owners = [];
  outgoing = [];
}

abbrev pub start_scan :
    List GraphNode → List (RelationTargetKey × IndexedRelationTarget) → ScanState
start_scan nodes targets = record {
  model = empty_model nodes targets;
  incoming = [];
  owned_by = [];
}

-- `specs_of` is `relationSpecs`, which reads the tags of a type
module _ (specs_of : Bytes → Result RelationError (List RelationSpec)) where
  -- the scan and the owners, before the check for cycles
  unfoldable pub attach_scanned :
      List GraphNode
      → List (RelationTargetKey × IndexedRelationTarget)
      → Result RelationError RelationModel
  unfolding scan_nodes attach_owners
  attach_scanned nodes targets =
      bind_result (scan_nodes specs_of nodes (start_scan nodes targets))
        λ s. attach_owners s (node_keys nodes) s.model

  -- `none` when the check for cycles runs out of fuel
  unfoldable pub build_relation_model_from_targets :
      List GraphNode
      → List (RelationTargetKey × IndexedRelationTarget)
      → Option (Result RelationError RelationModel)
  unfolding attach_scanned validate_ownership_cycles
  build_relation_model_from_targets nodes targets = elim (attach_scanned nodes targets) [
    | err e ↦ some (err e)
    | ok m ↦
        bind_option (validate_ownership_cycles (node_keys nodes) m.owners)
          λ checked. some (bind_result checked λ u. ok m)
  ]
