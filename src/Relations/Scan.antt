-- ===== src/Relations/Scan.antt =====
-- relation_runtime.go: the scan of the relation fields of a node, `scanNodeRelations` and what it
-- calls. A pointer is resolved by the key of the entity it points at, never by its address.
pub mod Owners
pub mod Keeps
use nestory.Common.{
  ◌+◌, ◌-◌, Bool, true, false, ◌&&◌, ◌||◌, Option, none, some, List, [], ◌∷◌, ◌++◌, ◌==◌,
  if◌then◌else◌, get_or, Result, ok, err, bind_result, bind_option,
}
use nestory.Common.Bytes.{Bytes}
use nestory.Common.Maps.{find, put}
use nestory.Relations.Node.{
  NodeKey, has_node, node_equality, RelationKind, is_own, is_owned_by, is_borrow, is_option,
  is_inverse, RelationSpec, ResolvedRelation,
}
use nestory.Relations.Model.{
  MatchValue, Fields, Pointer, GraphNode, RelationTargetKey, IndexedRelationTarget, MissingRelation,
  UnresolvedRelation, IncomingOwn, IncomingOwns, RelationModel, RelationError, not_unique,
  listed_twice, target_equality, bytes_equality,
}

-- `entityIDField`, the bytes of "Id"
abbrev pub entity_id_field : Bytes
entity_id_field = 73 ∷ 100 ∷ []

unfoldable pub relation_key : Pointer → Bytes → Option MatchValue
unfolding find
relation_key none field = none
relation_key (some fields) field = find field fields

-- the field by which the targets of a relation are found
unfoldable pub target_field : RelationSpec → Bytes
target_field r = if is_own r.kind && r.many then entity_id_field else r.match_field

unfoldable pub graph_relation_target_key : RelationSpec → Pointer → Option RelationTargetKey
unfolding relation_key target_field
graph_relation_target_key r pointer =
    bind_option (relation_key pointer (target_field r))
      λ value. some (record { typ = r.target; field = target_field r; value = value })

unfoldable pub resolve_graph_target :
    List (RelationTargetKey × IndexedRelationTarget)
    → RelationSpec
    → Pointer
    → Result RelationError (Option NodeKey)
unfolding graph_relation_target_key find
resolve_graph_target targets r pointer = elim (graph_relation_target_key r pointer) [
  | none ↦ ok none
  | some key ↦ elim (find key targets) [
    | none ↦ ok none
    | some target ↦ if target.duplicate then err (not_unique r) else ok (some target.key)
  ]
]

unfoldable pub relation_may_be_missing : RelationSpec → Bool
relation_may_be_missing spec =
    if is_option spec.kind then true else spec.many && (is_borrow spec.kind || is_own spec.kind)

-- the zero value of `incomingOwns`
abbrev pub no_incoming : IncomingOwns
no_incoming = record { first = none; count = 0 }

unfoldable pub add_incoming : IncomingOwn → IncomingOwns → IncomingOwns
add_incoming edge owns = record {
  first = if owns.count == 0 then some edge else owns.first;
  count = owns.count + 1;
}

pub record ScanState : Type 0 where
  pub model : RelationModel
  pub incoming : List (NodeKey × IncomingOwns)
  pub owned_by : List (NodeKey × IncomingOwn)

unfoldable pub incoming_of : NodeKey → List (NodeKey × IncomingOwns) → IncomingOwns
unfolding find
incoming_of key incoming = elim (find key incoming) [ none ↦ no_incoming | some owns ↦ owns ]

unfoldable pub record_resolved_relation : NodeKey → NodeKey → RelationSpec → ScanState → ScanState
unfolding incoming_of add_incoming put
record_resolved_relation holder target spec s = record {
  model = record (s.model) {
    refs = s.model.refs ++ record { holder = holder; target = target; spec = spec } ∷ [];
  };
  incoming =
      if is_own spec.kind
      then put target
          (add_incoming (record { owner = holder; spec = spec }) (incoming_of target s.incoming))
          s.incoming
      else s.incoming;
  owned_by =
      if is_owned_by spec.kind
      then put holder (record { owner = target; spec = spec }) s.owned_by
      else s.owned_by;
}

-- a pointer that finds no target
unfoldable pub record_unresolved : NodeKey → RelationSpec → Pointer → RelationModel → RelationModel
unfolding graph_relation_target_key
record_unresolved holder spec pointer m = elim (graph_relation_target_key spec pointer) [
  | none ↦ m
  | some lookup ↦ record m {
    unresolved = m.unresolved ++ record { holder = holder; spec = spec; lookup = lookup } ∷ [];
  }
]

unfoldable pub record_missing : NodeKey → RelationSpec → RelationModel → RelationModel
unfolding relation_may_be_missing
record_missing holder spec m =
    if relation_may_be_missing spec
    then m
    else record m { missing = m.missing ++ record { holder = holder; spec = spec } ∷ [] }

-- whether the set `seen`, which may be nil, has the node
unfoldable pub is_seen : NodeKey → Option (List NodeKey) → Bool
unfolding has_node
is_seen key none = false
is_seen key (some seen) = has_node key seen

unfoldable pub see : NodeKey → Option (List NodeKey) → Option (List NodeKey)
see key none = none
see key (some seen) = some (key ∷ seen)

unfoldable pub scan_relation_pointer :
    NodeKey
    → RelationSpec
    → Pointer
    → Option (List NodeKey)
    → ScanState
    → Result RelationError (ScanState × Option (List NodeKey))
unfolding resolve_graph_target record_unresolved record_missing is_seen see record_resolved_relation
scan_relation_pointer holder spec pointer seen s =
    bind_result (resolve_graph_target s.model.targets spec pointer) λ found. elim found [
      | none ↦ ok (
        record s {
          model = record_missing holder spec (record_unresolved holder spec pointer s.model);
        },
        seen,
      )
      | some target ↦
          if is_seen target seen && is_own spec.kind
          then err (listed_twice holder spec target)
          else ok (record_resolved_relation holder target spec s, see target seen)
    ]

unfoldable pub scan_relation_pointers :
    NodeKey
    → RelationSpec
    → List Pointer
    → Option (List NodeKey)
    → ScanState
    → Result RelationError ScanState
unfolding scan_relation_pointer
scan_relation_pointers holder spec [] seen s = ok s
scan_relation_pointers holder spec (p ∷ ps) seen s =
    bind_result (scan_relation_pointer holder spec p seen s)
      λ (t, met). scan_relation_pointers holder spec ps met t

unfoldable pub scan_relation_field :
    GraphNode → RelationSpec → ScanState → Result RelationError ScanState
unfolding scan_relation_pointer scan_relation_pointers
scan_relation_field node spec s =
    let field = get_or node.pointers spec.field_index [] in
    if spec.many
    then scan_relation_pointers node.key spec field (if is_own spec.kind then some [] else none) s
    else bind_result (scan_relation_pointer node.key spec (get_or field 0 none) none s)
        λ (t, met). ok t

unfoldable pub scan_specs :
    GraphNode → List RelationSpec → ScanState → Result RelationError ScanState
unfolding scan_relation_field
scan_specs node [] s = ok s
scan_specs node (spec ∷ specs) s =
    bind_result (if is_inverse spec.kind then ok s else scan_relation_field node spec s)
      (scan_specs node specs)

-- `specs_of` is `relationSpecs`, which reads the tags of a type
module _ (specs_of : Bytes → Result RelationError (List RelationSpec)) where
  unfoldable pub scan_node_relations : GraphNode → ScanState → Result RelationError ScanState
  unfolding scan_specs
  scan_node_relations node s = bind_result (specs_of node.key.typ) λ specs. scan_specs node specs s

  unfoldable pub scan_nodes : List GraphNode → ScanState → Result RelationError ScanState
  unfolding scan_node_relations
  scan_nodes [] s = ok s
  scan_nodes (node ∷ nodes) s = bind_result (scan_node_relations node s) (scan_nodes nodes)
