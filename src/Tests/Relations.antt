-- ===== src/Tests/Relations.antt =====
-- The relations: a small graph with the theorems applied to it.
use nestory.Common.{
  ℕ, ◌≡◌, refl, true, false, not, none, some, List, [], ◌∷◌, arith, if◌then◌else◌, Result, ok, err,
}
use nestory.Common.Bytes.{Bytes}
use nestory.Common.Int.{pos}
use nestory.Relations.Node.{
  NodeKey, same_node, has_node, own_relation, owned_by_relation, borrow_relation, RelationSpec,
}
use nestory.Relations.KeySet.{NodeKeySet, add, contents, add_unique, IsKeySet, add-IsKeySet}
use nestory.Relations.Model.{
  number, same_target, Pointer, GraphNode, RelationTargetKey, IndexedRelationTarget, RelationModel,
  RelationError, ownership_cycle, delete_restricted,
}
use nestory.Relations.Scan.{entity_id_field}
use nestory.Relations.Cycles.{validate_ownership_cycles}
use nestory.Relations.Cycles.Check.{Decision, validate_ownership_cycles-Decision}
use nestory.Relations.Build.{attach_scanned, build_relation_model_from_targets}
use nestory.Relations.Build.Owners.{OwnersMatch, build_relation_model-OwnersMatch}
use nestory.Relations.Deletion.{deletion_closure}

abbrev house : ℕ → NodeKey
house n = record { typ = 72 ∷ []; id = pos n }

abbrev room : ℕ → NodeKey
room n = record { typ = 82 ∷ []; id = pos n }

-- the array is full: the next key goes to the slice and the map is made
abbrev full_keys : NodeKeySet
full_keys = record {
  inline = house 1 ∷ house 2 ∷ house 3 ∷ house 4 ∷ house 5 ∷ house 6 ∷ house 7 ∷ house 8 ∷ [];
  overflow = [];
  index = none;
  count = 8;
}

add-IsKeySet_example :
    IsKeySet (add (house 9) full_keys).0
    × (contents (add (house 9) full_keys).0 ≡ add_unique (house 9) (contents full_keys))
    × ((add (house 9) full_keys).1 ≡ not (has_node (house 9) (contents full_keys)))
add-IsKeySet_example = add-IsKeySet (house 9) full_keys ((refl, omega arith), refl)

-- two nodes own each other
abbrev looped : List (NodeKey × NodeKey)
looped = (house 1, room 1) ∷ (room 1, house 1) ∷ []

cycle_found :
    validate_ownership_cycles (house 1 ∷ room 1 ∷ []) looped
    ≡ some (err (ownership_cycle (house 1)))
unfolding validate_ownership_cycles same_node
cycle_found = refl

validate_ownership_cycles-Decision_example :
    Decision looped
      (house 1 ∷ room 1 ∷ [])
      (validate_ownership_cycles (house 1 ∷ room 1 ∷ []) looped)
validate_ownership_cycles-Decision_example =
    validate_ownership_cycles-Decision (house 1 ∷ room 1 ∷ []) looped

-- a house owns its rooms, and a room names its house
abbrev rooms_spec : RelationSpec
rooms_spec = record {
  owner = 72 ∷ [];
  field_index = 0;
  field_name = 82 ∷ [];
  target = 82 ∷ [];
  kind = own_relation;
  match_field = 72 ∷ [];
  many = true;
}

abbrev house_spec : RelationSpec
house_spec = record {
  owner = 82 ∷ [];
  field_index = 0;
  field_name = 72 ∷ [];
  target = 72 ∷ [];
  kind = owned_by_relation;
  match_field = entity_id_field;
  many = false;
}

specs_of : Bytes → Result RelationError (List RelationSpec)
unfolding has_node
specs_of typ =
    if has_node (record { typ = typ; id = pos 0 }) (house 0 ∷ [])
    then ok (rooms_spec ∷ [])
    else ok (house_spec ∷ [])

abbrev id_pointer : ℕ → Pointer
id_pointer n = some ((entity_id_field, number (pos n)) ∷ [])

abbrev nodes : List GraphNode
nodes =
    record {
      key = house 1;
      fields = (entity_id_field, number (pos 1)) ∷ [];
      pointers = (id_pointer 1 ∷ id_pointer 2 ∷ []) ∷ [];
    }
    ∷ record {
      key = room 1;
      fields = (entity_id_field, number (pos 1)) ∷ [];
      pointers = (id_pointer 1 ∷ []) ∷ [];
    }
    ∷ record {
      key = room 2;
      fields = (entity_id_field, number (pos 2)) ∷ [];
      pointers = (none ∷ []) ∷ [];
    }
    ∷ []

abbrev target_of : NodeKey → RelationTargetKey × IndexedRelationTarget
target_of key = (
  record { typ = key.typ; field = entity_id_field; value = number key.id },
  record { key = key; duplicate = false },
)

abbrev targets : List (RelationTargetKey × IndexedRelationTarget)
targets = target_of (house 1) ∷ target_of (room 1) ∷ target_of (room 2) ∷ []

abbrev owners_of : Result RelationError RelationModel → List (NodeKey × NodeKey)
owners_of (ok m) = m.owners
owners_of (err e) = []

rooms_owned :
    owners_of (attach_scanned specs_of nodes targets) ≡ (room 1, house 1) ∷ (room 2, house 1) ∷ []
unfolding attach_scanned specs_of same_node same_target
rooms_owned = refl

build_relation_model-OwnersMatch_example :
    (r : Result RelationError RelationModel) × (build_relation_model_from_targets specs_of nodes
        targets
      ≡ some r)
    × ((m : RelationModel) → r ≡ ok m → OwnersMatch nodes m)
build_relation_model-OwnersMatch_example = build_relation_model-OwnersMatch specs_of nodes targets

abbrev borrow_spec : RelationSpec
borrow_spec = record rooms_spec { kind = borrow_relation; many = false }

-- house 1 owns room 1, and house 2 borrows it
abbrev street : RelationModel
street = record {
  nodes =
      record { key = house 1; fields = []; pointers = [] }
      ∷ record { key = room 1; fields = []; pointers = [] }
      ∷ record { key = house 2; fields = []; pointers = [] }
      ∷ [];
  targets = [];
  refs = record { holder = house 2; target = room 1; spec = borrow_spec } ∷ [];
  unresolved = [];
  missing = [];
  owners = (room 1, house 1) ∷ [];
  outgoing = (house 1, room 1 ∷ []) ∷ [];
}

borrowed_stays :
    deletion_closure [] street (house 1 ∷ [])
    ≡ some
        (err (delete_restricted (record { holder = house 2; target = room 1; spec = borrow_spec })))
unfolding deletion_closure
borrowed_stays = refl

all_go :
    deletion_closure [] street (house 1 ∷ house 2 ∷ [])
    ≡ some (ok (house 1 ∷ house 2 ∷ room 1 ∷ []))
unfolding deletion_closure
all_go = refl
