-- ===== src/Relations/Deletion/Outcome.antt =====
-- What `deletionClosure` returns: the set, or the node or the reference that forbids the deletion.
use nestory.Common.{◌≡◌, ◌⊎◌, true, false, Option, none, some, List, All, In, Result, ok, err}
use nestory.Relations.Node.{NodeKey, has_node, is_borrow, is_own, ResolvedRelation}
use nestory.Relations.Model.{RelationModel, RelationError, delete_missing, delete_restricted}
use nestory.Relations.Build.{node_keys}
use nestory.Relations.Deletion.{find_restriction}
use nestory.Relations.Deletion.Doomed.{IsDoomed, IsClosure}

-- The field of the reference needs its target: it borrows it, or it is the only one that it owns.
abbrev pub NeedsTarget : ResolvedRelation → Type 0
NeedsTarget r =
    (is_borrow r.spec.kind ≡ true) ⊎ ((is_own r.spec.kind ≡ true) × (r.spec.many ≡ false))

-- a reference from a node outside the set to a node in it, through a field that needs its target
abbrev pub IsDangling : List NodeKey → ResolvedRelation → Type 0
IsDangling deleted r =
    (has_node r.holder deleted ≡ false) × (has_node r.target deleted ≡ true) × NeedsTarget r

-- the first dangling reference, or that there is none
abbrev FirstDangling : List NodeKey → List ResolvedRelation → Type 0
FirstDangling deleted refs =
    ((r : ResolvedRelation) × In r refs
      × IsDangling deleted r
      × (find_restriction deleted refs ≡ some r))
    ⊎ (All (λ r. IsDangling deleted r → ⊥) refs × (find_restriction deleted refs ≡ none))

-- the model has each of the nodes
abbrev pub AreKnown : RelationModel → List NodeKey → Type 0
AreKnown m keys = All (λ key. has_node key (node_keys m.nodes) ≡ true) keys

-- what a deletion of the explicit nodes comes to
pub data DeletionOutcome (committed : List (NodeKey × List NodeKey)) (m : RelationModel)
    (explicit : List NodeKey) : Option (Result RelationError (List NodeKey)) → Type 0 where
  unknown :
      {key : NodeKey}
      → In key explicit
      → has_node key (node_keys m.nodes) ≡ false
      → DeletionOutcome committed m explicit (some (err (delete_missing key)))
  restricted :
      {deleted : List NodeKey} {r : ResolvedRelation}
      → AreKnown m explicit
      → IsClosure committed m explicit deleted
      → In r m.refs
      → IsDangling deleted r
      → DeletionOutcome committed m explicit (some (err (delete_restricted r)))
  deletes :
      {deleted : List NodeKey}
      → AreKnown m explicit
      → ((x : NodeKey) → IsDoomed committed m explicit x → has_node x deleted ≡ true)
      → ((x : NodeKey) → has_node x deleted ≡ true → IsDoomed committed m explicit x)
      → All (λ r. IsDangling deleted r → ⊥) m.refs
      → DeletionOutcome committed m explicit (some (ok deleted))
