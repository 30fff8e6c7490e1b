-- ===== src/Relations/Build/Owners.antt =====
-- The model that is built: each node has the owner that its references name, the children of a node
-- are those that it owns, and every chain of owners ends.
use nestory.Common.{
  some_ne_none, All-In, ◌≡◌, refl, sym, ap, ◌∙◌, subst, ◌↔◌, inl, inr, true, Option, none, some,
  List, [], ◌∷◌, arith, Bool-cases, All, In, Result, ok, err, bind_result, bind_option,
  Result-cases,
}
use nestory.Common.Bytes.{Bytes}
use nestory.Common.Maps.{find}
use nestory.Relations.Node.{
  NodeKey, same_node_refl, has_node, has_node-In, In-has_node, node_equality, is_own, RelationSpec,
  ResolvedRelation,
}
use nestory.Relations.Model.{
  GraphNode, RelationTargetKey, IndexedRelationTarget, RelationModel, RelationError,
}
use nestory.Relations.Scan.{ScanState, incoming_of, scan_nodes, record_resolved_relation}
use nestory.Relations.Scan.Owners.{
  owns_node, count_own, first_own, last_named, Tracks, record_resolved_relation-Tracks,
}
use nestory.Relations.Scan.Keeps.{lose_only, scan_nodes-keeps}
use nestory.Relations.Cycles.{validate_ownership_cycles}
use nestory.Relations.Cycles.Chains.{Ends}
use nestory.Relations.Cycles.Check.{
  Decision, all_end, one_returns, validate_ownership_cycles-Decision,
}
use nestory.Relations.Build.{
  children_of, attach_owners, node_keys, start_scan, attach_scanned,
  build_relation_model_from_targets,
}
use nestory.Relations.Build.Attach.{AreAttached}
use nestory.Relations.Model.{ownership_cycle}
use nestory.Relations.Build.Attached.{Agrees, attach_owners-AreAttached, attach_owners-refs}
use nestory.Relations.Build.Given.{
  GivesOwner, NamesLast, owner_by_refs-NamesLast, owner_by_refs-GivesOwner, owner_by_refs-own,
}

some_ok :
    {a b : RelationModel}
    → ◌≡◌ {A = Option (Result RelationError RelationModel)} (some (ok a)) (some (ok b))
    → a ≡ b
some_ok e = cc

-- What a model says of the owners of its nodes: an `own` reference to a node comes from its owner, the
-- last `ownedby` reference of a node names its owner, an owner is named by a reference of the owner or
-- of the node, the lists of children are the inverse, and every chain of owners ends.
pub record OwnersMatch (nodes : List GraphNode) (m : RelationModel) : Type 0 where
  pub owning :
      (r : ResolvedRelation)
      → In r m.refs
      → is_own r.spec.kind ≡ true
      → In r.target (node_keys nodes)
      → find r.target m.owners ≡ some r.holder
  pub naming :
      (child owner : NodeKey)
      → NamesLast m.refs child owner
      → In child (node_keys nodes)
      → find child m.owners ≡ some owner
  pub named :
      (child owner : NodeKey)
      → find child m.owners ≡ some owner
      → In child (node_keys nodes) × GivesOwner m.refs child owner
  pub children :
      (owner child : NodeKey)
      → In child (children_of owner m.outgoing) ↔ (find child m.owners ≡ some owner)
  pub chains : All (Ends m.owners) (node_keys nodes)

module _ (specs_of : Bytes → Result RelationError (List RelationSpec)) (nodes : List GraphNode)
    (targets : List (RelationTargetKey × IndexedRelationTarget)) where
  abbrev AnyHolder : NodeKey → Type 0
  AnyHolder key = Unit

  any_node : (xs : List GraphNode) → All (λ node. AnyHolder node.key) xs
  any_node [] = tt
  any_node (x ∷ xs) = (tt, any_node xs)

  -- what the scan keeps: it tracks the owners, and attaches none
  abbrev IsScan : ScanState → Type 0
  IsScan s = Tracks s × (s.model.owners ≡ []) × (s.model.outgoing ≡ [])

  start_scan-IsScan : IsScan (start_scan nodes targets)
  unfolding incoming_of find count_own first_own last_named
  start_scan-IsScan = ((λ child. refl, λ child. refl), refl, refl)

  scan_nodes-IsScan :
      (s : ScanState) → scan_nodes specs_of nodes (start_scan nodes targets) ≡ ok s → IsScan s
  unfolding record_resolved_relation
  scan_nodes-IsScan s e =
      scan_nodes-keeps IsScan AnyHolder
        (λ holder target spec pointer u h found (t, o, c).
          (record_resolved_relation-Tracks holder target spec u t, o, c))
        (λ holder spec pointer u h found t.
          let (v, l, e) = lose_only holder spec pointer u in subst IsScan (sym e) t)
        specs_of nodes (start_scan nodes targets) s (any_node nodes) start_scan-IsScan e

  start_attached :
      (s : ScanState)
      → s.model.owners ≡ []
      → s.model.outgoing ≡ []
      → AreAttached s.model.refs [] s.model
  unfolding find has_node children_of
  start_attached s o c = (
    λ child. rw o refl,
    λ owner child. rw (o, c) ((λ i. absurd i), (λ e. absurd (some_ne_none (sym e)))),
  )

  owns : (r : ResolvedRelation) → is_own r.spec.kind ≡ true → owns_node r.target r ≡ true
  unfolding owns_node
  owns r own = rw (own, same_node_refl r.target) refl

  attach-OwnersMatch :
      (s : ScanState) (m : RelationModel)
      → IsScan s
      → attach_owners s (node_keys nodes) s.model ≡ ok m
      → All (Ends m.owners) (node_keys nodes)
      → OwnersMatch nodes m
  attach-OwnersMatch s m (tracks, o, c) e ends =
      let (attached, agrees) =
        attach_owners-AreAttached s tracks (node_keys nodes) [] s.model m (start_attached s o c)
          e in
      let same_refs = attach_owners-refs s (node_keys nodes) s.model m e in
      record {
        owning = λ r i own known.
            let few = (All-In (Agrees s tracks) (node_keys nodes) r.target agrees known).0 in
            attached.0 r.target
            ∙ rw (In-has_node r.target (node_keys nodes) known)
                (owner_by_refs-own r.target r s.model.refs (rw same_refs at i) (owns r own) few);
        naming = λ child owner names known.
            let agree = (All-In (Agrees s tracks) (node_keys nodes) child agrees known).1 in
            attached.0 child
            ∙ rw (In-has_node child (node_keys nodes) known)
                (owner_by_refs-NamesLast child owner s.model.refs (rw same_refs at names) agree);
        named = λ child owner h. elim (Bool-cases (has_node child (node_keys nodes))) [
          | inl known ↦
              let given = sym (attached.0 child) ∙ h in
              (
                has_node-In child (node_keys nodes) known,
                rw same_refs
                    (owner_by_refs-GivesOwner child owner s.model.refs (rw known at given)),
              )
          | inr unknown ↦
              let given = sym (attached.0 child) ∙ h in
              absurd (some_ne_none (sym (rw unknown at given)))
        ];
        children = attached.1;
        chains = ends;
      }

  scanned_ok :
      (m : RelationModel)
      → attach_scanned specs_of nodes targets ≡ ok m
      → (s : ScanState) × IsScan s × (attach_owners s (node_keys nodes) s.model ≡ ok m)
  unfolding attach_scanned
  scanned_ok m e = elim (Result-cases (scan_nodes specs_of nodes (start_scan nodes targets))) [
    | inl (bad, b) ↦ let clash = rw (attach_scanned, b) at e in ground arith
    | inr (s, b) ↦ (s, scan_nodes-IsScan s b, rw (attach_scanned, b) at e)
  ]

  checked_ok :
      (u m : RelationModel) (r : Option (Result RelationError Unit))
      → bind_option r (λ checked. some (bind_result checked λ x. ok u)) ≡ some (ok m)
      → (u ≡ m) × (r ≡ some (ok tt))
  checked_ok u m none e = absurd (some_ne_none (sym e))
  checked_ok u m (some (err bad)) e = ground arith
  checked_ok u m (some (ok x)) e = (some_ok e, refl)

  -- a model that is built is the scanned and attached one, and it has passed the check
  built_ok :
      (m : RelationModel)
      → build_relation_model_from_targets specs_of nodes targets ≡ some (ok m)
      → (attach_scanned specs_of nodes targets ≡ ok m)
        × (validate_ownership_cycles (node_keys nodes) m.owners ≡ some (ok tt))
  unfolding build_relation_model_from_targets
  built_ok m e = elim (Result-cases (attach_scanned specs_of nodes targets)) [
    | inl (bad, b) ↦ let clash = rw (build_relation_model_from_targets, b) at e in ground arith
    | inr (u, b) ↦
        let (same, passed) =
          checked_ok u m (validate_ownership_cycles (node_keys nodes) u.owners)
            (rw (build_relation_model_from_targets, b) at e) in
        (rw same at b, rw same at passed)
  ]

  returned :
      {owners : List (NodeKey × NodeKey)} {keys : List NodeKey}
      {r : Option (Result RelationError Unit)}
      → Decision owners keys r
      → (checked : Result RelationError Unit) × (r ≡ some checked)
  returned (all_end h) = (ok tt, refl)
  returned (one_returns {key} at i h) = (err (ownership_cycle key), refl)

  decided_ok :
      {owners : List (NodeKey × NodeKey)} {keys : List NodeKey}
      {r : Option (Result RelationError Unit)}
      → Decision owners keys r
      → r ≡ some (ok tt)
      → All (Ends owners) keys
  decided_ok (all_end h) e = h
  decided_ok (one_returns at i h) e = ground arith

  build-OwnersMatch :
      (m : RelationModel)
      → build_relation_model_from_targets specs_of nodes targets ≡ some (ok m)
      → OwnersMatch nodes m
  build-OwnersMatch m e =
      let (attached, passed) = built_ok m e in
      let (s, scan, a) = scanned_ok m attached in
      attach-OwnersMatch s m scan a
        (decided_ok (validate_ownership_cycles-Decision (node_keys nodes) m.owners) passed)

  -- The model is built or an error is returned, never neither: the check for cycles has fuel enough.
  -- When a model is built, it has the owners that its references name: the `own` references to a node
  -- come from its one owner, the last `ownedby` reference of a node names its owner, so that the two
  -- agree, each owner is named by a reference of either kind, the children of a node are those that it
  -- owns, and no chain of owners returns.
  pub build_relation_model-OwnersMatch :
      (r : Result RelationError RelationModel) × (build_relation_model_from_targets specs_of nodes
          targets
        ≡ some r)
      × ((m : RelationModel) → r ≡ ok m → OwnersMatch nodes m)
  unfolding build_relation_model_from_targets
  build_relation_model-OwnersMatch = elim (Result-cases (attach_scanned specs_of nodes targets)) [
    | inl (bad, b) ↦ (err bad, rw (build_relation_model_from_targets, b) refl, λ m e. ground arith)
    | inr (u, b) ↦
        let (checked, c) =
          returned (validate_ownership_cycles-Decision (node_keys nodes) u.owners) in
        let built : build_relation_model_from_targets specs_of nodes targets
            ≡ some (bind_result checked λ x. ok u) =
          rw (build_relation_model_from_targets, b, c) refl in
        (bind_result checked (λ x. ok u), built, λ m e. build-OwnersMatch m (built ∙ ap some e))
  ]
