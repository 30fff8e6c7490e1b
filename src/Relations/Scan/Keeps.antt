-- ===== src/Relations/Scan/Keeps.antt =====
-- What every resolved and every unresolved pointer keeps of the state of the scan, the whole scan
-- keeps.
use nestory.Common.{
  ◌≡◌, refl, ap, ◌∙◌, subst, inl, inr, Bool, true, false, ◌&&◌, Option, none, some, List, [], ◌∷◌,
  ◌++◌, if◌then◌else◌, Bool-cases, Option-cases, get_or, All, Result, ok, err, bind_result,
  Result-cases,
}
use nestory.Common.Bytes.{Bytes}
use nestory.Relations.Node.{NodeKey, is_own, is_inverse, RelationSpec}
use nestory.Relations.Model.{
  MissingRelation, UnresolvedRelation, RelationModel, Pointer, GraphNode, RelationError,
}
use nestory.Relations.Scan.{
  graph_relation_target_key, relation_may_be_missing, resolve_graph_target, ScanState,
  record_resolved_relation, record_unresolved, record_missing, is_seen, scan_relation_pointer,
  scan_relation_pointers, scan_relation_field, scan_specs, scan_node_relations, scan_nodes,
}

-- the state after a pointer that finds no target
abbrev pub lose : NodeKey → RelationSpec → Pointer → ScanState → ScanState
lose holder spec pointer s = record s {
  model = record_missing holder spec (record_unresolved holder spec pointer s.model);
}

record_missing_only :
    (holder : NodeKey) (spec : RelationSpec) (m : RelationModel)
    → (l : List MissingRelation) × (record_missing holder spec m ≡ record m { missing = l })
unfolding record_missing
record_missing_only holder spec m = elim (Bool-cases (relation_may_be_missing spec)) [
  | inl may ↦ (m.missing, rw (record_missing, may) refl)
  | inr must ↦
      (m.missing ++ record { holder = holder; spec = spec } ∷ [], rw (record_missing, must) refl)
]

record_unresolved_only :
    (holder : NodeKey) (spec : RelationSpec) (pointer : Pointer) (m : RelationModel)
    → (l : List UnresolvedRelation) × (record_unresolved holder spec pointer m
        ≡ record m { unresolved = l })
unfolding record_unresolved
record_unresolved_only holder spec pointer m =
    elim (Option-cases (graph_relation_target_key spec pointer)) [
      | inl e ↦ (m.unresolved, rw (record_unresolved, e) refl)
      | inr (key, e) ↦ (
        m.unresolved ++ record { holder = holder; spec = spec; lookup = key } ∷ [],
        rw (record_unresolved, e) refl,
      )
    ]

abbrev with_model : ScanState → RelationModel → ScanState
with_model s m = record s { model = m }

abbrev with_missing : List MissingRelation → RelationModel → RelationModel
with_missing l m = record m { missing = l }

-- a pointer that finds no target changes the two lists for it and nothing else
pub lose_only :
    (holder : NodeKey) (spec : RelationSpec) (pointer : Pointer) (s : ScanState)
    → (u : List UnresolvedRelation) × (l : List MissingRelation) × (lose holder spec pointer s
        ≡ record s { model = record (s.model) { unresolved = u; missing = l } })
lose_only holder spec pointer s =
    let (u, eu) = record_unresolved_only holder spec pointer s.model in
    let (l, el) = record_missing_only holder spec (record_unresolved holder spec pointer s.model) in
    (u, l, ap (with_model s) (el ∙ ap (with_missing l) eu))

-- the result, if there is one, has the property
abbrev Ok : {A : Type 0} → (A → Type 0) → Result RelationError A → Type 0
Ok P (ok a) = P a
Ok P (err e) = Unit

bind-Ok :
    {A B : Type 0} (P : A → Type 0) (Q : B → Type 0) (r : Result RelationError A)
    (f : A → Result RelationError B)
    → Ok P r
    → ((a : A) → P a → Ok Q (f a))
    → Ok Q (bind_result r f)
bind-Ok P Q (ok a) f h k = k a h
bind-Ok P Q (err e) f h k = tt

if-Ok :
    {A : Type 0} (P : A → Type 0) (b : Bool) (x y : Result RelationError A)
    → Ok P x
    → Ok P y
    → Ok P (if b then x else y)
if-Ok P true x y hx hy = hx
if-Ok P false x y hx hy = hy

any-Ok : {A : Type 0} (r : Result RelationError A) → Ok (λ a. Unit) r
any-Ok (ok a) = tt
any-Ok (err e) = tt

module _ (P : ScanState → Type 0) (Holder : NodeKey → Type 0)
    (resolved : (holder target : NodeKey) (spec : RelationSpec) (pointer : Pointer) (s : ScanState)
      → Holder holder
      → resolve_graph_target s.model.targets spec pointer ≡ ok (some target)
      → P s
      → P (record_resolved_relation holder target spec s))
    (lost : (holder : NodeKey) (spec : RelationSpec) (pointer : Pointer) (s : ScanState)
      → Holder holder
      → resolve_graph_target s.model.targets spec pointer ≡ ok none
      → P s
      → P (lose holder spec pointer s)) where
  pointer_keeps :
      (holder : NodeKey) (spec : RelationSpec) (pointer : Pointer) (seen : Option (List NodeKey))
      (s : ScanState)
      → Holder holder
      → P s
      → Ok (λ r. P r.0) (scan_relation_pointer holder spec pointer seen s)
  unfolding scan_relation_pointer
  pointer_keeps holder spec pointer seen s h p =
      elim (Result-cases (resolve_graph_target s.model.targets spec pointer)) [
        | inl (e, eq) ↦ rw eq tt
        | inr (none, eq) ↦ rw eq (lost holder spec pointer s h eq p)
        | inr (some target, eq) ↦
            rw eq (elim (Bool-cases (is_seen target seen && is_own spec.kind)) [
              | inl twice ↦ rw twice tt
              | inr once ↦ rw once (resolved holder target spec pointer s h eq p)
            ])
      ]

  pointers_keep :
      (holder : NodeKey) (spec : RelationSpec) (ps : List Pointer) (seen : Option (List NodeKey))
      (s : ScanState)
      → Holder holder
      → P s
      → Ok P (scan_relation_pointers holder spec ps seen s)
  unfolding scan_relation_pointers
  pointers_keep holder spec [] seen s h p = p
  pointers_keep holder spec (x ∷ ps) seen s h p =
      bind-Ok (λ r. P r.0) P _ _ (pointer_keeps holder spec x seen s h p)
        (λ (t, met) q. pointers_keep holder spec ps met t h q)

  field_keeps :
      (node : GraphNode) (spec : RelationSpec) (s : ScanState)
      → Holder node.key
      → P s
      → Ok P (scan_relation_field node spec s)
  unfolding scan_relation_field
  field_keeps node spec s h p =
      let field = get_or node.pointers spec.field_index [] in
      let first = get_or field 0 none in
      if-Ok P spec.many
        (scan_relation_pointers node.key spec field (if is_own spec.kind then some [] else none) s)
        (bind_result (scan_relation_pointer node.key spec first none s) (λ (t, met). ok t))
        (pointers_keep node.key spec field (if is_own spec.kind then some [] else none) s h p)
        (bind-Ok {A = ScanState × Option (List NodeKey)} (λ r. P r.0) P
          (scan_relation_pointer node.key spec first none s) (λ (t, met). ok t)
          (pointer_keeps node.key spec first none s h p) (λ (t, met) q. q))

  specs_keep :
      (node : GraphNode) (specs : List RelationSpec) (s : ScanState)
      → Holder node.key
      → P s
      → Ok P (scan_specs node specs s)
  unfolding scan_specs
  specs_keep node [] s h p = p
  specs_keep node (spec ∷ specs) s h p =
      bind-Ok P P _ _ (if-Ok P (is_inverse spec.kind) _ _ p (field_keeps node spec s h p))
        (λ t q. specs_keep node specs t h q)

  module _ (specs_of : Bytes → Result RelationError (List RelationSpec)) where
    nodes_keep :
        (nodes : List GraphNode) (s : ScanState)
        → All (λ node. Holder node.key) nodes
        → P s
        → Ok P (scan_nodes specs_of nodes s)
    unfolding scan_nodes scan_node_relations
    nodes_keep [] s h p = p
    nodes_keep (node ∷ nodes) s (h, hs) p =
        bind-Ok P P _ _
          (bind-Ok (λ l. Unit) P (specs_of node.key.typ) (λ specs. scan_specs node specs s)
            (any-Ok (specs_of node.key.typ)) (λ specs u. specs_keep node specs s h p))
          (λ t q. nodes_keep nodes t hs q)

    pub scan_nodes-keeps :
        (nodes : List GraphNode) (s t : ScanState)
        → All (λ node. Holder node.key) nodes
        → P s
        → scan_nodes specs_of nodes s ≡ ok t
        → P t
    scan_nodes-keeps nodes s t hs p e = subst (Ok P) e (nodes_keep nodes s hs p)
