-- ===== src/Relations/Build/Attach.antt =====
-- The owners that a model is given are those that its references name, and the children of a node are
-- the nodes that it owns.
use nestory.Common.{
  some_ne_none, ◌≡◌, refl, sym, ap, ◌∙◌, ◌↔◌, ◌⊎◌, inl, inr, false, Option, none, some, List, [],
  ◌∷◌, ◌++◌, arith, ◌==◌, if◌then◌else◌, Bool-cases, In, In-append_left, In-append_right,
}
use nestory.Common.Maps.{find, put, find-put_self, find-put_ne, same_ne}
use nestory.Relations.Node.{
  NodeKey, same_node, same_node-eq, same_node_refl, has_node, has_node-append, node_equality,
  ResolvedRelation,
}
use nestory.Relations.Model.{RelationModel}
use nestory.Relations.Scan.Owners.{count_own, first_own, last_named}
use nestory.Relations.Build.{edge_owner, children_of, set_owner}

-- the owner that the references give a node
unfoldable pub owner_by_refs : NodeKey → List ResolvedRelation → Option NodeKey
unfolding count_own first_own last_named
owner_by_refs child refs =
    if count_own child refs == 1
    then edge_owner (first_own child refs)
    else edge_owner (last_named child refs none)

-- `children_of` and `owners` say the same
abbrev pub AreInverse : RelationModel → Type 0
AreInverse m =
    (owner child : NodeKey)
    → In child (children_of owner m.outgoing) ↔ (find child m.owners ≡ some owner)

-- the nodes of the list have the owners that the references give them, the others have none
abbrev pub AreAttached : List ResolvedRelation → List NodeKey → RelationModel → Type 0
AreAttached refs attached m =
    ((child : NodeKey)
      → find child m.owners ≡ (if has_node child attached then owner_by_refs child refs else none))
    × AreInverse m

unset : {o : Option NodeKey} → (o ≡ none) ⊎ (o ≡ none) → o ≡ none
unset (inl e) = e
unset (inr e) = e

set_owner-find :
    (key child : NodeKey) (owner : Option NodeKey) (m : RelationModel)
    → (find child m.owners ≡ none) ⊎ (find child m.owners ≡ owner)
    → find key (set_owner child owner m).owners
      ≡ (if same_node key child then owner else find key m.owners)
unfolding set_owner
set_owner-find key child none m h = elim (Bool-cases (same_node key child)) [
  | inl e ↦ rw (same_node-eq key child e, same_node_refl child) (unset h)
  | inr e ↦ rw e refl
]
set_owner-find key child (some owner) m h = elim (Bool-cases (same_node key child)) [
  | inl e ↦ rw (same_node-eq key child e, same_node_refl child) (find-put_self child owner m.owners)
  | inr e ↦ rw e (find-put_ne key child owner m.owners (same_ne key child e))
]

children_of-put :
    (key owner : NodeKey) (children : List NodeKey) (outgoing : List (NodeKey × List NodeKey))
    → children_of key (put owner children outgoing)
      ≡ (if same_node key owner then children else children_of key outgoing)
unfolding children_of
children_of-put key owner children outgoing = elim (Bool-cases (same_node key owner)) [
  | inl e ↦
      rw (same_node-eq key owner e, same_node_refl owner)
        (rw (children_of, find-put_self owner children outgoing) refl)
  | inr e ↦ rw (e, children_of, find-put_ne key owner children outgoing (same_ne key owner e)) refl
]

append_In :
    (other child : NodeKey) (xs : List NodeKey)
    → same_node other child ≡ false
    → In other (xs ++ child ∷ [])
    → In other xs
append_In other child [] o (inl e) = absurd (same_ne other child o e)
append_In other child [] o (inr i) = absurd i
append_In other child (x ∷ xs) o (inl e) = inl e
append_In other child (x ∷ xs) o (inr i) = inr (append_In other child xs o i)

-- the clauses of the inverse for one owner and one child
module _ (child owner : NodeKey) (m : RelationModel)
    (h : (find child m.owners ≡ none) ⊎ (find child m.owners ≡ some owner)) (inverse : AreInverse m)
    (key other : NodeKey) where
  abbrev new_children : List NodeKey
  new_children =
      if same_node key owner
      then children_of owner m.outgoing ++ child ∷ []
      else children_of key m.outgoing

  abbrev new_owner : Option NodeKey
  new_owner = if same_node other child then some owner else find other m.owners

  some_owner : some owner ≡ some key → owner ≡ key
  some_owner e = cc

  -- a node that is owned keeps its owner
  same_as_before : find child m.owners ≡ some key → owner ≡ key
  same_as_before e = elim h [
    | inl n ↦ absurd (some_ne_none (sym e ∙ n))
    | inr o ↦ some_owner (sym o ∙ e)
  ]

  child-owned : In other new_children → new_owner ≡ some key
  child-owned i = elim (Bool-cases (same_node other child)) [
    | inl e ↦ elim (Bool-cases (same_node key owner)) [
      | inl k ↦ rw (e, same_node-eq key owner k) refl
      | inr k ↦
          let owned = (inverse key other).0 (rw k at i) in
          rw e (
            ap some (
              same_as_before
                (ap (λ c. find c m.owners) (sym (same_node-eq other child e)) ∙ owned)))
    ]
    | inr e ↦ elim (Bool-cases (same_node key owner)) [
      | inl k ↦
          rw (e, same_node-eq key owner k)
            ((inverse owner other).0 (append_In other child _ e (rw k at i)))
      | inr k ↦ rw e ((inverse key other).0 (rw k at i))
    ]
  ]

  owned-child : new_owner ≡ some key → In other new_children
  owned-child e = elim (Bool-cases (same_node other child)) [
    | inl o ↦
        let k = some_owner (rw o at e) in
        rw (← k, same_node_refl owner)
          (In-append_right other (children_of owner m.outgoing) (child ∷ [])
            (inl (same_node-eq other child o)))
    | inr o ↦ elim (Bool-cases (same_node key owner)) [
      | inl k ↦
          let i = (inverse key other).1 (rw o at e) in
          rw k (
            In-append_left other (children_of owner m.outgoing) (child ∷ [])
              (rw (same_node-eq key owner k) at i))
      | inr k ↦ rw k ((inverse key other).1 (rw o at e))
    ]
  ]

set_owner-AreInverse :
    (child : NodeKey) (owner : Option NodeKey) (m : RelationModel)
    → (find child m.owners ≡ none) ⊎ (find child m.owners ≡ owner)
    → AreInverse m
    → AreInverse (set_owner child owner m)
unfolding set_owner
set_owner-AreInverse child none m h inverse = inverse
set_owner-AreInverse child (some owner) m h inverse = λ key other.
    rw
      (
        children_of-put key owner (children_of owner m.outgoing ++ child ∷ []) m.outgoing,
        set_owner-find other child (some owner) m h,
      )
      (child-owned child owner m h inverse key other, owned-child child owner m h inverse key other)

attached_before :
    (refs : List ResolvedRelation) (attached : List NodeKey) (m : RelationModel) (child : NodeKey)
    → AreAttached refs attached m
    → (find child m.owners ≡ none) ⊎ (find child m.owners ≡ owner_by_refs child refs)
attached_before refs attached m child (owned, inverse) =
    elim (Bool-cases (has_node child attached)) [
      | inl old ↦ inr (owned child ∙ rw old refl)
      | inr new ↦ inl (owned child ∙ rw new refl)
    ]

pub set_owner-AreAttached :
    (refs : List ResolvedRelation) (attached : List NodeKey) (m : RelationModel) (child : NodeKey)
    → AreAttached refs attached m
    → AreAttached refs (attached ++ child ∷ []) (set_owner child (owner_by_refs child refs) m)
unfolding has_node
set_owner-AreAttached refs attached m child (owned, inverse) =
    let before = attached_before refs attached m child (owned, inverse) in
    (
      λ key.
          rw
            (
              set_owner-find key child (owner_by_refs child refs) m before,
              has_node-append key attached (child ∷ []),
              owned key,
            )
            (elim (Bool-cases (same_node key child)) [
              | inl e ↦ rw (same_node-eq key child e, same_node_refl child) (ground arith)
              | inr e ↦ rw e (ground arith)
            ]),
      set_owner-AreInverse child (owner_by_refs child refs) m before inverse,
    )
