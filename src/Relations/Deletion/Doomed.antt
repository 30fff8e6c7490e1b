-- ===== src/Relations/Deletion/Doomed.antt =====
-- The set of `deletionClosure` is the set of the nodes that are reached from the explicit ones.
use nestory.Common.{
  ℕ, zero, suc, ◌+◌, ◌≤◌, ◌≡◌, refl, sym, ◌∙◌, ◌⊎◌, inl, inr, true, ◌&&◌, ◌||◌, not, some, List, [],
  ◌∷◌, map, arith, Bool-cases, length, concat,
}
use nestory.Common.Maps.{find}
use nestory.Relations.Node.{
  NodeKey, same_node, same_node-eq, same_node_refl, has_node, has_node-append, node_equality,
  or_true, or_cases, count_missing,
}
use nestory.Relations.Model.{RelationModel}
use nestory.Relations.Build.{children_of, node_keys}
use nestory.Relations.Deletion.{deletion_children, add_children, close_deleted, all_nodes}
use nestory.Relations.Deletion.Closure.{
  is_child, has_node-deletion_children, has_node-add_children, queue-add_children,
  count_missing-add_children,
}

module _ (committed : List (NodeKey × List NodeKey)) (m : RelationModel) where
  -- the nodes that are to be deleted and those below them
  pub data IsDoomed (explicit : List NodeKey) : NodeKey → Type 0 where
    chosen : {x : NodeKey} → has_node x explicit ≡ true → IsDoomed explicit x
    below :
        {owner x : NodeKey}
        → IsDoomed explicit owner
        → is_child committed m owner x ≡ true
        → IsDoomed explicit x

children_of-all :
    (owner x : NodeKey) (outgoing : List (NodeKey × List NodeKey))
    → has_node x (children_of owner outgoing) ≡ true
    → has_node x (concat (map (λ p. p.1) outgoing)) ≡ true
unfolding children_of find has_node
children_of-all owner x [] h = ground arith
children_of-all owner x ((j, children) ∷ outgoing) h =
    rw (has_node-append x children (concat (map (λ p. p.1) outgoing)))
      (elim (Bool-cases (same_node owner j)) [
        | inl e ↦ let found = rw (children_of, e) at h in ground arith
        | inr e ↦
            let rest = children_of-all owner x outgoing (rw (children_of, e) at h) in ground arith
      ])

module _ (committed : List (NodeKey × List NodeKey)) (m : RelationModel) where
  is_child-all_nodes :
      (owner x : NodeKey) → is_child committed m owner x ≡ true → has_node x (all_nodes m) ≡ true
  unfolding is_child
  is_child-all_nodes owner x h =
      rw (has_node-append x (node_keys m.nodes) (concat (map (λ p. p.1) m.outgoing)))
        (elim (Bool-cases (has_node x (children_of owner m.outgoing))) [
          | inl i ↦ rw (children_of-all owner x m.outgoing i) (ground arith)
          | inr i ↦ let other = rw i at h in ground arith
        ])

  module _ (explicit : List NodeKey) where
    -- the state of the loop: what is in the set is doomed, what is queued is in the set, and the
    -- children of a node in the set that is not queued are in the set
    pub record IsClosing (deleted queue : List NodeKey) : Type 0 where
      pub doomed : (x : NodeKey) → has_node x deleted ≡ true → IsDoomed committed m explicit x
      pub queued : (x : NodeKey) → has_node x queue ≡ true → has_node x deleted ≡ true
      pub closed :
          (owner x : NodeKey)
          → has_node owner deleted ≡ true
          → is_child committed m owner x ≡ true
          → (has_node x deleted ≡ true) ⊎ (has_node owner queue ≡ true)

    module _ (owner : NodeKey) (deleted queue : List NodeKey) where
      abbrev grown : List NodeKey
      grown = (add_children (deletion_children committed m owner) deleted queue).0

      abbrev longer : List NodeKey
      longer = (add_children (deletion_children committed m owner) deleted queue).1

      has_node-grown :
          (x : NodeKey) → has_node x grown ≡ (has_node x deleted || is_child committed m owner x)
      has_node-grown x =
          rw
            (
              has_node-add_children x (deletion_children committed m owner) deleted queue,
              has_node-deletion_children committed m owner x,
            )
            refl

      has_node-longer :
          (x : NodeKey)
          → has_node x longer
            ≡ (has_node x queue || not (has_node x deleted) && is_child committed m owner x)
      has_node-longer x =
          rw
            (
              queue-add_children x (deletion_children committed m owner) deleted queue,
              has_node-deletion_children committed m owner x,
            )
            refl

      children_closed :
          IsClosing deleted (owner ∷ queue)
          → (o x : NodeKey) → has_node o deleted ≡ true
          → is_child committed m o x ≡ true
          → (has_node x grown ≡ true) ⊎ (has_node o longer ≡ true)
      unfolding has_node
      children_closed h o x i c = elim (h.closed o x i c) [
        | inl old ↦ inl (rw (has_node-grown x, old) refl)
        | inr waits ↦ elim (or_cases (same_node o owner) (has_node o queue) waits) [
          | inl e ↦
              inl
                (rw (has_node-grown x, ← same_node-eq o owner e, c) (or_true (has_node x deleted)))
          | inr q ↦ inr (rw (has_node-longer o, q) refl)
        ]
      ]

      -- a round of the loop keeps it
      add_children-IsClosing : IsClosing deleted (owner ∷ queue) → IsClosing grown longer
      unfolding has_node
      add_children-IsClosing h = record {
        doomed = λ x i.
            elim (or_cases (has_node x deleted) (is_child committed m owner x)
              (rw (has_node-grown x) at i)) [
                | inl old ↦ h.doomed x old
                | inr c ↦ below (h.doomed owner (h.queued owner (rw (same_node_refl owner) refl))) c
              ];
        queued = λ x i.
            elim (or_cases (has_node x queue)
              (not (has_node x deleted) && is_child committed m owner x)
              (rw (has_node-longer x) at i)) [
                | inl q ↦
                    rw (has_node-grown x, h.queued x (rw q (or_true (same_node x owner)))) refl
                | inr c ↦ rw (has_node-grown x) (ground arith)
              ];
        closed = λ o x i c. elim (Bool-cases (has_node o deleted)) [
          | inl old ↦ children_closed h o x old c
          | inr new ↦
              let k = rw (has_node-grown o, new) at i in
              inr (rw (has_node-longer o, new, k) (or_true (has_node o queue)))
        ];
      }

    -- what the loop ends with
    pub record IsClosure (deleted : List NodeKey) : Type 0 where
      pub doomed : (x : NodeKey) → has_node x deleted ≡ true → IsDoomed committed m explicit x
      pub closed :
          (owner x : NodeKey)
          → has_node owner deleted ≡ true
          → is_child committed m owner x ≡ true
          → has_node x deleted ≡ true

    settled :
        (x o : NodeKey) (deleted : List NodeKey)
        → (has_node x deleted ≡ true) ⊎ (has_node o [] ≡ true)
        → has_node x deleted ≡ true
    unfolding has_node
    settled x o deleted (inl i) = i
    settled x o deleted (inr i) = ground arith

    -- With as much fuel as nodes are queued or can be added, the loop ends with a closed set, and
    -- nothing is lost from the set.
    pub close_deleted-IsClosure :
        (fuel : ℕ) (deleted queue : List NodeKey)
        → IsClosing deleted queue
        → length queue + count_missing deleted (all_nodes m) ≤ fuel
        → (d : List NodeKey) × (close_deleted committed fuel m deleted queue ≡ some d)
          × IsClosure d
          × ((x : NodeKey) → has_node x deleted ≡ true → has_node x d ≡ true)
    unfolding close_deleted
    close_deleted-IsClosure fuel deleted [] h enough = (
      deleted,
      refl,
      record { doomed = h.doomed; closed = λ o x i c. settled x o deleted (h.closed o x i c) },
      λ x i. i,
    )
    close_deleted-IsClosure zero deleted (owner ∷ queue) h enough = ground arith
    close_deleted-IsClosure (suc fuel) deleted (owner ∷ queue) h enough =
        let (d, e, closure, kept) =
          close_deleted-IsClosure fuel (grown owner deleted queue) (longer owner deleted queue)
            (add_children-IsClosing owner deleted queue h)
            (omega (
              arith,
              count_missing-add_children (all_nodes m) (deletion_children committed m owner) deleted
                  queue
                  (λ x i.
                    is_child-all_nodes owner x
                      (sym (has_node-deletion_children committed m owner x) ∙ i)),
            )) in
        (d, e, closure, λ x i. kept x (rw (has_node-grown owner deleted queue x, i) refl))
