-- ===== src/Relations/Deletion/Closure.antt =====
-- The set that is closed under children, from the loop over the queue.
use nestory.Common.{
  ◌+◌, ◌≤◌, ◌≡◌, refl, inl, inr, Bool, true, false, ◌&&◌, ◌||◌, not, List, [], ◌∷◌, ◌++◌, arith,
  if◌then◌else◌, Bool-cases, length, length-append,
}
use nestory.Relations.Node.{
  NodeKey, same_node, same_node-eq, same_node_refl, has_node, has_node-append, node_equality,
  count_missing, count_missing_less,
}
use nestory.Relations.Model.{RelationModel}
use nestory.Relations.Build.{children_of, node_keys}
use nestory.Relations.Deletion.{is_reparented, add_committed, deletion_children, add_children}

-- a child of the node in the model, or a committed one that the model still has under it
unfoldable pub is_child : List (NodeKey × List NodeKey) → RelationModel → NodeKey → NodeKey → Bool
unfolding has_node is_reparented
is_child committed m owner x =
    has_node x (children_of owner m.outgoing)
    || has_node x (children_of owner committed)
      && has_node x (node_keys m.nodes)
      && not (is_reparented m owner x)

has_node_grown :
    (x child : NodeKey) (b : Bool) (xs : List NodeKey)
    → has_node x (if b then xs else xs ++ child ∷ [])
      ≡ (has_node x xs || not b && same_node x child)
unfolding has_node
has_node_grown x child true xs = ground arith
has_node_grown x child false xs = rw (has_node-append x xs (child ∷ [])) (ground arith)

has_node-add_committed :
    (m : RelationModel) (owner x : NodeKey) (committed children : List NodeKey)
    → has_node x (add_committed m owner committed children) ≡ (
        has_node x children
        || has_node x committed && has_node x (node_keys m.nodes) && not (is_reparented m owner x))
unfolding add_committed has_node
has_node-add_committed m owner x [] children = ground arith
has_node-add_committed m owner x (child ∷ committed) children =
    rw
      (
        has_node-add_committed m owner x committed (
            if not (has_node child (node_keys m.nodes))
              || is_reparented m owner child
              || has_node child children
            then children
            else children ++ child ∷ []),
        has_node_grown x child
            (not (has_node child (node_keys m.nodes))
              || is_reparented m owner child
              || has_node child children)
            children,
      )
      (elim (Bool-cases (same_node x child)) [
        | inl e ↦ rw (e, same_node-eq x child e) (ground arith)
        | inr e ↦ rw e (ground arith)
      ])

-- the children that `deletion_children` gives
pub has_node-deletion_children :
    (committed : List (NodeKey × List NodeKey)) (m : RelationModel) (owner x : NodeKey)
    → has_node x (deletion_children committed m owner) ≡ is_child committed m owner x
unfolding deletion_children is_child
has_node-deletion_children committed m owner x =
    has_node-add_committed m owner x (children_of owner committed) (children_of owner m.outgoing)

pub has_node-add_children :
    (x : NodeKey) (cs deleted queue : List NodeKey)
    → has_node x (add_children cs deleted queue).0 ≡ (has_node x deleted || has_node x cs)
unfolding add_children has_node
has_node-add_children x [] deleted queue = ground arith
has_node-add_children x (c ∷ cs) deleted queue =
    rw
      (
        has_node-add_children x cs (if has_node c deleted then deleted else deleted ++ c ∷ [])
            (if has_node c deleted then queue else queue ++ c ∷ []),
        has_node_grown x c (has_node c deleted) deleted,
      )
      (elim (Bool-cases (same_node x c)) [
        | inl e ↦ rw (e, same_node-eq x c e) (ground arith)
        | inr e ↦ rw e (ground arith)
      ])

-- a node that was there is still there, and a node that is new is queued
pub queue-add_children :
    (x : NodeKey) (cs deleted queue : List NodeKey)
    → has_node x (add_children cs deleted queue).1
      ≡ (has_node x queue || not (has_node x deleted) && has_node x cs)
unfolding add_children has_node
queue-add_children x [] deleted queue = ground arith
queue-add_children x (c ∷ cs) deleted queue =
    rw
      (
        queue-add_children x cs (if has_node c deleted then deleted else deleted ++ c ∷ [])
            (if has_node c deleted then queue else queue ++ c ∷ []),
        has_node_grown x c (has_node c deleted) deleted,
        has_node_grown x c (has_node c deleted) queue,
      )
      (elim (Bool-cases (same_node x c)) [
        | inl e ↦ rw (e, same_node-eq x c e) (ground arith)
        | inr e ↦ rw e (ground arith)
      ])

in_tail : (x c : NodeKey) (cs : List NodeKey) → has_node x cs ≡ true → has_node x (c ∷ cs) ≡ true
unfolding has_node
in_tail x c cs i = rw i (ground arith)

count_missing_step :
    (all deleted queue : List NodeKey) (c : NodeKey) (b : Bool)
    → has_node c deleted ≡ b
    → has_node c all ≡ true
    → length (if b then queue else queue ++ c ∷ [])
        + count_missing (if b then deleted else deleted ++ c ∷ []) all
      ≤ length queue + count_missing deleted all
count_missing_step all deleted queue c true e known = omega arith
count_missing_step all deleted queue c false e known =
    omega (arith, count_missing_less c deleted all known e, length-append queue (c ∷ []))

-- each node that is added to the queue is one fewer that can be added
pub count_missing-add_children :
    (all cs deleted queue : List NodeKey)
    → ((x : NodeKey) → has_node x cs ≡ true → has_node x all ≡ true)
    → length (add_children cs deleted queue).1 + count_missing (add_children cs deleted queue).0 all
      ≤ length queue + count_missing deleted all
unfolding add_children has_node
count_missing-add_children all [] deleted queue h = omega arith
count_missing-add_children all (c ∷ cs) deleted queue h = omega (
  arith,
  count_missing-add_children all cs (if has_node c deleted then deleted else deleted ++ c ∷ [])
      (if has_node c deleted then queue else queue ++ c ∷ []) (λ x i. h x (in_tail x c cs i)),
  count_missing_step all deleted queue c (has_node c deleted) refl
      (h c (rw (same_node_refl c) refl)),
)
