-- ===== src/Relations/Cycles/Met.antt =====
-- A walk up the owners meets a node again only on a cycle, and what it has marked when it arrives are
-- nodes whose chains of owners end.
use nestory.Common.{
  ℕ, zero, suc, ◌≡◌, refl, sym, ◌∙◌, subst, ◌⊎◌, inl, inr, false, some, List, [], ◌∷◌, ◌++◌, arith,
  ◌==◌, Bool-cases, Option-cases, In, In-append_left, In-append_right,
}
use nestory.Common.Maps.{find, put}
use nestory.Relations.Node.{
  NodeKey, same_node, same_node-eq, has_node, has_node-append, node_equality,
}
use nestory.Relations.Cycles.{Owners, Marks, mark_of, Walked, cycle, arrived, walk}
use nestory.Relations.Cycles.Chains.{Ends, root, up, Climbs, step, more, Climbs-next, Climbs-Ends}
use nestory.Relations.Cycles.Walk.{mark_of-put, walk_marked, walk_finished, walk_root, walk_up}

-- what the mark of a node says while a walk with this path stands at a node
pub data Seen (owners : Owners) (at : NodeKey) (path : List NodeKey) (key : NodeKey)
    : ℕ → Type 0 where
  fresh : has_node key path ≡ false → Seen owners at path key 0
  walking : Climbs owners key at → In key path → Seen owners at path key 1
  done : Ends owners key → Seen owners at path key 2

-- and when the walk has arrived
pub data Met (owners : Owners) (path : List NodeKey) (key : NodeKey) : ℕ → Type 0 where
  unmet : has_node key path ≡ false → Met owners path key 0
  walked : Ends owners key → In key path → Met owners path key 1
  earlier : Ends owners key → Met owners path key 2

-- what a walk from a node may end with
abbrev pub WalkSpec : Owners → NodeKey → Walked → Type 0
WalkSpec owners at (cycle key) = ((at ≡ key) ⊎ Climbs owners at key) × Climbs owners key key
WalkSpec owners at (arrived marks path) =
    Ends owners at × ((key : NodeKey) → Met owners path key (mark_of key marks))

module _ (owners : Owners) where
  seen_walking :
      {at key : NodeKey} {path : List NodeKey} {mark : ℕ}
      → Seen owners at path key mark
      → mark ≡ 1
      → Climbs owners key at
  seen_walking (fresh n) e = ground arith
  seen_walking (walking c i) e = c
  seen_walking (done r) e = ground arith

  seen_done :
      {at key : NodeKey} {path : List NodeKey} {mark : ℕ}
      → Seen owners at path key mark
      → mark ≡ 2
      → Ends owners key
  seen_done (fresh n) e = ground arith
  seen_done (walking c i) e = ground arith
  seen_done (done r) e = r

  Seen-Met :
      {at key : NodeKey} {path : List NodeKey} {mark : ℕ}
      → Ends owners at
      → Seen owners at path key mark
      → Met owners path key mark
  Seen-Met r (fresh n) = unmet n
  Seen-Met r (walking c i) = walked (Climbs-Ends owners c r) i
  Seen-Met r (done e) = earlier e

  last_In : (at : NodeKey) (path : List NodeKey) → In at (path ++ at ∷ [])
  last_In at path = In-append_right at path (at ∷ []) (inl refl)

  longer_path :
      (key at : NodeKey) (path : List NodeKey)
      → same_node key at ≡ false
      → has_node key path ≡ false
      → has_node key (path ++ at ∷ []) ≡ false
  unfolding has_node
  longer_path key at path o n = rw (has_node-append key path (at ∷ []), o, n) refl

  Met-longer :
      {key : NodeKey} (at : NodeKey) (path : List NodeKey) {mark : ℕ}
      → same_node key at ≡ false
      → Met owners path key mark
      → Met owners (path ++ at ∷ []) key mark
  Met-longer at path o (unmet n) = unmet (longer_path _ at path o n)
  Met-longer at path o (walked r i) = walked r (In-append_left _ path (at ∷ []) i)
  Met-longer at path o (earlier r) = earlier r

  Seen-next :
      {at key owner : NodeKey} {path : List NodeKey} {mark : ℕ}
      → find at owners ≡ some owner
      → same_node key at ≡ false
      → Seen owners at path key mark
      → Seen owners owner (path ++ at ∷ []) key mark
  Seen-next {at} {path = path} e o (fresh n) = fresh (longer_path _ at path o n)
  Seen-next {at} {path = path} e o (walking c i) =
      walking (Climbs-next owners c e) (In-append_left _ path (at ∷ []) i)
  Seen-next e o (done r) = done r

  -- the node at which the walk stands joins the path
  Seen-put :
      (at owner : NodeKey) (marks : Marks) (path : List NodeKey)
      → find at owners ≡ some owner
      → ((key : NodeKey) → Seen owners at path key (mark_of key marks))
      → (key : NodeKey) → Seen owners owner (path ++ at ∷ []) key (mark_of key (put at 1 marks))
  Seen-put at owner marks path e h key =
      rw (mark_of-put key at 1 marks) (elim (Bool-cases (same_node key at)) [
        | inl same ↦ rw (same, same_node-eq key at same) (walking (step e) (last_In at path))
        | inr other ↦ rw other (Seen-next e other (h key))
      ])

  Met-put :
      (at : NodeKey) (marks : Marks) (path : List NodeKey)
      → Ends owners at
      → ((key : NodeKey) → Seen owners at path key (mark_of key marks))
      → (key : NodeKey) → Met owners (path ++ at ∷ []) key (mark_of key (put at 1 marks))
  Met-put at marks path r h key =
      rw (mark_of-put key at 1 marks) (elim (Bool-cases (same_node key at)) [
        | inl same ↦ rw (same, same_node-eq key at same) (walked r (last_In at path))
        | inr other ↦ rw other (Met-longer at path other (Seen-Met r (h key)))
      ])

  one_up :
      (at owner : NodeKey) (w : Walked)
      → find at owners ≡ some owner
      → WalkSpec owners owner w
      → WalkSpec owners at w
  one_up at owner (cycle key) e (inl same, c) = (inr (subst (Climbs owners at) same (step e)), c)
  one_up at owner (cycle key) e (inr above, c) = (inr (more e above), c)
  one_up at owner (arrived marks path) e (r, met) = (up e r, met)

  walk_no_fuel :
      (at : NodeKey) (marks : Marks) (path : List NodeKey) {w : Walked}
      → walk zero owners at marks path ≡ some w
      → ⊥
  unfolding walk
  walk_no_fuel at marks path e = ground arith

  some_same : (v w : Walked) → some v ≡ some w → v ≡ w
  some_same v w e = cc

  -- A walk ends at a node without an owner, or it has found a cycle above the node.
  pub walk-WalkSpec :
      (fuel : ℕ) (at : NodeKey) (marks : Marks) (path : List NodeKey) (w : Walked)
      → ((key : NodeKey) → Seen owners at path key (mark_of key marks))
      → walk fuel owners at marks path ≡ some w
      → WalkSpec owners at w
  walk-WalkSpec zero at marks path w h e = absurd (walk_no_fuel at marks path e)
  walk-WalkSpec (suc fuel) at marks path w h e = elim (Bool-cases (mark_of at marks == 1)) [
    | inl one ↦
        let c = seen_walking (h at) (ground arith) in
        spec (cycle at) (walk_marked fuel owners at marks path one) (inl refl, c)
    | inr not_one ↦ elim (Bool-cases (mark_of at marks == 2)) [
      | inl two ↦
          let r = seen_done (h at) (ground arith) in
          spec (arrived marks path) (walk_finished fuel owners at marks path not_one two)
            (r, λ key. Seen-Met r (h key))
      | inr not_two ↦ elim (Option-cases (find at owners)) [
        | inl n ↦
            spec _ (walk_root fuel owners at marks path not_one not_two n)
              (root n, Met-put at marks path (root n) h)
        | inr (owner, n) ↦ one_up at owner w n (
            walk-WalkSpec fuel owner (put at 1 marks) (path ++ at ∷ []) w
              (Seen-put at owner marks path n h)
              (sym (walk_up fuel owners at marks path owner not_one not_two n) ∙ e))
      ]
    ]
  ]
    where
      spec :
          (v : Walked)
          → walk (suc fuel) owners at marks path ≡ some v
          → WalkSpec owners at v
          → WalkSpec owners at w
      spec v q r = subst (WalkSpec owners at) (some_same v w (sym q ∙ e)) r
