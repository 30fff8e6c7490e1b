-- ===== src/Relations/Cycles/Check.antt =====
-- The check of all nodes: what its marks mean between the walks, and what it decides.
use nestory.Common.{
  ℕ, ◌≤◌, ◌<◌, ◌≡◌, refl, subst, inl, inr, false, Option, some, List, [], ◌∷◌, arith, ◌==◌,
  if◌then◌else◌, Bool-cases, length-map, All, In, Result, ok, err,
}
use nestory.Common.Maps.{put}
use nestory.Relations.Node.{NodeKey, has_node, In-has_node, node_equality}
use nestory.Relations.Model.{RelationError, ownership_cycle}
use nestory.Relations.Cycles.{
  Owners, Marks, mark_of, Walked, cycle, arrived, finish, walk_from, check_starts, walk_fuel,
  validate_ownership_cycles,
}
use nestory.Relations.Cycles.Chains.{Ends, Ends-above, Ends-acyclic}
use nestory.Relations.Cycles.Walk.{mark_of-put, count_fresh, count_fresh_le, owned_nodes, walk_ends}
use nestory.Relations.Cycles.Met.{
  Seen, fresh, done, Met, unmet, walked, earlier, WalkSpec, walk-WalkSpec,
}

mark_of-finish :
    (key : NodeKey) (path : List NodeKey) (marks : Marks)
    → mark_of key (finish path marks) ≡ (if has_node key path then 2 else mark_of key marks)
unfolding finish has_node
mark_of-finish key [] marks = refl
mark_of-finish key (x ∷ xs) marks =
    rw (mark_of-finish key xs (put x 2 marks), mark_of-put key x 2 marks) (ground arith)

-- between the walks a node has the mark 0, or the mark 2 and its chain of owners ends
data Rest (owners : Owners) (key : NodeKey) : ℕ → Type 0 where
  untouched : Rest owners key 0
  ended : Ends owners key → Rest owners key 2

abbrev AreResting : Owners → Marks → Type 0
AreResting owners marks = (key : NodeKey) → Rest owners key (mark_of key marks)

module _ (owners : Owners) where
  Met-Rest :
      (key : NodeKey) (path : List NodeKey) {mark : ℕ}
      → Met owners path key mark
      → Rest owners key (if has_node key path then 2 else mark)
  Met-Rest key path (unmet n) = rw n untouched
  Met-Rest key path (walked r i) = rw (In-has_node key path i) (ended r)
  Met-Rest key path (earlier r) = elim (Bool-cases (has_node key path)) [
    | inl on ↦ rw on (ended r)
    | inr off ↦ rw off (ended r)
  ]

  finish-AreResting :
      (path : List NodeKey) (marks : Marks)
      → ((key : NodeKey) → Met owners path key (mark_of key marks))
      → AreResting owners (finish path marks)
  finish-AreResting path marks h key =
      rw (mark_of-finish key path marks) (Met-Rest key path (h key))

  Rest-Seen : (at key : NodeKey) {mark : ℕ} → Rest owners key mark → Seen owners at [] key mark
  unfolding has_node
  Rest-Seen at key untouched = fresh refl
  Rest-Seen at key (ended r) = done r

  Rest-le : (key : NodeKey) {mark : ℕ} → Rest owners key mark → mark ≤ 2
  Rest-le key untouched = omega arith
  Rest-le key (ended r) = omega arith

  Rest-Met : (key : NodeKey) {mark : ℕ} → Rest owners key mark → Met owners [] key mark
  unfolding has_node
  Rest-Met key untouched = unmet refl
  Rest-Met key (ended r) = earlier r

  Rest-Ends :
      (key : NodeKey) {mark : ℕ} → Rest owners key mark → (mark == 0) ≡ false → Ends owners key
  Rest-Ends key untouched h = ground arith
  Rest-Ends key (ended r) h = r

  fuel_enough : (marks : Marks) → count_fresh marks (owned_nodes owners) < walk_fuel owners
  fuel_enough marks =
      omega (arith, count_fresh_le marks (owned_nodes owners), length-map (λ p. p.0) owners)

  -- a round of the loop ends, with a cycle above the node or with its chain that ends
  walk_from_lem :
      (start : NodeKey) (marks : Marks)
      → AreResting owners marks
      → (w : Walked) × (walk_from (walk_fuel owners) owners start marks ≡ some w)
        × WalkSpec owners start w
  unfolding walk_from
  walk_from_lem start marks h = elim (Bool-cases (mark_of start marks == 0)) [
    | inl zero_mark ↦
        let (w, e) =
          walk_ends (walk_fuel owners) owners start marks [] (λ key. Rest-le key (h key))
            (fuel_enough marks) in
        (
          w,
          rw zero_mark e,
          walk-WalkSpec owners (walk_fuel owners) start marks [] w
              (λ key. Rest-Seen start key (h key)) e,
        )
    | inr old ↦ (
      arrived marks [],
      rw old refl,
      (Rest-Ends start (h start) old, λ key. Rest-Met key (h key)),
    )
  ]

-- what the check decides: all chains of owners end, or one of a node does not
pub data Decision (owners : Owners) (nodes : List NodeKey)
    : Option (Result RelationError Unit) → Type 0 where
  all_end : All (Ends owners) nodes → Decision owners nodes (some (ok tt))
  one_returns :
      {key : NodeKey} (at : NodeKey)
      → In at nodes
      → (Ends owners at → ⊥)
      → Decision owners nodes (some (err (ownership_cycle key)))

module _ (owners : Owners) where
  cycle_returns : (at key : NodeKey) → WalkSpec owners at (cycle key) → Ends owners at → ⊥
  cycle_returns at key (inl same, c) r = Ends-acyclic owners (subst (Ends owners) same r) c
  cycle_returns at key (inr above, c) r = Ends-acyclic owners (Ends-above owners r above) c

  Decision-more :
      {r : Option (Result RelationError Unit)} (start : NodeKey) (starts : List NodeKey)
      → Ends owners start
      → Decision owners starts r
      → Decision owners (start ∷ starts) r
  Decision-more start starts e (all_end h) = all_end (e, h)
  Decision-more start starts e (one_returns at i h) = one_returns at (inr i) h

  after_walk :
      (start : NodeKey) (starts : List NodeKey) (w : Walked)
      → WalkSpec owners start w
      → ((marks : Marks)
          → AreResting owners marks
          → Decision owners starts (check_starts (walk_fuel owners) owners starts marks))
      → Decision owners (start ∷ starts) (elim w [
        | cycle key ↦ some (err (ownership_cycle key))
        | arrived met path ↦ check_starts (walk_fuel owners) owners starts (finish path met)
      ])
  after_walk start starts (cycle key) c rest =
      one_returns start (inl refl) (cycle_returns start key c)
  after_walk start starts (arrived met path) (r, m) rest =
      Decision-more start starts r (rest (finish path met) (finish-AreResting owners path met m))

  check_starts-Decision :
      (starts : List NodeKey) (marks : Marks)
      → AreResting owners marks
      → Decision owners starts (check_starts (walk_fuel owners) owners starts marks)
  unfolding check_starts
  check_starts-Decision [] marks h = all_end tt
  check_starts-Decision (start ∷ starts) marks h =
      let (w, e, good) = walk_from_lem owners start marks h in
      rw e (after_walk start starts w good (λ m r. check_starts-Decision starts m r))

-- The check of the owners always comes to an end, within one step more than there are owned nodes for
-- each walk. It succeeds exactly when from every node the chain of owners ends at a node without an
-- owner; when it reports a cycle, there is a node whose chain never ends.
pub validate_ownership_cycles-Decision :
    (nodes : List NodeKey) (owners : Owners)
    → Decision owners nodes (validate_ownership_cycles nodes owners)
unfolding validate_ownership_cycles mark_of
validate_ownership_cycles-Decision nodes owners =
    check_starts-Decision owners nodes [] (λ key. untouched)
