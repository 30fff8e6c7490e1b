-- ===== src/Relations/Cycles.antt =====
-- relation_runtime.go, `validateOwnershipCycles`: each node is visited once. It walks up from every
-- node to its owner; a node of the walk has the mark 1, one of an earlier walk the mark 2. A walk
-- takes at most as many steps as nodes have owners, and one for the last of them.
pub mod Chains
pub mod Walk
pub mod Met
pub mod Check
use nestory.Common.{
  ℕ, zero, suc, ◌+◌, ◌-◌, Option, none, some, List, [], ◌∷◌, ◌++◌, ◌==◌, if◌then◌else◌, length,
  Result, ok, err, bind_option,
}
use nestory.Common.Maps.{find, put}
use nestory.Relations.Node.{NodeKey, same_node, has_node, node_equality}
use nestory.Relations.Model.{RelationError, ownership_cycle}

abbrev pub Owners : Type 0
Owners = List (NodeKey × NodeKey)

abbrev pub Marks : Type 0
Marks = List (NodeKey × ℕ)

-- a node that the map does not have has the mark 0
unfoldable pub mark_of : NodeKey → Marks → ℕ
unfolding find
mark_of key marks = elim (find key marks) [ none ↦ 0 | some mark ↦ mark ]

-- what a walk ends with: a node of the walk is met again, or the marks and the nodes of the walk
pub data Walked : Type 0 where
  cycle : NodeKey → Walked
  arrived : Marks → List NodeKey → Walked

-- the loop `walk`
unfoldable pub walk : ℕ → Owners → NodeKey → Marks → List NodeKey → Option Walked
unfolding mark_of put
walk zero owners at marks path = none
walk (suc fuel) owners at marks path = elim (find at owners) [
  | none ↦
      if mark_of at marks == 1
      then some (cycle at)
      else if mark_of at marks == 2
      then some (arrived marks path)
      else some (arrived (put at 1 marks) (path ++ at ∷ []))
  | some owner ↦
      let rest = walk fuel owners owner (put at 1 marks) (path ++ at ∷ []) in
      if mark_of at marks == 1
      then some (cycle at)
      else if mark_of at marks == 2
      then some (arrived marks path)
      else rest
]

unfoldable pub finish : List NodeKey → Marks → Marks
unfolding put
finish [] marks = marks
finish (key ∷ keys) marks = finish keys (put key 2 marks)

-- a round of the loop over the nodes: a node that has a mark is left out
unfoldable pub walk_from : ℕ → Owners → NodeKey → Marks → Option Walked
unfolding walk mark_of
walk_from fuel owners start marks =
    if mark_of start marks == 0 then walk fuel owners start marks [] else some (arrived marks [])

-- the loop over the nodes, `none` when a walk runs out of fuel
unfoldable pub check_starts : ℕ → Owners → List NodeKey → Marks → Option (Result RelationError Unit)
unfolding walk_from finish
check_starts fuel owners [] marks = some (ok tt)
check_starts fuel owners (start ∷ starts) marks =
    bind_option (walk_from fuel owners start marks) λ walked. elim walked [
      | cycle key ↦ some (err (ownership_cycle key))
      | arrived met path ↦ check_starts fuel owners starts (finish path met)
    ]

-- the number of nodes that have an owner, and one
abbrev pub walk_fuel : Owners → ℕ
walk_fuel owners = suc (length owners)

unfoldable pub validate_ownership_cycles :
    List NodeKey → Owners → Option (Result RelationError Unit)
unfolding check_starts
validate_ownership_cycles nodes owners = check_starts (walk_fuel owners) owners nodes []
