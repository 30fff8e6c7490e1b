-- ===== src/Relations/Cycles/Walk.antt =====
-- A walk up the owners ends within its fuel.
use nestory.Common.{
  ℕ, zero, suc, ◌≤◌, ◌<◌, ◌≡◌, refl, ◌∙◌, inl, inr, true, false, none, some, List, [], ◌∷◌, ◌++◌,
  map, arith, ◌==◌, if◌then◌else◌, Bool-cases, Option-cases, length, In,
}
use nestory.Common.Maps.{find, put, find-put_self, find-put_ne, same_ne}
use nestory.Relations.Node.{NodeKey, same_node, same_node-eq, same_node_refl, node_equality}
use nestory.Relations.Cycles.{Owners, Marks, mark_of, Walked, cycle, arrived, walk}

pub mark_of-put :
    (k key : NodeKey) (mark : ℕ) (marks : Marks)
    → mark_of k (put key mark marks) ≡ (if same_node k key then mark else mark_of k marks)
unfolding mark_of
mark_of-put k key mark marks = elim (Bool-cases (same_node k key)) [
  | inl e ↦
      rw (same_node-eq k key e, same_node_refl key)
        (rw (mark_of, find-put_self key mark marks) refl)
  | inr e ↦ rw (e, mark_of, find-put_ne k key mark marks (same_ne k key e)) refl
]

-- how many of the nodes have the mark 0
unfoldable pub count_fresh : Marks → List NodeKey → ℕ
unfolding mark_of
count_fresh marks [] = 0
count_fresh marks (x ∷ xs) =
    let rest = count_fresh marks xs in if mark_of x marks == 0 then suc rest else rest

pub count_fresh_le : (marks : Marks) (xs : List NodeKey) → count_fresh marks xs ≤ length xs
unfolding count_fresh
count_fresh_le marks [] = omega arith
count_fresh_le marks (x ∷ xs) = ground (arith, count_fresh_le marks xs)

count_fresh-put :
    (key : NodeKey) (marks : Marks) (xs : List NodeKey)
    → count_fresh (put key 1 marks) xs ≤ count_fresh marks xs
unfolding count_fresh
count_fresh-put key marks [] = omega arith
count_fresh-put key marks (x ∷ xs) =
    ground (arith, count_fresh-put key marks xs, mark_of-put x key 1 marks)

count_fresh_less :
    (key : NodeKey) (marks : Marks) (xs : List NodeKey)
    → In key xs
    → mark_of key marks ≡ 0
    → suc (count_fresh (put key 1 marks) xs) ≤ count_fresh marks xs
unfolding count_fresh
count_fresh_less key marks [] h k = absurd h
count_fresh_less key marks (x ∷ xs) (inl e) k =
    rw (← e, mark_of-put key key 1 marks, same_node_refl key, k)
      (omega (arith, count_fresh-put key marks xs))
count_fresh_less key marks (x ∷ xs) (inr h) k =
    ground (arith, count_fresh_less key marks xs h k, mark_of-put x key 1 marks)

abbrev pub owned_nodes : Owners → List NodeKey
owned_nodes owners = map (λ p. p.0) owners

find-owned :
    (key owner : NodeKey) (owners : Owners)
    → find key owners ≡ some owner
    → In key (owned_nodes owners)
unfolding find
find-owned key owner [] h = ground arith
find-owned key owner ((j, o) ∷ owners) h = elim (Bool-cases (same_node key j)) [
  | inl e ↦ inl (same_node-eq key j e)
  | inr e ↦ inr (find-owned key owner owners (rw e at h))
]

-- the marks are 0, 1 and 2
abbrev pub AreMarks : Marks → Type 0
AreMarks marks = (key : NodeKey) → mark_of key marks ≤ 2

AreMarks-put : (key : NodeKey) (marks : Marks) → AreMarks marks → AreMarks (put key 1 marks)
AreMarks-put key marks h k = ground (arith, h k, mark_of-put k key 1 marks)

-- the four ways of a step of the walk
module _ (fuel : ℕ) (owners : Owners) (at : NodeKey) (marks : Marks) (path : List NodeKey) where
  pub walk_marked :
      (mark_of at marks == 1) ≡ true → walk (suc fuel) owners at marks path ≡ some (cycle at)
  unfolding walk
  walk_marked one = elim (Option-cases (find at owners)) [
    | inl e ↦ rw (walk, e, one) refl
    | inr (owner, e) ↦ rw (walk, e, one) refl
  ]

  pub walk_finished :
      (mark_of at marks == 1) ≡ false
      → (mark_of at marks == 2) ≡ true
      → walk (suc fuel) owners at marks path ≡ some (arrived marks path)
  unfolding walk
  walk_finished not_one two = elim (Option-cases (find at owners)) [
    | inl e ↦ rw (walk, e, not_one, two) refl
    | inr (owner, e) ↦ rw (walk, e, not_one, two) refl
  ]

  pub walk_root :
      (mark_of at marks == 1) ≡ false
      → (mark_of at marks == 2) ≡ false
      → find at owners ≡ none
      → walk (suc fuel) owners at marks path ≡ some (arrived (put at 1 marks) (path ++ at ∷ []))
  unfolding walk
  walk_root not_one not_two e = rw (walk, e, not_one, not_two) refl

  pub walk_up :
      (owner : NodeKey)
      → (mark_of at marks == 1) ≡ false
      → (mark_of at marks == 2) ≡ false
      → find at owners ≡ some owner
      → walk (suc fuel) owners at marks path
        ≡ walk fuel owners owner (put at 1 marks) (path ++ at ∷ [])
  unfolding walk
  walk_up owner not_one not_two e = rw (walk, e, not_one, not_two) refl

-- A walk comes to an end when it has more fuel than there are fresh nodes with an owner.
pub walk_ends :
    (fuel : ℕ) (owners : Owners) (at : NodeKey) (marks : Marks) (path : List NodeKey)
    → AreMarks marks
    → count_fresh marks (owned_nodes owners) < fuel
    → (w : Walked) × (walk fuel owners at marks path ≡ some w)
walk_ends zero owners at marks path valid h = ground arith
walk_ends (suc fuel) owners at marks path valid h = elim (Bool-cases (mark_of at marks == 1)) [
  | inl one ↦ (cycle at, walk_marked fuel owners at marks path one)
  | inr not_one ↦ elim (Bool-cases (mark_of at marks == 2)) [
    | inl two ↦ (arrived marks path, walk_finished fuel owners at marks path not_one two)
    | inr not_two ↦ elim (Option-cases (find at owners)) [
      | inl e ↦ (
        arrived (put at 1 marks) (path ++ at ∷ []),
        walk_root fuel owners at marks path not_one not_two e,
      )
      | inr (owner, e) ↦
          let fewer =
            count_fresh_less at marks (owned_nodes owners) (find-owned at owner owners e)
              (ground (arith, valid at)) in
          let (w, rest) =
            walk_ends fuel owners owner (put at 1 marks) (path ++ at ∷ [])
              (AreMarks-put at marks valid) (omega arith) in
          (w, walk_up fuel owners at marks path owner not_one not_two e ∙ rest)
    ]
  ]
]
