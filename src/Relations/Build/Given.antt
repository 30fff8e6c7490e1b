-- ===== src/Relations/Build/Given.antt =====
-- The owner that the references give a node: that of its only `own` reference, or the one that its own
-- `ownedby` field names.
use nestory.Common.{
  ◌∙◌, some_ne_none, ℕ, ◌≤◌, ◌≡◌, refl, sym, ◌⊎◌, inl, inr, true, Option, none, some, List, [], ◌∷◌,
  ◌++◌, ap, All, arith, ◌==◌, Bool-cases, In,
}
use nestory.Relations.Node.{
  NodeKey, same_node, same_node-eq, same_node_refl, node_equality, is_own, is_owned_by,
  ResolvedRelation,
}
use nestory.Relations.Model.{IncomingOwn}
use nestory.Relations.Scan.Owners.{
  owns_node, names_owner, count_own, first_own, last_named, last_named-append,
}
use nestory.Relations.Build.{edge_owner, disagreement}
use nestory.Relations.Build.Attach.{owner_by_refs}

count_own-In :
    (child : NodeKey) (r : ResolvedRelation) (refs : List ResolvedRelation)
    → In r refs
    → owns_node child r ≡ true
    → 1 ≤ count_own child refs
unfolding count_own
count_own-In child r [] i h = absurd i
count_own-In child r (x ∷ xs) (inl e) h = rw (← e, h) (omega arith)
count_own-In child r (x ∷ xs) (inr i) h = ground (arith, count_own-In child r xs i h)

-- the only own reference to a node is the first one
first_own-In :
    (child : NodeKey) (r : ResolvedRelation) (refs : List ResolvedRelation)
    → In r refs
    → owns_node child r ≡ true
    → count_own child refs ≤ 1
    → first_own child refs ≡ some (record { owner = r.holder; spec = r.spec })
unfolding count_own first_own
first_own-In child r [] i h few = absurd i
first_own-In child r (x ∷ xs) (inl e) h few = rw (← e, h) refl
first_own-In child r (x ∷ xs) (inr i) h few = elim (Bool-cases (owns_node child x)) [
  | inl own ↦ let two = rw own at few in absurd (omega (arith, count_own-In child r xs i h))
  | inr other ↦ rw other (first_own-In child r xs i h (rw other at few))
]

-- a reference that gives the node the owner
abbrev pub GivesOwner : List ResolvedRelation → NodeKey → NodeKey → Type 0
GivesOwner refs child owner =
    (r : ResolvedRelation) × In r refs
    × (((is_own r.spec.kind ≡ true) × (r.target ≡ child) × (r.holder ≡ owner))
        ⊎ ((is_owned_by r.spec.kind ≡ true) × (r.holder ≡ child) × (r.target ≡ owner)))

later :
    {child owner : NodeKey} (x : ResolvedRelation) (refs : List ResolvedRelation)
    → GivesOwner refs child owner
    → GivesOwner (x ∷ refs) child owner
later x refs (r, i, g) = (r, inr i, g)

some_key : {a b : NodeKey} → some a ≡ some b → a ≡ b
some_key e = cc

first_own-GivesOwner :
    (child owner : NodeKey) (refs : List ResolvedRelation)
    → edge_owner (first_own child refs) ≡ some owner
    → GivesOwner refs child owner
unfolding first_own owns_node
first_own-GivesOwner child owner [] h = ground arith
first_own-GivesOwner child owner (x ∷ xs) h = elim (Bool-cases (is_own x.spec.kind)) [
  | inl own ↦ elim (Bool-cases (same_node child x.target)) [
    | inl e ↦
        (x, inl refl, inl (own, sym (same_node-eq child x.target e), some_key (rw (own, e) at h)))
    | inr e ↦ later x xs (first_own-GivesOwner child owner xs (rw (own, e) at h))
  ]
  | inr other ↦ later x xs (first_own-GivesOwner child owner xs (rw other at h))
]

last_named-GivesOwner :
    (child owner : NodeKey) (refs : List ResolvedRelation) (named : Option IncomingOwn)
    → edge_owner (last_named child refs named) ≡ some owner
    → (edge_owner named ≡ some owner) ⊎ GivesOwner refs child owner
unfolding last_named names_owner
last_named-GivesOwner child owner [] named h = inl h
last_named-GivesOwner child owner (x ∷ xs) named h =
    elim (last_named-GivesOwner child owner xs _ h) [
      | inr g ↦ inr (later x xs g)
      | inl e ↦ elim (Bool-cases (is_owned_by x.spec.kind)) [
        | inl by ↦ elim (Bool-cases (same_node child x.holder)) [
          | inl k ↦ inr (
            x,
            inl refl,
            inr (by, sym (same_node-eq child x.holder k), some_key (rw (by, k) at e)),
          )
          | inr k ↦ inl (rw (by, k) at e)
        ]
        | inr other ↦ inl (rw other at e)
      ]
    ]

pub owner_by_refs-GivesOwner :
    (child owner : NodeKey) (refs : List ResolvedRelation)
    → owner_by_refs child refs ≡ some owner
    → GivesOwner refs child owner
unfolding owner_by_refs
owner_by_refs-GivesOwner child owner refs h = elim (Bool-cases (count_own child refs == 1)) [
  | inl one ↦ first_own-GivesOwner child owner refs (rw one at h)
  | inr other ↦ elim (last_named-GivesOwner child owner refs none (rw other at h)) [
    | inl e ↦ ground arith
    | inr g ↦ g
  ]
]

pub owner_by_refs-own :
    (child : NodeKey) (r : ResolvedRelation) (refs : List ResolvedRelation)
    → In r refs
    → owns_node child r ≡ true
    → count_own child refs ≤ 1
    → owner_by_refs child refs ≡ some r.holder
unfolding owner_by_refs
owner_by_refs-own child r refs i h few =
    let one = le_one (count_own-In child r refs i h) few in
    rw (one, first_own-In child r refs i h few) refl
  where
    le_one : {n : ℕ} → 1 ≤ n → n ≤ 1 → (n == 1) ≡ true
    le_one low high = ground arith

-- a reference through the `ownedby` field of the node, behind which there is no other one
abbrev pub NamesLast : List ResolvedRelation → NodeKey → NodeKey → Type 0
NamesLast refs child owner =
    (before : List ResolvedRelation) × (r : ResolvedRelation) × (after : List ResolvedRelation)
    × (refs ≡ before ++ r ∷ after)
    × (is_owned_by r.spec.kind ≡ true)
    × (r.holder ≡ child)
    × (r.target ≡ owner)
    × All (λ x. is_owned_by x.spec.kind ≡ true → x.holder ≡ child → ⊥) after

last_named_kept :
    (child : NodeKey) (refs : List ResolvedRelation) (named : Option IncomingOwn)
    → All (λ x. is_owned_by x.spec.kind ≡ true → x.holder ≡ child → ⊥) refs
    → last_named child refs named ≡ named
unfolding last_named names_owner
last_named_kept child [] named h = refl
last_named_kept child (x ∷ xs) named h = elim (Bool-cases (is_owned_by x.spec.kind)) [
  | inl by ↦ elim (Bool-cases (same_node child x.holder)) [
    | inl k ↦ absurd (h.0 by (sym (same_node-eq child x.holder k)))
    | inr k ↦ rw (by, k) (last_named_kept child xs named h.1)
  ]
  | inr other ↦ rw other (last_named_kept child xs named h.1)
]

last_named-NamesLast :
    (child owner : NodeKey) (refs : List ResolvedRelation)
    → NamesLast refs child owner
    → edge_owner (last_named child refs none) ≡ some owner
unfolding last_named names_owner
last_named-NamesLast child owner refs (before, r, after, e, by, holder, target, later) =
    let mine : names_owner child r ≡ true = rw (by, holder, same_node_refl child) refl in
    rw
      (
        e,
        last_named-append child before (r ∷ after) none,
        mine,
        last_named_kept child after (some (record { owner = r.target; spec = r.spec })) later,
      )
      (ap some target)

first_own-some :
    (child : NodeKey) (refs : List ResolvedRelation)
    → 1 ≤ count_own child refs
    → (edge : IncomingOwn) × (first_own child refs ≡ some edge)
unfolding first_own count_own
first_own-some child [] h = absurd (omega arith)
first_own-some child (x ∷ xs) h = elim (Bool-cases (owns_node child x)) [
  | inl own ↦ rw own (record { owner = x.holder; spec = x.spec }, refl)
  | inr other ↦ rw other (first_own-some child xs (rw other at h))
]

-- where the two edges do not disagree, they have one owner
agreed :
    (first back : IncomingOwn) (n : ℕ)
    → disagreement (record { first = some first; count = n }) (some back) ≡ none
    → (n == 1) ≡ true
    → first.owner ≡ back.owner
unfolding disagreement
agreed first back n h one = elim (Bool-cases (same_node first.owner back.owner)) [
  | inl same ↦ same_node-eq first.owner back.owner same
  | inr differs ↦ let clash = rw (one, differs) at h in absurd (some_ne_none clash)
]

edge_back :
    (o : Option IncomingOwn) (owner : NodeKey)
    → edge_owner o ≡ some owner
    → (back : IncomingOwn) × (o ≡ some back) × (back.owner ≡ owner)
edge_back none owner h = absurd (some_ne_none (sym h))
edge_back (some back) owner h = (back, refl, some_key h)

-- the owner that `ownedby` names is the owner where the references agree
pub owner_by_refs-NamesLast :
    (child owner : NodeKey) (refs : List ResolvedRelation)
    → NamesLast refs child owner
    → disagreement
        (record { first = first_own child refs; count = count_own child refs })
        (last_named child refs none)
      ≡ none
    → owner_by_refs child refs ≡ some owner
unfolding owner_by_refs
owner_by_refs-NamesLast child owner refs names agree =
    let named = last_named-NamesLast child owner refs names in
    elim (Bool-cases (count_own child refs == 1)) [
      | inr other ↦ rw (other, named) refl
      | inl one ↦
          let (first, f) = first_own-some child refs (ground arith) in
          let (back, b, same) = edge_back (last_named child refs none) owner named in
          rw (one, f)
            (ap some (agreed first back (count_own child refs) (rw (f, b) at agree) one ∙ same))
    ]
