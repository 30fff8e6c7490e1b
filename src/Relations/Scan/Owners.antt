-- ===== src/Relations/Scan/Owners.antt =====
-- What the references of a model say of the owner of a node, independently of the maps that the scan
-- keeps, and that the scan keeps them so.
use nestory.Common.{
  ℕ, suc, ◌+◌, ◌≡◌, refl, ap, inl, inr, Bool, true, false, ◌&&◌, Option, none, some, List, [], ◌∷◌,
  ◌++◌, arith, ◌==◌, if◌then◌else◌, Bool-cases,
}
use nestory.Common.Maps.{find, put, find-put_self, find-put_ne, same_ne}
use nestory.Relations.Node.{
  NodeKey, same_node, same_node-eq, same_node_refl, node_equality, is_own, is_owned_by,
  RelationSpec, ResolvedRelation,
}
use nestory.Relations.Model.{IncomingOwn, IncomingOwns}
use nestory.Relations.Scan.{add_incoming, ScanState, incoming_of, record_resolved_relation}

-- a reference through an `own` field to the node
unfoldable pub owns_node : NodeKey → ResolvedRelation → Bool
owns_node child r = is_own r.spec.kind && same_node child r.target

-- a reference through the `ownedby` field of the node
unfoldable pub names_owner : NodeKey → ResolvedRelation → Bool
names_owner child r = is_owned_by r.spec.kind && same_node child r.holder

unfoldable pub count_own : NodeKey → List ResolvedRelation → ℕ
unfolding owns_node
count_own child [] = 0
count_own child (r ∷ rs) =
    let rest = count_own child rs in if owns_node child r then suc rest else rest

unfoldable pub first_own : NodeKey → List ResolvedRelation → Option IncomingOwn
unfolding owns_node
first_own child [] = none
first_own child (r ∷ rs) =
    let rest = first_own child rs in
    if owns_node child r then some (record { owner = r.holder; spec = r.spec }) else rest

-- the owner that is named last, or the one given
unfoldable pub last_named :
    NodeKey → List ResolvedRelation → Option IncomingOwn → Option IncomingOwn
unfolding names_owner
last_named child [] named = named
last_named child (r ∷ rs) named =
    last_named child rs
      (if names_owner child r then some (record { owner = r.target; spec = r.spec }) else named)

count_own-append :
    (child : NodeKey) (xs ys : List ResolvedRelation)
    → count_own child (xs ++ ys) ≡ count_own child xs + count_own child ys
unfolding count_own
count_own-append child [] ys = omega arith
count_own-append child (r ∷ rs) ys = ground (arith, count_own-append child rs ys)

first_own-append :
    (child : NodeKey) (xs ys : List ResolvedRelation)
    → first_own child (xs ++ ys)
      ≡ (if count_own child xs == 0 then first_own child ys else first_own child xs)
unfolding first_own count_own
first_own-append child [] ys = refl
first_own-append child (r ∷ rs) ys = elim (Bool-cases (owns_node child r)) [
  | inl yes_own ↦ rw yes_own (ground arith)
  | inr not_own ↦ rw not_own (first_own-append child rs ys)
]

pub last_named-append :
    (child : NodeKey) (xs ys : List ResolvedRelation) (named : Option IncomingOwn)
    → last_named child (xs ++ ys) named ≡ last_named child ys (last_named child xs named)
unfolding last_named
last_named-append child [] ys named = refl
last_named-append child (r ∷ rs) ys named = last_named-append child rs ys _

-- what the references say of the incoming own edges of a node
abbrev tally : NodeKey → List ResolvedRelation → IncomingOwns
tally child refs = record { first = first_own child refs; count = count_own child refs }

tally_more :
    (child : NodeKey) (r : ResolvedRelation) (refs : List ResolvedRelation)
    → owns_node child r ≡ true
    → add_incoming (record { owner = r.holder; spec = r.spec }) (tally child refs)
      ≡ tally child (refs ++ r ∷ [])
unfolding add_incoming first_own count_own
tally_more child r refs h =
    rw (first_own-append child refs (r ∷ []), count_own-append child refs (r ∷ []), h) refl

first_own-none :
    (child : NodeKey) (refs : List ResolvedRelation)
    → (if count_own child refs == 0 then none else first_own child refs) ≡ first_own child refs
unfolding first_own count_own
first_own-none child [] = refl
first_own-none child (r ∷ rs) = elim (Bool-cases (owns_node child r)) [
  | inl own ↦ rw own (ground arith)
  | inr not_own ↦ rw not_own (first_own-none child rs)
]

tally_same :
    (child : NodeKey) (r : ResolvedRelation) (refs : List ResolvedRelation)
    → owns_node child r ≡ false
    → tally child refs ≡ tally child (refs ++ r ∷ [])
unfolding first_own count_own
tally_same child r refs h =
    rw (first_own-append child refs (r ∷ []), count_own-append child refs (r ∷ []), h)
      (rw (first_own-none child refs)
        (ap (λ n. record { first = first_own child refs; count = n }) (omega arith)))

-- what the scan knows of the owner of a node is what the references say
abbrev pub Tracks : ScanState → Type 0
Tracks s =
    ((child : NodeKey)
      → incoming_of child s.incoming
        ≡ record { first = first_own child s.model.refs; count = count_own child s.model.refs })
    × ((child : NodeKey) → find child s.owned_by ≡ last_named child s.model.refs none)

incoming_of-put :
    (child target : NodeKey) (owns : IncomingOwns) (incoming : List (NodeKey × IncomingOwns))
    → incoming_of child (put target owns incoming)
      ≡ (if same_node child target then owns else incoming_of child incoming)
unfolding incoming_of
incoming_of-put child target owns incoming = elim (Bool-cases (same_node child target)) [
  | inl e ↦
      rw (same_node-eq child target e, same_node_refl target)
        (rw (incoming_of, find-put_self target owns incoming) refl)
  | inr e ↦
      rw (e, incoming_of, find-put_ne child target owns incoming (same_ne child target e)) refl
]

abbrev added : NodeKey → NodeKey → RelationSpec → ResolvedRelation
added holder target spec = record { holder = holder; target = target; spec = spec }

pub record_resolved_relation-Tracks :
    (holder target : NodeKey) (spec : RelationSpec) (s : ScanState)
    → Tracks s
    → Tracks (record_resolved_relation holder target spec s)
unfolding record_resolved_relation owns_node last_named
record_resolved_relation-Tracks holder target spec s (tallied, named) = (
  λ child. elim (Bool-cases (is_own spec.kind)) [
    | inl own ↦
        rw (own, incoming_of-put child target _ s.incoming)
          (elim (Bool-cases (same_node child target)) [
            | inl e ↦
                rw (e, tallied target, ← same_node-eq child target e)
                  (tally_more child (added holder child spec) s.model.refs
                    (rw (own, same_node_refl child) refl))
            | inr e ↦
                rw (e, tallied child)
                  (tally_same child (added holder target spec) s.model.refs (rw (own, e) refl))
          ])
    | inr not_own ↦
        rw (not_own, tallied child)
          (tally_same child (added holder target spec) s.model.refs (rw not_own refl))
  ],
  λ child.
      rw (last_named-append child s.model.refs (added holder target spec ∷ []) none)
        (elim (Bool-cases (is_owned_by spec.kind)) [
          | inl by ↦ rw by (elim (Bool-cases (same_node child holder)) [
            | inl e ↦ rw (e, same_node-eq child holder e) (find-put_self holder _ s.owned_by)
            | inr e ↦
                rw (e, find-put_ne child holder _ s.owned_by (same_ne child holder e)) (named child)
          ])
          | inr not_by ↦ rw not_by (named child)
        ]),
)
