-- ===== src/Relations/Build/Attached.antt =====
-- Attaching the nodes one after the other: each gets the owner that the references give it.
use nestory.Common.{
  ◌≤◌, ◌≡◌, refl, sym, ap, ◌∙◌, subst, inl, inr, Option, none, some, List, [], ◌∷◌, ◌++◌,
  append-nil, append_assoc, arith, ltb, ltb→ge, Bool-cases, Option-cases, set, All, Result, ok,
  Result-cases,
}
use nestory.Common.Maps.{find}
use nestory.Relations.Node.{NodeKey, node_equality}
use nestory.Relations.Model.{IncomingOwn, IncomingOwns, RelationModel, RelationError}
use nestory.Relations.Scan.{ScanState, incoming_of}
use nestory.Relations.Scan.Owners.{count_own, first_own, last_named, Tracks}
use nestory.Relations.Build.{
  resolved_owner, disagreement, set_owner, attach_node_owner, attach_owners,
}
use nestory.Relations.Build.Attach.{owner_by_refs, AreAttached, set_owner-AreAttached}

ok_same : {a b : RelationModel} → ◌≡◌ {A = Result RelationError RelationModel} (ok a) (ok b) → a ≡ b
ok_same h = cc

-- what an attachment that succeeds has done, and what it has checked
pub attach_node_owner-ok :
    (m t : RelationModel) (child : NodeKey) (raw : IncomingOwns) (back : Option IncomingOwn)
    → attach_node_owner m child raw back ≡ ok t
    → (t ≡ set_owner child (resolved_owner raw back) m)
      × (raw.count ≤ 1)
      × (disagreement raw back ≡ none)
unfolding attach_node_owner
attach_node_owner-ok m t child raw back e = elim (Bool-cases (ltb 1 raw.count)) [
  | inl many ↦ let clash = rw many at e in ground arith
  | inr one ↦ elim (Option-cases (disagreement raw back)) [
    | inl agree ↦ (sym (ok_same (rw (one, agree) at e)), ltb→ge 1 raw.count one, agree)
    | inr (pair, differ) ↦ let clash = rw (one, differ) at e in ground arith
  ]
]

module _ (s : ScanState) (tracks : Tracks s) where
  resolved-owner_by_refs :
      (child : NodeKey)
      → resolved_owner (incoming_of child s.incoming) (find child s.owned_by)
        ≡ owner_by_refs child s.model.refs
  unfolding resolved_owner owner_by_refs
  resolved-owner_by_refs child = rw (tracks.0 child, tracks.1 child) refl

  -- the references name at most one owner by `own`, and no other one by `ownedby`
  abbrev pub Agrees : NodeKey → Type 0
  Agrees child =
      (count_own child s.model.refs ≤ 1)
      × (disagreement
            (record { first = first_own child s.model.refs; count = count_own child s.model.refs })
            (last_named child s.model.refs none)
          ≡ none)

  pub attach_owners-AreAttached :
      (children attached : List NodeKey) (m t : RelationModel)
      → AreAttached s.model.refs attached m
      → attach_owners s children m ≡ ok t
      → AreAttached s.model.refs (attached ++ children) t × All Agrees children
  unfolding attach_owners
  attach_owners-AreAttached [] attached m t h e = (
    subst (AreAttached s.model.refs (attached ++ [])) (ok_same e) (rw (append-nil attached) h),
    tt,
  )
  attach_owners-AreAttached (child ∷ children) attached m t h e =
      elim (Result-cases
        (attach_node_owner m child (incoming_of child s.incoming) (find child s.owned_by))) [
          | inl (bad, b) ↦ let clash = rw b at e in ground arith
          | inr (u, b) ↦
              let (set, few, agree) =
                attach_node_owner-ok m u child (incoming_of child s.incoming)
                  (find child s.owned_by) b in
              let next = set_owner-AreAttached s.model.refs attached m child h in
              let (all, agrees) =
                attach_owners-AreAttached children (attached ++ child ∷ []) u t
                  (rw (set, resolved-owner_by_refs child) next) (rw b at e) in
              (
                rw (append_assoc attached (child ∷ []) children) at all,
                (
                  (rw (tracks.0 child) at few, rw (tracks.0 child, tracks.1 child) at agree),
                  agrees,
                ),
              )
        ]

set_owner-refs :
    (child : NodeKey) (owner : Option NodeKey) (m : RelationModel)
    → (set_owner child owner m).refs ≡ m.refs
unfolding set_owner
set_owner-refs child none m = refl
set_owner-refs child (some owner) m = refl

pub attach_owners-refs :
    (s : ScanState) (children : List NodeKey) (m t : RelationModel)
    → attach_owners s children m ≡ ok t
    → t.refs ≡ m.refs
unfolding attach_owners
attach_owners-refs s [] m t e = ap (λ x. x.refs) (sym (ok_same e))
attach_owners-refs s (child ∷ children) m t e =
    elim (Result-cases
      (attach_node_owner m child (incoming_of child s.incoming) (find child s.owned_by))) [
        | inl (bad, b) ↦ let clash = rw b at e in ground arith
        | inr (u, b) ↦
            attach_owners-refs s children u t (rw b at e)
            ∙ ap (λ x. x.refs)
                (attach_node_owner-ok m u child (incoming_of child s.incoming)
                  (find child s.owned_by) b).0
            ∙ set_owner-refs child _ m
      ]
