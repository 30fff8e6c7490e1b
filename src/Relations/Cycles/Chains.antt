-- ===== src/Relations/Cycles/Chains.antt =====
-- Chains of owners: those that end at a node without an owner, and those that return.
use nestory.Common.{◌≡◌, sym, subst, ◌⊎◌, inl, inr, none, some, arith}
use nestory.Common.Maps.{find}
use nestory.Relations.Node.{NodeKey, node_equality}
use nestory.Relations.Cycles.{Owners}

-- the chain of owners from a node comes to a node without an owner
pub data Ends (owners : Owners) : NodeKey → Type 0 where
  root : {key : NodeKey} → find key owners ≡ none → Ends owners key
  up : {key owner : NodeKey} → find key owners ≡ some owner → Ends owners owner → Ends owners key

-- one owner or more up from the first node stands the second
pub data Climbs (owners : Owners) : NodeKey → NodeKey → Type 0 where
  step : {key owner : NodeKey} → find key owners ≡ some owner → Climbs owners key owner
  more :
      {key owner top : NodeKey}
      → find key owners ≡ some owner
      → Climbs owners owner top
      → Climbs owners key top

module _ (owners : Owners) where
  pub Climbs-next :
      {a b c : NodeKey} → Climbs owners a b → find b owners ≡ some c → Climbs owners a c
  Climbs-next (step e) h = more e (step h)
  Climbs-next (more e r) h = more e (Climbs-next r h)

  -- a node below an end of a chain is an end of a chain
  pub Climbs-Ends : {a b : NodeKey} → Climbs owners a b → Ends owners b → Ends owners a
  Climbs-Ends (step e) h = up e h
  Climbs-Ends (more e r) h = up e (Climbs-Ends r h)

  same_owner :
      (a : NodeKey) {o b : NodeKey} → find a owners ≡ some o → find a owners ≡ some b → o ≡ b
  same_owner a e h = cc

  Climbs-rest :
      {a o b : NodeKey} → Climbs owners a b → find a owners ≡ some o → (o ≡ b) ⊎ Climbs owners o b
  Climbs-rest {a} (step e) h = inl (same_owner a h e)
  Climbs-rest {a} (more e r) h = inr (rw (same_owner a h e) r)

  no_climb : {a b : NodeKey} → find a owners ≡ none → Climbs owners a b → ⊥
  no_climb e (step h) = ground arith
  no_climb e (more h r) = ground arith

  climb_above :
      {a o : NodeKey} → find a owners ≡ some o → (o ≡ a) ⊎ Climbs owners o a → Climbs owners o o
  climb_above {a} {o} e (inl same) = subst (λ k. Climbs owners k o) (sym same) (step e)
  climb_above e (inr c) = Climbs-next c e

  -- a chain that returns to its node does not end
  pub Ends-acyclic : {a : NodeKey} → Ends owners a → Climbs owners a a → ⊥
  Ends-acyclic (root e) c = no_climb e c
  Ends-acyclic (up e r) c = Ends-acyclic r (climb_above e (Climbs-rest c e))

  -- a node above an end of a chain is an end of a chain
  pub Ends-above : {a b : NodeKey} → Ends owners a → Climbs owners a b → Ends owners b
  Ends-above (root e) c = absurd (no_climb e c)
  Ends-above {b = b} (up e r) c = elim (Climbs-rest c e) [
    | inl same ↦ subst (Ends owners) same r
    | inr above ↦ Ends-above r above
  ]
