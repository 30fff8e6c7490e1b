-- ===== src/Engine/Locks/Progress.antt =====
-- Commits that run side by side: each takes its locks one after the other, waits for a lock that
-- another has, and gives all back at its end. Any order of the steps is a run.
use nestory.Common.{
  ℕ, zero, suc, ◌+◌, ◌≤◌, Ordering, ◌≡◌, refl, ◌∙◌, subst, ◌⊎◌, inl, inr, Bool, false, ◌&&◌, not,
  List, [], ◌∷◌, ◌++◌, arith, length, All, All-append, All-map,
}
use nestory.SecondaryIndex.Search.{is_equal, Ordering-cases}
use nestory.Engine.Locks.{Lock, LockRequest, LockStep, locks, unlocks}
use nestory.Engine.Locks.Steps.{give_back, IsClimbing}
use nestory.Engine.Locks.Keys.{compare_lock, lock-IsOrder}
use nestory.Engine.Locks.Ordered.{compare_request}

-- two holders of one lock that cannot be together: one of them at least has it alone
unfoldable pub conflicts : LockRequest → LockRequest → Bool
unfolding compare_lock
conflicts a b = is_equal (compare_lock a.lock b.lock) && not (a.shared && b.shared)

-- a commit on its way, with the locks that it has and the steps that it still has to take, in order
pub record Committing : Type 0 where
  pub held : List LockRequest
  pub wanted : List LockStep

-- no lock that the commit has is in the way of the request
abbrev pub Lets : LockRequest → Committing → Type 0
Lets r c = All (λ h. conflicts h r ≡ false) c.held

-- One step of one commit, between the others: it takes the next lock when no other commit is in the
-- way, or gives one back, or it has all its locks, does its work, gives them back and is gone. It
-- can give all back, since no row is deleted here: `unlockResource` finds no lock of a deleted row.
pub data Step : List Committing → List Committing → Type 0 where
  acquires :
      (before after : List Committing) (held : List LockRequest) (wanted : List LockStep)
      (r : LockRequest)
      → All (Lets r) before
      → All (Lets r) after
      → Step
          (before ++ record { held = held; wanted = locks r ∷ wanted } ∷ after)
          (before ++ record { held = held ++ r ∷ []; wanted = wanted } ∷ after)
  gives_back :
      (before after : List Committing) (held : List LockRequest) (wanted : List LockStep) (l : Lock)
      → Step
          (before ++ record { held = held; wanted = unlocks l ∷ wanted } ∷ after)
          (before ++ record { held = give_back l held; wanted = wanted } ∷ after)
  finishes :
      (before after : List Committing) (held : List LockRequest)
      → Step (before ++ record { held = held; wanted = [] } ∷ after) (before ++ after)

pub data Run : List Committing → List Committing → Type 0 where
  stays : {cs : List Committing} → Run cs cs
  goes : {cs ds es : List Committing} → Step cs ds → Run ds es → Run cs es

-- the commit goes on in the order of all locks
abbrev pub IsOrderly : Committing → Type 0
IsOrderly c = IsClimbing c.held c.wanted

-- the steps that are left: those that are wanted, and the last one
unfoldable pub steps_left : List Committing → ℕ
steps_left [] = 0
steps_left (c ∷ cs) = suc (length c.wanted + steps_left cs)

steps_left-append :
    (xs ys : List Committing) → steps_left (xs ++ ys) ≡ steps_left xs + steps_left ys
unfolding steps_left
steps_left-append [] ys = omega arith
steps_left-append (x ∷ xs) ys = omega (arith, steps_left-append xs ys)

-- every other commit waits for a lock that is not above the request
abbrev AtMost : LockRequest → Committing → Type 0
AtMost r c =
    (s : LockRequest) × (ws : List LockStep) × (c.wanted ≡ locks s ∷ ws)
    × ((compare_request s r ≡ Ordering.lt) ⊎ (s.lock ≡ r.lock))

-- a commit that is at its end or gives a lock back, or the one that waits for the highest lock
data Choice : List Committing → Type 0 where
  at_end :
      (before after : List Committing) (held : List LockRequest)
      → Choice (before ++ record { held = held; wanted = [] } ∷ after)
  unlocking :
      (before after : List Committing) (held : List LockRequest) (wanted : List LockStep) (l : Lock)
      → Choice (before ++ record { held = held; wanted = unlocks l ∷ wanted } ∷ after)
  highest :
      (before after : List Committing) (held : List LockRequest) (wanted : List LockStep)
      (r : LockRequest)
      → All (AtMost r) before
      → All (AtMost r) after
      → Choice (before ++ record { held = held; wanted = locks r ∷ wanted } ∷ after)

at_most_trans :
    (q r t : LockRequest)
    → (compare_request q r ≡ Ordering.lt) ⊎ (q.lock ≡ r.lock)
    → (compare_request r t ≡ Ordering.lt) ⊎ (r.lock ≡ t.lock)
    → (compare_request q t ≡ Ordering.lt) ⊎ (q.lock ≡ t.lock)
at_most_trans q r t (inl a) (inl b) = inl (lock-IsOrder.less q.lock r.lock t.lock a b)
at_most_trans q r t (inl a) (inr e) = inl (rw e at a)
at_most_trans q r t (inr e) (inl b) = inl (rw (← e) at b)
at_most_trans q r t (inr e) (inr f) = inr (e ∙ f)

AtMost-above :
    (r t : LockRequest) (c : Committing)
    → (compare_request r t ≡ Ordering.lt) ⊎ (r.lock ≡ t.lock)
    → AtMost r c
    → AtMost t c
AtMost-above r t c rt (s, ws, e, sr) = (s, ws, e, at_most_trans s r t sr rt)

choose_between :
    (held : List LockRequest) (wanted : List LockStep) (r : LockRequest) (cs : List Committing)
    → Choice cs
    → Choice (record { held = held; wanted = locks r ∷ wanted } ∷ cs)
choose_between held wanted r cs (at_end before after h) =
    at_end (record { held = held; wanted = locks r ∷ wanted } ∷ before) after h
choose_between held wanted r cs (unlocking before after h ws l) =
    unlocking (record { held = held; wanted = locks r ∷ wanted } ∷ before) after h ws l
choose_between held wanted r cs (highest before after h ws t hb ha) =
    elim (Ordering-cases (compare_request r t)) [
      | inl lt ↦
          highest (record { held = held; wanted = locks r ∷ wanted } ∷ before) after h ws t
            ((r, wanted, refl, inl lt), hb) ha
      | inr (inl eq) ↦
          highest (record { held = held; wanted = locks r ∷ wanted } ∷ before) after h ws t
            ((r, wanted, refl, inr (lock-IsOrder.equal r.lock t.lock eq)), hb) ha
      | inr (inr gt) ↦
          let up : (compare_request t r ≡ Ordering.lt) ⊎ (t.lock ≡ r.lock) =
            inl (lock-IsOrder.turn_back r.lock t.lock gt) in
          highest [] (before ++ record { held = h; wanted = locks t ∷ ws } ∷ after) held wanted r tt
            (All-append (AtMost r) before (record { held = h; wanted = locks t ∷ ws } ∷ after)
              (All-map before (λ c k. AtMost-above t r c up k) hb)
              ((t, ws, refl, up), All-map after (λ c k. AtMost-above t r c up k) ha))
    ]

choose :
    (held : List LockRequest) (wanted : List LockStep) (cs : List Committing)
    → Choice (record { held = held; wanted = wanted } ∷ cs)
choose held [] cs = at_end [] cs held
choose held (unlocks l ∷ ws) cs = unlocking [] cs held ws l
choose held (locks r ∷ ws) [] = highest [] [] held ws r tt tt
choose held (locks r ∷ ws) (c ∷ cs) = choose_between held ws r (c ∷ cs) (choose c.held c.wanted cs)

no_conflict :
    (h s r : LockRequest)
    → compare_request h s ≡ Ordering.lt
    → (compare_request s r ≡ Ordering.lt) ⊎ (s.lock ≡ r.lock)
    → conflicts h r ≡ false
unfolding conflicts
no_conflict h s r a (inl b) = rw (lock-IsOrder.less h.lock s.lock r.lock a b) refl
no_conflict h s r a (inr e) = rw (rw e at a) refl

-- a commit that waits for a lock not above the request has none that is in its way
AtMost-Lets : (r : LockRequest) (c : Committing) → IsOrderly c → AtMost r c → Lets r c
unfolding IsClimbing
AtMost-Lets r c o (s, ws, e, sr) =
    All-map c.held (λ h k. no_conflict h s r k sr) (subst (IsClimbing c.held) e o).0

let-All :
    (r : LockRequest) (cs : List Committing)
    → All IsOrderly cs
    → All (AtMost r) cs
    → All (Lets r) cs
let-All r [] o h = tt
let-All r (c ∷ cs) o h = (AtMost-Lets r c o.0 h.0, let-All r cs o.1 h.1)

All-split :
    (P : Committing → Type 0) (xs ys : List Committing) → All P (xs ++ ys) → All P xs × All P ys
All-split P [] ys h = (tt, h)
All-split P (x ∷ xs) ys h = let (hx, hy) = All-split P xs ys h.1 in ((h.0, hx), hy)

-- what a step leaves: orderly commits, and one step fewer
Step-IsOrderly :
    {cs ds : List Committing}
    → Step cs ds
    → All IsOrderly cs
    → All IsOrderly ds × (suc (steps_left ds) ≡ steps_left cs)
unfolding steps_left IsClimbing
Step-IsOrderly (acquires before after held wanted r lb la) o =
    let now : Committing = record { held = held; wanted = locks r ∷ wanted } in
    let next : Committing = record { held = held ++ r ∷ []; wanted = wanted } in
    let (ob, (oc, oa)) = All-split IsOrderly before (now ∷ after) o in
    (
      All-append IsOrderly before (next ∷ after) ob (oc.1, oa),
      omega
          (arith, steps_left-append before (now ∷ after), steps_left-append before (next ∷ after)),
    )
Step-IsOrderly (gives_back before after held wanted l) o =
    let now : Committing = record { held = held; wanted = unlocks l ∷ wanted } in
    let next : Committing = record { held = give_back l held; wanted = wanted } in
    let (ob, (oc, oa)) = All-split IsOrderly before (now ∷ after) o in
    (
      All-append IsOrderly before (next ∷ after) ob (oc.1, oa),
      omega
          (arith, steps_left-append before (now ∷ after), steps_left-append before (next ∷ after)),
    )
Step-IsOrderly (finishes before after held) o =
    let now : Committing = record { held = held; wanted = [] } in
    let (ob, (oc, oa)) = All-split IsOrderly before (now ∷ after) o in
    (
      All-append IsOrderly before after ob oa,
      omega (arith, steps_left-append before (now ∷ after), steps_left-append before after),
    )

-- Of orderly commits one can make a step: one that is at its end or gives a lock back, or the one that waits for the highest
-- lock, which no other has.
can_step :
    {cs : List Committing} → Choice cs → All IsOrderly cs → (ds : List Committing) × Step cs ds
can_step (at_end before after held) o = (before ++ after, finishes before after held)
can_step (unlocking before after held wanted l) o = (
  before ++ record { held = give_back l held; wanted = wanted } ∷ after,
  gives_back before after held wanted l,
)
can_step (highest before after held wanted r hb ha) o =
    let now : Committing = record { held = held; wanted = locks r ∷ wanted } in
    let (ob, (oc, oa)) = All-split IsOrderly before (now ∷ after) o in
    (
      before ++ record { held = held ++ r ∷ []; wanted = wanted } ∷ after,
      acquires before after held wanted r (let-All r before ob hb) (let-All r after oa ha),
    )

finish_within : (n : ℕ) (cs : List Committing) → steps_left cs ≤ n → All IsOrderly cs → Run cs []
unfolding steps_left
finish_within n [] le o = stays
finish_within zero (c ∷ cs) le o = ground arith
finish_within (suc n) (c ∷ cs) le o =
    let (ds, step) = can_step (choose c.held c.wanted cs) o in
    let (od, fewer) = Step-IsOrderly step o in goes step (finish_within n ds (omega arith) od)

Run-IsOrderly : {cs ds : List Committing} → Run cs ds → All IsOrderly cs → All IsOrderly ds
Run-IsOrderly stays o = o
Run-IsOrderly (goes step run) o = Run-IsOrderly run (Step-IsOrderly step o).0

-- after any steps of orderly commits they can all finish
pub orderly_finish : {cs ds : List Committing} → All IsOrderly cs → Run cs ds → Run ds []
orderly_finish {ds = ds} o run =
    finish_within (steps_left ds) ds (omega arith) (Run-IsOrderly run o)
