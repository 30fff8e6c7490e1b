-- ===== src/Queues/Taken.antt =====
-- persist.go, relation_runtime.go: an id that `queueCreate` gives although the queue has it.
use nestory.Common.{
  ℕ, suc, ◌+◌, ◌^◌, ◌<◌, ◌≡◌, refl, ap, ◌∙◌, subst, inl, inr, true, false, Option, none, some, List,
  [], ◌∷◌, ◌++◌, arith, if◌then◌else◌, Bool-cases,
}
use nestory.Common.Int.{ℤ, pos}
use nestory.SecondaryIndex.Value.{compare_int, int-IsOrder}
use nestory.Queues.{
  PersistEntity, IdTable, PersistError, already_exists, same_id, contains_id, put_id, add_entity,
  queue_create, relation_apply_pending, apply_each,
}
use nestory.Queues.Ids.{next_int-pos}

same_id_refl : (id : ℤ) → same_id id id ≡ true
unfolding same_id
same_id_refl id = rw (int-IsOrder.same id) refl

contains_id-last : (id : ℤ) (ids : List ℤ) → contains_id id (ids ++ id ∷ []) ≡ true
unfolding contains_id
contains_id-last id [] = rw (same_id_refl id) refl
contains_id-last id (other ∷ ids) = elim (Bool-cases (same_id id other)) [
  | inl same ↦ rw same refl
  | inr differs ↦ rw differs (contains_id-last id ids)
]

put_id-contains_id : (id : ℤ) (ids : List ℤ) → contains_id id (put_id id ids) ≡ true
unfolding put_id
put_id-contains_id id ids = elim (Bool-cases (contains_id id ids)) [
  | inl there ↦ rw (there, there) refl
  | inr absent ↦ rw absent (contains_id-last id ids)
]

next-same_id : (c : ℕ) → same_id (pos (suc c)) (pos 0) ≡ false
unfolding same_id compare_int
next-same_id c = ground arith

module _ {A : Type 0} where
  -- the second of two entities with one id is refused
  twice :
      (e f : PersistEntity A) (t : IdTable A)
      → e.id ≡ f.id
      → contains_id e.id t.res_by_id ≡ false
      → apply_each (e ∷ f ∷ []) t ≡ (add_entity e t, some (already_exists f.id))
  unfolding apply_each add_entity
  twice e f t same absent =
      let second : contains_id f.id (put_id e.id t.res_by_id) ≡ true =
        subst (λ id. contains_id id (put_id e.id t.res_by_id) ≡ true) same
          (put_id-contains_id e.id t.res_by_id) in
      let again : IdTable A × Option PersistError =
        if contains_id f.id (put_id e.id t.res_by_id)
        then (add_entity e t, some (already_exists f.id))
        else (add_entity f (add_entity e t), none) in
      ap (λ b. if b then (t, some (already_exists e.id)) else again) absent
      ∙ ap
          (λ b.
            if b
            then (add_entity e t, some (already_exists f.id))
            else (add_entity f (add_entity e t), none))
          second

  module _ (c : ℕ) (live : List (PersistEntity A)) (ids deletes : List ℤ) (a b : A) where
    abbrev pub table : ℤ → List (PersistEntity A) → IdTable A
    table counter queue = record {
      counter = counter;
      live = live;
      res_by_id = ids;
      persist_queue = queue;
      delete_queue = deletes;
    }

    abbrev pub own : PersistEntity A
    own = record { id = pos (suc c); fields = a }

    abbrev pub unnamed : PersistEntity A
    unnamed = record { id = pos 0; fields = b }

    abbrev pub numbered : PersistEntity A
    numbered = record { id = pos (suc c); fields = b }

    queue_own :
        contains_id (pos (suc c)) ids ≡ false
        → queue_create own (table (pos c) []) ≡ table (pos c) (own ∷ [])
    unfolding queue_create contains_id
    queue_own absent = rw (queue_create, next-same_id c, absent) refl

    queue_unnamed :
        c + 1 < 2 ^ 63
        → queue_create unnamed (table (pos c) (own ∷ []))
          ≡ table (pos (suc c)) (own ∷ numbered ∷ [])
    unfolding queue_create same_id compare_int
    queue_unnamed small =
        ap (λ id. table id (own ∷ record { id = id; fields = b } ∷ [])) (next_int-pos c small)

    -- If queueCreate takes an entity whose id is the one after the counter, which is not in the table,
    -- and then one without an id, the second is given the id of the first. The queue can then not be
    -- applied: the first is added to the table, and the second is refused since its id exists.
    pub relation_apply_pending-queue_create :
        c + 1 < 2 ^ 63
        → contains_id (pos (suc c)) ids ≡ false
        → relation_apply_pending (queue_create unnamed (queue_create own (table (pos c) []))) ≡ (
          add_entity own (table (pos (suc c)) (own ∷ numbered ∷ [])),
          some (already_exists (pos (suc c))),
        )
    unfolding relation_apply_pending
    relation_apply_pending-queue_create small absent =
        ap (λ t. relation_apply_pending (queue_create unnamed t)) (queue_own absent)
        ∙ ap relation_apply_pending (queue_unnamed small)
        ∙ twice own numbered (table (pos (suc c)) (own ∷ numbered ∷ [])) refl absent
