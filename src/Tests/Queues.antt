-- ===== src/Tests/Queues.antt =====
-- persist.go, relation_runtime.go: ids that are given to new entities.
use nestory.Common.{
  ℕ, suc, ◌-◌, ◌^◌, ◌<◌, ◌≡◌, refl, sym, subst, ◌≢◌, false, none, some, List, [], ◌∷◌, arith, All,
}
use nestory.Common.Int.{ℤ, pos}
use nestory.Queues.{
  PersistEntity, IdTable, already_exists, contains_id, open_table, queue_create, queue_delete,
  relation_apply_pending, relation_prepare_create, add_entity, ids_of, not_found,
}
use nestory.Queues.Ids.{IsAtMost}
use nestory.Queues.Fresh.{opened, prepared, relation_prepare_create-above}
use nestory.Queues.Taken.{table, relation_apply_pending-queue_create}

abbrev entity : ℤ → PersistEntity ℕ
entity id = record { id = id; fields = 9 }

abbrev loaded : List (PersistEntity ℕ)
loaded = entity (pos 4) ∷ entity (pos 2) ∷ []

abbrev first : IdTable ℕ
first = open_table loaded

abbrev second : IdTable ℕ
second = (relation_prepare_create (entity (pos 7)) first).0

below_end : (c : ℕ) → c < 100 → pos c ≢ pos (2 ^ 63 - 1)
below_end c h e = ground arith

counted : (first.counter ≡ pos 4) × (second.counter ≡ pos 7)
unfolding open_table relation_prepare_create
counted = (refl, refl)

given : (relation_prepare_create (entity (pos 7)) first).2 ≡ none
unfolding open_table relation_prepare_create
given = refl

missing : (queue_delete (pos 3) first).1 ≡ some (not_found (pos 3))
unfolding open_table queue_delete
missing = refl

relation_prepare_create-above_example :
    (most : ℕ) × ((relation_prepare_create (entity (pos 0)) second).1.id ≡ pos (suc most))
    × ((relation_prepare_create (entity (pos 0)) second).2 ≡ none)
    × All (IsAtMost most) ((relation_prepare_create (entity (pos 7)) first).1.id ∷ ids_of loaded)
    × All (IsAtMost most) second.res_by_id
relation_prepare_create-above_example =
    relation_prepare_create-above second
      ((relation_prepare_create (entity (pos 7)) first).1.id ∷ ids_of loaded) (entity (pos 0))
      (prepared (entity (pos 7)) (omega arith)
        (subst (λ c. c ≢ pos (2 ^ 63 - 1)) (sym counted.0) (below_end 4 (omega arith))) given
        (opened loaded (omega arith, (omega arith, tt))))
      refl (subst (λ c. c ≢ pos (2 ^ 63 - 1)) (sym counted.1) (below_end 7 (omega arith)))

free : contains_id (pos 5) (pos 4 ∷ []) ≡ false
unfolding contains_id
free = refl

-- a table whose counter is at 4
abbrev before : ℤ → List (PersistEntity ℕ) → IdTable ℕ
before = table {A = ℕ} 4 [] (pos 4 ∷ []) [] 1 2

abbrev fifth : PersistEntity ℕ
fifth = record { id = pos 5; fields = 1 }

abbrev nameless : PersistEntity ℕ
nameless = record { id = pos 0; fields = 2 }

abbrev fifth_again : PersistEntity ℕ
fifth_again = record { id = pos 5; fields = 2 }

relation_apply_pending-queue_create_example :
    relation_apply_pending (queue_create nameless (queue_create fifth (before (pos 4) [])))
    ≡ (add_entity fifth (before (pos 5) (fifth ∷ fifth_again ∷ [])), some (already_exists (pos 5)))
relation_apply_pending-queue_create_example =
    relation_apply_pending-queue_create {A = ℕ} 4 [] (pos 4 ∷ []) [] 1 2 (omega arith) free
