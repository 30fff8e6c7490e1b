-- ===== src/Engine/Transaction/Commit.antt =====
-- engine.go: the steps of `commit` where `graphChanged` is false.
use nestory.Common.{
  Bool, true, false, ◌&&◌, ◌||◌, not, Option, none, some, List, [], ◌∷◌, ◌==◌, if◌then◌else◌,
  length,
}
use nestory.Common.Bytes.{Bytes}
use nestory.Common.Int.{ℤ}
use nestory.Wal.Log.{Device}
use nestory.Relations.Node.{node_equality}
use nestory.Relations.Model.{bytes_equality}
use nestory.Engine.Writes.{PendingWrite}
use nestory.Engine.Resources.{TouchedResource}
use nestory.Engine.Single.{SingleError, conflict, not_logged, refresh, evict, commit_single_write}
use nestory.SecondaryIndex.Value.{compare_int}
use nestory.SecondaryIndex.Search.{is_equal}
use nestory.Engine.Transaction.{
  Transaction, Store, TransactionError, expired, key_changed, already_exists, not_current,
  index_refused, not_durable, keys, Changes, copy_resources, changed_resources, transaction_changes,
  log_transaction_changes, find_existing, are_current, deletes_current, apply_writes, apply_creates,
  apply_deletes,
}

abbrev pub single_error : Option SingleError → Option TransactionError
single_error none = none
single_error (some conflict) = some not_current
single_error (some (not_logged e)) = some (not_durable e)

module _ {A : Type 0} where
  abbrev pub evicted : Transaction A → Transaction A
  evicted tx = record { active = false; state = evict tx.state; creates = []; deletes = [] }

  abbrev pub is_structural : Transaction A → Bool
  is_structural tx = not (length tx.creates == 0) || not (length tx.deletes == 0)

-- `GetId`, `hasSecondaryIndexes` and `validateIndexes` are given
module _ {A : Type 0} (id_of : A → ℤ) (same : A → A → Bool) (encode : A → Option Bytes) (d : Device)
    (has_secondary_indexes : Bytes → Bool)
    (validate_indexes : Bytes → List (PendingWrite (Option A)) → Bool) where
  unfoldable pub validate_transaction_indexes : Changes A → Bool
  validate_transaction_indexes [] = true
  validate_transaction_indexes ((name, items) ∷ changes) =
      validate_indexes name items && validate_transaction_indexes changes

  -- a write of one entity of a table without secondary indexes
  unfoldable pub commit_one :
      Store A
      → Transaction A
      → TouchedResource A
      → Store A × Transaction A × Option TransactionError
  unfolding commit_single_write
  commit_one store tx r =
      let (tables, state, e) = commit_single_write encode d store.tables tx.state r in
      (
        record store { tables = tables },
        elim e [ none ↦ evicted tx | some x ↦ record tx { state = state } ],
        single_error e,
      )

  -- what follows the checks of the versions
  unfoldable pub commit_changes :
      Store A
      → Transaction A
      → List (TouchedResource A)
      → Store A × Transaction A × Option TransactionError
  unfolding transaction_changes validate_transaction_indexes log_transaction_changes apply_writes
      apply_creates apply_deletes evict
  commit_changes store tx resources =
      let changes = transaction_changes resources tx.creates (keys tx.deletes) in
      let (logged, e) = log_transaction_changes encode d store changes in
      if not (validate_transaction_indexes changes)
      then (store, tx, some index_refused)
      else elim e [
        | some x ↦ (logged, tx, some (not_durable x))
        | none ↦ (
          record logged {
            tables =
                apply_deletes (keys tx.deletes)
                  (apply_creates tx.creates (apply_writes resources logged.tables));
          },
          evicted tx,
          none,
        )
      ]

  -- the checks of the nodes to create and of the versions
  unfoldable pub commit_checked :
      Store A
      → Transaction A
      → List (TouchedResource A)
      → Store A × Transaction A × Option TransactionError
  unfolding find_existing are_current deletes_current refresh commit_changes
  commit_checked store tx resources = elim (find_existing store.tables (keys tx.creates)) [
    | some key ↦ (store, tx, some (already_exists key))
    | none ↦
        if not (are_current store.tables resources)
        then (store, record tx { state = refresh store.tables tx.state }, some not_current)
        else if not (deletes_current store.tables (keys tx.creates) tx.deletes)
        then (store, tx, some not_current)
        else commit_changes store tx resources
  ]

  unfoldable pub commit_kept :
      Store A
      → Transaction A
      → List (TouchedResource A)
      → Store A × Transaction A × Option TransactionError
  unfolding commit_one commit_checked
  commit_kept store tx [] =
      if is_structural tx then commit_checked store tx [] else (store, evicted tx, none)
  commit_kept store tx (r ∷ []) =
      if not (is_structural tx) && not (has_secondary_indexes r.db_name)
      then commit_one store tx r
      else commit_checked store tx (r ∷ [])
  commit_kept store tx (r ∷ s ∷ resources) = commit_checked store tx (r ∷ s ∷ resources)

  -- the part of `resourcesChangeRelationGraph` that comes to an error
  unfoldable pub any_key_changed : List (TouchedResource A) → Bool
  unfolding compare_int
  any_key_changed [] = false
  any_key_changed (r ∷ resources) =
      not (is_equal (compare_int (id_of r.original) (id_of r.work))) || any_key_changed resources

  unfoldable pub commit_changed :
      Store A
      → Transaction A
      → List (TouchedResource A)
      → Store A × Transaction A × Option TransactionError
  unfolding any_key_changed commit_kept
  commit_changed store tx resources =
      if any_key_changed resources
      then (store, tx, some key_changed)
      else commit_kept store tx resources

  unfoldable pub commit :
      Store A → Transaction A → Store A × Transaction A × Option TransactionError
  unfolding copy_resources changed_resources commit_changed
  commit store tx =
      if tx.active
      then commit_changed store tx (changed_resources same (copy_resources tx.state))
      else (store, tx, some expired)
