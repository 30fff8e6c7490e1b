-- ===== src/Engine/Transaction/Checked.antt =====
-- engine.go, `commit`: what the steps behind the checks leave when they do not fail.
use nestory.Common.{
  some_ne_none, ◌≡◌, refl, sym, ap, ◌∙◌, subst, inl, inr, Bool, true, false, Option, none, List,
  map, if◌then◌else◌, Bool-cases, Option-cases, All,
}
use nestory.Common.Bytes.{Bytes}
use nestory.Common.Int.{ℤ}
use nestory.Common.Maps.{find}
use nestory.Wal.Log.{Device}
use nestory.Relations.Node.{NodeKey, has_node, node_equality}
use nestory.Engine.Writes.{PendingWrite, CommitError}
use nestory.Engine.Resources.{TouchedResource}
use nestory.Engine.Locks.Sorted.{AreDistinct}
use nestory.Engine.Single.{Row}
use nestory.Engine.Transaction.Rows.{
  node_of, row_of, written_work, written_row, created_row, apply_writes-row, apply_creates-row,
  apply_deletes-row,
}
use nestory.Engine.Transaction.Commit.{
  validate_transaction_indexes, commit_one, commit_changes, commit_checked, commit_kept, commit,
}
use nestory.Engine.Transaction.{
  Transaction, Store, TransactionError, keys, Changes, copy_resources, changed_resources,
  transaction_changes, log_transaction_changes, find_existing, are_current, deletes_current,
  apply_writes, apply_creates, apply_deletes,
}
use nestory.Engine.Transaction.Checks.{
  log_transaction_changes-row, IsCurrent, are_current-IsCurrent, find_existing-none, IsDeletable,
  deletes_current-IsDeletable,
}
use nestory.Engine.Transaction.Failure.{refused, unlogged, applied}

module _ {A : Type 0} where
  -- the row of a node after the commit: none if it was deleted, the created one, the one with the
  -- work copy and the next version, or the one of before
  abbrev pub committed_row :
      Transaction A → List (TouchedResource A) → NodeKey → Option (Row A) → Option (Row A)
  committed_row tx resources key row =
      if has_node key (keys tx.deletes)
      then none
      else created_row (find key tx.creates) (written_row (written_work key resources) row)

  pub record CommitOutcome (before : Store A) (tx : Transaction A)
      (resources : List (TouchedResource A))
      (after : Store A × Transaction A × Option TransactionError) : Type 0 where
    pub current : All (IsCurrent before.tables) resources
    pub absent : All (λ key. row_of before.tables key ≡ none) (keys tx.creates)
    pub deletable : All (IsDeletable before.tables (keys tx.creates)) tx.deletes
    pub row :
        (key : NodeKey)
        → row_of after.0.tables key ≡ committed_row tx resources key (row_of before.tables key)
    pub over : after.1.active ≡ false

  module _ (id_of : A → ℤ) (same : A → A → Bool) (encode : A → Option Bytes) (d : Device)
      (has_secondary_indexes : Bytes → Bool)
      (validate_indexes : Bytes → List (PendingWrite (Option A)) → Bool) (store : Store A)
      (tx : Transaction A) where
    abbrev changes : List (TouchedResource A) → Changes A
    changes resources = transaction_changes resources tx.creates (keys tx.deletes)

    abbrev after_log : List (TouchedResource A) → Store A × Option CommitError
    after_log resources = log_transaction_changes encode d store (changes resources)

    abbrev valid : List (TouchedResource A) → Bool
    valid resources =
        validate_transaction_indexes id_of same encode d has_secondary_indexes validate_indexes
          (changes resources)

    abbrev Outcome : Type 0
    Outcome = Store A × Transaction A × Option TransactionError

    abbrev changes_outcome : List (TouchedResource A) → Outcome
    changes_outcome resources =
        commit_changes id_of same encode d has_secondary_indexes validate_indexes store tx resources

    abbrev checked_outcome : List (TouchedResource A) → Outcome
    checked_outcome resources =
        commit_checked id_of same encode d has_secondary_indexes validate_indexes store tx resources

    abbrev one_outcome : TouchedResource A → Outcome
    one_outcome r = commit_one id_of same encode d has_secondary_indexes validate_indexes store tx r

    abbrev outcome : Outcome
    outcome = commit id_of same encode d has_secondary_indexes validate_indexes store tx

    abbrev changed : List (TouchedResource A)
    changed = changed_resources same (copy_resources tx.state)

    abbrev changed_outcome : Outcome
    changed_outcome =
        commit_kept id_of same encode d has_secondary_indexes validate_indexes store tx changed

    abbrev Commits : List (TouchedResource A) → Outcome → Type 0
    Commits resources r = r.2 ≡ none → CommitOutcome store tx resources r

    changes_row :
        (resources : List (TouchedResource A)) (key : NodeKey)
        → AreDistinct (map node_of resources)
        → AreDistinct (keys tx.creates)
        → row_of
            (apply_deletes
              (keys tx.deletes)
              (apply_creates tx.creates (apply_writes resources (after_log resources).0.tables)))
            key
          ≡ committed_row tx resources key (row_of store.tables key)
    changes_row resources key writes creates =
        apply_deletes-row (keys tx.deletes) _ key
        ∙ ap (λ (row : Option (Row A)). if has_node key (keys tx.deletes) then none else row)
            (apply_creates-row tx.creates _ key creates
              ∙ ap (created_row (find key tx.creates)) (
                  apply_writes-row resources (after_log resources).0.tables key writes
                  ∙ ap (written_row (written_work key resources))
                      (log_transaction_changes-row encode d store (changes resources) key)))

    changes_done :
        (resources : List (TouchedResource A))
        → (changes_outcome resources).2 ≡ none
        → (valid resources ≡ true) × ((after_log resources).1 ≡ none)
    changes_done resources h = elim (Bool-cases (valid resources)) [
      | inr bad ↦ absurd (
          some_ne_none (
            sym (
              ap (λ r. r.2)
                (refused id_of same encode d has_secondary_indexes validate_indexes store tx
                  resources bad))
            ∙ h))
      | inl good ↦ elim (Option-cases (after_log resources).1) [
        | inl k ↦ (good, k)
        | inr (x, k) ↦ absurd (
            some_ne_none (
              sym (
                ap (λ r. r.2)
                  (unlogged id_of same encode d has_secondary_indexes validate_indexes store tx
                    resources x good k))
              ∙ h))
      ]
    ]

    changes_outcome-CommitOutcome :
        (resources : List (TouchedResource A))
        → AreDistinct (map node_of resources)
        → AreDistinct (keys tx.creates)
        → find_existing store.tables (keys tx.creates) ≡ none
        → are_current store.tables resources ≡ true
        → deletes_current store.tables (keys tx.creates) tx.deletes ≡ true
        → Commits resources (changes_outcome resources)
    changes_outcome-CommitOutcome resources writes creates absent current deletable h =
        let (good, k) = changes_done resources h in
        subst (CommitOutcome store tx resources)
          (sym (
            applied id_of same encode d has_secondary_indexes validate_indexes store tx resources
              good k))
          (record {
            current = are_current-IsCurrent store.tables resources current;
            absent = find_existing-none store.tables (keys tx.creates) absent;
            deletable =
                deletes_current-IsDeletable store.tables (keys tx.creates) tx.deletes deletable;
            row = λ key. changes_row resources key writes creates;
            over = refl;
          })

    pub checked_outcome-CommitOutcome :
        (resources : List (TouchedResource A))
        → AreDistinct (map node_of resources)
        → AreDistinct (keys tx.creates)
        → Commits resources (checked_outcome resources)
    unfolding commit_checked
    checked_outcome-CommitOutcome resources writes creates h =
        elim (Option-cases (find_existing store.tables (keys tx.creates))) [
          | inr (x, present) ↦ absurd (some_ne_none (rw (commit_checked, present) at h))
          | inl absent ↦ elim (Bool-cases (are_current store.tables resources)) [
            | inr stale ↦ absurd (some_ne_none (rw (commit_checked, absent, stale) at h))
            | inl current ↦
                elim (Bool-cases (deletes_current store.tables (keys tx.creates) tx.deletes)) [
                  | inr stale ↦
                      absurd (some_ne_none (rw (commit_checked, absent, current, stale) at h))
                  | inl deletable ↦
                      rw (commit_checked, absent, current, deletable)
                        (changes_outcome-CommitOutcome resources writes creates absent current
                          deletable (rw (commit_checked, absent, current, deletable) at h))
                ]
          ]
        ]
