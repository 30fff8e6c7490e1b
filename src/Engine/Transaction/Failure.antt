-- ===== src/Engine/Transaction/Failure.antt =====
-- engine.go, `commit`: a commit that fails leaves the committed rows.
use nestory.Common.{
  some_ne_none, ◌≡◌, refl, sym, ap, ◌∙◌, subst, inl, inr, Bool, true, false, ◌&&◌, not, Option,
  none, some, List, [], ◌∷◌, if◌then◌else◌, Bool-cases, Option-cases,
}
use nestory.Common.Bytes.{Bytes}
use nestory.Common.Int.{ℤ}
use nestory.Wal.Log.{Device}
use nestory.Relations.Node.{NodeKey, node_equality}
use nestory.Engine.Writes.{PendingWrite, CommitError}
use nestory.Engine.Resources.{TouchedResource}
use nestory.Engine.Single.{SingleError, conflict, not_logged, commit_single_write}
use nestory.Engine.Single.Laws.{commit_single_write-error}
use nestory.Engine.Transaction.Rows.{row_of}
use nestory.Engine.Transaction.Commit.{
  validate_transaction_indexes, commit_one, commit_changes, commit_checked, commit_kept,
  any_key_changed, commit_changed, commit, is_structural, single_error, evicted,
}
use nestory.Engine.Transaction.{
  Transaction, Store, TransactionError, expired, key_changed, index_refused, not_durable, keys,
  Changes, copy_resources, changed_resources, transaction_changes, log_transaction_changes,
  find_existing, are_current, deletes_current, apply_writes, apply_creates, apply_deletes,
}
use nestory.Engine.Transaction.Checks.{log_transaction_changes-row}

module _ {A : Type 0} where
  module _ (id_of : A → ℤ) (same : A → A → Bool) (encode : A → Option Bytes) (d : Device)
      (has_secondary_indexes : Bytes → Bool)
      (validate_indexes : Bytes → List (PendingWrite (Option A)) → Bool) (store : Store A)
      (tx : Transaction A) where
    abbrev changes : List (TouchedResource A) → Changes A
    changes resources = transaction_changes resources tx.creates (keys tx.deletes)

    abbrev after_log : List (TouchedResource A) → Store A × Option CommitError
    after_log resources = log_transaction_changes encode d store (changes resources)

    abbrev valid : List (TouchedResource A) → Bool
    valid resources =
        validate_transaction_indexes id_of same encode d has_secondary_indexes validate_indexes
          (changes resources)

    abbrev Outcome : Type 0
    Outcome = Store A × Transaction A × Option TransactionError

    abbrev changes_outcome : List (TouchedResource A) → Outcome
    changes_outcome resources =
        commit_changes id_of same encode d has_secondary_indexes validate_indexes store tx resources

    abbrev checked_outcome : List (TouchedResource A) → Outcome
    checked_outcome resources =
        commit_checked id_of same encode d has_secondary_indexes validate_indexes store tx resources

    abbrev one_outcome : TouchedResource A → Outcome
    one_outcome r = commit_one id_of same encode d has_secondary_indexes validate_indexes store tx r

    abbrev outcome : Outcome
    outcome = commit id_of same encode d has_secondary_indexes validate_indexes store tx

    -- an error leaves the rows
    abbrev KeepsRows : Outcome → Type 0
    KeepsRows r =
        (e : TransactionError) (key : NodeKey)
        → r.2 ≡ some e
        → row_of r.0.tables key ≡ row_of store.tables key

    pub refused :
        (resources : List (TouchedResource A))
        → valid resources ≡ false
        → changes_outcome resources ≡ (store, tx, some index_refused)
    unfolding commit_changes
    refused resources h = rw (commit_changes, h) refl

    pub unlogged :
        (resources : List (TouchedResource A)) (x : CommitError)
        → valid resources ≡ true
        → (after_log resources).1 ≡ some x
        → changes_outcome resources ≡ ((after_log resources).0, tx, some (not_durable x))
    unfolding commit_changes
    unlogged resources x h k = rw (commit_changes, h, k) refl

    pub applied :
        (resources : List (TouchedResource A))
        → valid resources ≡ true
        → (after_log resources).1 ≡ none
        → changes_outcome resources ≡ (
          record (after_log resources).0 {
            tables =
                apply_deletes (keys tx.deletes) (
                  apply_creates tx.creates (apply_writes resources (after_log resources).0.tables));
          },
          evicted tx,
          none,
        )
    unfolding commit_changes
    applied resources h k = rw (commit_changes, h, k) refl

    changes_outcome-KeepsRows :
        (resources : List (TouchedResource A)) → KeepsRows (changes_outcome resources)
    changes_outcome-KeepsRows resources e key h = elim (Bool-cases (valid resources)) [
      | inr bad ↦ rw (refused resources bad) refl
      | inl good ↦ elim (Option-cases (after_log resources).1) [
        | inr (x, k) ↦
            rw (unlogged resources x good k)
              (log_transaction_changes-row encode d store (changes resources) key)
        | inl k ↦ absurd (some_ne_none (sym h ∙ ap (λ r. r.2) (applied resources good k)))
      ]
    ]

    checked_outcome-KeepsRows :
        (resources : List (TouchedResource A)) → KeepsRows (checked_outcome resources)
    unfolding commit_checked
    checked_outcome-KeepsRows resources e key h =
        elim (Option-cases (find_existing store.tables (keys tx.creates))) [
          | inr (x, present) ↦ rw (commit_checked, present) refl
          | inl absent ↦ elim (Bool-cases (are_current store.tables resources)) [
            | inr stale ↦ rw (commit_checked, absent, stale) refl
            | inl current ↦
                elim (Bool-cases (deletes_current store.tables (keys tx.creates) tx.deletes)) [
                  | inr stale ↦ rw (commit_checked, absent, current, stale) refl
                  | inl deletable ↦
                      rw (commit_checked, absent, current, deletable)
                        (changes_outcome-KeepsRows resources e key
                          (rw (commit_checked, absent, current, deletable) at h))
                ]
          ]
        ]

    single_error-some :
        (o : Option SingleError) (e : TransactionError)
        → single_error o ≡ some e
        → (x : SingleError) × (o ≡ some x)
    single_error-some none e h = absurd (some_ne_none (sym h))
    single_error-some (some x) e h = (x, refl)

    pub single_error-none : (o : Option SingleError) → single_error o ≡ none → o ≡ none
    single_error-none none h = refl
    single_error-none (some conflict) h = absurd (some_ne_none h)
    single_error-none (some (not_logged e)) h = absurd (some_ne_none h)

    one_outcome-KeepsRows : (r : TouchedResource A) → KeepsRows (one_outcome r)
    unfolding commit_one
    one_outcome-KeepsRows r e key h =
        let (x, k) =
          single_error-some (commit_single_write encode d store.tables tx.state r).2 e h in
        ap (λ rows. rows key.id)
          (commit_single_write-error encode d store.tables tx.state r x key.typ k)

    commit_kept-KeepsRows :
        (resources : List (TouchedResource A))
        → KeepsRows (
            commit_kept id_of same encode d has_secondary_indexes validate_indexes store tx
              resources)
    unfolding commit_kept
    commit_kept-KeepsRows [] e key h = elim (Bool-cases (is_structural tx)) [
      | inl some_node ↦
          rw (commit_kept, some_node)
            (checked_outcome-KeepsRows [] e key (rw (commit_kept, some_node) at h))
      | inr plain ↦ rw (commit_kept, plain) refl
    ]
    commit_kept-KeepsRows (r ∷ []) e key h =
        elim (Bool-cases (not (is_structural tx) && not (has_secondary_indexes r.db_name))) [
          | inl one ↦
              rw (commit_kept, one) (one_outcome-KeepsRows r e key (rw (commit_kept, one) at h))
          | inr several ↦
              rw (commit_kept, several)
                (checked_outcome-KeepsRows (r ∷ []) e key (rw (commit_kept, several) at h))
        ]
    commit_kept-KeepsRows (r ∷ s ∷ resources) e key h =
        checked_outcome-KeepsRows (r ∷ s ∷ resources) e key h

    abbrev changed : List (TouchedResource A)
    changed = changed_resources same (copy_resources tx.state)

    abbrev changed_outcome : Outcome
    changed_outcome =
        commit_changed id_of same encode d has_secondary_indexes validate_indexes store tx changed

    abbrev kept_outcome : Outcome
    kept_outcome =
        commit_kept id_of same encode d has_secondary_indexes validate_indexes store tx changed

    pub same_keys_outcome :
        any_key_changed id_of same encode d has_secondary_indexes validate_indexes changed ≡ false
        → changed_outcome ≡ kept_outcome
    unfolding commit_changed
    same_keys_outcome h = ap (λ b. if b then (store, tx, some key_changed) else kept_outcome) h

    pub key_changed_outcome :
        any_key_changed id_of same encode d has_secondary_indexes validate_indexes changed ≡ true
        → changed_outcome ≡ (store, tx, some key_changed)
    unfolding commit_changed
    key_changed_outcome h = ap (λ b. if b then (store, tx, some key_changed) else kept_outcome) h

    changed_outcome-KeepsRows : KeepsRows changed_outcome
    changed_outcome-KeepsRows e key h =
        elim (Bool-cases
          (any_key_changed id_of same encode d has_secondary_indexes validate_indexes changed)) [
            | inl other ↦ ap (λ r. row_of r.0.tables key) (key_changed_outcome other)
            | inr kept ↦
                subst (λ r. row_of r.0.tables key ≡ row_of store.tables key)
                  (sym (same_keys_outcome kept))
                  (commit_kept-KeepsRows changed e key
                    (ap (λ r. r.2) (sym (same_keys_outcome kept)) ∙ h))
          ]

    pub active_outcome : tx.active ≡ true → outcome ≡ changed_outcome
    unfolding commit
    active_outcome h =
        ap (λ active. if active then changed_outcome else (store, tx, some expired)) h

    pub over_outcome : tx.active ≡ false → outcome ≡ (store, tx, some expired)
    unfolding commit
    over_outcome h = ap (λ active. if active then changed_outcome else (store, tx, some expired)) h

    -- A commit that changes no relation and returns an error changes no committed row of any
    -- table.
    pub commit-error :
        (e : TransactionError) (key : NodeKey)
        → (commit id_of same encode d has_secondary_indexes validate_indexes store tx).2 ≡ some e
        → row_of
            (commit id_of same encode d has_secondary_indexes validate_indexes store tx).0.tables
            key
          ≡ row_of store.tables key
    commit-error e key h = elim (Bool-cases tx.active) [
      | inl active ↦
          subst (λ r. row_of r.0.tables key ≡ row_of store.tables key) (sym (active_outcome active))
            (changed_outcome-KeepsRows e key (ap (λ r. r.2) (sym (active_outcome active)) ∙ h))
      | inr over ↦ ap (λ r. row_of r.0.tables key) (over_outcome over)
    ]
