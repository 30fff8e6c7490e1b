-- ===== src/Engine/Transaction/Success.antt =====
-- engine.go, `commit`: a commit that does not fail replaces the rows of the nodes that the
-- transaction wrote, created and deleted.
use nestory.Common.{
  some_ne_none, ◌≡◌, refl, sym, ap, ◌∙◌, subst, inl, inr, Bool, true, false, ◌&&◌, not, Option,
  none, some, List, [], ◌∷◌, map, arith, if◌then◌else◌, Bool-cases, All,
}
use nestory.Common.Bytes.{Bytes}
use nestory.Common.Int.{ℤ}
use nestory.Common.Maps.{find}
use nestory.Wal.Log.{Device}
use nestory.Relations.Node.{NodeKey, has_node, node_equality, same_node}
use nestory.Engine.Writes.{PendingWrite, CommitError}
use nestory.Engine.Resources.{TouchedResource, TransactionState}
use nestory.Engine.Locks.Sorted.{AreDistinct}
use nestory.Engine.Single.{Row, Tables, SingleError, resource_version, commit_single_write}
use nestory.Engine.Single.Laws.{written, done, found_version}
use nestory.Engine.Transaction.Rows.{
  node_of, row_of, next_row, write-row, written_work, written_row,
}
use nestory.Engine.Transaction.Commit.{
  validate_transaction_indexes, commit_one, commit_changes, commit_checked, commit_kept,
  any_key_changed, commit_changed, commit, is_structural, evicted,
}
use nestory.Engine.Transaction.{
  Transaction, Store, TransactionError, keys, Changes, copy_resources, changed_resources,
  transaction_changes, log_transaction_changes,
}
use nestory.Engine.Transaction.Checks.{
  select-AreDistinct, IsCurrent, IsDeletable, plain-creates, plain-deletes,
}
use nestory.Engine.Transaction.Failure.{
  same_keys_outcome, key_changed_outcome, active_outcome, over_outcome, single_error-none,
}
use nestory.Engine.Transaction.Checked.{committed_row, CommitOutcome, checked_outcome-CommitOutcome}

module _ {A : Type 0} where
  module _ (id_of : A → ℤ) (same : A → A → Bool) (encode : A → Option Bytes) (d : Device)
      (has_secondary_indexes : Bytes → Bool)
      (validate_indexes : Bytes → List (PendingWrite (Option A)) → Bool) (store : Store A)
      (tx : Transaction A) where
    abbrev changes : List (TouchedResource A) → Changes A
    changes resources = transaction_changes resources tx.creates (keys tx.deletes)

    abbrev after_log : List (TouchedResource A) → Store A × Option CommitError
    after_log resources = log_transaction_changes encode d store (changes resources)

    abbrev valid : List (TouchedResource A) → Bool
    valid resources =
        validate_transaction_indexes id_of same encode d has_secondary_indexes validate_indexes
          (changes resources)

    abbrev Outcome : Type 0
    Outcome = Store A × Transaction A × Option TransactionError

    abbrev changes_outcome : List (TouchedResource A) → Outcome
    changes_outcome resources =
        commit_changes id_of same encode d has_secondary_indexes validate_indexes store tx resources

    abbrev checked_outcome : List (TouchedResource A) → Outcome
    checked_outcome resources =
        commit_checked id_of same encode d has_secondary_indexes validate_indexes store tx resources

    abbrev one_outcome : TouchedResource A → Outcome
    one_outcome r = commit_one id_of same encode d has_secondary_indexes validate_indexes store tx r

    abbrev outcome : Outcome
    outcome = commit id_of same encode d has_secondary_indexes validate_indexes store tx

    abbrev changed : List (TouchedResource A)
    changed = changed_resources same (copy_resources tx.state)

    abbrev changed_outcome : Outcome
    changed_outcome =
        commit_changed id_of same encode d has_secondary_indexes validate_indexes store tx changed

    abbrev Commits : List (TouchedResource A) → Outcome → Type 0
    Commits resources r = r.2 ≡ none → CommitOutcome store tx resources r

    plain_row :
        (resources : List (TouchedResource A)) (key : NodeKey) (row : Option (Row A))
        → is_structural tx ≡ false
        → committed_row tx resources key row ≡ written_row (written_work key resources) row
    unfolding has_node find
    plain_row resources key row h = rw (plain-creates tx h, plain-deletes tx h) refl

    plain_outcome :
        (resources : List (TouchedResource A)) (r : Outcome)
        → is_structural tx ≡ false
        → All (IsCurrent store.tables) resources
        → ((key : NodeKey)
            → row_of r.0.tables key
              ≡ written_row (written_work key resources) (row_of store.tables key))
        → r.1.active ≡ false
        → CommitOutcome store tx resources r
    plain_outcome resources r plain current row over = record {
      current = current;
      absent =
          subst (λ (c : List (NodeKey × A)). All (λ key. row_of store.tables key ≡ none) (keys c))
            (sym (plain-creates tx plain)) tt;
      deletable =
          subst (All (IsDeletable store.tables (keys tx.creates))) (sym (plain-deletes tx plain))
            tt;
      row = λ key. row key ∙ sym (plain_row resources key (row_of store.tables key) plain);
      over = over;
    }

    written_work-one :
        (r : TouchedResource A) (key : NodeKey) (row : Option (Row A))
        → (if same_node (node_of r) key then next_row r.work row else row)
          ≡ written_row (written_work key (r ∷ [])) row
    unfolding written_work
    written_work-one r key row = elim (Bool-cases (same_node (node_of r) key)) [
      | inl same_key ↦ rw same_key refl
      | inr other ↦ rw other refl
    ]

    one_outcome-CommitOutcome :
        (r : TouchedResource A) → is_structural tx ≡ false → Commits (r ∷ []) (one_outcome r)
    unfolding commit_one resource_version
    one_outcome-CommitOutcome r plain h =
        let ends =
          single_error-none id_of same encode d has_secondary_indexes validate_indexes store tx
            (commit_single_write encode d store.tables tx.state r).2 h in
        let (current, k) = done encode d store.tables tx.state r ends in
        let (row, at, version) = found_version encode d store.tables tx.state r current in
        plain_outcome (r ∷ []) (one_outcome r) plain (rw at (ap some version), tt)
          (λ key.
            ap (λ (c : Tables A × TransactionState A × Option SingleError). row_of c.0 key)
              (written encode d store.tables tx.state r current k)
            ∙ write-row r _ store.tables key refl
            ∙ written_work-one r key (row_of store.tables key))
          (rw (commit_one, ends) refl)

    not-both : (a b : Bool) → (not a && b) ≡ true → a ≡ false
    not-both false b h = refl
    not-both true b h = ground arith

    commit_kept-CommitOutcome :
        (resources : List (TouchedResource A))
        → AreDistinct (map node_of resources)
        → AreDistinct (keys tx.creates)
        → Commits resources (
            commit_kept id_of same encode d has_secondary_indexes validate_indexes store tx
              resources)
    unfolding commit_kept written_work
    commit_kept-CommitOutcome [] writes creates h = elim (Bool-cases (is_structural tx)) [
      | inl nodes ↦
          rw (commit_kept, nodes)
            (checked_outcome-CommitOutcome id_of same encode d has_secondary_indexes
              validate_indexes store tx [] writes creates (rw (commit_kept, nodes) at h))
      | inr plain ↦
          rw (commit_kept, plain)
            (plain_outcome [] (store, evicted tx, none) plain tt (λ key. refl) refl)
    ]
    commit_kept-CommitOutcome (r ∷ []) writes creates h =
        elim (Bool-cases (not (is_structural tx) && not (has_secondary_indexes r.db_name))) [
          | inl one ↦
              rw (commit_kept, one)
                (one_outcome-CommitOutcome r (not-both (is_structural tx) _ one)
                  (rw (commit_kept, one) at h))
          | inr several ↦
              rw (commit_kept, several)
                (checked_outcome-CommitOutcome id_of same encode d has_secondary_indexes
                  validate_indexes store tx (r ∷ []) writes creates
                  (rw (commit_kept, several) at h))
        ]
    commit_kept-CommitOutcome (r ∷ s ∷ resources) writes creates h =
        checked_outcome-CommitOutcome id_of same encode d has_secondary_indexes validate_indexes
          store tx (r ∷ s ∷ resources) writes creates h

    changed_outcome-CommitOutcome :
        AreDistinct (map node_of changed)
        → AreDistinct (keys tx.creates)
        → Commits changed changed_outcome
    changed_outcome-CommitOutcome writes creates h =
        elim (Bool-cases
          (any_key_changed id_of same encode d has_secondary_indexes validate_indexes changed)) [
            | inl other ↦ absurd (
                some_ne_none (
                  ap (λ r. r.2)
                    (sym (
                      key_changed_outcome id_of same encode d has_secondary_indexes validate_indexes
                        store tx other))
                  ∙ h))
            | inr kept ↦
                subst (CommitOutcome store tx changed)
                  (sym (
                    same_keys_outcome id_of same encode d has_secondary_indexes validate_indexes
                      store tx kept))
                  (commit_kept-CommitOutcome changed writes creates (
                    ap (λ r. r.2)
                      (sym (
                        same_keys_outcome id_of same encode d has_secondary_indexes validate_indexes
                          store tx kept))
                    ∙ h))
          ]

    -- A commit that returns no error found every changed resource at the version that was read, every
    -- node to delete as well unless the transaction creates it, and no row of a node to create. It
    -- leaves the row of every node as the transaction says: none if it deletes the node, the new one
    -- if it creates it, the work copy with the next version if it changed it, and that of before
    -- otherwise. The transaction is not active any more. The touched resources are of distinct
    -- nodes, and so are the creations.
    pub commit-CommitOutcome :
        AreDistinct (map node_of (copy_resources tx.state))
        → AreDistinct (keys tx.creates)
        → (commit id_of same encode d has_secondary_indexes validate_indexes store tx).2 ≡ none
        → CommitOutcome store tx
            (changed_resources same (copy_resources tx.state))
            (commit id_of same encode d has_secondary_indexes validate_indexes store tx)
    unfolding changed_resources
    commit-CommitOutcome writes creates h = elim (Bool-cases tx.active) [
      | inl active ↦
          subst (CommitOutcome store tx changed)
            (sym (
              active_outcome id_of same encode d has_secondary_indexes validate_indexes store tx
                active))
            (changed_outcome-CommitOutcome
              (select-AreDistinct node_of (λ r. not (same r.original r.work))
                (copy_resources tx.state) writes)
              creates
              (ap (λ r. r.2)
                  (sym (
                    active_outcome id_of same encode d has_secondary_indexes validate_indexes store
                      tx active))
                ∙ h))
      | inr over ↦ absurd (
          some_ne_none (
            ap (λ r. r.2)
              (sym (
                over_outcome id_of same encode d has_secondary_indexes validate_indexes store tx
                  over))
            ∙ h))
    ]
