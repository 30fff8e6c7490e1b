-- ===== src/Tests/Transactions.antt =====
-- engine.go: commits over two tables, with a creation and a deletion.
use nestory.Common.{
  ℕ, ◌≡◌, refl, Bool, true, false, Option, none, some, List, [], ◌∷◌, if◌then◌else◌,
}
use nestory.Common.Int.{ℤ, pos, to_uint64}
use nestory.Common.Bytes.{Bytes, put_be}
use nestory.SecondaryIndex.Value.{compare_int}
use nestory.SecondaryIndex.Search.{is_equal}
use nestory.Wal.TransactionFrame.{encode_transaction_wal_frame}
use nestory.Relations.Node.{NodeKey}
use nestory.Relations.Model.{bytes_equality}
use nestory.Engine.Writes.{PendingWrite}
use nestory.Engine.Resources.{TouchedResource}
use nestory.Engine.Single.{Tables}
use nestory.Engine.Transaction.{Transaction, Store, not_current, already_exists, TransactionError}
use nestory.Engine.Transaction.Rows.{row_of}
use nestory.Engine.Transaction.Commit.{commit}
use nestory.Engine.Transaction.Failure.{commit-error}
use nestory.Engine.Transaction.Staging.{begin, record_resources, stage_create, stage_delete}
use nestory.Tests.Commits.{tag, device, new_log}

abbrev user : ℤ → NodeKey
user id = record { typ = 65 ∷ []; id = id }

abbrev order : ℤ → NodeKey
order id = record { typ = 66 ∷ []; id = id }

abbrev tables : Tables Bytes
tables name = record {
  rows = λ id.
      if is_equal (compare_int id (pos 7))
      then some (record { item = 5 ∷ []; version = 2; marked = false })
      else none;
  epoch = 0;
  wal = new_log;
}

abbrev store : Store Bytes
store = record { tables = tables; wal = new_log }

abbrev written_user : ℕ → TouchedResource Bytes
written_user ver = record {
  db_name = 65 ∷ [];
  id = pos 7;
  ver = ver;
  work = 42 ∷ [];
  original = 5 ∷ [];
}

-- it writes one user, creates another, and deletes an order
abbrev transaction : ℕ → ℤ → Transaction Bytes
transaction ver id =
    (stage_delete (order (pos 7)) 2
      (stage_create (user id) (43 ∷ []) (record_resources (written_user ver ∷ []) begin)).0).0

abbrev without_indexes : Bytes → Bool
without_indexes name = false

abbrev all_valid : Bytes → List (PendingWrite (Option Bytes)) → Bool
all_valid name items = true

abbrev get_id : Bytes → ℤ
get_id bytes = pos 7

abbrev after : ℕ → ℤ → Store Bytes × Transaction Bytes × Option TransactionError
after ver created =
    commit get_id bytes_equality.same tag device without_indexes all_valid store
      (transaction ver created)

commit_stale : (after 1 (pos 8)).2 ≡ some not_current
unfolding commit stage_delete stage_create record_resources begin encode_transaction_wal_frame
    put_be to_uint64
commit_stale = refl

commit_existing : (after 2 (pos 7)).2 ≡ some (already_exists (user (pos 7)))
unfolding commit stage_delete stage_create record_resources begin encode_transaction_wal_frame
    put_be to_uint64
commit_existing = refl

-- the order is gone
order_deleted : row_of (after 2 (pos 8)).0.tables (order (pos 7)) ≡ none
unfolding commit stage_delete stage_create record_resources begin encode_transaction_wal_frame
    put_be to_uint64
order_deleted = refl

commit-error_example :
    row_of (after 1 (pos 8)).0.tables (order (pos 7)) ≡ row_of tables (order (pos 7))
commit-error_example =
    commit-error get_id bytes_equality.same tag device without_indexes all_valid store
      (transaction 1 (pos 8)) not_current (order (pos 7)) commit_stale
