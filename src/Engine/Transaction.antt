-- ===== src/Engine/Transaction.antt =====
-- engine.go: the commit of a transaction that leaves the graph of the relations as it is, `commit` where
-- `graphChanged` is false. The locks that it holds are in Engine/Locks.
pub mod Rows
pub mod Commit
pub mod Checks
pub mod Failure
pub mod Checked
pub mod Success
pub mod Staging
use nestory.Common.{
  ℕ, ◌+◌, ◌-◌, ◌/◌, Bool, true, false, ◌&&◌, ◌||◌, not, Option, none, some, List, [], ◌∷◌, ◌++◌,
  map, if◌then◌else◌, select,
}
use nestory.Common.Bytes.{Bytes}
use nestory.Common.Int.{ℤ}
use nestory.Common.Maps.{find, put}
use nestory.SecondaryIndex.Value.{compare_int, compare_bytes}
use nestory.SecondaryIndex.Search.{is_equal}
use nestory.Wal.Log.{Wal, Device, append_transaction_frame}
use nestory.Relations.Node.{NodeKey, same_node, has_node, node_equality}
use nestory.Relations.Model.{bytes_equality}
use nestory.Engine.Writes.{
  PendingWrite, CommitError, encoding_failed, as_commit_error, log_writes, encode_transaction,
}
use nestory.Engine.Resources.{TouchedResource, TransactionState}
use nestory.Engine.Locks.{sort_by}
use nestory.Engine.Single.{
  Row, Table, Tables, SingleError, conflict, not_logged, is_version, set_table, resource_version,
  set_row, apply_write, refresh, evict, commit_single_write,
}

-- `creates` and `deletes` are maps; a staged delete has the version that was read.
pub record Transaction (A : Type 0) : Type 0 where
  pub active : Bool
  pub state : TransactionState A
  pub creates : List (NodeKey × A)
  pub deletes : List (NodeKey × ℕ)

-- the tables and the log of the transactions over several of them
pub record Store (A : Type 0) : Type 0 where
  pub tables : Tables A
  pub wal : Wal

pub data TransactionError : Type 0 where
  expired : TransactionError
  key_changed : TransactionError
  already_exists : NodeKey → TransactionError
  not_current : TransactionError
  index_refused : TransactionError
  not_durable : CommitError → TransactionError

abbrev pub keys : {V : Type 0} → List (NodeKey × V) → List NodeKey
keys m = map (λ p. p.0) m

-- the writes of a commit, by the name of their table; a deletion has no entity
abbrev pub Changes : Type 0 → Type 0
Changes A = List (Bytes × List (PendingWrite (Option A)))

module _ {A : Type 0} where
  unfoldable pub copy_resources : TransactionState A → List (TouchedResource A)
  copy_resources tx = elim tx.resource [ none ↦ [] | some first ↦ first ∷ tx.resources ]

  -- `same` is `entityStateEqual`
  unfoldable pub changed_resources :
      (A → A → Bool) → List (TouchedResource A) → List (TouchedResource A)
  changed_resources same resources = select (λ r. not (same r.original r.work)) resources

  unfoldable pub add_change : Bytes → PendingWrite (Option A) → Changes A → Changes A
  unfolding find put
  add_change name item changes = elim (find name changes) [
    | none ↦ put name (item ∷ []) changes
    | some items ↦ put name (items ++ item ∷ []) changes
  ]

  unfoldable pub written_changes : List NodeKey → List (TouchedResource A) → Changes A → Changes A
  unfolding has_node add_change
  written_changes deleted [] changes = changes
  written_changes deleted (r ∷ resources) changes = written_changes deleted resources (
      if has_node (record { typ = r.db_name; id = r.id }) deleted
      then changes
      else add_change r.db_name (record { id = r.id; work = some r.work; deleted = false }) changes)

  unfoldable pub created_changes : List NodeKey → List (NodeKey × A) → Changes A → Changes A
  unfolding has_node add_change
  created_changes deleted [] changes = changes
  created_changes deleted ((key, work) ∷ creates) changes = created_changes deleted creates (
      if has_node key deleted
      then changes
      else add_change key.typ (record { id = key.id; work = some work; deleted = false }) changes)

  unfoldable pub deleted_changes : List NodeKey → List NodeKey → Changes A → Changes A
  unfolding has_node add_change
  deleted_changes created [] changes = changes
  deleted_changes created (key ∷ deletes) changes = deleted_changes created deletes (
      if has_node key created
      then changes
      else add_change key.typ (record { id = key.id; work = none; deleted = true }) changes)

  unfoldable pub transaction_changes :
      List (TouchedResource A) → List (NodeKey × A) → List NodeKey → Changes A
  unfolding written_changes created_changes deleted_changes
  transaction_changes resources creates deletes =
      deleted_changes (keys creates) deletes
        (created_changes deletes creates (written_changes deletes resources []))

  unfoldable pub encode_work : (A → Option Bytes) → Option A → Option Bytes
  encode_work encode none = none
  encode_work encode (some work) = encode work

  -- one table has a log of its own, several share one
  unfoldable pub log_transaction_changes :
      (A → Option Bytes) → Device → Store A → Changes A → Store A × Option CommitError
  unfolding encode_work log_writes encode_transaction append_transaction_frame as_commit_error
      set_table sort_by
  log_transaction_changes encode d store [] = (store, none)
  log_transaction_changes encode d store ((name, items) ∷ []) =
      let t = store.tables name in
      let (w, e) = log_writes (encode_work encode) d t.wal items in
      (record store { tables = set_table name (record t { wal = w }) store.tables }, e)
  log_transaction_changes encode d store (one ∷ other ∷ more) =
      elim (encode_transaction (encode_work encode)
        (sort_by (λ a b. compare_bytes a.0 b.0) (one ∷ other ∷ more))) [
          | none ↦ (store, some encoding_failed)
          | some rows ↦
              let (w, e) = append_transaction_frame d store.wal (record { rows = rows }) in
              (record store { wal = w }, as_commit_error e)
        ]

  -- the first node to create that is there already
  unfoldable pub find_existing : Tables A → List NodeKey → Option NodeKey
  unfolding resource_version
  find_existing tables [] = none
  find_existing tables (key ∷ created) =
      let rest = find_existing tables created in
      elim (resource_version (tables key.typ) key.id) [ none ↦ rest | some v ↦ some key ]

  unfoldable pub are_current : Tables A → List (TouchedResource A) → Bool
  unfolding is_version resource_version
  are_current tables [] = true
  are_current tables (r ∷ resources) =
      is_version (resource_version (tables r.db_name) r.id) r.ver && are_current tables resources

  unfoldable pub deletes_current : Tables A → List NodeKey → List (NodeKey × ℕ) → Bool
  unfolding has_node is_version resource_version
  deletes_current tables created [] = true
  deletes_current tables created ((key, ver) ∷ deletes) =
      (has_node key created || is_version (resource_version (tables key.typ) key.id) ver)
      && deletes_current tables created deletes

  unfoldable pub apply_writes : List (TouchedResource A) → Tables A → Tables A
  unfolding set_table apply_write
  apply_writes [] tables = tables
  apply_writes (r ∷ resources) tables =
      apply_writes resources
        (set_table r.db_name (apply_write r.id r.work (tables r.db_name)) tables)

  -- `add`: a new slot has the version 0
  unfoldable pub add_row : ℤ → A → Table A → Table A
  unfolding set_row
  add_row id work t = record t {
    rows = set_row id (record { item = work; version = 0; marked = true }) t.rows;
    epoch = t.epoch + 1;
  }

  unfoldable pub apply_creates : List (NodeKey × A) → Tables A → Tables A
  unfolding set_table add_row
  apply_creates [] tables = tables
  apply_creates ((key, work) ∷ creates) tables =
      apply_creates creates (set_table key.typ (add_row key.id work (tables key.typ)) tables)

  -- whether one of the nodes is a row of the table
  unfoldable pub any_row : Bytes → List NodeKey → Table A → Bool
  unfolding resource_version compare_bytes
  any_row name [] t = false
  any_row name (key ∷ deleted) t =
      is_equal (compare_bytes key.typ name)
        && elim (resource_version t key.id) [ none ↦ false | some v ↦ true ]
      || any_row name deleted t

  -- `applyDeletedNodes` and `relationDelete`, for every table
  unfoldable pub apply_deletes : List NodeKey → Tables A → Tables A
  unfolding has_node any_row
  apply_deletes deleted tables name =
      let t = tables name in
      record t {
        rows = λ id. if has_node (record { typ = name; id = id }) deleted then none else t.rows id;
        epoch = if any_row name deleted t then t.epoch + 1 else t.epoch;
      }
