-- ===== src/Engine/Single.antt =====
-- engine.go, db.go: the commit of one write to one entity that changes no relation. Each entity type
-- has a table with its committed rows, its epoch and its log; all work copies are of one type `A`.
pub mod Laws
use nestory.Common.{
  ℕ, ◌+◌, ◌-◌, Bool, true, false, Option, none, some, [], ◌∷◌, map, ◌==◌, if◌then◌else◌,
  bind_option,
}
use nestory.Common.Int.{ℤ}
use nestory.Common.Bytes.{Bytes}
use nestory.SecondaryIndex.Value.{compare_int, compare_bytes}
use nestory.SecondaryIndex.Search.{is_equal}
use nestory.Wal.Log.{Wal, Device}
use nestory.Engine.Writes.{PendingWrite, CommitError, log_writes}
use nestory.Engine.Resources.{TouchedResource, TransactionState}

-- what a `resourceSlot` holds, and whether its chunk has been marked
pub record Row (A : Type 0) : Type 0 where
  pub item : A
  pub version : ℕ
  pub marked : Bool

pub record Table (A : Type 0) : Type 0 where
  pub rows : ℤ → Option (Row A)
  pub epoch : ℕ
  pub wal : Wal

abbrev pub Tables : Type 0 → Type 0
Tables A = Bytes → Table A

pub data SingleError : Type 0 where
  conflict : SingleError
  not_logged : CommitError → SingleError

unfoldable pub is_version : Option ℕ → ℕ → Bool
is_version none ver = false
is_version (some v) ver = v == ver

module _ {A : Type 0} where
  unfoldable pub set_table : Bytes → Table A → Tables A → Tables A
  unfolding compare_bytes
  set_table name t tables other = if is_equal (compare_bytes name other) then t else tables other

  unfoldable pub resource_version : Table A → ℤ → Option ℕ
  resource_version t id = bind_option (t.rows id) λ r. some r.version

  unfoldable pub set_row : ℤ → Row A → (ℤ → Option (Row A)) → ℤ → Option (Row A)
  unfolding compare_int
  set_row id r rows other = if is_equal (compare_int id other) then some r else rows other

  unfoldable pub apply_write : ℤ → A → Table A → Table A
  unfolding set_row
  apply_write id work t = elim (t.rows id) [
    | none ↦ t
    | some r ↦ record t {
      rows = set_row id (record { item = work; version = r.version + 1; marked = true }) t.rows;
      epoch = t.epoch + 1;
    }
  ]

  -- a copy that is not committed any more stays as it is
  unfoldable pub refresh_resource : Tables A → TouchedResource A → TouchedResource A
  refresh_resource tables e = elim ((tables e.db_name).rows e.id) [
    | none ↦ e
    | some r ↦ record e { work = r.item; original = r.item; ver = r.version }
  ]

  refresh_first : Tables A → Option (TouchedResource A) → Option (TouchedResource A)
  unfolding refresh_resource
  refresh_first tables none = none
  refresh_first tables (some e) = some (refresh_resource tables e)

  unfoldable pub refresh : Tables A → TransactionState A → TransactionState A
  unfolding refresh_resource refresh_first
  refresh tables tx = record tx {
    resource = refresh_first tables tx.resource;
    resources = map (refresh_resource tables) tx.resources;
  }

  unfoldable pub evict : TransactionState A → TransactionState A
  evict tx = record { resource = none; resources = []; resource_pos = none }

  unfoldable pub logged :
      (A → Option Bytes) → Device → TouchedResource A → Table A → Wal × Option CommitError
  unfolding log_writes
  logged encode d resource t =
      log_writes encode d t.wal
        (record { id = resource.id; work = resource.work; deleted = false } ∷ [])

  unfoldable pub commit_single_write :
      (A → Option Bytes)
      → Device
      → Tables A
      → TransactionState A
      → TouchedResource A
      → Tables A × TransactionState A × Option SingleError
  unfolding set_table resource_version is_version refresh logged apply_write evict
  commit_single_write encode d tables tx resource =
      let t = tables resource.db_name in
      let (w, e) = logged encode d resource t in
      let t' = record t { wal = w } in
      if is_version (resource_version t resource.id) resource.ver
      then elim e [
        | some x ↦ (set_table resource.db_name t' tables, tx, some (not_logged x))
        | none ↦ (
          set_table resource.db_name (apply_write resource.id resource.work t') tables,
          evict tx,
          none,
        )
      ]
      else (tables, refresh tables tx, some conflict)
