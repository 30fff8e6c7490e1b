-- ===== src/Tests/Commits.antt =====
-- engine.go: a commit of one write to a row, and one whose version is stale.
use nestory.Common.{
  ℕ, ◌+◌, ◌^◌, ◌<◌, ◌≡◌, refl, ◌⊎◌, inr, true, false, Option, none, some, List, [], ◌∷◌, ◌++◌, map,
  arith, length, ok,
}
use nestory.Common.Int.{pos, negsuc, to_uint64}
use nestory.Common.Bytes.{Bytes, put_be}
use nestory.Wal.Frame.{WalRow, encode_wal_frame}
use nestory.Wal.Log.{Device, Wal}
use nestory.Wal.Replay.{missing, replay_wal}
use nestory.Wal.Replay.Rows.{stored, recover_rows}
use nestory.Engine.Writes.{
  PendingWrite, encode_writes, log_writes, recovered, recover_rows-encode_writes,
}
use nestory.Engine.Commit.{log_writes-durable, log_writes-atomic}
use nestory.Engine.Resources.{TouchedResource, TransactionState}
use nestory.Engine.Resources.{TransactionResourceKey, scan_key, work, record_batch}
use nestory.Engine.Resources.Laws.{IsValid, touched as touched_list}
use nestory.Engine.Resources.Work.{work-record_batch}
use nestory.Engine.Single.{Row, Tables, conflict, commit_single_write}
use nestory.Engine.Single.Laws.{commit_single_write-error, commit_single_write-durable}

abbrev pub tag : Bytes → Option Bytes
tag bytes = some (1 ∷ bytes)

abbrev untag : Bytes → Option Bytes
untag [] = none
untag (b ∷ bytes) = some bytes

untag-tag : (a bytes : Bytes) → tag a ≡ some bytes → untag bytes ≡ some a
untag-tag a bytes e = ground arith

abbrev writes : List (PendingWrite Bytes)
writes =
    record { id = pos 7; work = 42 ∷ []; deleted = false }
    ∷ record { id = pos 3; work = []; deleted = true }
    ∷ []

abbrev rows : List WalRow
rows = record { id = pos 7; row = 1 ∷ 42 ∷ [] } ∷ record { id = negsuc 2; row = [] } ∷ []

writes_encoded : encode_writes tag writes ≡ some rows
unfolding encode_writes
writes_encoded = refl

recover_rows-encode_writes_example : recover_rows untag rows ≡ ok (map recovered writes)
recover_rows-encode_writes_example =
    recover_rows-encode_writes tag untag untag-tag writes rows (omega arith, (omega arith, tt))
      writes_encoded

abbrev pub device : Device
device = record {
  makes_dir = true;
  opens = true;
  written = 100;
  syncs = true;
  closes = true;
  removes = true;
}

abbrev pub new_log : Wal
new_log = record { disk = missing; is_open = false }

writes_logged : (log_writes tag device new_log writes).1 ≡ none
unfolding log_writes encode_wal_frame put_be to_uint64
writes_logged = refl

log_writes-durable_example :
    replay_wal untag (log_writes tag device new_log writes).0.disk ≡ ok ([] ++ map recovered writes)
unfolding recover_rows
log_writes-durable_example =
    log_writes-durable tag untag untag-tag device new_log writes rows [] [] [] (inr (refl, refl))
      refl refl (omega arith, (omega arith, tt)) writes_encoded
      ((omega arith, omega arith), ((omega arith, omega arith), tt)) writes_logged

log_writes-atomic_example :
    (replay_wal untag (log_writes tag device new_log writes).0.disk ≡ ok [])
    ⊎ (replay_wal untag (log_writes tag device new_log writes).0.disk
        ≡ ok ([] ++ map recovered writes))
unfolding recover_rows
log_writes-atomic_example =
    log_writes-atomic tag untag untag-tag device new_log writes rows [] [] [] (inr (refl, refl))
      refl refl (omega arith, (omega arith, tt)) writes_encoded
      ((omega arith, omega arith), ((omega arith, omega arith), tt))

abbrev tables : Tables Bytes
tables name = record {
  rows = λ id. some (record { item = 5 ∷ []; version = 2; marked = false });
  epoch = 0;
  wal = new_log;
}

abbrev idle : TransactionState Bytes
idle = record { resource = none; resources = []; resource_pos = none }

abbrev touched : ℕ → TouchedResource Bytes
touched ver = record { db_name = 65 ∷ []; id = pos 7; ver = ver; work = 42 ∷ []; original = 5 ∷ [] }

single_done : (commit_single_write tag device tables idle (touched 2)).2 ≡ none
unfolding commit_single_write encode_wal_frame put_be to_uint64
single_done = refl

single_stale : (commit_single_write tag device tables idle (touched 1)).2 ≡ some conflict
unfolding commit_single_write encode_wal_frame put_be to_uint64
single_stale = refl

commit_single_write-error_example :
    ((commit_single_write tag device tables idle (touched 1)).0 (65 ∷ [])).rows
    ≡ (tables (65 ∷ [])).rows
commit_single_write-error_example =
    commit_single_write-error tag device tables idle (touched 1) conflict (65 ∷ []) single_stale

small : (row : Bytes) → tag (42 ∷ []) ≡ some row → length row < 2 ^ 32
small row e = ground arith

commit_single_write-durable_example :
    (r : Row Bytes) × ((tables (65 ∷ [])).rows (pos 7) ≡ some r)
    × (r.version ≡ 2)
    × (((commit_single_write tag device tables idle (touched 2)).0 (65 ∷ [])).rows (pos 7)
        ≡ some (record { item = 42 ∷ []; version = r.version + 1; marked = true }))
    × (replay_wal untag
          ((commit_single_write tag device tables idle (touched 2)).0 (65 ∷ [])).wal.disk
        ≡ ok ([] ++ stored (pos 7) (42 ∷ []) ∷ []))
unfolding recover_rows
commit_single_write-durable_example =
    commit_single_write-durable tag device tables idle (touched 2) untag untag-tag [] [] []
      (inr (refl, refl)) refl refl (omega arith) small single_done

abbrev copy : ℕ → TouchedResource Bytes
copy n = record { db_name = 65 ∷ []; id = pos n; ver = 0; work = n ∷ []; original = [] }

abbrev batch : List (TouchedResource Bytes)
batch = copy 1 ∷ copy 2 ∷ copy 3 ∷ copy 4 ∷ copy 5 ∷ copy 2 ∷ copy 6 ∷ copy 7 ∷ []

idle-IsValid : IsValid idle
idle-IsValid = record { shape = λ h. refl; distinct = tt; indexed = tt }

found_sixth :
    work (record_batch batch idle) (record { db_name = 65 ∷ []; id = pos 6 }) ≡ some (6 ∷ [])
unfolding work record_batch
found_sixth = refl

work-record_batch_example :
    IsValid (record_batch batch idle)
    × ((key : TransactionResourceKey)
        → work (record_batch batch idle) key ≡ scan_key key (touched_list idle ++ batch))
work-record_batch_example = work-record_batch batch idle idle-IsValid
