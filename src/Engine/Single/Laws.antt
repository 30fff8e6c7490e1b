-- ===== src/Engine/Single/Laws.antt =====
-- engine.go, `commitSingleWrite`: what is committed is logged before it is in memory.
use nestory.Common.{
  some_ne_none, ◌++◌, ◌^◌, ◌<◌, ==_iff, length, bind_option, ok, subst, concat, ◌+◌, ℕ, List, ◌≡◌,
  refl, sym, ap, ◌∙◌, ◌≢◌, inl, inr, true, false, Option, none, some, arith, Bool-cases,
  Option-cases,
}
use nestory.Common.Bytes.{Bytes}
use nestory.SecondaryIndex.Value.{compare_bytes, bytes-IsOrder}
use nestory.SecondaryIndex.Search.{is_equal-eq, is_equal}
use nestory.Wal.Log.{Wal, Device}
use nestory.Engine.Writes.{CommitError}
use nestory.Engine.Resources.{TouchedResource, TransactionState}
use nestory.Common.{suc, zero, List, [], ◌∷◌, ◌++◌}
use nestory.Common.Int.{ℤ, pos, negsuc}
use nestory.Engine.Writes.{encoding_failed}
use nestory.Engine.Single.{Row, set_row}
use nestory.SecondaryIndex.Value.{int-IsOrder}
use nestory.Wal.Frame.{WalRow}
use nestory.Wal.Frame.Laws.{IsFit}
use nestory.Wal.Log.{Holds}
use nestory.Wal.Replay.{replay_wal}
use nestory.Wal.Replay.Rows.{RecoveredRow, stored, recover_rows}
use nestory.Wal.Replay.Frames.{IsLog}
use nestory.Wal.Durability.{wal_codec}
use nestory.Engine.Writes.{PendingWrite, log_writes, encode_write, encode_writes, IsPositive}
use nestory.Engine.Commit.{log_writes-durable}
use nestory.Engine.Single.{
  Table, Tables, SingleError, set_table, resource_version, apply_write, is_version, logged,
  commit_single_write, evict, conflict, not_logged,
}

none_version : (v : ℕ) → is_version none v ≢ true
unfolding is_version
none_version v h = ground arith

module _ {A : Type 0} where
  pub set_table-rows :
      (name other : Bytes) (t : Table A) (tables : Tables A)
      → t.rows ≡ (tables name).rows
      → (set_table name t tables other).rows ≡ (tables other).rows
  unfolding set_table
  set_table-rows name other t tables h = elim (Bool-cases (is_equal (compare_bytes name other))) [
    | inr differs ↦ rw (set_table, differs) refl
    | inl same ↦
        rw (set_table, same)
          (h
            ∙ ap (λ n. (tables n).rows)
                (bytes-IsOrder.equal name other (is_equal-eq (compare_bytes name other) same)))
  ]

  set_table_self :
      (name : Bytes) (t : Table A) (tables : Tables A) → set_table name t tables name ≡ t
  unfolding set_table
  set_table_self name t tables = rw (set_table, bytes-IsOrder.same name) refl

  module _ (encode : A → Option Bytes) (d : Device) (tables : Tables A) (tx : TransactionState A)
      (resource : TouchedResource A) where
    abbrev table : Table A
    table = tables resource.db_name

    abbrev outcome : Wal × Option CommitError
    outcome = logged encode d resource table

    stale_error :
        is_version (resource_version table resource.id) resource.ver ≡ false
        → (commit_single_write encode d tables tx resource).2 ≡ some conflict
    unfolding commit_single_write
    stale_error stale = rw (commit_single_write, stale) refl

    log_error :
        is_version (resource_version table resource.id) resource.ver ≡ true
        → (x : CommitError) → outcome.1 ≡ some x
        → (commit_single_write encode d tables tx resource).2 ≡ some (not_logged x)
    unfolding commit_single_write
    log_error current x k = rw (commit_single_write, current, k) refl

    pub written :
        is_version (resource_version table resource.id) resource.ver ≡ true
        → outcome.1 ≡ none
        → commit_single_write encode d tables tx resource ≡ (
          set_table resource.db_name
              (apply_write resource.id resource.work (record table { wal = outcome.0 }))
              tables,
          evict tx,
          none,
        )
    unfolding commit_single_write
    written current k = rw (commit_single_write, current, k) refl

    pub done :
        (commit_single_write encode d tables tx resource).2 ≡ none
        → (is_version (resource_version table resource.id) resource.ver ≡ true) × (outcome.1 ≡ none)
    unfolding commit_single_write
    done h = elim (Bool-cases (is_version (resource_version table resource.id) resource.ver)) [
      | inr stale ↦ absurd (some_ne_none (sym (stale_error stale) ∙ h))
      | inl current ↦ elim (Option-cases outcome.1) [
        | inl k ↦ (current, k)
        | inr (x, k) ↦ absurd (some_ne_none (sym (log_error current x k) ∙ h))
      ]
    ]

    -- A commit of one write that returns an error, a conflict or a failure of the log, changes no
    -- committed row of any table.
    pub commit_single_write-error :
        (e : SingleError) (name : Bytes)
        → (commit_single_write encode d tables tx resource).2 ≡ some e
        → ((commit_single_write encode d tables tx resource).0 name).rows ≡ (tables name).rows
    unfolding commit_single_write
    commit_single_write-error e name h =
        elim (Bool-cases
          (is_version (resource_version (tables resource.db_name) resource.id) resource.ver)) [
            | inr stale ↦ rw (commit_single_write, stale) refl
            | inl current ↦
                elim (Option-cases (logged encode d resource (tables resource.db_name)).1) [
                  | inr (x, k) ↦
                      rw (commit_single_write, current, k)
                        (set_table-rows resource.db_name name _ tables refl)
                  | inl k ↦ absurd (some_ne_none (sym h ∙ ap (λ r. r.2) (written current k)))
                ]
          ]

    pub found_version :
        is_version (resource_version table resource.id) resource.ver ≡ true
        → (r : Row A) × (table.rows resource.id ≡ some r) × (r.version ≡ resource.ver)
    unfolding is_version resource_version
    found_version h = elim (Option-cases (table.rows resource.id)) [
      | inl k ↦ absurd (
          none_version resource.ver (
            subst
              (λ o. is_version (bind_option o (λ (r : Row A). some r.version)) resource.ver ≡ true)
              k h))
      | inr (r, k) ↦ (
        r,
        k,
        (==_iff r.version resource.ver).0 (
            subst
              (λ o. is_version (bind_option o (λ (x : Row A). some x.version)) resource.ver ≡ true)
              k h),
      )
    ]

    applied :
        (r : Row A) (w : Wal)
        → table.rows resource.id ≡ some r
        → ((apply_write resource.id resource.work (record table { wal = w })).rows resource.id
            ≡ some (record { item = resource.work; version = r.version + 1; marked = true }))
          × ((apply_write resource.id resource.work (record table { wal = w })).wal ≡ w)
    unfolding apply_write set_row
    applied r w h = rw (apply_write, h) (rw (int-IsOrder.same resource.id) refl, refl)

    IsFit-positive :
        (id : ℤ) (row : Bytes)
        → IsPositive id
        → length row < 2 ^ 32
        → IsFit (record { id = id; row = row })
    IsFit-positive (pos zero) row h small = absurd h
    IsFit-positive (pos (suc n)) row h small = (h, small)
    IsFit-positive (negsuc n) row h small = absurd h

    unencoded : encode resource.work ≡ none → outcome.1 ≡ some encoding_failed
    unfolding logged log_writes encode_writes encode_write
    unencoded k = rw (log_writes, k) refl

    log_replay :
        (decode : Bytes → Option A)
        (back : (a : A) (bytes : Bytes) → encode a ≡ some bytes → decode bytes ≡ some a)
        (frames : List (List WalRow)) (bytes : Bytes) (earlier : List (RecoveredRow A))
        → Holds table.wal.disk bytes
        → IsLog wal_codec frames bytes
        → recover_rows decode (concat frames) ≡ ok earlier
        → IsPositive resource.id
        → ((row : Bytes) → encode resource.work ≡ some row → length row < 2 ^ 32)
        → outcome.1 ≡ none
        → replay_wal decode outcome.0.disk ≡ ok (earlier ++ stored resource.id resource.work ∷ [])
    unfolding logged encode_writes encode_write
    log_replay decode back frames bytes earlier on log old id small ends =
        let items : List (PendingWrite A) =
          record { id = resource.id; work = resource.work; deleted = false } ∷ [] in
        elim (Option-cases (encode resource.work)) [
          | inl k ↦ absurd (some_ne_none (sym (unencoded k) ∙ ends))
          | inr (row, k) ↦
              log_writes-durable encode decode back d table.wal items
                (record { id = resource.id; row = row } ∷ []) frames bytes earlier on log old
                (id, tt) (rw k refl) (IsFit-positive resource.id row id (small row k), tt) ends
        ]

    -- A commit of one write that returns no error found the version that the transaction had read.
    -- The committed row is then the written one with the next version, and a restart recovers from
    -- the log the rows of before and that row. The log is one of whole frames, the id is positive,
    -- the encoded row has fewer than 2^32 bytes, and decoding undoes encoding.
    pub commit_single_write-durable :
        (decode : Bytes → Option A)
        (back : (a : A) (bytes : Bytes) → encode a ≡ some bytes → decode bytes ≡ some a)
        (frames : List (List WalRow)) (bytes : Bytes) (earlier : List (RecoveredRow A))
        → Holds table.wal.disk bytes
        → IsLog wal_codec frames bytes
        → recover_rows decode (concat frames) ≡ ok earlier
        → IsPositive resource.id
        → ((row : Bytes) → encode resource.work ≡ some row → length row < 2 ^ 32)
        → (commit_single_write encode d tables tx resource).2 ≡ none
        → (r : Row A) × (table.rows resource.id ≡ some r)
          × (r.version ≡ resource.ver)
          × (((commit_single_write encode d tables tx resource).0 resource.db_name).rows resource.id
              ≡ some (record { item = resource.work; version = r.version + 1; marked = true }))
          × (replay_wal decode
                ((commit_single_write encode d tables tx resource).0 resource.db_name).wal.disk
              ≡ ok (earlier ++ stored resource.id resource.work ∷ []))
    commit_single_write-durable decode back frames bytes earlier on log old id small h =
        let (current, ends) = done h in
        let (r, at, version) = found_version current in
        let there = applied r outcome.0 at in
        let after =
          ap (λ c. c.0 resource.db_name) (written current ends)
          ∙ set_table_self resource.db_name
              (apply_write resource.id resource.work (record table { wal = outcome.0 })) tables in
        (
          r,
          at,
          version,
          ap (λ t. t.rows resource.id) after ∙ there.0,
          ap (λ t. replay_wal decode t.wal.disk) after
              ∙ ap (λ w. replay_wal decode w.disk) there.1
              ∙ log_replay decode back frames bytes earlier on log old id small ends,
        )
