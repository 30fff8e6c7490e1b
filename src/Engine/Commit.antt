-- ===== src/Engine/Commit.antt =====
-- engine.go, db.go, wal.go: what the log of a commit means for a later restart.
use nestory.Common.{
  ◌≡◌, refl, ◌∙◌, ◌⊎◌, inl, inr, Option, none, some, List, ◌++◌, map, arith, concat, All, ok,
}
use nestory.Common.Bytes.{Bytes}
use nestory.Wal.Frame.{WalRow}
use nestory.Wal.Frame.Laws.{IsFit}
use nestory.Wal.Log.{Wal, Device, LogError, append_frame, Holds}
use nestory.Wal.Replay.{replay_wal}
use nestory.Wal.Replay.Rows.{RecoveredRow, recover_rows, recover_rows-append}
use nestory.Wal.Replay.Frames.{IsLog}
use nestory.Wal.Durability.{wal_codec, append_frame-atomic, append_frame-durable}
use nestory.Engine.Writes.{
  PendingWrite, log_writes, as_commit_error, encode_writes, recovered, IsPositive,
  recover_rows-encode_writes,
}

as_commit_error-none : (o : Option LogError) → as_commit_error o ≡ none → o ≡ none
unfolding as_commit_error
as_commit_error-none none h = refl
as_commit_error-none (some e) h = ground arith

module _ {A : Type 0} (encode : A → Option Bytes) (decode : Bytes → Option A)
    (back : (a : A) (bytes : Bytes) → encode a ≡ some bytes → decode bytes ≡ some a) where
  log_writes-append_frame :
      (d : Device) (w : Wal) (items : List (PendingWrite A)) (rows : List WalRow)
      → encode_writes encode items ≡ some rows
      → ((log_writes encode d w items).0 ≡ (append_frame d w (record { rows = rows })).0)
        × ((log_writes encode d w items).1 ≡ none
            → (append_frame d w (record { rows = rows })).1 ≡ none)
  unfolding log_writes
  log_writes-append_frame d w items rows e =
      rw (log_writes, e) (refl, as_commit_error-none (append_frame d w (record { rows = rows })).1)

  recovered_after :
      (frames : List (List WalRow)) (earlier : List (RecoveredRow A))
      (items : List (PendingWrite A)) (rows : List WalRow)
      → recover_rows decode (concat frames) ≡ ok earlier
      → All (λ it. IsPositive it.id) items
      → encode_writes encode items ≡ some rows
      → recover_rows decode (concat frames ++ rows) ≡ ok (earlier ++ map recovered items)
  recovered_after frames earlier items rows old ids e =
      rw
        (
          recover_rows-append decode (concat frames) rows,
          old,
          recover_rows-encode_writes encode decode back items rows ids e,
        )
        refl

  -- A commit of writes to one entity type that returns no error survives a restart: the replay of
  -- the log gives the rows of before and then the writes, deletions included. The log is one of
  -- whole frames, the ids are positive, the encoded rows fit a frame, and decoding undoes encoding.
  pub log_writes-durable :
      (d : Device) (w : Wal) (items : List (PendingWrite A)) (rows : List WalRow)
      (frames : List (List WalRow)) (bytes : Bytes) (earlier : List (RecoveredRow A))
      → Holds w.disk bytes
      → IsLog wal_codec frames bytes
      → recover_rows decode (concat frames) ≡ ok earlier
      → All (λ it. IsPositive it.id) items
      → encode_writes encode items ≡ some rows
      → All IsFit rows
      → (log_writes encode d w items).1 ≡ none
      → replay_wal decode (log_writes encode d w items).0.disk ≡ ok (earlier ++ map recovered items)
  log_writes-durable d w items rows frames bytes earlier on log old ids e fit done =
      let (same, ends) = log_writes-append_frame d w items rows e in
      rw same (
        append_frame-durable decode d w (record { rows = rows }) frames bytes on log fit (ends done)
        ∙ recovered_after frames earlier items rows old ids e)

  -- Whatever the device does, the replay after a commit gives the rows of before, or those and all
  -- its writes, under the same conditions on the log, the ids, the rows and the encoding.
  pub log_writes-atomic :
      (d : Device) (w : Wal) (items : List (PendingWrite A)) (rows : List WalRow)
      (frames : List (List WalRow)) (bytes : Bytes) (earlier : List (RecoveredRow A))
      → Holds w.disk bytes
      → IsLog wal_codec frames bytes
      → recover_rows decode (concat frames) ≡ ok earlier
      → All (λ it. IsPositive it.id) items
      → encode_writes encode items ≡ some rows
      → All IsFit rows
      → (replay_wal decode (log_writes encode d w items).0.disk ≡ ok earlier)
        ⊎ (replay_wal decode (log_writes encode d w items).0.disk
            ≡ ok (earlier ++ map recovered items))
  log_writes-atomic d w items rows frames bytes earlier on log old ids e fit =
      rw (log_writes-append_frame d w items rows e).0
        (elim (append_frame-atomic decode d w (record { rows = rows }) frames bytes on log fit) [
          | inl before ↦ inl (before ∙ old)
          | inr after ↦ inr (after ∙ recovered_after frames earlier items rows old ids e)
        ])
