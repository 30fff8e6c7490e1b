-- ===== src/Wal/Durability.antt =====
-- What a restart finds in a log after appends that succeed, fail or are cut short, for the logs of
-- wal.go and of transaction_wal.go.
mod Files
use nestory.Common.{
  ◌+◌, ◌-◌, ◌^◌, ◌≤◌, ◌<◌, ◌≡◌, refl, ◌⊎◌, inl, true, Option, none, some, List, ◌++◌, arith, length,
  take, concat, length-take, All,
}
use nestory.Common.Int.{IsInt64}
use nestory.Common.Bytes.{Bytes}
use nestory.Wal.Frame.{WalRow, WalFrame, encode_wal_frame, decode_wal_frame}
use nestory.Wal.Frame.Laws
use nestory.Wal.TransactionFrame.{
  TransactionWalRow, TransactionWalFrame, encode_transaction_wal_frame,
  decode_transaction_wal_frame,
}
use nestory.Wal.TransactionFrame.Laws as TransactionLaws
use nestory.Wal.Replay.{LogFile, missing, contents, replay_wal, replay_transaction_wal}
use nestory.Wal.Replay.Scan.{next_frame, scan}
use nestory.Wal.Replay.Rows.{
  recover_rows, recover_transaction_rows, recover_rows-append, recover_transaction_rows-append,
}
use nestory.Wal.Replay.Frames.{
  Codec, IsLog, IsLog-append, next_frame-torn, next_frame-torn_then, scan-IsLog,
}
use Files.{replay_atomic, replay_durable, replay_torn_then}
use nestory.Wal.Log.{
  append_frame-written, Device, Wal, append_frame, append_transaction_frame, Holds,
  append_frame-cases, append_frame-done, append_transaction_frame-cases,
  append_transaction_frame-done,
}

abbrev pub wal_codec : Codec WalRow
wal_codec = record {
  encode = λ rows. encode_wal_frame (record { rows = rows });
  decode = decode_wal_frame;
  IsFit = Laws.IsFit;
  framed = Laws.encode_wal_frame-eq_some;
}

abbrev pub transaction_wal_codec : Codec TransactionWalRow
transaction_wal_codec = record {
  encode = λ rows. encode_transaction_wal_frame (record { rows = rows });
  decode = decode_transaction_wal_frame;
  IsFit = TransactionLaws.IsFit;
  framed = TransactionLaws.encode_transaction_wal_frame-eq_some;
}

-- a restart reads these rows from the log
abbrev pub Replays : {A : Type 0} → (Bytes → Option A) → LogFile → List WalRow → Type 0
Replays decode_row file rows = replay_wal decode_row file ≡ recover_rows decode_row rows

abbrev pub TransactionReplays :
    {A : Type 0} → (Bytes → Option A) → Bytes → LogFile → List TransactionWalRow → Type 0
TransactionReplays decode_row name file rows =
    replay_transaction_wal decode_row file name ≡ recover_transaction_rows decode_row name rows

module _ {A : Type 0} (decode_row : Bytes → Option A) where
  -- Whatever the operating system does in an append, a restart reads the rows that the log had,
  -- followed by all rows of the new frame or by none of them; the log is one of whole frames, and
  -- the rows have `int64` ids and fewer than 2^32 bytes.
  pub append_frame-atomic :
      (d : Device) (w : Wal) (rec : WalFrame) (frames : List (List WalRow)) (bytes : Bytes)
      → Holds w.disk bytes
      → IsLog wal_codec frames bytes
      → All Laws.IsFit rec.rows
      → Replays decode_row (append_frame d w rec).0.disk (concat frames)
        ⊎ Replays decode_row (append_frame d w rec).0.disk (concat frames ++ rec.rows)
  unfolding replay_wal recover_rows
  append_frame-atomic d w rec frames bytes on log fit =
      replay_atomic wal_codec (recover_rows decode_row) refl (recover_rows-append decode_row)
        (replay_wal decode_row) refl (λ b. refl) _ frames bytes rec.rows d.written log fit
        (append_frame-cases d w rec bytes on)

  -- After an append that returned no error a restart reads the rows that the log had and then the
  -- rows of the new frame; the log and the rows are as above.
  pub append_frame-durable :
      (d : Device) (w : Wal) (rec : WalFrame) (frames : List (List WalRow)) (bytes : Bytes)
      → Holds w.disk bytes
      → IsLog wal_codec frames bytes
      → All Laws.IsFit rec.rows
      → (append_frame d w rec).1 ≡ none
      → Replays decode_row (append_frame d w rec).0.disk (concat frames ++ rec.rows)
  unfolding replay_wal recover_rows
  append_frame-durable d w rec frames bytes on log fit done =
      replay_durable wal_codec (recover_rows decode_row) refl (recover_rows-append decode_row)
        (replay_wal decode_row) refl (λ b. refl) _ frames bytes rec.rows d.written log fit
        (append_frame-done d w rec bytes on done)

  -- A frame that a failed append cut behind its header hides a later append that returned no error
  -- and that is shorter than what is missing: a restart reads neither.
  pub append_frame_after_torn :
      (d d' : Device) (w : Wal) (rec rec' : WalFrame) (e e' : Bytes) (frames : List (List WalRow))
      (bytes : Bytes)
      → (w.disk ≡ contents bytes) × (w.is_open ≡ true)
      → IsLog wal_codec frames bytes
      → All Laws.IsFit rec.rows
      → encode_wal_frame rec ≡ some e
      → encode_wal_frame rec' ≡ some e'
      → 4 ≤ d.written
      → d.written + length e' < length e
      → (append_frame d' (append_frame d w rec).0 rec').1 ≡ none
      → Replays decode_row (append_frame d' (append_frame d w rec).0 rec').0.disk (concat frames)
  unfolding replay_wal recover_rows
  append_frame_after_torn d d' w rec rec' e e' frames bytes on log fit enc enc' few short done =
      let first : (append_frame d w rec).0.disk ≡ contents (bytes ++ take d.written e) =
        append_frame-written d w rec bytes e on enc in
      let (x, same, all, second) =
        append_frame-done d' (append_frame d w rec).0 rec' (bytes ++ take d.written e) (inl first)
          done in
      let same_length : length x ≡ length e' = ground arith in
      let shorter : d.written + length (take d'.written x) < length e =
        omega (arith, length-take {0} d'.written x) in
      replay_torn_then wal_codec (recover_rows decode_row) refl (recover_rows-append decode_row)
        (replay_wal decode_row) refl (λ b. refl) _ frames bytes rec.rows d.written e
        (take d'.written x) log fit enc few shorter second

  module _ (name : Bytes) where
    -- The same for the log of transactions over several types, as one entity type reads it: the
    -- rows of the new frame are read all or not at all, whatever the operating system does.
    pub append_transaction_frame-atomic :
        (d : Device) (w : Wal) (rec : TransactionWalFrame) (frames : List (List TransactionWalRow))
        (bytes : Bytes)
        → Holds w.disk bytes
        → IsLog transaction_wal_codec frames bytes
        → All TransactionLaws.IsFit rec.rows
        → TransactionReplays decode_row name
            (append_transaction_frame d w rec).0.disk
            (concat frames)
          ⊎ TransactionReplays decode_row name
              (append_transaction_frame d w rec).0.disk
              (concat frames ++ rec.rows)
    unfolding replay_transaction_wal recover_transaction_rows
    append_transaction_frame-atomic d w rec frames bytes on log fit =
        replay_atomic transaction_wal_codec (recover_transaction_rows decode_row name) refl
          (recover_transaction_rows-append decode_row name)
          (λ file. replay_transaction_wal decode_row file name) refl (λ b. refl) _ frames bytes
          rec.rows d.written log fit (append_transaction_frame-cases d w rec bytes on)

    -- After an append to the log of transactions that returned no error, each entity type reads at
    -- a restart what it read before and then its rows of the new frame.
    pub append_transaction_frame-durable :
        (d : Device) (w : Wal) (rec : TransactionWalFrame) (frames : List (List TransactionWalRow))
        (bytes : Bytes)
        → Holds w.disk bytes
        → IsLog transaction_wal_codec frames bytes
        → All TransactionLaws.IsFit rec.rows
        → (append_transaction_frame d w rec).1 ≡ none
        → TransactionReplays decode_row name
            (append_transaction_frame d w rec).0.disk
            (concat frames ++ rec.rows)
    unfolding replay_transaction_wal recover_transaction_rows
    append_transaction_frame-durable d w rec frames bytes on log fit done =
        replay_durable transaction_wal_codec (recover_transaction_rows decode_row name) refl
          (recover_transaction_rows-append decode_row name)
          (λ file. replay_transaction_wal decode_row file name) refl (λ b. refl) _ frames bytes
          rec.rows d.written log fit (append_transaction_frame-done d w rec bytes on done)
