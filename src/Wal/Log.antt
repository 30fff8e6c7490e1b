-- ===== src/Wal/Log.antt =====
-- wal.go, `wal`, and transaction_wal.go, `transactionWAL`: appending a frame to the file, removing
-- the file. What the operating system answers is an argument.
use nestory.Common.{
  ℕ, ◌≤◌, ◌≡◌, ◌⊎◌, Bool, true, false, ◌&&◌, not, Option, none, some, [], ◌++◌, arith, ltb,
  if◌then◌else◌, length, take,
}
use nestory.Common.Bytes.{Bytes}
use nestory.Wal.Frame.{WalFrame, encode_wal_frame}
use nestory.Wal.TransactionFrame.{TransactionWalFrame, encode_transaction_wal_frame}
use nestory.Wal.Replay.{LogFile, missing, contents}

-- the file at `path`, and whether the handle `f` is set
pub record Wal : Type 0 where
  pub disk : LogFile
  pub is_open : Bool

pub data LogError : Type 0 where
  mkdir_failed open_failed too_large write_failed sync_failed close_failed remove_failed : LogError

-- the answers of the operating system in one call; `written` is how much of the frame a `Write`
-- puts into the file, and it returns an error if that is less than the frame
pub record Device : Type 0 where
  pub makes_dir : Bool
  pub opens : Bool
  pub written : ℕ
  pub syncs : Bool
  pub closes : Bool
  pub removes : Bool

bytes_of : LogFile → Bytes
bytes_of (contents bytes) = bytes
bytes_of _ = []

abbrev Outcome : Type 0
Outcome = Wal × Option LogError

-- `f.Write` with O_APPEND, then `f.Sync`
write_frame : Device → Wal → Bytes → Outcome
unfolding bytes_of
write_frame d w frame =
    let w' = record w { disk = contents (bytes_of w.disk ++ take d.written frame) } in
    if ltb d.written (length frame)
    then (w', some write_failed)
    else if d.syncs
    then (w', none)
    else (w', some sync_failed)

append_encoded : Device → Wal → Option Bytes → Outcome
append_encoded d w none = (w, some too_large)
append_encoded d w (some frame) = write_frame d w frame

-- `os.OpenFile` with O_CREATE, where the handle is not set
open_log : Device → Wal → Option Wal
unfolding bytes_of
open_log d w =
    if w.is_open
    then some w
    else if d.opens
    then some (record { disk = contents (bytes_of w.disk); is_open = true })
    else none

unfoldable pub append_frame : Device → Wal → WalFrame → Wal × Option LogError
unfolding open_log append_encoded write_frame
append_frame d w rec = elim (open_log d w) [
  | none ↦ (w, some open_failed)
  | some w' ↦ append_encoded d w' (encode_wal_frame rec)
]

unfoldable pub append_transaction_frame : Device → Wal → TransactionWalFrame → Wal × Option LogError
unfolding open_log append_encoded write_frame
append_transaction_frame d w rec =
    if not w.is_open && not d.makes_dir then (w, some mkdir_failed) else elim (open_log d w) [
      | none ↦ (w, some open_failed)
      | some w' ↦ append_encoded d w' (encode_transaction_wal_frame rec)
    ]

-- `os.Remove`: a file that is not there is no error
remove_log : Device → Wal → Wal × Option LogError
remove_log d w = elim w.disk [
  | missing ↦ (w, none)
  | _ ↦ if d.removes then (record w { disk = missing }, none) else (w, some remove_failed)
]

unfoldable pub truncate : Device → Wal → Wal × Option LogError
unfolding remove_log
truncate d w =
    let w' = record w { is_open = false } in
    if w.is_open && not d.closes then (w', some close_failed) else remove_log d w'

-- what a replay finds is these bytes; a log that was never written is missing
abbrev pub Holds : LogFile → Bytes → Type 0
Holds file bytes = (file ≡ contents bytes) ⊎ ((file ≡ missing) × (bytes ≡ []))

-- What an append leaves in the file: what was there, or that and the written part of the frame.
pub append_frame-cases :
    (d : Device) (w : Wal) (rec : WalFrame) (bytes : Bytes)
    → Holds w.disk bytes
    → Holds (append_frame d w rec).0.disk bytes
      ⊎ ((e : Bytes) × (encode_wal_frame rec ≡ some e)
          × ((append_frame d w rec).0.disk ≡ contents (bytes ++ take d.written e)))
unfolding append_frame bytes_of
append_frame-cases d w rec bytes on = ground arith

pub append_frame-done :
    (d : Device) (w : Wal) (rec : WalFrame) (bytes : Bytes)
    → Holds w.disk bytes
    → (append_frame d w rec).1 ≡ none
    → (e : Bytes) × (encode_wal_frame rec ≡ some e)
      × (length e ≤ d.written)
      × ((append_frame d w rec).0.disk ≡ contents (bytes ++ take d.written e))
unfolding append_frame bytes_of
append_frame-done d w rec bytes on done = ground arith

pub append_transaction_frame-cases :
    (d : Device) (w : Wal) (rec : TransactionWalFrame) (bytes : Bytes)
    → Holds w.disk bytes
    → Holds (append_transaction_frame d w rec).0.disk bytes
      ⊎ ((e : Bytes) × (encode_transaction_wal_frame rec ≡ some e)
          × ((append_transaction_frame d w rec).0.disk ≡ contents (bytes ++ take d.written e)))
unfolding append_transaction_frame bytes_of
append_transaction_frame-cases d w rec bytes on = ground arith

pub append_transaction_frame-done :
    (d : Device) (w : Wal) (rec : TransactionWalFrame) (bytes : Bytes)
    → Holds w.disk bytes
    → (append_transaction_frame d w rec).1 ≡ none
    → (e : Bytes) × (encode_transaction_wal_frame rec ≡ some e)
      × (length e ≤ d.written)
      × ((append_transaction_frame d w rec).0.disk ≡ contents (bytes ++ take d.written e))
unfolding append_transaction_frame bytes_of
append_transaction_frame-done d w rec bytes on done = ground arith

-- A write that fails leaves the part that it wrote.
pub append_frame-written :
    (d : Device) (w : Wal) (rec : WalFrame) (bytes e : Bytes)
    → (w.disk ≡ contents bytes) × (w.is_open ≡ true)
    → encode_wal_frame rec ≡ some e
    → (append_frame d w rec).0.disk ≡ contents (bytes ++ take d.written e)
unfolding append_frame bytes_of
append_frame-written d w rec bytes e on enc = ground arith
