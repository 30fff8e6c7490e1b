-- ===== src/Wal/Replay.antt =====
-- wal.go, `replayWAL`, and transaction_wal.go, `replayTransactionWAL`: what a start reads back from
-- a log. The decoder of a row is a parameter, since it may call encoding/gob.
pub mod Scan
pub mod Rows
pub mod Frames
pub mod Whole
use nestory.Common.{suc, ◌-◌, ◌/◌, Option, List, [], length, Result, ok, err}
use nestory.Common.Bytes.{Bytes}
use nestory.Wal.Frame.{WalRow, decode_wal_frame}
use nestory.Wal.TransactionFrame.{TransactionWalRow, decode_transaction_wal_frame}
use Scan.{scan}
use Rows.{ReplayError, open_failed, RecoveredRow, recover_rows, recover_transaction_rows}

-- what `os.Open` finds at the log's path
pub data LogFile : Type 0 where
  missing : LogFile
  unreadable : LogFile
  contents : Bytes → LogFile

module _ {A : Type 0} (decode_row : Bytes → Option A) where
  -- every round of the loop over the frames takes four bytes at least, so that the fuel is enough
  unfoldable pub replay_wal : LogFile → Result ReplayError (List (RecoveredRow A))
  replay_wal missing = ok []
  replay_wal unreadable = err open_failed
  replay_wal (contents bytes) =
      scan decode_wal_frame (recover_rows decode_row) (suc (length bytes)) bytes

  unfoldable pub replay_transaction_wal :
      LogFile → Bytes → Result ReplayError (List (RecoveredRow A))
  replay_transaction_wal missing type_name = ok []
  replay_transaction_wal unreadable type_name = err open_failed
  replay_transaction_wal (contents bytes) type_name =
      scan decode_transaction_wal_frame (recover_transaction_rows decode_row type_name)
        (suc (length bytes)) bytes
