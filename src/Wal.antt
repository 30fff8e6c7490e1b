-- ===== src/Wal.antt =====
-- wal.go and transaction_wal.go: the append-only logs, their frames and rows, and their replay.
pub mod Frame
pub mod TransactionFrame
pub mod Replay
pub mod Log
pub mod Durability
pub mod Row
