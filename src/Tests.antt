-- ===== src/Tests.antt =====
-- The theorems at concrete inputs, and runs of the definitions.
mod Wal
mod Store
mod Indexes
mod Commits
mod Relations
mod Locks
mod Transactions
mod Queues
