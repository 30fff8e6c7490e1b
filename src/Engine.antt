-- ===== src/Engine.antt =====
-- engine.go, db.go: the transactions and what a commit writes.
pub mod Locks
pub mod Writes
pub mod Commit
pub mod Resources
pub mod Single
pub mod Transaction
