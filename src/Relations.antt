-- ===== src/Relations.antt =====
-- relation_runtime.go and relation_index.go: the graph that the relations of the entities form.
pub mod Node
pub mod KeySet
pub mod Model
pub mod Scan
pub mod Cycles
pub mod Build
pub mod Deletion
