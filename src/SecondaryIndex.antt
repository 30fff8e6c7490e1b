-- ===== src/SecondaryIndex.antt =====
-- secondary_index.go: the ordered indexes over the fields of an entity type.
pub mod Value
pub mod Search
pub mod Sorted
pub mod Index
pub mod Ranges
pub mod Entries
pub mod Upkeep
pub mod Validate
pub mod Keys
