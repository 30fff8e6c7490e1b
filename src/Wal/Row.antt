-- ===== src/Wal/Row.antt =====
-- wal.go, `encodeRow`, `decodeRow` and the codec for rows of scalars. A `reflect.Value` is data with
-- a constructor for each group of kinds that the code tells apart.
pub mod Value
pub mod Size
pub mod Encode
pub mod Decode
