-- ===== src/Wal/Frame.antt =====
-- wal.go: `walRow`, `walFrame`, `encodeWALFrame` and `decodeWALFrame`. A frame is a length, a count
-- and the rows; the offsets that the code keeps are what has been read of the bytes so far. The
-- sums in `uint64` could wrap only past 2^64 bytes, more than memory holds.
pub mod Laws
use nestory.Common.{
  ℕ, zero, suc, ◌+◌, ◌-◌, ◌/◌, ◌^◌, ◌||◌, Option, none, some, List, [], ◌∷◌, ◌++◌, ltb,
  if◌then◌else◌, length, take, drop, bind_option,
}
use nestory.Common.Int.{ℤ, to_uint64, of_uint64}
use nestory.Common.Bytes.{Bytes, put_be, be_value}

pub record WalRow : Type 0 where
  pub id : ℤ
  pub row : Bytes

pub record WalFrame : Type 0 where
  pub rows : List WalRow

abbrev pub max_uint32 : ℕ
max_uint32 = 2 ^ 32 - 1

abbrev pub row_header : ℕ
row_header = 12

-- the loop that adds up `bodySize`, after its start `frameHeader`
body_size : List WalRow → ℕ
body_size [] = 0
body_size (r ∷ rows) = row_header + length r.row + body_size rows

-- one round of the loop that fills the frame
row_bytes : WalRow → Bytes
row_bytes r = put_be 8 (to_uint64 r.id) ++ (put_be 4 (length r.row) ++ r.row)

rows_bytes : List WalRow → Bytes
rows_bytes [] = []
rows_bytes (r ∷ rows) = row_bytes r ++ rows_bytes rows

-- `none` is the error that the frame is too large
unfoldable pub encode_wal_frame : WalFrame → Option Bytes
unfolding body_size row_bytes rows_bytes
encode_wal_frame rec =
    let size = 4 + body_size rec.rows in
    if ltb max_uint32 size || ltb max_uint32 (length rec.rows)
    then none
    else some (put_be 4 size ++ (put_be 4 (length rec.rows) ++ rows_bytes rec.rows))

-- one round of the decoding loop: a row, and the bytes behind it
read_row : Bytes → Option (WalRow × Bytes)
read_row rest =
    if ltb (length rest) row_header
    then none
    else let size = be_value (take 4 (drop 8 rest)) in
      let after = drop row_header rest in
      if ltb (length after) size
      then none
      else some (
        record { id = of_uint64 (be_value (take 8 rest)); row = take size after },
        drop size after,
      )

read_rows : ℕ → Bytes → Option (List WalRow × Bytes)
read_rows zero rest = some ([], rest)
read_rows (suc count) rest =
    bind_option (read_row rest)
      λ (r, after). bind_option (read_rows count after) λ (rows, end). some (r ∷ rows, end)

-- `offset == len(body)` says that nothing is left
whole {ℓ} : {A : Type ℓ} → A × Bytes → Option A
whole (rows, []) = some rows
whole (rows, b ∷ bs) = none

unfoldable pub decode_wal_frame : Bytes → Option (List WalRow)
unfolding read_row read_rows whole
decode_wal_frame body =
    if ltb (length body) 4
    then none
    else let count = be_value (take 4 body) in
      if ltb ((length body - 4) / row_header) count
      then none
      else bind_option (read_rows count (drop 4 body)) whole
