-- ===== src/Wal/TransactionFrame.antt =====
-- wal.go: `transactionWALRow`, `transactionWALFrame` and their codec. A row carries the name of its
-- entity type in front of the fields of a row of one type's log.
pub mod Laws
use nestory.Common.{
  ℕ, zero, suc, ◌+◌, ◌-◌, ◌*◌, ◌/◌, ◌||◌, Option, none, some, List, [], ◌∷◌, ◌++◌, ltb, ◌==◌,
  if◌then◌else◌, length, take, drop, bind_option,
}
use nestory.Common.Int.{ℤ, to_uint64, of_uint64}
use nestory.Common.Bytes.{Bytes, put_be, be_value}
use nestory.Wal.Frame.{WalRow, max_uint32}

-- `typ` is the bytes of the source's `Type`, and `wal_row` its embedded `walRow`
pub record TransactionWalRow : Type 0 where
  pub typ : Bytes
  pub wal_row : WalRow
  pub open wal_row use *

pub record TransactionWalFrame : Type 0 where
  pub rows : List TransactionWalRow

abbrev pub transaction_row_header : ℕ
transaction_row_header = 16

transaction_body_size : List TransactionWalRow → ℕ
transaction_body_size [] = 0
transaction_body_size (r ∷ rows) =
    transaction_row_header + length r.typ + length r.row + transaction_body_size rows

transaction_row_bytes : TransactionWalRow → Bytes
transaction_row_bytes r =
    put_be 4 (length r.typ)
    ++ (put_be 8 (to_uint64 r.id) ++ (put_be 4 (length r.row) ++ (r.typ ++ r.row)))

transaction_rows_bytes : List TransactionWalRow → Bytes
transaction_rows_bytes [] = []
transaction_rows_bytes (r ∷ rows) = transaction_row_bytes r ++ transaction_rows_bytes rows

-- `none` is the error that the frame is too large
unfoldable pub encode_transaction_wal_frame : TransactionWalFrame → Option Bytes
unfolding transaction_body_size transaction_row_bytes transaction_rows_bytes
encode_transaction_wal_frame rec =
    let size = 4 + transaction_body_size rec.rows in
    if ltb max_uint32 size || ltb max_uint32 (length rec.rows)
    then none
    else some (put_be 4 size ++ (put_be 4 (length rec.rows) ++ transaction_rows_bytes rec.rows))

read_transaction_row : Bytes → Option (TransactionWalRow × Bytes)
read_transaction_row rest =
    if ltb (length rest) transaction_row_header
    then none
    else let type_size = be_value (take 4 rest) in
      let id = of_uint64 (be_value (take 8 (drop 4 rest))) in
      let row_size = be_value (take 4 (drop 12 rest)) in
      let after = drop transaction_row_header rest in
      if ltb (length after) type_size || ltb (length after - type_size) row_size
      then none
      else let row = drop type_size after in
        some (
          record {
            typ = take type_size after;
            wal_row = record { id = id; row = take row_size row };
          },
          drop row_size row,
        )

read_transaction_rows : ℕ → Bytes → Option (List TransactionWalRow × Bytes)
read_transaction_rows zero rest = some ([], rest)
read_transaction_rows (suc count) rest = bind_option (read_transaction_row rest) λ (r, after).
    bind_option (read_transaction_rows count after) λ (rows, end). some (r ∷ rows, end)

-- `offset == len(body)` says that nothing is left
whole_transaction {ℓ} : {A : Type ℓ} → A × Bytes → Option A
whole_transaction (rows, []) = some rows
whole_transaction (rows, b ∷ bs) = none

unfoldable pub decode_transaction_wal_frame : Bytes → Option (List TransactionWalRow)
unfolding read_transaction_row read_transaction_rows whole_transaction
decode_transaction_wal_frame body =
    if ltb (length body) 4
    then none
    else let count = be_value (take 4 body) in
      if ltb ((length body - 4) / transaction_row_header) count
      then none
      else bind_option (read_transaction_rows count (drop 4 body)) whole_transaction
