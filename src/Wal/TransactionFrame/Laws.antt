-- ===== src/Wal/TransactionFrame/Laws.antt =====
-- Decoding an encoded frame of the transaction log.
use nestory.Common.{
  ◌+◌, ◌-◌, ◌*◌, ◌/◌, ◌^◌, ◌≤◌, ◌<◌, ◌≡◌, refl, ◌∙◌, false, some, List, [], ◌∷◌, ◌++◌, append-nil,
  append_assoc, arith, ltb, ge→ltb, length, take, drop, length-append, take_front, drop_front, All,
}
use nestory.Common.Int.{IsInt64, to_uint64, of_uint64, of_uint64-to_uint64, to_uint64-lt}
use nestory.Common.Bytes.{Bytes, put_be, be_value, length-put_be, be_value-put_be}
use nestory.Wal.TransactionFrame.{
  TransactionWalRow, transaction_body_size, transaction_row_bytes, transaction_rows_bytes,
  encode_transaction_wal_frame, read_transaction_row, read_transaction_rows,
  decode_transaction_wal_frame,
}

-- what the fields of a row can hold: an `int64`, and two lengths that fit `uint32`
abbrev pub IsFit : TransactionWalRow → Type 0
IsFit r = IsInt64 r.id × (length r.typ < 2 ^ 32) × (length r.row < 2 ^ 32)

length-transaction_row_bytes :
    (r : TransactionWalRow) → length (transaction_row_bytes r) ≡ 16 + length r.typ + length r.row
unfolding transaction_row_bytes
length-transaction_row_bytes r = omega (
  arith,
  length-append {0} (put_be 4 (length r.typ))
      (put_be 8 (to_uint64 r.id) ++ (put_be 4 (length r.row) ++ (r.typ ++ r.row))),
  length-append {0} (put_be 8 (to_uint64 r.id)) (put_be 4 (length r.row) ++ (r.typ ++ r.row)),
  length-append {0} (put_be 4 (length r.row)) (r.typ ++ r.row),
  length-append {0} r.typ r.row,
  length-put_be 4 (length r.typ),
  length-put_be 8 (to_uint64 r.id),
  length-put_be 4 (length r.row),
)

length-transaction_rows_bytes :
    (rows : List TransactionWalRow)
    → length (transaction_rows_bytes rows) ≡ transaction_body_size rows
unfolding transaction_rows_bytes transaction_body_size
length-transaction_rows_bytes [] = refl
length-transaction_rows_bytes (r ∷ rows) = omega (
  arith,
  length-append {0} (transaction_row_bytes r) (transaction_rows_bytes rows),
  length-transaction_row_bytes r,
  length-transaction_rows_bytes rows,
)

row_split :
    (r : TransactionWalRow) (rest : Bytes)
    → transaction_row_bytes r ++ rest
      ≡ put_be 4 (length r.typ)
        ++ (put_be 8 (to_uint64 r.id) ++ (put_be 4 (length r.row) ++ (r.typ ++ (r.row ++ rest))))
unfolding transaction_row_bytes
row_split r rest = simp append_assoc

-- The loop reads a header of three fields and what they announce.
read_transaction_row_at :
    (bytes t a b name row rest : Bytes)
    → bytes ≡ t ++ (a ++ (b ++ (name ++ (row ++ rest))))
    → length t ≡ 4
    → length a ≡ 8
    → length b ≡ 4
    → be_value t ≡ length name
    → be_value b ≡ length row
    → read_transaction_row bytes
      ≡ some
          (record { typ = name; wal_row = record { id = of_uint64 (be_value a); row = row } }, rest)
unfolding read_transaction_row
read_transaction_row_at bytes t a b name row rest e lt la lb name_size row_size =
    let after = name ++ (row ++ rest) in
    let head : take 4 bytes ≡ t = rw e (take_front 4 t (a ++ (b ++ after)) lt) in
    let second : drop 4 bytes ≡ a ++ (b ++ after) = rw e (drop_front 4 t (a ++ (b ++ after)) lt) in
    let third : drop 12 bytes ≡ b ++ after =
      rw (e, ← append_assoc t a (b ++ after))
        (drop_front 12 (t ++ a) (b ++ after) (omega (arith, length-append {0} t a))) in
    let fourth : drop 16 bytes ≡ after =
      rw (e, ← append_assoc t a (b ++ after), ← append_assoc (t ++ a) b after)
        (drop_front 16 (t ++ a ++ b) after
          (omega (arith, length-append {0} t a, length-append {0} (t ++ a) b))) in
    let long : ltb (length bytes) 16 ≡ false = ge→ltb _ _ (
      rw e (
        omega (
          arith,
          length-append {0} t (a ++ (b ++ after)),
          length-append {0} a (b ++ after),
          length-append {0} b after,
        ))) in
    let whole : length after ≡ length name + (length row + length rest) =
      omega (arith, length-append {0} name (row ++ rest), length-append {0} row rest) in
    let name_fits : ltb (length after) (length name) ≡ false = ge→ltb _ _ (omega arith) in
    let row_fits : ltb (length after - length name) (length row) ≡ false =
      ge→ltb _ _ (omega arith) in
    rw (
      long,
      head,
      second,
      third,
      fourth,
      take_front 8 a (b ++ after) la,
      take_front 4 b after lb,
      name_size,
      row_size,
      name_fits,
      row_fits,
      take_front (length name) name (row ++ rest) refl,
      drop_front (length name) name (row ++ rest) refl,
      take_front (length row) row rest refl,
      drop_front (length row) row rest refl,
    )

read-transaction_row_bytes :
    (r : TransactionWalRow) (rest : Bytes)
    → IsFit r
    → read_transaction_row (transaction_row_bytes r ++ rest) ≡ some (r, rest)
read-transaction_row_bytes r rest fit =
    read_transaction_row_at _ (put_be 4 (length r.typ)) (put_be 8 (to_uint64 r.id))
      (put_be 4 (length r.row)) r.typ r.row rest (row_split r rest) (length-put_be 4 _)
      (length-put_be 8 _) (length-put_be 4 _) (be_value-put_be 4 (length r.typ) fit.1)
      (be_value-put_be 4 (length r.row) fit.2)
    ∙ rw (be_value-put_be 8 (to_uint64 r.id) (to_uint64-lt r.id), of_uint64-to_uint64 r.id fit.0)

read-transaction_rows_bytes :
    (rows : List TransactionWalRow) (rest : Bytes)
    → All IsFit rows
    → read_transaction_rows (length rows) (transaction_rows_bytes rows ++ rest) ≡ some (rows, rest)
unfolding read_transaction_rows transaction_rows_bytes
read-transaction_rows_bytes [] rest fit = refl
read-transaction_rows_bytes (r ∷ rows) rest fit = rw (
  append_assoc (transaction_row_bytes r) (transaction_rows_bytes rows) rest,
  read-transaction_row_bytes r (transaction_rows_bytes rows ++ rest) fit.0,
  read-transaction_rows_bytes rows rest fit.1,
)

transaction_body_size-ge :
    (rows : List TransactionWalRow) → length rows * 16 ≤ transaction_body_size rows
unfolding transaction_body_size
transaction_body_size-ge [] = omega arith
transaction_body_size-ge (r ∷ rows) = omega (arith, transaction_body_size-ge rows)

abbrev body_of : List TransactionWalRow → Bytes
body_of rows = put_be 4 (length rows) ++ transaction_rows_bytes rows

length-body_of :
    (rows : List TransactionWalRow) → length (body_of rows) ≡ 4 + transaction_body_size rows
length-body_of rows = omega (
  arith,
  length-append {0} (put_be 4 (length rows)) (transaction_rows_bytes rows),
  length-put_be 4 (length rows),
  length-transaction_rows_bytes rows,
)

decode-body_of :
    (rows : List TransactionWalRow)
    → All IsFit rows
    → length rows < 2 ^ 32
    → decode_transaction_wal_frame (body_of rows) ≡ some rows
unfolding decode_transaction_wal_frame
decode-body_of rows fit small =
    let n = length-body_of rows in
    let long : ltb (length (body_of rows)) 4 ≡ false = ge→ltb _ _ (omega arith) in
    let room : ltb ((length (body_of rows) - 4) / 16) (length rows) ≡ false =
      ge→ltb _ _ (omega (arith, transaction_body_size-ge rows)) in
    rw (
      long,
      take_front 4 (put_be 4 (length rows)) (transaction_rows_bytes rows) (length-put_be 4 _),
      be_value-put_be 4 (length rows) small,
      room,
      drop_front 4 (put_be 4 (length rows)) (transaction_rows_bytes rows) (length-put_be 4 _),
      ← append-nil (transaction_rows_bytes rows),
      read-transaction_rows_bytes rows [] fit,
    )

-- what an accepted frame consists of: its body behind the length of the body
pub encode_transaction_wal_frame-eq_some :
    (rows : List TransactionWalRow) (bytes : Bytes)
    → encode_transaction_wal_frame (record { rows = rows }) ≡ some bytes
    → All IsFit rows
    → (body : Bytes) × (bytes ≡ put_be 4 (length body) ++ body)
      × (length body < 2 ^ 32)
      × (decode_transaction_wal_frame body ≡ some rows)
unfolding encode_transaction_wal_frame
encode_transaction_wal_frame-eq_some rows bytes h fit =
    let fits : 4 + transaction_body_size rows < 2 ^ 32 = ground arith in
    (
      body_of rows,
      rw length-body_of (ground arith),
      omega (arith, length-body_of rows),
      decode-body_of rows fit (omega (arith, transaction_body_size-ge rows)),
    )
