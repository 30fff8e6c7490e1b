-- ===== src/Wal/Frame/Laws.antt =====
-- Decoding an encoded frame of wal.go.
use nestory.Common.{
  ◌+◌, ◌-◌, ◌*◌, ◌/◌, ◌^◌, ◌≤◌, ◌<◌, ◌≡◌, refl, ap, ◌∙◌, false, some, List, [], ◌∷◌, ◌++◌,
  append_assoc, arith, ltb, ge→ltb, All, length, length-append, take, drop, take_front, drop_front,
  append-nil,
}
use nestory.Common.Int.{IsInt64, to_uint64, of_uint64, of_uint64-to_uint64, to_uint64-lt}
use nestory.Common.Bytes.{Bytes, put_be, be_value, length-put_be, be_value-put_be}
use nestory.Wal.Frame.{
  WalRow, body_size, row_bytes, rows_bytes, encode_wal_frame, read_row, read_rows, decode_wal_frame,
}

-- what the fields of a row can hold: an `int64`, and a length that fits `uint32`
abbrev pub IsFit : WalRow → Type 0
IsFit r = IsInt64 r.id × (length r.row < 2 ^ 32)

length-row_bytes : (r : WalRow) → length (row_bytes r) ≡ 12 + length r.row
unfolding row_bytes
length-row_bytes r = omega (
  arith,
  length-append {0} (put_be 8 (to_uint64 r.id)) (put_be 4 (length r.row) ++ r.row),
  length-append {0} (put_be 4 (length r.row)) r.row,
  length-put_be 8 (to_uint64 r.id),
  length-put_be 4 (length r.row),
)

length-rows_bytes : (rows : List WalRow) → length (rows_bytes rows) ≡ body_size rows
unfolding rows_bytes body_size
length-rows_bytes [] = refl
length-rows_bytes (r ∷ rows) = omega (
  arith,
  length-append {0} (row_bytes r) (rows_bytes rows),
  length-row_bytes r,
  length-rows_bytes rows,
)

-- the parts of `row_bytes r ++ rest` that the loop reads
row_split :
    (r : WalRow) (rest : Bytes)
    → row_bytes r ++ rest
      ≡ put_be 8 (to_uint64 r.id) ++ (put_be 4 (length r.row) ++ (r.row ++ rest))
unfolding row_bytes
row_split r rest =
    append_assoc (put_be 8 (to_uint64 r.id)) (put_be 4 (length r.row) ++ r.row) rest
    ∙ ap (λ t. put_be 8 (to_uint64 r.id) ++ t) (append_assoc (put_be 4 (length r.row)) r.row rest)

-- The loop reads a header of two fields and what they announce.
read_row_at :
    (bytes a b c rest : Bytes)
    → bytes ≡ a ++ (b ++ (c ++ rest))
    → length a ≡ 8
    → length b ≡ 4
    → be_value b ≡ length c
    → read_row bytes ≡ some (record { id = of_uint64 (be_value a); row = c }, rest)
unfolding read_row
read_row_at bytes a b c rest e la lb size =
    let fields : take 8 bytes ≡ a = rw e (take_front 8 a (b ++ (c ++ rest)) la) in
    let tail : drop 8 bytes ≡ b ++ (c ++ rest) = rw e (drop_front 8 a (b ++ (c ++ rest)) la) in
    let after : drop 12 bytes ≡ c ++ rest =
      rw (e, ← append_assoc a b (c ++ rest))
        (drop_front 12 (a ++ b) (c ++ rest) (omega (arith, length-append {0} a b))) in
    let long : ltb (length bytes) 12 ≡ false = ge→ltb _ _ (
      rw e
        (omega (arith, length-append {0} a (b ++ (c ++ rest)), length-append {0} b (c ++ rest)))) in
    let enough : ltb (length (c ++ rest)) (length c) ≡ false =
      ge→ltb _ _ (omega (arith, length-append {0} c rest)) in
    rw (
      long,
      fields,
      tail,
      take_front 4 b (c ++ rest) lb,
      size,
      after,
      enough,
      take_front (length c) c rest refl,
      drop_front (length c) c rest refl,
    )

read_row-row_bytes :
    (r : WalRow) (rest : Bytes) → IsFit r → read_row (row_bytes r ++ rest) ≡ some (r, rest)
read_row-row_bytes r rest fit =
    read_row_at _ (put_be 8 (to_uint64 r.id)) (put_be 4 (length r.row)) r.row rest
      (row_split r rest) (length-put_be 8 _) (length-put_be 4 _)
      (be_value-put_be 4 (length r.row) fit.1)
    ∙ rw (be_value-put_be 8 (to_uint64 r.id) (to_uint64-lt r.id), of_uint64-to_uint64 r.id fit.0)

read_rows-rows_bytes :
    (rows : List WalRow) (rest : Bytes)
    → All IsFit rows
    → read_rows (length rows) (rows_bytes rows ++ rest) ≡ some (rows, rest)
unfolding read_rows rows_bytes
read_rows-rows_bytes [] rest fit = refl
read_rows-rows_bytes (r ∷ rows) rest fit = rw (
  append_assoc (row_bytes r) (rows_bytes rows) rest,
  read_row-row_bytes r (rows_bytes rows ++ rest) fit.0,
  read_rows-rows_bytes rows rest fit.1,
)

body_size-ge : (rows : List WalRow) → length rows * 12 ≤ body_size rows
unfolding body_size
body_size-ge [] = omega arith
body_size-ge (r ∷ rows) = omega (arith, body_size-ge rows)

abbrev body_of : List WalRow → Bytes
body_of rows = put_be 4 (length rows) ++ rows_bytes rows

length-body_of : (rows : List WalRow) → length (body_of rows) ≡ 4 + body_size rows
length-body_of rows = omega (
  arith,
  length-append {0} (put_be 4 (length rows)) (rows_bytes rows),
  length-put_be 4 (length rows),
  length-rows_bytes rows,
)

decode-body_of :
    (rows : List WalRow)
    → All IsFit rows
    → length rows < 2 ^ 32
    → decode_wal_frame (body_of rows) ≡ some rows
unfolding decode_wal_frame
decode-body_of rows fit small =
    let n = length-body_of rows in
    let long : ltb (length (body_of rows)) 4 ≡ false = ge→ltb _ _ (omega arith) in
    let room : ltb ((length (body_of rows) - 4) / 12) (length rows) ≡ false =
      ge→ltb _ _ (omega (arith, body_size-ge rows)) in
    rw (
      long,
      take_front 4 (put_be 4 (length rows)) (rows_bytes rows) (length-put_be 4 _),
      be_value-put_be 4 (length rows) small,
      room,
      drop_front 4 (put_be 4 (length rows)) (rows_bytes rows) (length-put_be 4 _),
      ← append-nil (rows_bytes rows),
      read_rows-rows_bytes rows [] fit,
    )

-- what an accepted frame consists of: its body behind the length of the body
pub encode_wal_frame-eq_some :
    (rows : List WalRow) (bytes : Bytes)
    → encode_wal_frame (record { rows = rows }) ≡ some bytes
    → All IsFit rows
    → (body : Bytes) × (bytes ≡ put_be 4 (length body) ++ body)
      × (length body < 2 ^ 32)
      × (decode_wal_frame body ≡ some rows)
unfolding encode_wal_frame
encode_wal_frame-eq_some rows bytes h fit =
    let fits : 4 + body_size rows < 2 ^ 32 = ground arith in
    (
      body_of rows,
      rw length-body_of (ground arith),
      omega (arith, length-body_of rows),
      decode-body_of rows fit (omega (arith, body_size-ge rows)),
    )
