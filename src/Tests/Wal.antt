-- ===== src/Tests/Wal.antt =====
-- wal.go: two frames of a log, an append that is cut short and one that is not.
use nestory.Common.{
  length, false, inr, ◌≡◌, refl, ◌⊎◌, inl, true, Option, none, some, [], ◌∷◌, ◌++◌, arith,
  replicate,
}
use nestory.Common.Int.{pos, negsuc, to_uint64}
use nestory.Common.Bytes.{Bytes, put_be}
use nestory.Wal.Frame.{WalFrame, encode_wal_frame, decode_wal_frame}
use nestory.Wal.Replay.{missing, contents, replay_wal, replay_transaction_wal}
use nestory.Wal.TransactionFrame.{
  TransactionWalFrame, encode_transaction_wal_frame, decode_transaction_wal_frame,
}
use nestory.Wal.Replay.Whole.{IsReplay, replay_wal-IsReplay}
use nestory.Wal.Replay.Frames.{IsLog}
use nestory.Wal.Replay.Rows.{recover_rows, recover_transaction_rows}
use nestory.Wal.Log.{append_transaction_frame, Device, Wal, append_frame}
use nestory.Wal.Row.Value.{Value, int, bool, struct_of, cons, nil, w64}
use nestory.Wal.Row.Size.{scalar_row_size, scalar_value_size}
use nestory.Wal.Row.Encode.{Float32}
use nestory.Wal.Row.Decode.{Gob, encode_row, decode_row}
use nestory.Wal.Row.Decode.Laws.{decode_row-encode_row, IsSane}
use nestory.Wal.Durability.{
  append_frame_after_torn, TransactionReplays, append_transaction_frame-atomic,
  append_transaction_frame-durable, wal_codec, Replays, append_frame-atomic, append_frame-durable,
}

abbrev as_row : Bytes → Option Bytes
as_row [] = none
as_row (b ∷ bs) = some bs

abbrev first_frame : WalFrame
first_frame = record { rows = record { id = pos 7; row = 1 ∷ 42 ∷ [] } ∷ [] }

abbrev second_frame : WalFrame
second_frame = record { rows = record { id = negsuc 6; row = [] } ∷ [] }

abbrev long_frame : WalFrame
long_frame = record { rows = record { id = pos 9; row = replicate 40 1 } ∷ [] }

abbrev first_bytes : Bytes
first_bytes =
    0 ∷ 0 ∷ 0 ∷ 18 ∷ 0 ∷ 0 ∷ 0 ∷ 1 ∷ 0 ∷ 0 ∷ 0 ∷ 0 ∷ 0 ∷ 0 ∷ 0 ∷ 7 ∷ 0 ∷ 0 ∷ 0 ∷ 2 ∷ 1 ∷ 42 ∷ []

first_encoded : encode_wal_frame first_frame ≡ some first_bytes
unfolding encode_wal_frame put_be to_uint64
first_encoded = refl

first-IsLog : IsLog wal_codec (first_frame.rows ∷ []) first_bytes
first-IsLog = (first_bytes, [], first_encoded, ((omega arith, omega arith), tt), refl, refl)

abbrev good : Device
good = record {
  makes_dir = true;
  opens = true;
  written = 100;
  syncs = true;
  closes = true;
  removes = true;
}

abbrev full_disk : Device
full_disk = record {
  makes_dir = true;
  opens = true;
  written = 10;
  syncs = true;
  closes = true;
  removes = true;
}

abbrev empty_log : Wal
empty_log = record { disk = missing; is_open = false }

abbrev log : Wal
log = record { disk = contents first_bytes; is_open = true }

append_frame-atomic_example :
    Replays as_row (append_frame full_disk log second_frame).0.disk (first_frame.rows ++ [])
    ⊎ Replays as_row
        (append_frame full_disk log second_frame).0.disk
        ((first_frame.rows ++ []) ++ second_frame.rows)
append_frame-atomic_example =
    append_frame-atomic as_row full_disk log second_frame (first_frame.rows ∷ []) first_bytes
      (inl refl) first-IsLog ((omega arith, omega arith), tt)

second_done : (append_frame good log second_frame).1 ≡ none
unfolding append_frame encode_wal_frame put_be to_uint64
second_done = refl

append_frame-durable_example :
    Replays as_row
      (append_frame good log second_frame).0.disk
      ((first_frame.rows ++ []) ++ second_frame.rows)
append_frame-durable_example =
    append_frame-durable as_row good log second_frame (first_frame.rows ∷ []) first_bytes (inl refl)
      first-IsLog ((omega arith, omega arith), tt) second_done

abbrev long_bytes : Bytes
long_bytes =
    0 ∷ 0 ∷ 0 ∷ 56 ∷ 0 ∷ 0 ∷ 0 ∷ 1 ∷ 0 ∷ 0 ∷ 0 ∷ 0 ∷ 0 ∷ 0 ∷ 0 ∷ 9 ∷ 0 ∷ 0 ∷ 0 ∷ 40 ∷ replicate 40 1

abbrev second_bytes : Bytes
second_bytes =
    0 ∷ 0 ∷ 0 ∷ 16 ∷ 0 ∷ 0 ∷ 0 ∷ 1 ∷ 255 ∷ 255 ∷ 255 ∷ 255 ∷ 255 ∷ 255 ∷ 255 ∷ 249 ∷ 0 ∷ 0 ∷ 0 ∷ 0
    ∷ []

long_encoded : encode_wal_frame long_frame ≡ some long_bytes
unfolding encode_wal_frame put_be to_uint64
long_encoded = refl

second_encoded : encode_wal_frame second_frame ≡ some second_bytes
unfolding encode_wal_frame put_be to_uint64
second_encoded = refl

second_after_torn :
    (append_frame good (append_frame full_disk log long_frame).0 second_frame).1 ≡ none
unfolding append_frame encode_wal_frame put_be to_uint64
second_after_torn = refl

append_frame_after_torn_example :
    Replays as_row
      (append_frame good (append_frame full_disk log long_frame).0 second_frame).0.disk
      (first_frame.rows ++ [])
append_frame_after_torn_example =
    append_frame_after_torn as_row full_disk good log long_frame second_frame long_bytes
      second_bytes (first_frame.rows ∷ []) first_bytes (refl, refl) first-IsLog
      ((omega arith, omega arith), tt) long_encoded second_encoded (omega arith) (omega arith)
      second_after_torn

abbrev order_name : Bytes
order_name = 111 ∷ 114 ∷ []

abbrev order_frame : TransactionWalFrame
order_frame = record {
  rows = record { typ = order_name; wal_row = record { id = pos 3; row = 1 ∷ 8 ∷ [] } } ∷ [];
}

order_done : (append_transaction_frame good empty_log order_frame).1 ≡ none
unfolding append_transaction_frame encode_transaction_wal_frame put_be to_uint64
order_done = refl

append_transaction_frame-atomic_example :
    TransactionReplays as_row order_name
      (append_transaction_frame full_disk empty_log order_frame).0.disk
      []
    ⊎ TransactionReplays as_row order_name
        (append_transaction_frame full_disk empty_log order_frame).0.disk
        ([] ++ order_frame.rows)
append_transaction_frame-atomic_example =
    append_transaction_frame-atomic as_row order_name full_disk empty_log order_frame [] []
      (inr (refl, refl)) refl ((omega arith, omega arith, omega arith), tt)

append_transaction_frame-durable_example :
    TransactionReplays as_row order_name
      (append_transaction_frame good empty_log order_frame).0.disk
      ([] ++ order_frame.rows)
append_transaction_frame-durable_example =
    append_transaction_frame-durable as_row order_name good empty_log order_frame [] []
      (inr (refl, refl)) refl ((omega arith, omega arith, omega arith), tt) order_done

replay_wal-IsReplay_example :
    IsReplay decode_wal_frame
      (recover_rows as_row)
      first_bytes
      (replay_wal as_row (contents first_bytes))
    × IsReplay decode_transaction_wal_frame
        (recover_transaction_rows as_row order_name)
        first_bytes
        (replay_transaction_wal as_row (contents first_bytes) order_name)
replay_wal-IsReplay_example = replay_wal-IsReplay as_row first_bytes order_name

abbrev same_floats : Float32
same_floats = record { widen = λ x. x; narrow = λ x. x }

abbrev no_gob : Gob
no_gob = record { encode = λ v. none; decode = λ bytes v. none }

abbrev account : Value
account = struct_of (true ∷ true ∷ []) (cons (int w64 (negsuc 4)) (cons (bool true) nil))

account_size : scalar_row_size account ≡ some 10
unfolding scalar_row_size scalar_value_size
account_size = refl

account-IsSane : IsSane same_floats account
unfolding IsSane
account-IsSane = (omega arith, (tt, tt))

decode_row-encode_row_example :
    (bytes : Bytes) × (encode_row same_floats no_gob account ≡ some bytes)
    × (length bytes ≡ 10)
    × (decode_row same_floats no_gob bytes account ≡ some account)
decode_row-encode_row_example =
    decode_row-encode_row same_floats no_gob account 10 account_size account-IsSane
