-- ===== src/Wal/Row/Decode.antt =====
-- wal.go, `decodeScalarValue`, `decodeScalarAggregate` and `decodeScalarRow`, and the choice of a
-- codec in `encodeRow` and `decodeRow`. The value that the code sets is an argument, of which only
-- the type matters; encoding/gob is a parameter.
pub mod Laws
use nestory.Common.{
  ℕ, ◌+◌, ◌-◌, ◌/◌, ◌%◌, ◌||◌, Option, none, some, [], ◌∷◌, ltb, ◌==◌, if◌then◌else◌, length,
  get_or, take, drop, bind_option,
}
use nestory.Common.Int.{of_uint64}
use nestory.Common.Bytes.{Bytes, be_value}
use nestory.Wal.Row.Value.{
  Value, Values, bool, int, uint, float32, float64, string, byte_slice, slice, array, struct_of,
  other, nil, cons, truncate_int, modulus, zeroed,
}
use nestory.Wal.Row.Size.{scalar_row_size}
use nestory.Wal.Row.Encode.{Float32, encode_scalar_value}

-- `none` is the error that the row is malformed
fixed : Bytes → (ℕ → Value) → Option (Value × ℕ)
fixed data_bytes make =
    if ltb (length data_bytes) 8 then none else some (make (be_value (take 8 data_bytes)), 8)

decode_bool : Bytes → Option (Value × ℕ)
decode_bool bytes =
    if ltb (length bytes) 1 || ltb 1 (get_or bytes 0 0)
    then none
    else some (bool (get_or bytes 0 0 == 1), 1)

decode_string : Bytes → Option (Value × ℕ)
decode_string bytes =
    let size = be_value (take 4 bytes) in
    if ltb (length bytes) 4 || ltb (length bytes - 4) size
    then none
    else some (string (take size (drop 4 bytes)), 4 + size)

decode_byte_slice : Bytes → Option (Value × ℕ)
decode_byte_slice bytes =
    let encoded_size = be_value (take 4 bytes) in
    if ltb (length bytes) 4
    then none
    else if encoded_size == 0
    then some (byte_slice none, 4)
    else let size = encoded_size - 1 in
      if ltb (length bytes - 4) size
      then none
      else some (byte_slice (some (take size (drop 4 bytes))), 4 + size)

module _ (f : Float32) where
  unfoldable mutual
    unfolding fixed decode_bool decode_string decode_byte_slice

    pub decode_scalar_value : Value → Bytes → Option (Value × ℕ)
    decode_scalar_value (bool b) bytes = decode_bool bytes
    decode_scalar_value (int w x) bytes = fixed bytes λ n. int w (truncate_int w (of_uint64 n))
    decode_scalar_value (uint w x) bytes = fixed bytes λ n. uint w (n % modulus w)
    decode_scalar_value (float32 x) bytes = fixed bytes λ n. float32 (f.narrow n)
    decode_scalar_value (float64 x) bytes = fixed bytes float64
    decode_scalar_value (string s) bytes = decode_string bytes
    decode_scalar_value (byte_slice s) bytes = decode_byte_slice bytes
    decode_scalar_value slice bytes = none
    decode_scalar_value (array vs) bytes =
        bind_option (decode_scalar_aggregate vs bytes) λ (ws, offset). some (array ws, offset)
    decode_scalar_value (struct_of exported vs) bytes =
        bind_option (decode_scalar_aggregate vs bytes)
          λ (ws, offset). some (struct_of exported ws, offset)
    decode_scalar_value other bytes = none

    pub decode_scalar_aggregate : Values → Bytes → Option (Values × ℕ)
    decode_scalar_aggregate nil bytes = some (nil, 0)
    decode_scalar_aggregate (cons v vs) bytes =
        bind_option (decode_scalar_value v bytes) λ (w, read).
          bind_option (decode_scalar_aggregate vs (drop read bytes))
            λ (ws, more). some (cons w ws, read + more)

  unfoldable pub decode_scalar_row : Value → Bytes → Option Value
  decode_scalar_row row bytes =
      bind_option (decode_scalar_value row bytes)
        λ (v, offset). if offset == length bytes then some v else none

-- encoding/gob: a value with the type of the second argument
pub record Gob : Type 0 where
  pub encode : Value → Option Bytes
  pub decode : Bytes → Value → Option Value

abbrev row_encoding_gob : ℕ
row_encoding_gob = 0

abbrev row_encoding_scalar : ℕ
row_encoding_scalar = 1

module _ (f : Float32) (gob : Gob) where
  unfoldable pub encode_row : Value → Option Bytes
  encode_row v = elim (scalar_row_size v) [
    | some size ↦ bind_option (encode_scalar_value f v) λ bytes. some (row_encoding_scalar ∷ bytes)
    | none ↦ bind_option (gob.encode v) λ bytes. some (row_encoding_gob ∷ bytes)
  ]

  unfoldable pub decode_row : Bytes → Value → Option Value
  decode_row [] row = none
  decode_row (encoding ∷ bytes) row =
      if encoding == row_encoding_gob
      then gob.decode bytes (zeroed row)
      else if encoding == row_encoding_scalar
      then decode_scalar_row f (zeroed row) bytes
      else none
