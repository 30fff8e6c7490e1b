-- ===== src/Wal/Row/Size.antt =====
-- wal.go, `scalarRowSize`, `scalarValueSize` and `scalarAggregateSize`.
use nestory.Common.{
  ℕ, ◌+◌, ◌-◌, ◌^◌, Bool, true, false, ◌&&◌, Option, none, some, List, [], ◌∷◌, ltb, leb, ◌==◌,
  if◌then◌else◌, length, bind_option,
}
use nestory.Common.Bytes.{Bytes}
use nestory.Wal.Frame.{max_uint32}
use nestory.Wal.Row.Value.{
  Value, Values, bool, int, uint, float32, float64, string, byte_slice, slice, array, struct_of,
  other, nil, cons,
}

abbrev pub max_int : ℕ
max_int = 2 ^ 63 - 1

pub all_exported : List Bool → Bool
all_exported [] = true
all_exported (e ∷ es) = e && all_exported es

byte_slice_size : Option Bytes → Option ℕ
byte_slice_size none = some 4
byte_slice_size (some s) = if leb max_uint32 (length s) then none else some (4 + length s)

unfoldable mutual
  unfolding all_exported byte_slice_size

  -- `none` stands for `0, false`
  pub scalar_value_size : Value → Option ℕ
  scalar_value_size (bool b) = some 1
  scalar_value_size (int w x) = some 8
  scalar_value_size (uint w x) = some 8
  scalar_value_size (float32 x) = some 8
  scalar_value_size (float64 x) = some 8
  scalar_value_size (string s) = if ltb max_uint32 (length s) then none else some (4 + length s)
  scalar_value_size (byte_slice s) = byte_slice_size s
  scalar_value_size slice = none
  scalar_value_size (array vs) = scalar_aggregate_size 0 vs
  scalar_value_size (struct_of exported vs) =
      if all_exported exported then scalar_aggregate_size 0 vs else none
  scalar_value_size other = none

  pub scalar_aggregate_size : ℕ → Values → Option ℕ
  scalar_aggregate_size size nil = some size
  scalar_aggregate_size size (cons v vs) =
      bind_option (scalar_value_size v)
        λ n. if ltb (max_int - n) size then none else scalar_aggregate_size (size + n) vs

is_struct : Value → Bool
is_struct (struct_of exported vs) = true
is_struct _ = false

unfoldable pub scalar_row_size : Value → Option ℕ
unfolding is_struct
scalar_row_size row =
    if is_struct row
    then (bind_option (scalar_value_size row)
        λ size. if size == max_int then none else some (size + 1))
    else none
