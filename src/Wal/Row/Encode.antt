-- ===== src/Wal/Row/Encode.antt =====
-- wal.go, `encodeScalarValue` and `encodeScalarAggregate`: the bytes that they put into `out`. A
-- `false` leaves the zero that `make` put there. `none` is the panic on an unsupported value.
use nestory.Common.{
  ℕ, ◌+◌, ◌≡◌, refl, inl, inr, Option, none, some, [], ◌∷◌, ◌++◌, arith, if◌then◌else◌,
  Option-cases, length, length-append, bind_option,
}
use nestory.Common.Int.{to_uint64}
use nestory.Common.Bytes.{Bytes, put_be, length-put_be}
use nestory.Wal.Row.Value.{
  Value, Values, bool, int, uint, float32, float64, string, byte_slice, slice, array, struct_of,
  other, nil, cons,
}
use nestory.Wal.Row.Size.{scalar_value_size, scalar_aggregate_size}

-- Go's conversions between `float32` and `float64`, on bit patterns
pub record Float32 : Type 0 where
  pub widen : ℕ → ℕ
  pub narrow : ℕ → ℕ

module _ (f : Float32) where
  encode_byte_slice : Option Bytes → Bytes
  encode_byte_slice none = put_be 4 0
  encode_byte_slice (some s) = put_be 4 (length s + 1) ++ s

  unfoldable mutual
    unfolding encode_byte_slice

    pub encode_scalar_value : Value → Option Bytes
    encode_scalar_value (bool b) = some ((if b then 1 else 0) ∷ [])
    encode_scalar_value (int w x) = some (put_be 8 (to_uint64 x))
    encode_scalar_value (uint w x) = some (put_be 8 x)
    encode_scalar_value (float32 x) = some (put_be 8 (f.widen x))
    encode_scalar_value (float64 x) = some (put_be 8 x)
    encode_scalar_value (string s) = some (put_be 4 (length s) ++ s)
    encode_scalar_value (byte_slice s) = some (encode_byte_slice s)
    encode_scalar_value slice = none
    encode_scalar_value (array vs) = encode_scalar_aggregate vs
    encode_scalar_value (struct_of exported vs) = encode_scalar_aggregate vs
    encode_scalar_value other = none

    pub encode_scalar_aggregate : Values → Option Bytes
    encode_scalar_aggregate nil = some []
    encode_scalar_aggregate (cons v vs) =
        bind_option (encode_scalar_value v)
          λ here. bind_option (encode_scalar_aggregate vs) λ more. some (here ++ more)

  pub aggregate_step :
      (v : Value) (vs : Values) (size n : ℕ)
      → scalar_aggregate_size size (cons v vs) ≡ some n
      → (k : ℕ) × (scalar_value_size v ≡ some k) × (scalar_aggregate_size (size + k) vs ≡ some n)
  unfolding scalar_value_size
  aggregate_step v vs size n h = elim (Option-cases (scalar_value_size v)) [
    | inl e ↦ absurd (ground arith)
    | inr (k, e) ↦ (k, e, ground arith)
  ]

  mutual
    unfolding scalar_value_size encode_scalar_value

    -- A value with a size is encoded in as many bytes.
    pub length-encode_scalar_value :
        (v : Value) (n : ℕ)
        → scalar_value_size v ≡ some n
        → (bytes : Bytes) × (encode_scalar_value v ≡ some bytes) × (length bytes ≡ n)
    length-encode_scalar_value (bool b) n h = (_, refl, ground arith)
    length-encode_scalar_value (int w x) n h =
        (_, refl, ground (arith, length-put_be 8 (to_uint64 x)))
    length-encode_scalar_value (uint w x) n h = (_, refl, ground (arith, length-put_be 8 x))
    length-encode_scalar_value (float32 x) n h =
        (_, refl, ground (arith, length-put_be 8 (f.widen x)))
    length-encode_scalar_value (float64 x) n h = (_, refl, ground (arith, length-put_be 8 x))
    length-encode_scalar_value (string s) n h =
        (_, refl, ground (arith, length-append (put_be 4 (length s)) s, length-put_be 4 (length s)))
    length-encode_scalar_value (byte_slice none) n h = (_, refl, ground (arith, length-put_be 4 0))
    length-encode_scalar_value (byte_slice (some s)) n h = (
      _,
      refl,
      ground (arith, length-append (put_be 4 (length s + 1)) s, length-put_be 4 (length s + 1)),
    )
    length-encode_scalar_value slice n h = absurd (ground arith)
    length-encode_scalar_value (array vs) n h =
        let (bytes, e, l) = length-encode_scalar_aggregate vs 0 n h in (bytes, e, omega arith)
    length-encode_scalar_value (struct_of exported vs) n h =
        let (bytes, e, l) = length-encode_scalar_aggregate vs 0 n (ground arith) in
        (bytes, e, omega arith)
    length-encode_scalar_value other n h = absurd (ground arith)

    length-encode_scalar_aggregate :
        (vs : Values) (size n : ℕ)
        → scalar_aggregate_size size vs ≡ some n
        → (bytes : Bytes) × (encode_scalar_aggregate vs ≡ some bytes) × (size + length bytes ≡ n)
    length-encode_scalar_aggregate nil size n h = ([], refl, ground arith)
    length-encode_scalar_aggregate (cons v vs) size n h =
        let (k, sized, rest) = aggregate_step v vs size n h in
        let (here, e, l) = length-encode_scalar_value v k sized in
        let (more, e', l') = length-encode_scalar_aggregate vs (size + k) n rest in
        (here ++ more, rw (e, e'), omega (arith, length-append {0} here more))
