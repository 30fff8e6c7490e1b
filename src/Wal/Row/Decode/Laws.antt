-- ===== src/Wal/Row/Decode/Laws.antt =====
-- Decoding the encoding of a row.
use nestory.Common.{
  [], ℕ, ◌+◌, ◌-◌, ◌%◌, ◌^◌, ◌<◌, ◌≡◌, refl, ap, ◌∙◌, inl, inr, true, false, none, some, ◌++◌,
  append_assoc, arith, ltb, ◌==◌, ge→ltb, Option-cases, length, length-append, take_front,
  drop_front,
}
use nestory.Common.Int.{of_uint64, to_uint64, of_uint64-to_uint64, to_uint64-lt}
use nestory.Common.Bytes.{Bytes, put_be, be_value, length-put_be, be_value-put_be}
use nestory.Wal.Row.Value.{
  truncate_int, Value, Values, bool, int, uint, float32, float64, string, byte_slice, slice, array,
  struct_of, other, nil, cons, modulus, zeroed, zeroed_all, FitsInt, truncate_int_fits,
  FitsInt-IsInt64, w8, w16, w32, w64, Width,
}
use nestory.Wal.Row.Size.{scalar_value_size, scalar_aggregate_size}
use nestory.Wal.Row.Encode.{encode_scalar_aggregate, aggregate_step, Float32, encode_scalar_value}
use nestory.Wal.Row.Size.{scalar_value_size, scalar_aggregate_size}
use nestory.Wal.Row.Size.{scalar_row_size}
use nestory.Wal.Row.Encode.{length-encode_scalar_value}
use nestory.Common.{append-nil, ==_refl, ◌∷◌}
use nestory.Wal.Row.Decode.{
  Gob, encode_row, decode_row, decode_scalar_row, decode_scalar_aggregate, decode_scalar_value,
  fixed, decode_string, decode_byte_slice,
}

-- What values a Go program can hold: numbers in the range of their type. A `float32` must survive
-- the conversion to `float64` and back, as all but signaling NaNs do.
unfoldable mutual
  pub IsSane : Float32 → Value → Type 0
  IsSane f (bool b) = Unit
  IsSane f (int w x) = FitsInt w x
  IsSane f (uint w x) = x < modulus w
  IsSane f (float32 x) = (f.widen x < 2 ^ 64) × (f.narrow (f.widen x) ≡ x)
  IsSane f (float64 x) = x < 2 ^ 64
  IsSane f (string s) = Unit
  IsSane f (byte_slice s) = Unit
  IsSane f slice = Unit
  IsSane f (array vs) = AreSane f vs
  IsSane f (struct_of exported vs) = AreSane f vs
  IsSane f other = Unit

  pub AreSane : Float32 → Values → Type 0
  AreSane f nil = Unit
  AreSane f (cons v vs) = IsSane f v × AreSane f vs

fixed-put_be :
    (x : ℕ) (rest : Bytes) (make : ℕ → Value)
    → x < 2 ^ 64
    → fixed (put_be 8 x ++ rest) make ≡ some (make x, 8)
unfolding fixed
fixed-put_be x rest make h =
    let long : ltb (length (put_be 8 x ++ rest)) 8 ≡ false =
      ge→ltb _ _ (omega (arith, length-append {0} (put_be 8 x) rest, length-put_be 8 x)) in
    rw (long, take_front 8 (put_be 8 x) rest (length-put_be 8 x), be_value-put_be 8 x h)

decode_string-encoded :
    (s rest : Bytes)
    → length s < 2 ^ 32
    → decode_string ((put_be 4 (length s) ++ s) ++ rest) ≡ some (string s, 4 + length s)
unfolding decode_string
decode_string-encoded s rest h =
    let hdr = put_be 4 (length s) in
    let n = length-put_be 4 (length s) in
    let size : length (hdr ++ (s ++ rest)) ≡ 4 + (length s + length rest) =
      omega (arith, length-append {0} hdr (s ++ rest), length-append {0} s rest) in
    rw (
      append_assoc hdr s rest,
      take_front 4 hdr (s ++ rest) n,
      drop_front 4 hdr (s ++ rest) n,
      be_value-put_be 4 (length s) h,
      ge→ltb (length (hdr ++ (s ++ rest))) 4 (omega arith),
      ge→ltb (length (hdr ++ (s ++ rest)) - 4) (length s) (omega arith),
      take_front (length s) s rest refl,
    )

decode_byte_slice-encoded :
    (s rest : Bytes)
    → length s + 1 < 2 ^ 32
    → decode_byte_slice ((put_be 4 (length s + 1) ++ s) ++ rest)
      ≡ some (byte_slice (some s), 4 + length s)
unfolding decode_byte_slice
decode_byte_slice-encoded s rest h =
    let hdr = put_be 4 (length s + 1) in
    let n = length-put_be 4 (length s + 1) in
    let size : length (hdr ++ (s ++ rest)) ≡ 4 + (length s + length rest) =
      omega (arith, length-append {0} hdr (s ++ rest), length-append {0} s rest) in
    let back : length s + 1 - 1 ≡ length s = omega arith in
    let nonzero : (length s + 1 == 0) ≡ false = ground arith in
    rw (
      append_assoc hdr s rest,
      take_front 4 hdr (s ++ rest) n,
      drop_front 4 hdr (s ++ rest) n,
      be_value-put_be 4 (length s + 1) h,
      ge→ltb (length (hdr ++ (s ++ rest))) 4 (omega arith),
      nonzero,
      back,
      ge→ltb (length (hdr ++ (s ++ rest)) - 4) (length s) (omega arith),
      take_front (length s) s rest refl,
    )

decode_byte_slice-nil :
    (rest : Bytes) → decode_byte_slice (put_be 4 0 ++ rest) ≡ some (byte_slice none, 4)
unfolding decode_byte_slice put_be be_value
decode_byte_slice-nil rest = ground arith

mod-modulus : (w : Width) (x : ℕ) → x < modulus w → (x % modulus w ≡ x) × (x < 2 ^ 64)
mod-modulus w8 x h = omega arith
mod-modulus w16 x h = omega arith
mod-modulus w32 x h = omega arith
mod-modulus w64 x h = omega arith

module _ (f : Float32) where
  abbrev Decodes : Value → Type 0
  Decodes v =
      (n : ℕ) (bytes rest : Bytes)
      → scalar_value_size v ≡ some n
      → encode_scalar_value f v ≡ some bytes
      → IsSane f v
      → decode_scalar_value f (zeroed v) (bytes ++ rest) ≡ some (v, length bytes)

  aggregate_split :
      (v : Value) (vs : Values) (bytes : Bytes)
      → encode_scalar_aggregate f (cons v vs) ≡ some bytes
      → (here : Bytes) × (more : Bytes) × (encode_scalar_value f v ≡ some here)
        × (encode_scalar_aggregate f vs ≡ some more)
        × (bytes ≡ here ++ more)
  unfolding encode_scalar_value
  aggregate_split v vs bytes enc = elim (Option-cases (encode_scalar_value f v)) [
    | inl e ↦ absurd (ground arith)
    | inr (here, e) ↦ elim (Option-cases (encode_scalar_aggregate f vs)) [
      | inl e' ↦ absurd (ground arith)
      | inr (more, e') ↦ (here, more, e, e', ground arith)
    ]
  ]

  decode_number :
      (v : Value) (x : ℕ) (bytes rest : Bytes) (make : ℕ → Value)
      → some (put_be 8 x) ≡ some bytes
      → x < 2 ^ 64
      → make x ≡ v
      → fixed (bytes ++ rest) make ≡ some (v, length bytes)
  decode_number v x bytes rest make enc h back =
      let e : bytes ≡ put_be 8 x = cc in
      rw e (fixed-put_be x rest make h ∙ rw (back, length-put_be 8 x))

  abbrev DecodesAll : Values → Type 0
  DecodesAll vs =
      (size n : ℕ) (bytes rest : Bytes)
      → scalar_aggregate_size size vs ≡ some n
      → encode_scalar_aggregate f vs ≡ some bytes
      → AreSane f vs
      → decode_scalar_aggregate f (zeroed_all vs) (bytes ++ rest) ≡ some (vs, length bytes)

  mutual
    unfolding encode_scalar_value decode_scalar_value zeroed IsSane scalar_value_size

    pub decode-encode_scalar_value : (v : Value) → Decodes v
    decode-encode_scalar_value (bool true) n bytes rest sized enc fit = ground arith
    decode-encode_scalar_value (bool false) n bytes rest sized enc fit = ground arith
    decode-encode_scalar_value (int w x) n bytes rest sized enc fit =
        decode_number (int w x) (to_uint64 x) bytes rest (λ k. int w (truncate_int w (of_uint64 k)))
          enc (to_uint64-lt x)
          (rw (of_uint64-to_uint64 x (FitsInt-IsInt64 w x fit), truncate_int_fits w x fit))
    decode-encode_scalar_value (uint w x) n bytes rest sized enc fit =
        decode_number (uint w x) x bytes rest (λ k. uint w (k % modulus w)) enc
          (mod-modulus w x fit).1 (rw (mod-modulus w x fit).0)
    decode-encode_scalar_value (float32 x) n bytes rest sized enc fit =
        decode_number (float32 x) (f.widen x) bytes rest (λ k. float32 (f.narrow k)) enc fit.0
          (ap float32 fit.1)
    decode-encode_scalar_value (float64 x) n bytes rest sized enc fit =
        decode_number (float64 x) x bytes rest float64 enc fit refl
    decode-encode_scalar_value (string s) n bytes rest sized enc fit =
        let e : bytes ≡ put_be 4 (length s) ++ s = cc in
        rw e (
          decode_string-encoded s rest (ground arith)
          ∙ rw (length-append (put_be 4 (length s)) s, length-put_be 4 (length s)))
    decode-encode_scalar_value (byte_slice none) n bytes rest sized enc fit =
        let e : bytes ≡ put_be 4 0 = cc in
        rw e (decode_byte_slice-nil rest ∙ rw (length-put_be 4 0))
    decode-encode_scalar_value (byte_slice (some s)) n bytes rest sized enc fit =
        let e : bytes ≡ put_be 4 (length s + 1) ++ s = cc in
        rw e (
          decode_byte_slice-encoded s rest (ground arith)
          ∙ rw (length-append (put_be 4 (length s + 1)) s, length-put_be 4 (length s + 1)))
    decode-encode_scalar_value slice n bytes rest sized enc fit = absurd (ground arith)
    decode-encode_scalar_value (array vs) n bytes rest sized enc fit =
        rw (decode-encode_scalar_aggregate vs 0 n bytes rest sized enc fit)
    decode-encode_scalar_value (struct_of exported vs) n bytes rest sized enc fit =
        rw (decode-encode_scalar_aggregate vs 0 n bytes rest (ground arith) enc fit)
    decode-encode_scalar_value other n bytes rest sized enc fit = absurd (ground arith)

    decode-encode_scalar_aggregate : (vs : Values) → DecodesAll vs
    decode-encode_scalar_aggregate nil size n bytes rest sized enc fit = ground arith
    decode-encode_scalar_aggregate (cons v vs) size n bytes rest sized enc fit =
        let (k, here_sized, more_sized) = aggregate_step f v vs size n sized in
        let (here, more, e, e', split) = aggregate_split v vs bytes enc in
        rw (
          split,
          append_assoc here more rest,
          decode-encode_scalar_value v k here (more ++ rest) here_sized e fit.0,
          drop_front (length here) here (more ++ rest) refl,
          decode-encode_scalar_aggregate vs (size + k) n more rest more_sized e' fit.1,
          length-append here more,
        )

  row_size-eq_some :
      (v : Value) (size : ℕ)
      → scalar_row_size v ≡ some size
      → (n : ℕ) × (scalar_value_size v ≡ some n) × (size ≡ n + 1)
  unfolding scalar_row_size
  row_size-eq_some v size h = elim (Option-cases (scalar_value_size v)) [
    | inl e ↦ absurd (ground arith)
    | inr (n, e) ↦ (n, e, ground arith)
  ]

  -- A row that has a scalar size is encoded without a panic into exactly the bytes that were
  -- allocated for it, and decoding these for its type gives it back; its numbers are in the range
  -- of their types.
  pub decode_row-encode_row :
      (gob : Gob) (v : Value) (size : ℕ)
      → scalar_row_size v ≡ some size
      → IsSane f v
      → (bytes : Bytes) × (encode_row f gob v ≡ some bytes)
        × (length bytes ≡ size)
        × (decode_row f gob bytes v ≡ some v)
  unfolding encode_row decode_row decode_scalar_row
  decode_row-encode_row gob v size h fit =
      let (n, sized, e) = row_size-eq_some v size h in
      let (bytes, enc, long) = length-encode_scalar_value f v n sized in
      let back : decode_scalar_value f (zeroed v) bytes ≡ some (v, length bytes) =
        rw append-nil at (decode-encode_scalar_value v n bytes [] sized enc fit) in
      (1 ∷ bytes, rw (h, encode_row, enc), omega arith, rw (back, ==_refl (length bytes)))
