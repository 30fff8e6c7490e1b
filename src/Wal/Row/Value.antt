-- ===== src/Wal/Row/Value.antt =====
-- The values that `reflect` shows to the codec of wal.go.
use nestory.Common.{
  ℕ, ◌-◌, ◌/◌, ◌%◌, ◌^◌, ◌<◌, ◌≡◌, Bool, false, Option, none, List, [], arith, ltb, if◌then◌else◌,
}
use nestory.Common.Int.{ℤ, pos, negsuc, IsInt64}
use nestory.Common.Bytes.{Bytes}

pub data Width : Type 0 where
  w8 w16 w32 w64 : Width

abbrev pub modulus : Width → ℕ
modulus w8 = 2 ^ 8
modulus w16 = 2 ^ 16
modulus w32 = 2 ^ 32
modulus w64 = 2 ^ 64

-- A float is its bit pattern. `byte_slice none` is the nil slice, `slice` one of other elements;
-- `struct_of` has a flag for each field, whether it is exported. `other` is any other kind.
mutual
  pub data Value : Type 0 where
    bool : Bool → Value
    int : Width → ℤ → Value
    uint : Width → ℕ → Value
    float32 : ℕ → Value
    float64 : ℕ → Value
    string : Bytes → Value
    byte_slice : Option Bytes → Value
    slice : Value
    array : Values → Value
    struct_of : List Bool → Values → Value
    other : Value

  pub data Values : Type 0 where
    nil : Values
    cons : Value → Values → Values

-- what `reflect.New` makes of the value's type
unfoldable mutual
  pub zeroed : Value → Value
  zeroed (bool b) = bool false
  zeroed (int w x) = int w (pos 0)
  zeroed (uint w x) = uint w 0
  zeroed (float32 x) = float32 0
  zeroed (float64 x) = float64 0
  zeroed (string s) = string []
  zeroed (byte_slice s) = byte_slice none
  zeroed slice = slice
  zeroed (array vs) = array (zeroed_all vs)
  zeroed (struct_of exported vs) = struct_of exported (zeroed_all vs)
  zeroed other = other

  pub zeroed_all : Values → Values
  zeroed_all nil = nil
  zeroed_all (cons v vs) = cons (zeroed v) (zeroed_all vs)

-- `SetInt` keeps the low bits of an `int64`, and reads them with their sign.
unfoldable pub truncate_int : Width → ℤ → ℤ
truncate_int w (pos n) =
    let r = n % modulus w in if ltb r (modulus w / 2) then pos r else negsuc (modulus w - 1 - r)
truncate_int w (negsuc n) =
    let r = n % modulus w in if ltb r (modulus w / 2) then negsuc r else pos (modulus w - 1 - r)

abbrev pub FitsInt : Width → ℤ → Type 0
FitsInt w (pos n) = n < modulus w / 2
FitsInt w (negsuc n) = n < modulus w / 2

pub truncate_int_fits : (w : Width) (x : ℤ) → FitsInt w x → truncate_int w x ≡ x
unfolding truncate_int
truncate_int_fits w8 (pos n) h = ground arith
truncate_int_fits w16 (pos n) h = ground arith
truncate_int_fits w32 (pos n) h = ground arith
truncate_int_fits w64 (pos n) h = ground arith
truncate_int_fits w8 (negsuc n) h = ground arith
truncate_int_fits w16 (negsuc n) h = ground arith
truncate_int_fits w32 (negsuc n) h = ground arith
truncate_int_fits w64 (negsuc n) h = ground arith

pub FitsInt-IsInt64 : (w : Width) (x : ℤ) → FitsInt w x → IsInt64 x
FitsInt-IsInt64 w8 (pos n) h = omega arith
FitsInt-IsInt64 w16 (pos n) h = omega arith
FitsInt-IsInt64 w32 (pos n) h = omega arith
FitsInt-IsInt64 w64 (pos n) h = omega arith
FitsInt-IsInt64 w8 (negsuc n) h = omega arith
FitsInt-IsInt64 w16 (negsuc n) h = omega arith
FitsInt-IsInt64 w32 (negsuc n) h = omega arith
FitsInt-IsInt64 w64 (negsuc n) h = omega arith
