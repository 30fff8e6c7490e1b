-- ===== src/SecondaryIndex/Value.antt =====
-- secondary_index.go: the values that an index may hold, their order and their keys. A value is
-- typed by the kind of its field, so that no comparison meets two kinds; `cmp.Compare` returns
-- `Ordering.lt`, `eq` or `gt` for -1, 0 and +1.
use nestory.Common.{
  ℕ, compare, Ordering, ◌≡◌, refl, sym, ap, Bool, true, false, [], ◌∷◌, ◌++◌, arith, length,
}
use nestory.Common.Int.{ℤ, pos, negsuc, to_uint64}
use nestory.Common.Bytes.{Bytes, put_be}

-- the kinds that `validateSecondaryIndexField` tells apart; the widths of the integers are no part
-- of the order, since reflection widens them
pub data Kind : Type 0 where
  bool_kind signed_kind unsigned_kind string_kind other_kind : Kind

-- a `reflect.Type`: its kind, and a number for its identity
pub record FieldType : Type 0 where
  pub kind : Kind
  pub identity : ℕ

-- what `reflect.Value` holds at a kind; a kind that cannot be indexed has no value here
abbrev pub Carrier : Kind → Type 0
Carrier bool_kind = Bool
Carrier signed_kind = ℤ
Carrier unsigned_kind = ℕ
Carrier string_kind = Bytes
Carrier other_kind = ⊥

unfoldable pub validate_secondary_index_field : Kind → Bool
validate_secondary_index_field other_kind = false
validate_secondary_index_field _ = true

-- an entity of a struct type that has the given field types
pub record Entity (layout : ℕ → FieldType) : Type 0 where
  pub id : ℤ
  pub field : (index : ℕ) → Carrier (layout index).kind

abbrev pub bool_byte : Bool → ℕ
bool_byte true = 1
bool_byte false = 0

unfoldable pub compare_int : ℤ → ℤ → Ordering
compare_int (pos m) (pos n) = compare m n
compare_int (pos m) (negsuc n) = Ordering.gt
compare_int (negsuc m) (pos n) = Ordering.lt
compare_int (negsuc m) (negsuc n) = compare n m

-- the byte order of strings
unfoldable pub compare_bytes : Bytes → Bytes → Ordering
compare_bytes [] [] = Ordering.eq
compare_bytes [] (y ∷ ys) = Ordering.lt
compare_bytes (x ∷ xs) [] = Ordering.gt
compare_bytes (x ∷ xs) (y ∷ ys) =
    let rest = compare_bytes xs ys in
    elim (compare x y) [
      | Ordering.lt ↦ Ordering.lt
      | Ordering.eq ↦ rest
      | Ordering.gt ↦ Ordering.gt
    ]

unfoldable pub compare_index_values : (k : Kind) → Carrier k → Carrier k → Ordering
compare_index_values bool_kind left right = compare (bool_byte left) (bool_byte right)
compare_index_values signed_kind left right = compare_int left right
compare_index_values unsigned_kind left right = compare left right
compare_index_values string_kind left right = compare_bytes left right
compare_index_values other_kind left right = absurd left

unfoldable pub write_index_key : (k : Kind) → Carrier k → Bytes
write_index_key bool_kind value = bool_byte value ∷ []
write_index_key signed_kind value = put_be 8 (to_uint64 value)
write_index_key unsigned_kind value = put_be 8 value
write_index_key string_kind value = put_be 8 (length value) ++ value
write_index_key other_kind value = absurd value

-- the laws of a total order, for a comparison with three results
pub record IsOrder {A : Type 0} (cmp : A → A → Ordering) : Type 0 where
  pub equal : (a b : A) → cmp a b ≡ Ordering.eq → a ≡ b
  pub same : (a : A) → cmp a a ≡ Ordering.eq
  pub turn : (a b : A) → cmp a b ≡ Ordering.lt → cmp b a ≡ Ordering.gt
  pub turn_back : (a b : A) → cmp a b ≡ Ordering.gt → cmp b a ≡ Ordering.lt
  pub less : (a b c : A) → cmp a b ≡ Ordering.lt → cmp b c ≡ Ordering.lt → cmp a c ≡ Ordering.lt

pub nat-IsOrder : IsOrder compare
nat-IsOrder = record {
  equal = λ a b h. ground arith;
  same = λ a. ground arith;
  turn = λ a b h. ground arith;
  turn_back = λ a b h. ground arith;
  less = λ a b c h k. ground arith;
}

bool_equal : (a b : Bool) → compare (bool_byte a) (bool_byte b) ≡ Ordering.eq → a ≡ b
bool_equal true true h = refl
bool_equal false false h = refl
bool_equal true false h = ground arith
bool_equal false true h = ground arith

bool-IsOrder : IsOrder (λ a b. compare (bool_byte a) (bool_byte b))
bool-IsOrder = record {
  equal = bool_equal;
  same = λ a. nat-IsOrder.same (bool_byte a);
  turn = λ a b. nat-IsOrder.turn (bool_byte a) (bool_byte b);
  turn_back = λ a b. nat-IsOrder.turn_back (bool_byte a) (bool_byte b);
  less = λ a b c. nat-IsOrder.less (bool_byte a) (bool_byte b) (bool_byte c);
}

int_equal : (a b : ℤ) → compare_int a b ≡ Ordering.eq → a ≡ b
unfolding compare_int
int_equal (pos m) (pos n) h = ap pos (nat-IsOrder.equal m n h)
int_equal (pos m) (negsuc n) h = ground arith
int_equal (negsuc m) (pos n) h = ground arith
int_equal (negsuc m) (negsuc n) h = ap negsuc (sym (nat-IsOrder.equal n m h))

int_less :
    (a b c : ℤ)
    → compare_int a b ≡ Ordering.lt
    → compare_int b c ≡ Ordering.lt
    → compare_int a c ≡ Ordering.lt
unfolding compare_int
int_less (pos a) (pos b) (pos c) h k = nat-IsOrder.less a b c h k
int_less (pos a) (pos b) (negsuc c) h k = ground arith
int_less (pos a) (negsuc b) c h k = ground arith
int_less (negsuc a) (pos b) (pos c) h k = refl
int_less (negsuc a) (pos b) (negsuc c) h k = ground arith
int_less (negsuc a) (negsuc b) (pos c) h k = refl
int_less (negsuc a) (negsuc b) (negsuc c) h k = nat-IsOrder.less c b a k h

int_turn : (a b : ℤ) → compare_int a b ≡ Ordering.lt → compare_int b a ≡ Ordering.gt
unfolding compare_int
int_turn (pos m) (pos n) h = nat-IsOrder.turn m n h
int_turn (pos m) (negsuc n) h = ground arith
int_turn (negsuc m) (pos n) h = refl
int_turn (negsuc m) (negsuc n) h = nat-IsOrder.turn n m h

int_turn_back : (a b : ℤ) → compare_int a b ≡ Ordering.gt → compare_int b a ≡ Ordering.lt
unfolding compare_int
int_turn_back (pos m) (pos n) h = nat-IsOrder.turn_back m n h
int_turn_back (pos m) (negsuc n) h = refl
int_turn_back (negsuc m) (pos n) h = ground arith
int_turn_back (negsuc m) (negsuc n) h = nat-IsOrder.turn_back n m h

int_same : (a : ℤ) → compare_int a a ≡ Ordering.eq
unfolding compare_int
int_same (pos n) = nat-IsOrder.same n
int_same (negsuc n) = nat-IsOrder.same n

pub int-IsOrder : IsOrder compare_int
int-IsOrder = record {
  equal = int_equal;
  same = int_same;
  turn = int_turn;
  turn_back = int_turn_back;
  less = int_less;
}

bytes_equal : (a b : Bytes) → compare_bytes a b ≡ Ordering.eq → a ≡ b
unfolding compare_bytes
bytes_equal [] [] h = refl
bytes_equal [] (y ∷ ys) h = ground arith
bytes_equal (x ∷ xs) [] h = ground arith
bytes_equal (x ∷ xs) (y ∷ ys) h = ground (arith, bytes_equal xs ys)

bytes_same : (a : Bytes) → compare_bytes a a ≡ Ordering.eq
unfolding compare_bytes
bytes_same [] = refl
bytes_same (x ∷ xs) = ground (arith, bytes_same xs)

bytes_turn : (a b : Bytes) → compare_bytes a b ≡ Ordering.lt → compare_bytes b a ≡ Ordering.gt
unfolding compare_bytes
bytes_turn [] [] h = ground arith
bytes_turn [] (y ∷ ys) h = refl
bytes_turn (x ∷ xs) [] h = ground arith
bytes_turn (x ∷ xs) (y ∷ ys) h = ground (arith, bytes_turn xs ys)

bytes_turn_back : (a b : Bytes) → compare_bytes a b ≡ Ordering.gt → compare_bytes b a ≡ Ordering.lt
unfolding compare_bytes
bytes_turn_back [] [] h = ground arith
bytes_turn_back [] (y ∷ ys) h = ground arith
bytes_turn_back (x ∷ xs) [] h = refl
bytes_turn_back (x ∷ xs) (y ∷ ys) h = ground (arith, bytes_turn_back xs ys)

bytes_less :
    (a b c : Bytes)
    → compare_bytes a b ≡ Ordering.lt
    → compare_bytes b c ≡ Ordering.lt
    → compare_bytes a c ≡ Ordering.lt
unfolding compare_bytes
bytes_less [] [] c h k = ground arith
bytes_less [] (y ∷ ys) [] h k = ground arith
bytes_less [] (y ∷ ys) (z ∷ zs) h k = refl
bytes_less (x ∷ xs) [] c h k = ground arith
bytes_less (x ∷ xs) (y ∷ ys) [] h k = ground arith
bytes_less (x ∷ xs) (y ∷ ys) (z ∷ zs) h k = ground (arith, bytes_less xs ys zs)

pub bytes-IsOrder : IsOrder compare_bytes
bytes-IsOrder = record {
  equal = bytes_equal;
  same = bytes_same;
  turn = bytes_turn;
  turn_back = bytes_turn_back;
  less = bytes_less;
}

pub value-IsOrder : (k : Kind) → IsOrder (compare_index_values k)
unfolding compare_index_values
value-IsOrder bool_kind = bool-IsOrder
value-IsOrder signed_kind = int-IsOrder
value-IsOrder unsigned_kind = nat-IsOrder
value-IsOrder string_kind = bytes-IsOrder
value-IsOrder other_kind = record {
  equal = λ a b h. absurd a;
  same = λ a. absurd a;
  turn = λ a b h. absurd a;
  turn_back = λ a b h. absurd a;
  less = λ a b c h k. absurd a;
}
