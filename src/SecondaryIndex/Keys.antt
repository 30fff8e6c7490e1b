-- ===== src/SecondaryIndex/Keys.antt =====
-- secondary_index.go: the keys of a unique index tell apart the values of its fields, and the maps
-- find the id that was set last.
use nestory.Common.{
  ℕ, zero, suc, ◌^◌, ◌<◌, compare, Ordering, ◌≡◌, refl, sym, ap, ◌∙◌, inl, inr, Bool, true, false,
  Option, none, some, List, [], ◌∷◌, ◌++◌, append_assoc, arith, Bool-cases, length, get_or, take,
  drop, take_front, drop_front, All,
}
use nestory.Common.Int.{
  ℤ, pos, negsuc, IsInt64, to_uint64, of_uint64, of_uint64-to_uint64, to_uint64-lt,
}
use nestory.Common.Bytes.{Bytes, put_be, be_value, length-put_be, be_value-put_be}
use nestory.SecondaryIndex.Value.{
  Kind, bool_kind, signed_kind, unsigned_kind, string_kind, other_kind, FieldType, Carrier, Entity,
  bool_byte, compare_int, compare_bytes, compare_index_values, write_index_key, value-IsOrder,
}
use nestory.SecondaryIndex.Index.{
  find_unique, put_fields, delete_unique, set_unique, SecondaryIndexField, SecondaryIndex, set_key,
  is_composite, key_of, bool_id, unique_value_id, unique_id, put_value, put_unique, set_unique,
  delete_unique,
}

-- the values that 64 bits hold, and the strings whose length they hold
abbrev pub InRange : (k : Kind) → Carrier k → Type 0
InRange bool_kind v = Unit
InRange signed_kind v = IsInt64 v
InRange unsigned_kind v = v < 2 ^ 64
InRange string_kind v = length v < 2 ^ 64
InRange other_kind v = Unit

append_injective :
    {A : Type 0} (n : ℕ) (xs ys s t : List A)
    → length xs ≡ n
    → length ys ≡ n
    → xs ++ s ≡ ys ++ t
    → (xs ≡ ys) × (s ≡ t)
append_injective n xs ys s t h k e = (
  sym (take_front n xs s h) ∙ ap (take n) e ∙ take_front n ys t k,
  sym (drop_front n xs s h) ∙ ap (drop n) e ∙ drop_front n ys t k,
)

word_injective :
    (x y : ℕ) (s t : Bytes)
    → x < 2 ^ 64
    → y < 2 ^ 64
    → put_be 8 x ++ s ≡ put_be 8 y ++ t
    → (x ≡ y) × (s ≡ t)
word_injective x y s t h k e =
    let (words, rest) =
      append_injective 8 (put_be 8 x) (put_be 8 y) s t (length-put_be 8 x) (length-put_be 8 y) e in
    (
      sym (be_value-put_be 8 x (omega arith))
          ∙ ap be_value words
          ∙ be_value-put_be 8 y (omega arith),
      rest,
    )

bool_byte_injective : (a b : Bool) → bool_byte a ≡ bool_byte b → a ≡ b
bool_byte_injective true true h = refl
bool_byte_injective false false h = refl
bool_byte_injective true false h = absurd (omega arith)
bool_byte_injective false true h = absurd (omega arith)

write_index_key_injective :
    (k : Kind) (v w : Carrier k) (s t : Bytes)
    → InRange k v
    → InRange k w
    → write_index_key k v ++ s ≡ write_index_key k w ++ t
    → (v ≡ w) × (s ≡ t)
unfolding write_index_key
write_index_key_injective bool_kind v w s t hv hw e =
    let (heads, rest) = append_injective 1 (bool_byte v ∷ []) (bool_byte w ∷ []) s t refl refl e in
    (bool_byte_injective v w (ap (λ l. get_or l 0 0) heads), rest)
write_index_key_injective signed_kind v w s t hv hw e =
    let (words, rest) =
      word_injective (to_uint64 v) (to_uint64 w) s t (to_uint64-lt v) (to_uint64-lt w) e in
    (sym (of_uint64-to_uint64 v hv) ∙ ap of_uint64 words ∙ of_uint64-to_uint64 w hw, rest)
write_index_key_injective unsigned_kind v w s t hv hw e = word_injective v w s t hv hw e
write_index_key_injective string_kind v w s t hv hw e =
    let (lengths, rest) =
      word_injective (length v) (length w) (v ++ s) (w ++ t) hv hw (
        sym (append_assoc (put_be 8 (length v)) v s)
        ∙ e
        ∙ append_assoc (put_be 8 (length w)) w t) in
    append_injective (length w) v w s t lengths refl rest
write_index_key_injective other_kind v w s t hv hw e = absurd v

pub set_key_self :
    {K : Type 0} (cmp : K → K → Ordering) (key : K) (id : Option ℤ) (m : K → Option ℤ)
    → cmp key key ≡ Ordering.eq
    → set_key cmp key id m key ≡ id
unfolding set_key
set_key_self cmp key id m h = rw (set_key, h) refl

-- the id 0 stands for no id
abbrev pub IsId : Option ℤ → Type 0
IsId none = Unit
IsId (some (pos zero)) = ⊥
IsId (some (pos (suc n))) = Unit
IsId (some (negsuc n)) = Unit

module _ {layout : ℕ → FieldType} where
  -- Two entities with one key have equal values in every field of the index, if the values are in
  -- the range of their 64-bit encodings.
  pub key_of_injective :
      (fs : List SecondaryIndexField) (a b : Entity layout)
      → All (λ f. InRange (layout f.index).kind (a.field f.index)) fs
      → All (λ f. InRange (layout f.index).kind (b.field f.index)) fs
      → key_of fs a ≡ key_of fs b
      → All (λ f. a.field f.index ≡ b.field f.index) fs
  unfolding key_of
  key_of_injective [] a b ha hb e = tt
  key_of_injective (f ∷ fs) a b ha hb e =
      let (here, rest) =
        write_index_key_injective (layout f.index).kind (a.field f.index) (b.field f.index)
          (key_of fs a) (key_of fs b) ha.0 hb.0 e in
      (here, key_of_injective fs a b ha.1 hb.1 rest)

  put_value-spec :
      (k : Kind) (v : Carrier k) (id : Option ℤ) (index : SecondaryIndex layout)
      → (put_value k v id index).spec ≡ index.spec
  unfolding put_value
  put_value-spec bool_kind true none index = refl
  put_value-spec bool_kind true (some id) index = refl
  put_value-spec bool_kind false none index = refl
  put_value-spec bool_kind false (some id) index = refl
  put_value-spec signed_kind v id index = refl
  put_value-spec unsigned_kind v id index = refl
  put_value-spec string_kind v id index = refl
  put_value-spec other_kind v id index = absurd v

  unique_value_id-put_value :
      (k : Kind) (v : Carrier k) (id : Option ℤ) (index : SecondaryIndex layout)
      → IsId id
      → unique_value_id (put_value k v id index) k v ≡ id
  unfolding unique_value_id put_value bool_id compare_index_values
  unique_value_id-put_value bool_kind true none index h = refl
  unique_value_id-put_value bool_kind true (some (pos zero)) index h = absurd h
  unique_value_id-put_value bool_kind true (some (pos (suc n))) index h = refl
  unique_value_id-put_value bool_kind true (some (negsuc n)) index h = refl
  unique_value_id-put_value bool_kind false none index h = refl
  unique_value_id-put_value bool_kind false (some (pos zero)) index h = absurd h
  unique_value_id-put_value bool_kind false (some (pos (suc n))) index h = refl
  unique_value_id-put_value bool_kind false (some (negsuc n)) index h = refl
  unique_value_id-put_value signed_kind v id index h =
      set_key_self compare_int v id index.signed_keys ((value-IsOrder signed_kind).same v)
  unique_value_id-put_value unsigned_kind v id index h =
      set_key_self compare v id index.unsigned_keys ((value-IsOrder unsigned_kind).same v)
  unique_value_id-put_value string_kind v id index h =
      set_key_self compare_bytes v id index.string_keys ((value-IsOrder string_kind).same v)
  unique_value_id-put_value other_kind v id index h = absurd v

  put_fields-spec :
      (fs : List SecondaryIndexField) (e : Entity layout) (id : Option ℤ)
      (index : SecondaryIndex layout)
      → (put_fields fs e id index).spec ≡ index.spec
  unfolding put_fields
  put_fields-spec [] e id index = refl
  put_fields-spec (f ∷ fs) e id index = elim (Bool-cases (is_composite index.spec)) [
    | inl one ↦ rw one refl
    | inr many ↦ rw many (put_value-spec (layout f.index).kind (e.field f.index) id index)
  ]

  find_unique-put_fields :
      (fs : List SecondaryIndexField) (e : Entity layout) (id : Option ℤ)
      (index : SecondaryIndex layout)
      → IsId id
      → find_unique fs (put_fields fs e id index) e ≡ id
  unfolding find_unique put_fields compare_index_values
  find_unique-put_fields [] e id index h =
      set_key_self compare_bytes (key_of [] e) id index.composite_keys
        ((value-IsOrder string_kind).same (key_of [] e))
  find_unique-put_fields (f ∷ fs) e id index h = elim (Bool-cases (is_composite index.spec)) [
    | inl many ↦
        rw (many, many)
          (set_key_self compare_bytes (key_of (f ∷ fs) e) id index.composite_keys
            ((value-IsOrder string_kind).same (key_of (f ∷ fs) e)))
    | inr one ↦
        let k = (layout f.index).kind in
        rw (one, put_value-spec k (e.field f.index) id index, one)
          (unique_value_id-put_value k (e.field f.index) id index h)
  ]

  -- After `setUnique` of an entity with an id that is not 0, `uniqueID` of the entity finds that id;
  -- after `deleteUnique` of the entity it finds none.
  pub unique_id-set_unique :
      (e : Entity layout) (id : ℤ) (index : SecondaryIndex layout)
      → IsId (some id)
      → (unique_id (set_unique e id index) e ≡ some id)
        × (unique_id (delete_unique e index) e ≡ none)
  unfolding unique_id put_unique set_unique delete_unique
  unique_id-set_unique e id index h = (
    rw (put_fields-spec index.spec.fields e (some id) index)
        (find_unique-put_fields index.spec.fields e (some id) index h),
    rw (put_fields-spec index.spec.fields e none index)
        (find_unique-put_fields index.spec.fields e none index tt),
  )
