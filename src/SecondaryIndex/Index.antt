-- ===== src/SecondaryIndex/Index.antt =====
-- secondary_index.go: an index of an entity type, the order of its entries, and the maps that a
-- unique index keeps from a key to an id. A map is the function that finds a key.
use nestory.Common.{
  ℕ, zero, compare, Ordering, Bool, true, false, Option, none, some, List, [], ◌∷◌, ◌++◌,
  if◌then◌else◌,
}
use nestory.Common.Int.{ℤ, pos}
use nestory.Common.Bytes.{Bytes}
use nestory.SecondaryIndex.Search.{first}
use nestory.SecondaryIndex.Value.{
  Kind, bool_kind, signed_kind, unsigned_kind, string_kind, other_kind, FieldType, Carrier, Entity,
  compare_int, compare_bytes, compare_index_values, write_index_key,
}

pub record SecondaryIndexField : Type 0 where
  pub name : Bytes
  pub index : ℕ
  pub order : ℕ

pub record SecondaryIndexSpec : Type 0 where
  pub name : Bytes
  pub fields : List SecondaryIndexField
  pub unique : Bool
  pub lookup_field : Bytes

abbrev pub KeyMap : Type 0 → Type 0
KeyMap K = K → Option ℤ

-- `m[key] = id` and `delete(m, key)`, with the comparison of keys
unfoldable pub set_key : {K : Type 0} → (K → K → Ordering) → K → Option ℤ → KeyMap K → KeyMap K
set_key cmp key id m other = elim (cmp other key) [ Ordering.eq ↦ id | _ ↦ m other ]

-- `lookupField` is set for a unique index over one field only
unfoldable pub is_composite : SecondaryIndexSpec → Bool
is_composite spec = elim spec.lookup_field [ [] ↦ true | _ ∷ _ ↦ false ]

-- a false key has the place 0 in `boolKeys`, a true one the place 1; the id 0 stands for none
unfoldable pub bool_id : ℤ → Option ℤ
bool_id (pos zero) = none
bool_id id = some id

module _ (layout : ℕ → FieldType) where
  pub record SecondaryIndex : Type 0 where
    pub spec : SecondaryIndexSpec
    pub entries : List (Entity layout)
    pub composite_keys : KeyMap Bytes
    pub string_keys : KeyMap Bytes
    pub signed_keys : KeyMap ℤ
    pub unsigned_keys : KeyMap ℕ
    pub bool_keys : ℤ × ℤ

module _ {layout : ℕ → FieldType} where
  unfoldable pub new_secondary_index : SecondaryIndexSpec → SecondaryIndex layout
  new_secondary_index spec = record {
    spec = spec;
    entries = [];
    composite_keys = λ key. none;
    string_keys = λ key. none;
    signed_keys = λ key. none;
    unsigned_keys = λ key. none;
    bool_keys = (pos 0, pos 0);
  }

  -- the loop of `compare` over the fields, and the ids after it
  unfoldable pub compare_fields :
      List SecondaryIndexField → Entity layout → Entity layout → Ordering
  unfolding compare_index_values compare_int
  compare_fields [] left right = compare_int left.id right.id
  compare_fields (f ∷ fs) left right =
      first (compare_index_values (layout f.index).kind (left.field f.index) (right.field f.index))
        (compare_fields fs left right)

  unfoldable pub compare_entities : SecondaryIndex layout → Entity layout → Entity layout → Ordering
  unfolding compare_fields
  compare_entities index left right = compare_fields index.spec.fields left right

  -- the loop of `key`
  unfoldable pub key_of : List SecondaryIndexField → Entity layout → Bytes
  unfolding write_index_key
  key_of [] entity = []
  key_of (f ∷ fs) entity =
      write_index_key (layout f.index).kind (entity.field f.index) ++ key_of fs entity

  unfoldable pub unique_value_id : SecondaryIndex layout → (k : Kind) → Carrier k → Option ℤ
  unfolding bool_id
  unique_value_id index bool_kind true = bool_id index.bool_keys.1
  unique_value_id index bool_kind false = bool_id index.bool_keys.0
  unique_value_id index signed_kind value = index.signed_keys value
  unique_value_id index unsigned_kind value = index.unsigned_keys value
  unique_value_id index string_kind value = index.string_keys value
  unique_value_id index other_kind value = absurd value

  -- the field that `spec.fields[0]` names is the first one; a unique index has at least one
  unfoldable pub find_unique :
      List SecondaryIndexField → SecondaryIndex layout → Entity layout → Option ℤ
  unfolding unique_value_id is_composite key_of
  find_unique [] index entity = index.composite_keys (key_of [] entity)
  find_unique (f ∷ fs) index entity =
      if is_composite index.spec
      then index.composite_keys (key_of (f ∷ fs) entity)
      else unique_value_id index (layout f.index).kind (entity.field f.index)

  unfoldable pub unique_id : SecondaryIndex layout → Entity layout → Option ℤ
  unfolding find_unique
  unique_id index entity = find_unique index.spec.fields index entity

  -- what `setUnique` (with an id) and `deleteUnique` (with none) do to the map of the kind
  unfoldable pub put_value :
      (k : Kind) → Carrier k → Option ℤ → SecondaryIndex layout → SecondaryIndex layout
  unfolding set_key compare_int compare_bytes
  put_value bool_kind true none index = record index { bool_keys = (index.bool_keys.0, pos 0) }
  put_value bool_kind true (some id) index = record index { bool_keys = (index.bool_keys.0, id) }
  put_value bool_kind false none index = record index { bool_keys = (pos 0, index.bool_keys.1) }
  put_value bool_kind false (some id) index = record index { bool_keys = (id, index.bool_keys.1) }
  put_value signed_kind value id index = record index {
    signed_keys = set_key compare_int value id index.signed_keys;
  }
  put_value unsigned_kind value id index = record index {
    unsigned_keys = set_key compare value id index.unsigned_keys;
  }
  put_value string_kind value id index = record index {
    string_keys = set_key compare_bytes value id index.string_keys;
  }
  put_value other_kind value id index = absurd value

  put_composite :
      List SecondaryIndexField
      → Entity layout
      → Option ℤ
      → SecondaryIndex layout
      → SecondaryIndex layout
  unfolding key_of set_key compare_bytes
  put_composite fields entity id index = record index {
    composite_keys = set_key compare_bytes (key_of fields entity) id index.composite_keys;
  }

  unfoldable pub put_fields :
      List SecondaryIndexField
      → Entity layout
      → Option ℤ
      → SecondaryIndex layout
      → SecondaryIndex layout
  unfolding put_composite put_value is_composite
  put_fields [] entity id index = put_composite [] entity id index
  put_fields (f ∷ fs) entity id index =
      if is_composite index.spec
      then put_composite (f ∷ fs) entity id index
      else put_value (layout f.index).kind (entity.field f.index) id index

  unfoldable pub put_unique :
      Entity layout → Option ℤ → SecondaryIndex layout → SecondaryIndex layout
  unfolding put_fields
  put_unique entity id index = put_fields index.spec.fields entity id index

  unfoldable pub set_unique : Entity layout → ℤ → SecondaryIndex layout → SecondaryIndex layout
  unfolding put_unique
  set_unique entity id index = put_unique entity (some id) index

  unfoldable pub delete_unique : Entity layout → SecondaryIndex layout → SecondaryIndex layout
  unfolding put_unique
  delete_unique entity index = put_unique entity none index
