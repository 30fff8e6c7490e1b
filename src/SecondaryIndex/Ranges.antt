-- ===== src/SecondaryIndex/Ranges.antt =====
-- secondary_index.go: `prefixBounds`, `rangePrefix` and `rangeAfter`.
pub mod Laws
pub mod After
use nestory.Common.{
  ℕ, ◌-◌, Ordering, ◌≡◌, refl, ap, ◌∙◌, subst, Option, none, some, List, [], ◌∷◌, ltb,
  if◌then◌else◌, length, take, drop, Result, ok, err, bind_result, bind_option,
}
use nestory.SecondaryIndex.Value.{
  Kind, bool_kind, signed_kind, unsigned_kind, string_kind, other_kind, FieldType, Carrier, Entity,
  compare_index_values,
}
use nestory.SecondaryIndex.Search.{first, at_least, above, search_entries}
use nestory.SecondaryIndex.Index.{SecondaryIndexField, SecondaryIndexSpec, SecondaryIndex}
use native.Mathlib.Decide.{ℕ_discrete}

-- a value of type `any`: nil, or one with its reflection type
pub data Raw : Type 0 where
  nil : Raw
  value_of : (type : FieldType) → Carrier type.kind → Raw

pub data IndexError : Type 0 where
  too_many_values no_cursor_field nil_value wrong_type : IndexError

unfoldable same_kind : (a b : Kind) → Option (a ≡ b)
same_kind bool_kind bool_kind = some refl
same_kind signed_kind signed_kind = some refl
same_kind unsigned_kind unsigned_kind = some refl
same_kind string_kind string_kind = some refl
same_kind other_kind other_kind = some refl
same_kind _ _ = none

-- `value.Type() != want`
unfoldable same_type : (a b : FieldType) → Option (a ≡ b)
unfolding same_kind ℕ_discrete
same_type a b = bind_option (same_kind a.kind b.kind) λ p. elim (ℕ_discrete a.identity b.identity) [
  | yes q ↦ some (
      ap (λ k. record { kind = k; identity = a.identity }) p
      ∙ ap (λ n. record { kind = b.kind; identity = n }) q)
  | no _ ↦ none
]

unfoldable pub index_value : (want : FieldType) → Raw → Result IndexError (Carrier want.kind)
unfolding same_type
index_value want nil = err nil_value
index_value want (value_of type value) = elim (same_type type want) [
  | none ↦ err wrong_type
  | some e ↦ ok (subst (λ t. Carrier t.kind) e value)
]

-- the slice `entries[start:end]`
abbrev pub slice : {A : Type 0} → List A → ℕ → ℕ → List A
slice entries start end = drop start (take end entries)

module _ (layout : ℕ → FieldType) where
  -- a field of the index with the value that the prefix gives it
  pub record Bound : Type 0 where
    pub field : SecondaryIndexField
    pub value : Carrier (layout field.index).kind

-- the loop of `prefixBounds` over the values of the prefix
unfoldable pub check_prefix :
    (layout : ℕ → FieldType)
    → List SecondaryIndexField
    → List Raw
    → Result IndexError (List (Bound layout))
unfolding index_value
check_prefix layout fields [] = ok []
check_prefix layout [] (raw ∷ raws) = err too_many_values
check_prefix layout (f ∷ fs) (raw ∷ raws) = bind_result (index_value (layout f.index) raw) λ value.
    bind_result (check_prefix layout fs raws)
      λ bounds. ok (record { field = f; value = value } ∷ bounds)

module _ {layout : ℕ → FieldType} where
  -- the function `comparePrefix`
  unfoldable pub compare_prefix : List (Bound layout) → Entity layout → Ordering
  unfolding compare_index_values
  compare_prefix [] entity = Ordering.eq
  compare_prefix (b ∷ bs) entity =
      first (compare_index_values (layout b.field.index).kind (entity.field b.field.index) b.value)
        (compare_prefix bs entity)

  unfoldable pub prefix_bounds : SecondaryIndex layout → List Raw → Result IndexError (ℕ × ℕ)
  unfolding check_prefix compare_prefix search_entries at_least above
  prefix_bounds index raws =
      if ltb (length index.spec.fields) (length raws)
      then err too_many_values
      else bind_result (check_prefix layout index.spec.fields raws) λ bounds. ok (
        search_entries (λ e. at_least (compare_prefix bounds e)) index.entries,
        search_entries (λ e. above (compare_prefix bounds e)) index.entries,
      )

  unfoldable pub range_prefix :
      SecondaryIndex layout → List Raw → Result IndexError (List (Entity layout))
  unfolding prefix_bounds
  range_prefix index raws =
      bind_result (prefix_bounds index raws) λ bounds. ok (slice index.entries bounds.0 bounds.1)

  -- `drop` finds `spec.fields[len(prefix)]`, which is there after the first test
  unfoldable pub range_after :
      SecondaryIndex layout → List Raw → Raw → Result IndexError (List (Entity layout))
  unfolding prefix_bounds index_value search_entries compare_index_values above
  range_after index raws after = elim (drop (length raws) index.spec.fields) [
    | [] ↦ err no_cursor_field
    | field ∷ _ ↦ bind_result (index_value (layout field.index) after) λ cursor.
        bind_result (prefix_bounds index raws) λ bounds. ok (
          drop
            (search_entries
              (λ e.
                above (compare_index_values (layout field.index).kind (e.field field.index) cursor))
              (slice index.entries bounds.0 bounds.1))
            (slice index.entries bounds.0 bounds.1))
  ]
