-- ===== src/SecondaryIndex/Ranges/After.antt =====
-- secondary_index.go, `rangeAfter`: the entries of a prefix whose next field is above a cursor.
use nestory.Common.{
  ℕ, Ordering, ◌≡◌, refl, sym, ap, ◌∙◌, subst, inl, inr, Bool, true, false, ◌&&◌, List, [], ◌∷◌,
  ◌++◌, arith, ltb, ge→ltb, length, drop, select, length-drop, Result, ok, err, bind_result,
  Result-cases,
}
use nestory.SecondaryIndex.Value.{FieldType, Carrier, Entity, compare_index_values}
use nestory.SecondaryIndex.Search.{first_eq, is_equal, first, above, at_least, search_entries}
use nestory.SecondaryIndex.Sorted.{
  IsSorted, IsSorted-All, IsSorted-select, select-All, Stays, drop-search, select-select,
}
use nestory.SecondaryIndex.Index.{
  SecondaryIndexField, SecondaryIndex, compare_fields, compare_entities,
}
use nestory.SecondaryIndex.Ranges.{
  Raw, IndexError, no_cursor_field, Bound, index_value, check_prefix, compare_prefix, prefix_bounds,
  slice, range_after,
}
use nestory.SecondaryIndex.Ranges.Laws.{
  bound_fields, compare_prefix-rank, above-rank, Fits, check_prefix-Fits, IsOrdered, slice-prefix,
}

first-is_equal :
    (a b : Ordering) → is_equal (first a b) ≡ true → (a ≡ Ordering.eq) × (is_equal b ≡ true)
first-is_equal Ordering.lt b h = ground arith
first-is_equal Ordering.eq b h = (refl, h)
first-is_equal Ordering.gt b h = ground arith

length_more :
    (n : ℕ) (fs : List SecondaryIndexField) (f : SecondaryIndexField)
    (rest : List SecondaryIndexField)
    → drop n fs ≡ f ∷ rest
    → ltb (length fs) n ≡ false
length_more n fs f rest h = ge→ltb (length fs) n (omega (arith, length-drop {0} n fs, ap length h))

module _ {layout : ℕ → FieldType} where
  abbrev beyond : (f : SecondaryIndexField) → Carrier (layout f.index).kind → Entity layout → Bool
  beyond f cursor e = above (compare_index_values (layout f.index).kind (e.field f.index) cursor)

  -- a cursor is one more value of the prefix, for the entries that have the prefix
  compare_prefix-snoc :
      (bs : List (Bound layout)) (b : Bound layout) (e : Entity layout)
      → is_equal (compare_prefix bs e) ≡ true
      → compare_prefix (bs ++ b ∷ []) e
        ≡ compare_index_values (layout b.field.index).kind (e.field b.field.index) b.value
  unfolding compare_prefix
  compare_prefix-snoc [] b e h =
      first_eq (compare_index_values (layout b.field.index).kind (e.field b.field.index) b.value)
  compare_prefix-snoc (c ∷ bs) b e h =
      let (here, later) = first-is_equal _ (compare_prefix bs e) h in
      rw here (compare_prefix-snoc bs b e later)

  bound_fields-snoc :
      (bs : List (Bound layout)) (b : Bound layout) (rest : List SecondaryIndexField)
      → bound_fields bs ++ b.field ∷ rest ≡ bound_fields (bs ++ b ∷ []) ++ rest
  bound_fields-snoc [] b rest = refl
  bound_fields-snoc (c ∷ bs) b rest = ap (λ l. c.field ∷ l) (bound_fields-snoc bs b rest)

  -- `rangeAfter` as a scan of the entries
  abbrev pub scan_after :
      SecondaryIndex layout → List Raw → Raw → Result IndexError (List (Entity layout))
  scan_after index raws after = elim (drop (length raws) index.spec.fields) [
    | [] ↦ err no_cursor_field
    | f ∷ _ ↦ bind_result (index_value (layout f.index) after) λ cursor.
        bind_result (check_prefix layout index.spec.fields raws) λ bounds.
          ok (select (λ e. is_equal (compare_prefix bounds e) && beyond f cursor e) index.entries)
  ]

  after-Stays :
      (index : SecondaryIndex layout) (raws : List Raw) (bounds : List (Bound layout))
      (f : SecondaryIndexField) (rest : List SecondaryIndexField)
      (cursor : Carrier (layout f.index).kind)
      → IsOrdered index
      → index.spec.fields ≡ bound_fields bounds ++ f ∷ rest
      → IsSorted
          (Stays (beyond f cursor))
          (select (λ e. is_equal (compare_prefix bounds e)) index.entries)
  unfolding compare_entities
  after-Stays index raws bounds f rest cursor sorted fields =
      let b : Bound layout = record { field = f; value = cursor } in
      IsSorted-All (select (λ e. is_equal (compare_prefix bounds e)) index.entries)
        (λ l r hl hr k h.
          subst (λ o. above o ≡ true) (compare_prefix-snoc bounds b r hr)
            (above-rank (compare_prefix (bounds ++ b ∷ []) l) (compare_prefix (bounds ++ b ∷ []) r)
              (compare_prefix-rank (bounds ++ b ∷ []) rest l r (
                subst (λ fs. above (compare_fields fs l r) ≡ false)
                  (fields ∙ bound_fields-snoc bounds b rest) k))
              (subst (λ o. above o ≡ true) (sym (compare_prefix-snoc bounds b l hl)) h)))
        (select-All (λ e. is_equal (compare_prefix bounds e)) index.entries)
        (IsSorted-select (λ l r. above (compare_entities index l r) ≡ false)
          (λ e. is_equal (compare_prefix bounds e)) index.entries sorted)

  select_after :
      (index : SecondaryIndex layout) (raws : List Raw) (bounds : List (Bound layout))
      (f : SecondaryIndexField) (rest : List SecondaryIndexField)
      (cursor : Carrier (layout f.index).kind)
      → IsOrdered index
      → check_prefix layout index.spec.fields raws ≡ ok bounds
      → index.spec.fields ≡ bound_fields bounds ++ f ∷ rest
      → drop
          (search_entries (beyond f cursor) (
            slice index.entries
              (search_entries (λ e. at_least (compare_prefix bounds e)) index.entries)
              (search_entries (λ e. above (compare_prefix bounds e)) index.entries)))
          (slice index.entries
            (search_entries (λ e. at_least (compare_prefix bounds e)) index.entries)
            (search_entries (λ e. above (compare_prefix bounds e)) index.entries))
        ≡ select (λ e. is_equal (compare_prefix bounds e) && beyond f cursor e) index.entries
  select_after index raws bounds f rest cursor sorted h fields =
      rw (slice-prefix index raws bounds sorted h) (
        drop-search (beyond f cursor)
          (select (λ e. is_equal (compare_prefix bounds e)) index.entries)
          (after-Stays index raws bounds f rest cursor sorted fields)
        ∙ select-select (beyond f cursor) (λ e. is_equal (compare_prefix bounds e))
            (λ e. is_equal (compare_prefix bounds e) && beyond f cursor e) index.entries
            (λ e. refl))

  -- On an index whose entries are in order, `rangeAfter` returns what the scan returns: the entries
  -- that have the prefix and whose next field is above the cursor, or the same error.
  pub range_after-scan :
      (index : SecondaryIndex layout) (raws : List Raw) (after : Raw)
      → IsOrdered index
      → range_after index raws after ≡ scan_after index raws after
  unfolding range_after prefix_bounds
  range_after-scan index raws after sorted = go (drop (length raws) index.spec.fields) refl
    where
      go :
          (tail : List SecondaryIndexField)
          → drop (length raws) index.spec.fields ≡ tail
          → range_after index raws after ≡ scan_after index raws after
      go [] e = rw (range_after, scan_after, e) refl
      go (f ∷ rest) e = elim (Result-cases (index_value (layout f.index) after)) [
        | inl (x, h) ↦ rw (range_after, scan_after, e, h) refl
        | inr (cursor, h) ↦ elim (Result-cases (check_prefix layout index.spec.fields raws)) [
          | inl (x, k) ↦
              rw
                (
                  range_after,
                  scan_after,
                  e,
                  h,
                  length_more (length raws) index.spec.fields f rest e,
                  k,
                )
                refl
          | inr (bounds, k) ↦
              rw
                (
                  range_after,
                  scan_after,
                  e,
                  h,
                  length_more (length raws) index.spec.fields f rest e,
                  k,
                )
                (ap ok (
                  select_after index raws bounds f rest cursor sorted k (
                    subst (λ l. index.spec.fields ≡ bound_fields bounds ++ l) e
                      (subst (Fits layout index.spec.fields raws) k
                        (check_prefix-Fits layout index.spec.fields raws)))))
        ]
      ]
