-- ===== src/SecondaryIndex/Ranges/Laws.antt =====
-- secondary_index.go: on sorted entries, the ranges are the entries that a scan would keep.
use nestory.Common.{
  Result-cases, ℕ, ◌≤◌, Ordering, ◌≡◌, refl, ap, subst, inl, inr, true, false, ◌&&◌, not, List, [],
  ◌∷◌, ◌++◌, arith, ltb, if◌then◌else◌, Bool-cases, length, drop, select, Result, ok, err,
  bind_result,
}
use nestory.SecondaryIndex.Value.{FieldType, Entity, compare_index_values, IsOrder, value-IsOrder}
use nestory.SecondaryIndex.Search.{Ordering-cases, is_equal, first, at_least, above, search_entries}
use nestory.SecondaryIndex.Sorted.{IsSorted, IsSorted-map, slice-search}
use nestory.SecondaryIndex.Index.{
  SecondaryIndexField, SecondaryIndex, compare_fields, compare_entities,
}
use nestory.SecondaryIndex.Ranges.{
  Raw, IndexError, too_many_values, Bound, index_value, check_prefix, compare_prefix, prefix_bounds,
  slice, range_prefix,
}

abbrev pub rank : Ordering → ℕ
rank Ordering.lt = 0
rank Ordering.eq = 1
rank Ordering.gt = 2

rank_le : (o : Ordering) → rank o ≤ 2
rank_le Ordering.lt = omega arith
rank_le Ordering.eq = omega arith
rank_le Ordering.gt = omega arith

at_least-rank : (a b : Ordering) → rank a ≤ rank b → at_least a ≡ true → at_least b ≡ true
unfolding at_least
at_least-rank Ordering.lt b h e = ground arith
at_least-rank Ordering.eq Ordering.lt h e = elim h [ ]
at_least-rank Ordering.eq Ordering.eq h e = refl
at_least-rank Ordering.eq Ordering.gt h e = refl
at_least-rank Ordering.gt Ordering.lt h e = elim h [ ]
at_least-rank Ordering.gt Ordering.eq h e = refl
at_least-rank Ordering.gt Ordering.gt h e = refl

pub above-rank : (a b : Ordering) → rank a ≤ rank b → above a ≡ true → above b ≡ true
unfolding above
above-rank Ordering.lt b h e = ground arith
above-rank Ordering.eq b h e = ground arith
above-rank Ordering.gt Ordering.lt h e = elim h [ ]
above-rank Ordering.gt Ordering.eq h e = absurd (omega arith)
above-rank Ordering.gt Ordering.gt h e = refl

above-at_least : (o : Ordering) → above o ≡ true → at_least o ≡ true
unfolding above at_least
above-at_least Ordering.lt h = ground arith
above-at_least Ordering.eq h = refl
above-at_least Ordering.gt h = refl

between : (o : Ordering) → (not (above o) && at_least o) ≡ is_equal o
unfolding above at_least
between Ordering.lt = refl
between Ordering.eq = refl
between Ordering.gt = refl

-- a smaller value does not compare higher to a third one
first-rank :
    {A : Type 0} (cmp : A → A → Ordering) (order : IsOrder cmp) (a b v : A) (m n : Ordering)
    → above (cmp a b) ≡ false
    → (cmp a b ≡ Ordering.eq → rank m ≤ rank n)
    → rank (first (cmp a v) m) ≤ rank (first (cmp b v) n)
unfolding above
first-rank cmp order a b v m n h rest = elim (Ordering-cases (cmp a b)) [
  | inr (inr e) ↦ ground (arith, h, e)
  | inr (inl e) ↦ rw (order.equal a b e) (elim (Ordering-cases (cmp b v)) [
    | inl k ↦ rw k (omega arith)
    | inr (inl k) ↦ rw k (rest e)
    | inr (inr k) ↦ rw k (omega arith)
  ])
  | inl e ↦ elim (Ordering-cases (cmp b v)) [
    | inl k ↦ rw (k, order.less a b v e k) (omega arith)
    | inr (inl k) ↦ rw (k, ← order.equal b v k, e) (omega arith)
    | inr (inr k) ↦ rw k (rank_le (first (cmp a v) m))
  ]
]

first_not_above : (a b : Ordering) → above (first a b) ≡ false → above a ≡ false
unfolding above
first_not_above Ordering.lt b h = refl
first_not_above Ordering.eq b h = refl
first_not_above Ordering.gt b h = h

module _ {layout : ℕ → FieldType} where
  -- the fields that the values of a prefix belong to
  abbrev pub bound_fields : List (Bound layout) → List SecondaryIndexField
  bound_fields [] = []
  bound_fields (b ∷ bs) = b.field ∷ bound_fields bs

  pub compare_prefix-rank :
      (bs : List (Bound layout)) (rest : List SecondaryIndexField) (l r : Entity layout)
      → above (compare_fields (bound_fields bs ++ rest) l r) ≡ false
      → rank (compare_prefix bs l) ≤ rank (compare_prefix bs r)
  unfolding compare_prefix compare_fields
  compare_prefix-rank [] rest l r h = omega arith
  compare_prefix-rank (b ∷ bs) rest l r h =
      first-rank (compare_index_values (layout b.field.index).kind)
        (value-IsOrder (layout b.field.index).kind) (l.field b.field.index) (r.field b.field.index)
        b.value (compare_prefix bs l) (compare_prefix bs r) (first_not_above _ _ h)
        (λ e.
          compare_prefix-rank bs rest l r (
            subst (λ o. above (first o (compare_fields (bound_fields bs ++ rest) l r)) ≡ false) e
              h))

module _ (layout : ℕ → FieldType) where
  -- what a checked prefix of the fields `fs` gives
  abbrev pub Fits :
      List SecondaryIndexField → List Raw → Result IndexError (List (Bound layout)) → Type 0
  Fits fs raws (err e) = Unit
  Fits fs raws (ok bounds) = fs ≡ bound_fields bounds ++ drop (length raws) fs

  pub check_prefix-Fits :
      (fs : List SecondaryIndexField) (raws : List Raw) → Fits fs raws (check_prefix layout fs raws)
  unfolding check_prefix
  check_prefix-Fits fs [] = refl
  check_prefix-Fits [] (raw ∷ raws) = tt
  check_prefix-Fits (f ∷ fs) (raw ∷ raws) = elim (Result-cases (index_value (layout f.index) raw)) [
    | inl (e, h) ↦ rw h tt
    | inr (v, h) ↦ elim (Result-cases (check_prefix layout fs raws)) [
      | inl (e, k) ↦ rw (h, k) tt
      | inr (bs, k) ↦
          rw (h, k) (ap (λ l. f ∷ l) (subst (Fits fs raws) k (check_prefix-Fits fs raws)))
    ]
  ]

module _ {layout : ℕ → FieldType} where
  -- the entries of an index in the order of its comparison
  abbrev pub IsOrdered : SecondaryIndex layout → Type 0
  IsOrdered index = IsSorted (λ l r. above (compare_entities index l r) ≡ false) index.entries

  entries-rank :
      (index : SecondaryIndex layout) (raws : List Raw) (bounds : List (Bound layout))
      → IsOrdered index
      → check_prefix layout index.spec.fields raws ≡ ok bounds
      → IsSorted
          (λ l r. rank (compare_prefix bounds l) ≤ rank (compare_prefix bounds r))
          index.entries
  unfolding compare_entities
  entries-rank index raws bounds sorted h =
      let fields =
        subst (Fits layout index.spec.fields raws) h
          (check_prefix-Fits layout index.spec.fields raws) in
      IsSorted-map index.entries
        (λ l r k.
          compare_prefix-rank bounds (drop (length raws) index.spec.fields) l r
            (subst (λ fs. above (compare_fields fs l r) ≡ false) fields k))
        sorted

  pub slice-prefix :
      (index : SecondaryIndex layout) (raws : List Raw) (bounds : List (Bound layout))
      → IsOrdered index
      → check_prefix layout index.spec.fields raws ≡ ok bounds
      → slice index.entries
          (search_entries (λ e. at_least (compare_prefix bounds e)) index.entries)
          (search_entries (λ e. above (compare_prefix bounds e)) index.entries)
        ≡ select (λ e. is_equal (compare_prefix bounds e)) index.entries
  slice-prefix index raws bounds sorted h =
      let ranks = entries-rank index raws bounds sorted h in
      slice-search (λ e. at_least (compare_prefix bounds e)) (λ e. above (compare_prefix bounds e))
        (λ e. is_equal (compare_prefix bounds e)) index.entries
        (IsSorted-map index.entries (λ l r. at_least-rank _ _) ranks)
        (IsSorted-map index.entries (λ l r. above-rank _ _) ranks)
        (λ e. above-at_least (compare_prefix bounds e)) (λ e. between (compare_prefix bounds e))

  -- `rangePrefix` as a scan of the entries
  abbrev pub scan_prefix :
      SecondaryIndex layout → List Raw → Result IndexError (List (Entity layout))
  scan_prefix index raws =
      if ltb (length index.spec.fields) (length raws)
      then err too_many_values
      else bind_result (check_prefix layout index.spec.fields raws)
          λ bounds. ok (select (λ e. is_equal (compare_prefix bounds e)) index.entries)

  -- On an index whose entries are in order, `rangePrefix` returns what the scan of the entries
  -- returns: those whose first fields are equal to the values of the prefix, or the same error.
  pub range_prefix-scan :
      (index : SecondaryIndex layout) (raws : List Raw)
      → IsOrdered index
      → range_prefix index raws ≡ scan_prefix index raws
  unfolding range_prefix prefix_bounds
  range_prefix-scan index raws sorted =
      elim (Bool-cases (ltb (length index.spec.fields) (length raws))) [
        | inl many ↦ rw many refl
        | inr few ↦ elim (Result-cases (check_prefix layout index.spec.fields raws)) [
          | inl (e, h) ↦ rw (few, h) refl
          | inr (bounds, h) ↦ rw (few, h) (ap ok (slice-prefix index raws bounds sorted h))
        ]
      ]
