-- ===== src/SecondaryIndex/Entries/Keeps.antt =====
-- secondary_index.go: the operations on the entries of an index keep them in order, and removing an
-- entity undoes adding it.
use nestory.Common.{
  ℕ, Ordering, ◌≡◌, refl, sym, Bool, true, false, not, List, [], ◌∷◌, ◌++◌, arith, select,
  take-append, drop-append, All, All-append, All-map,
}
use nestory.SecondaryIndex.Value.{FieldType, Entity, int-IsOrder}
use nestory.SecondaryIndex.Search.{at_least, above, search_entries_lem}
use nestory.SecondaryIndex.Sorted.{
  IsSorted, IsSorted-map, IsSorted-select, Stays, fails, select-All, split, take-search,
  drop-search,
}
use nestory.SecondaryIndex.Index.{SecondaryIndex, compare_entities}
use nestory.SecondaryIndex.Ranges.Laws.{IsOrdered}
use nestory.SecondaryIndex.Entries.{position_of, add_entry, delete_equal, remove_entry}
use nestory.SecondaryIndex.Entries.Order.{IsPreorder, fields-IsPreorder}

IsSorted-append :
    {A : Type 0} (R : A → A → Type 0) (xs ys : List A)
    → IsSorted R xs
    → IsSorted R ys
    → All (λ x. All (R x) ys) xs
    → IsSorted R (xs ++ ys)
IsSorted-append R [] ys h k m = k
IsSorted-append R (x ∷ xs) ys h k m =
    (All-append (R x) xs ys h.0 m.0, IsSorted-append R xs ys h.1 k m.1)

less_before : (o : Ordering) → not (at_least o) ≡ true → above o ≡ false
unfolding at_least above
less_before Ordering.lt h = refl
less_before Ordering.eq h = refl
less_before Ordering.gt h = sym h

not-true : (b : Bool) → not b ≡ true → b ≡ false
not-true true h = sym h
not-true false h = refl

at_least_same : (o : Ordering) → o ≡ Ordering.eq → at_least o ≡ true
unfolding at_least
at_least_same Ordering.lt h = ground arith
at_least_same Ordering.eq h = refl
at_least_same Ordering.gt h = refl

pub above_turn :
    (o p : Ordering)
    → at_least o ≡ not (above p)
    → at_least p ≡ not (above o)
    → above p ≡ true
    → above o ≡ false
unfolding at_least above
above_turn Ordering.lt p h k m = refl
above_turn Ordering.eq p h k m = refl
above_turn Ordering.gt p h k m = ground (arith, h, m)

module _ {layout : ℕ → FieldType} where
  -- the entity `left` does not come after `right`
  abbrev pub Before : SecondaryIndex layout → Entity layout → Entity layout → Type 0
  Before index left right = above (compare_entities index left right) ≡ false

  -- the entries from the position of `entity` on
  abbrev from : SecondaryIndex layout → Entity layout → Entity layout → Bool
  from index entity e = at_least (compare_entities index e entity)

  pub entities-IsPreorder : (index : SecondaryIndex layout) → IsPreorder (compare_entities index)
  unfolding compare_entities
  entities-IsPreorder index = fields-IsPreorder index.spec.fields

  from_after :
      (index : SecondaryIndex layout) (entity e : Entity layout)
      → from index entity e ≡ true
      → Before index entity e
  from_after index entity e h = ground (arith, (entities-IsPreorder index).flips e entity)

  from-Stays :
      (index : SecondaryIndex layout) (entity : Entity layout)
      → IsOrdered index
      → IsSorted (Stays (from index entity)) index.entries
  from-Stays index entity sorted =
      IsSorted-map index.entries
        (λ x y le h. ground (
          arith,
          (entities-IsPreorder index).flips y entity,
          (entities-IsPreorder index).le_trans entity x y (from_after index entity x h) le,
        ))
        sorted

  -- `addSecondaryIndices` keeps the entries in order.
  pub add_entry-IsOrdered :
      (entity : Entity layout) (index : SecondaryIndex layout)
      → IsOrdered index
      → IsOrdered (add_entry entity index)
  unfolding add_entry position_of compare_entities
  add_entry-IsOrdered entity index sorted =
      let q = from index entity in
      let stays = from-Stays index entity sorted in
      rw (take-search q index.entries stays, drop-search q index.entries stays)
        (IsSorted-append (Before index) (select (fails q) index.entries)
          (entity ∷ select q index.entries)
          (IsSorted-select (Before index) (fails q) index.entries sorted)
          (
            All-map (select q index.entries) (from_after index entity) (select-All q index.entries),
            IsSorted-select (Before index) q index.entries sorted,
          )
          (All-map (select (fails q) index.entries)
            (λ x h.
              let before = less_before (compare_entities index x entity) h in
              (
                before,
                All-map (select q index.entries)
                    (λ y k.
                      (entities-IsPreorder index).le_trans x entity y before
                        (from_after index entity y k))
                    (select-All q index.entries),
              ))
            (select-All (fails q) index.entries)))

  -- `removeSecondaryIndices` of the entity that `addSecondaryIndices` has just added gives the
  -- entries of before, in an index that is in order.
  pub remove_entry-add_entry :
      (entity : Entity layout) (index : SecondaryIndex layout)
      → IsOrdered index
      → (remove_entry entity (add_entry entity index)).entries ≡ index.entries
  unfolding remove_entry add_entry position_of delete_equal compare_entities
  remove_entry-add_entry entity index sorted =
      let q = from index entity in
      let below = select (fails q) index.entries in
      let stays = from-Stays index entity sorted in
      let same = (entities-IsPreorder index).same entity in
      let found =
        search_entries_lem q below (entity ∷ select q index.entries)
          (All-map below (λ x h. not-true (q x) h) (select-All (fails q) index.entries))
          (at_least_same (compare_entities index entity entity) same, select-All q index.entries) in
      rw
        (
          take-search q index.entries stays,
          drop-search q index.entries stays,
          found,
          take-append below (entity ∷ select q index.entries),
          drop-append below (entity ∷ select q index.entries),
          same,
          int-IsOrder.same entity.id,
        )
        (sym (split q index.entries stays))
