-- ===== src/SecondaryIndex/Upkeep.antt =====
-- secondary_index.go: how a commit keeps the indexes of an entity type. An entry is the value of its
-- entity: an entity leaves the indexes before its state changes and enters them after that.
use nestory.Common.{
  ℕ, Bool, false, ◌||◌, not, Option, none, some, List, [], ◌∷◌, map, leb, if◌then◌else◌, length,
  select,
}
use nestory.Common.Int.{ℤ}
use nestory.SecondaryIndex.Value.{FieldType, Entity, compare_int}
use nestory.SecondaryIndex.Search.{is_equal}
use nestory.SecondaryIndex.Index.{SecondaryIndex, set_unique, delete_unique}
use nestory.Engine.Writes.{PendingWrite}
use nestory.SecondaryIndex.Entries.{
  add_entry, remove_entry, sort_entries, merge_secondary_index_entries,
}

unfoldable pub has_id : ℤ → List ℤ → Bool
unfolding compare_int
has_id id [] = false
has_id id (x ∷ xs) = is_equal (compare_int x id) || has_id id xs

abbrev pub secondary_index_batch_threshold : ℕ
secondary_index_batch_threshold = 64

module _ (layout : ℕ → FieldType) where
  -- the committed entity of each id, and the indexes
  pub record Db : Type 0 where
    pub res_by_id : ℤ → Option (Entity layout)
    pub secondary : List (SecondaryIndex layout)

module _ {layout : ℕ → FieldType} where
  -- `removeSecondaryIndexLookups`, `removeSecondaryIndices`, and the same of `add...`, on one index
  unfoldable pub remove_lookup : Entity layout → SecondaryIndex layout → SecondaryIndex layout
  unfolding delete_unique
  remove_lookup entity index = if index.spec.unique then delete_unique entity index else index

  unfoldable pub add_lookup : Entity layout → SecondaryIndex layout → SecondaryIndex layout
  unfolding set_unique
  add_lookup entity index = if index.spec.unique then set_unique entity entity.id index else index

  unfoldable pub remove_secondary_indices :
      Entity layout → List (SecondaryIndex layout) → List (SecondaryIndex layout)
  unfolding remove_lookup remove_entry
  remove_secondary_indices entity secondary =
      map (remove_entry entity) (map (remove_lookup entity) secondary)

  unfoldable pub add_secondary_indices :
      Entity layout → List (SecondaryIndex layout) → List (SecondaryIndex layout)
  unfolding add_lookup add_entry
  add_secondary_indices entity secondary =
      map (add_entry entity) (map (add_lookup entity) secondary)

  -- the committed entities of the written ids, and for `finishIndexes` those that are not deleted
  unfoldable pub committed : Db layout → List (PendingWrite (Entity layout)) → List (Entity layout)
  committed db [] = []
  committed db (item ∷ items) =
      let rest = committed db items in
      elim (db.res_by_id item.id) [ none ↦ rest | some entity ↦ entity ∷ rest ]

  unfoldable pub additions_of :
      Db layout → List (PendingWrite (Entity layout)) → List (Entity layout)
  additions_of db [] = []
  additions_of db (item ∷ items) =
      let rest = additions_of db items in
      if item.deleted
      then rest
      else elim (db.res_by_id item.id) [ none ↦ rest | some entity ↦ entity ∷ rest ]

  unfoldable pub remove_each :
      List (Entity layout) → List (SecondaryIndex layout) → List (SecondaryIndex layout)
  unfolding remove_secondary_indices
  remove_each [] secondary = secondary
  remove_each (e ∷ es) secondary = remove_each es (remove_secondary_indices e secondary)

  unfoldable pub add_each :
      List (Entity layout) → List (SecondaryIndex layout) → List (SecondaryIndex layout)
  unfolding add_secondary_indices
  add_each [] secondary = secondary
  add_each (e ∷ es) secondary = add_each es (add_secondary_indices e secondary)

  unfoldable pub lookups_each :
      (Entity layout → SecondaryIndex layout → SecondaryIndex layout)
      → List (Entity layout)
      → SecondaryIndex layout
      → SecondaryIndex layout
  lookups_each f [] index = index
  lookups_each f (e ∷ es) index = lookups_each f es (f e index)

  unfoldable pub prepare_index_batch : Db layout → List (PendingWrite (Entity layout)) → Db layout
  unfolding committed lookups_each remove_lookup has_id
  prepare_index_batch db items =
      let removed = committed db items in
      let changed = map (λ e. e.id) removed in
      record db {
        secondary =
            map
              (λ index. record (lookups_each remove_lookup removed index) {
                entries = select (λ e. not (has_id e.id changed)) index.entries;
              })
              db.secondary;
      }

  unfoldable pub prepare_indexes : Db layout → List (PendingWrite (Entity layout)) → Db layout
  unfolding prepare_index_batch committed remove_each
  prepare_indexes db items =
      if leb secondary_index_batch_threshold (length items)
      then prepare_index_batch db items
      else record db { secondary = remove_each (committed db items) db.secondary }

  unfoldable pub finish_index_batch : Db layout → List (PendingWrite (Entity layout)) → Db layout
  unfolding additions_of lookups_each add_lookup merge_secondary_index_entries sort_entries
  finish_index_batch db items =
      let additions = additions_of db items in
      record db {
        secondary =
            map
              (λ index. record (lookups_each add_lookup additions index) {
                entries =
                    merge_secondary_index_entries index index.entries
                      (sort_entries index additions);
              })
              db.secondary;
      }

  unfoldable pub finish_indexes : Db layout → List (PendingWrite (Entity layout)) → Db layout
  unfolding finish_index_batch additions_of add_each
  finish_indexes db items =
      if leb secondary_index_batch_threshold (length items)
      then finish_index_batch db items
      else record db { secondary = add_each (additions_of db items) db.secondary }
