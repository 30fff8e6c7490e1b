-- ===== src/SecondaryIndex/Entries.antt =====
-- secondary_index.go: the ordered entries of one index.
pub mod Order
pub mod Keeps
pub mod Merge
use nestory.Common.{ℕ, true, false, List, [], ◌∷◌, ◌++◌, if◌then◌else◌, take, drop}
use nestory.SecondaryIndex.Value.{FieldType, Entity, compare_int}
use nestory.SecondaryIndex.Search.{is_equal, at_least, above, search_entries}
use nestory.SecondaryIndex.Index.{SecondaryIndex, compare_entities}

module _ {layout : ℕ → FieldType} where
  -- the position that `sort.Search` finds for an entity
  unfoldable pub position_of : SecondaryIndex layout → Entity layout → ℕ
  unfolding search_entries at_least compare_entities
  position_of index entity =
      search_entries (λ e. at_least (compare_entities index e entity)) index.entries

  -- the body of the loop of `addSecondaryIndices`: `slices.Insert` at the position
  unfoldable pub add_entry : Entity layout → SecondaryIndex layout → SecondaryIndex layout
  unfolding position_of
  add_entry entity index =
      let position = position_of index entity in
      record index { entries = take position index.entries ++ entity ∷ drop position index.entries }

  -- the inner loop of `removeSecondaryIndices`, over the entries from the position on
  unfoldable pub delete_equal :
      SecondaryIndex layout → Entity layout → List (Entity layout) → List (Entity layout)
  unfolding compare_entities compare_int
  delete_equal index entity [] = []
  delete_equal index entity (e ∷ es) =
      let rest = delete_equal index entity es in
      if is_equal (compare_entities index e entity)
      then (if is_equal (compare_int e.id entity.id) then es else e ∷ rest)
      else e ∷ es

  -- the body of the loop of `removeSecondaryIndices`
  unfoldable pub remove_entry : Entity layout → SecondaryIndex layout → SecondaryIndex layout
  unfolding position_of delete_equal
  remove_entry entity index =
      let position = position_of index entity in
      record index {
        entries =
            take position index.entries ++ delete_equal index entity (drop position index.entries);
      }

  -- the loop of `mergeSecondaryIndexEntries`; its two shortcuts are the cases of an empty list
  unfoldable pub merge_secondary_index_entries :
      SecondaryIndex layout → List (Entity layout) → List (Entity layout) → List (Entity layout)
  unfolding compare_entities above
  merge_secondary_index_entries index [] additions = additions
  merge_secondary_index_entries index (e ∷ es) [] = e ∷ es
  merge_secondary_index_entries index (e ∷ es) (a ∷ additions) =
      elim (above (compare_entities index e a)) [
        | false ↦ e ∷ merge_secondary_index_entries index es (a ∷ additions)
        | true ↦ a ∷ merge_secondary_index_entries index (e ∷ es) additions
      ]

  -- `slices.SortFunc` by the comparison of the index
  unfoldable pub insert_sorted :
      SecondaryIndex layout → Entity layout → List (Entity layout) → List (Entity layout)
  unfolding compare_entities above
  insert_sorted index entity [] = entity ∷ []
  insert_sorted index entity (e ∷ es) =
      let rest = insert_sorted index entity es in
      if above (compare_entities index entity e) then e ∷ rest else entity ∷ e ∷ es

  unfoldable pub sort_entries : SecondaryIndex layout → List (Entity layout) → List (Entity layout)
  unfolding insert_sorted
  sort_entries index [] = []
  sort_entries index (e ∷ es) = insert_sorted index e (sort_entries index es)
