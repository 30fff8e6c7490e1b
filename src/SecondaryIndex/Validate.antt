-- ===== src/SecondaryIndex/Validate.antt =====
-- secondary_index.go: the checks of the unique indexes, before a commit and when they are built.
pub mod Laws
use nestory.Common.{
  ℕ, Bool, true, false, ◌&&◌, ◌||◌, not, Option, none, some, List, [], ◌∷◌, map, if◌then◌else◌,
  Result, ok, err, bind_result,
}
use nestory.Common.Int.{ℤ}
use nestory.Common.Bytes.{Bytes}
use nestory.SecondaryIndex.Value.{
  Kind, string_kind, FieldType, Carrier, Entity, compare_int, compare_bytes,
}
use nestory.SecondaryIndex.Search.{is_equal}
use nestory.SecondaryIndex.Index.{
  SecondaryIndex, KeyMap, set_key, is_composite, key_of, unique_id, set_unique, new_secondary_index,
}
use nestory.SecondaryIndex.Entries.{sort_entries}
use nestory.Engine.Writes.{PendingWrite}
use nestory.SecondaryIndex.Upkeep.{Db, has_id}

pub data IndexFailure : Type 0 where
  unique_violation : Bytes → IndexFailure

-- `pendingKey`: a string field that is looked up by itself has no length before it
string_key : (k : Kind) → Carrier k → Bytes → Bytes
string_key string_kind value key = value
string_key _ value key = key

-- an id that is found and is not the given one
unfoldable pub is_other : Option ℤ → ℤ → Bool
unfolding compare_int
is_other none id = false
is_other (some existing) id = not (is_equal (compare_int existing id))

-- ... and that is not among the written ones
unfoldable pub is_staying : Option ℤ → List ℤ → Bool
unfolding has_id
is_staying none changed = false
is_staying (some existing) changed = not (has_id existing changed)

module _ {layout : ℕ → FieldType} where
  unfoldable pub pending_key : SecondaryIndex layout → Entity layout → Bytes
  unfolding is_composite key_of string_key
  pending_key index entity = elim index.spec.fields [
    | [] ↦ key_of [] entity
    | f ∷ fs ↦
        if is_composite index.spec
        then key_of (f ∷ fs) entity
        else string_key (layout f.index).kind (entity.field f.index) (key_of (f ∷ fs) entity)
  ]

  -- the inner loop of `validateIndexes`; `uniqueIDForValidation` finds what `uniqueID` finds, since
  -- the key of a composite index is its pending key
  unfoldable pub validate_index :
      SecondaryIndex layout → List ℤ → KeyMap Bytes → List (PendingWrite (Entity layout)) → Bool
  unfolding unique_id pending_key is_other is_staying set_key compare_bytes
  validate_index index changed pending [] = true
  validate_index index changed pending (item ∷ items) =
      let key = pending_key index item.work in
      let existing = unique_id index item.work in
      let skipped = validate_index index changed pending items in
      let rest =
        validate_index index changed (set_key compare_bytes key (some item.id) pending) items in
      if item.deleted
      then skipped
      else if is_other existing item.id && is_staying existing changed
      then false
      else if is_other (pending key) item.id
      then false
      else rest

  validate_each :
      List ℤ
      → List (PendingWrite (Entity layout))
      → List (SecondaryIndex layout)
      → Option IndexFailure
  unfolding validate_index
  validate_each changed items [] = none
  validate_each changed items (index ∷ secondary) =
      let rest = validate_each changed items secondary in
      if not index.spec.unique || validate_index index changed (λ key. none) items
      then rest
      else some (unique_violation index.spec.name)

  unfoldable pub validate_indexes :
      Db layout → List (PendingWrite (Entity layout)) → Option IndexFailure
  unfolding validate_each
  validate_indexes db items = validate_each (map (λ item. item.id) items) items db.secondary

  -- the loop of `rebuildKeys` over the entries of a unique index
  unfoldable pub rebuild_keys :
      List (Entity layout) → SecondaryIndex layout → Result IndexFailure (SecondaryIndex layout)
  unfolding unique_id set_unique is_other
  rebuild_keys [] index = ok index
  rebuild_keys (e ∷ es) index =
      let rest = rebuild_keys es (set_unique e e.id index) in
      if is_other (unique_id index e) e.id then err (unique_violation index.spec.name) else rest

  -- the part of `rebuildSecondaryIndices` for one index: `entities` is what `Range` visits
  unfoldable pub rebuild_secondary_index :
      List (Entity layout) → SecondaryIndex layout → Result IndexFailure (SecondaryIndex layout)
  unfolding new_secondary_index sort_entries rebuild_keys
  rebuild_secondary_index entities current =
      let index : SecondaryIndex layout = new_secondary_index current.spec in
      let sorted = record index { entries = sort_entries index entities } in
      if index.spec.unique then rebuild_keys sorted.entries sorted else ok sorted

  unfoldable pub rebuild_each :
      List (Entity layout)
      → List (SecondaryIndex layout)
      → Result IndexFailure (List (SecondaryIndex layout))
  unfolding rebuild_secondary_index
  rebuild_each entities [] = ok []
  rebuild_each entities (current ∷ others) =
      bind_result (rebuild_secondary_index entities current)
        λ index. bind_result (rebuild_each entities others) λ indices. ok (index ∷ indices)

  unfoldable pub rebuild_secondary_indices :
      List (Entity layout) → Db layout → Result IndexFailure (Db layout)
  unfolding rebuild_each
  rebuild_secondary_indices entities db =
      bind_result (rebuild_each entities db.secondary)
        λ indices. ok (record db { secondary = indices })
