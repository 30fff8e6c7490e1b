-- ===== src/Tests/Store.antt =====
-- chunkstore.go, storage.go: a store of two numbers, with its files.
use nestory.Common.{
  ℕ, ◌<◌, ◌≡◌, refl, Bool, true, false, none, some, [], ◌∷◌, ◌++◌, arith, ◌==◌, length, select,
}
use nestory.ChunkStore.{
  ChunkStore, new_chunk_store, load_chunk, append, len, range, range_blocks, slot_at, chunk_live,
  delete_func, dirty_indices,
}
use nestory.ChunkStore.Shape.{IsValid}
use nestory.ChunkStore.Grow.{append-IsValid, fresh}
use nestory.ChunkStore.Live.{range-append, range-load_chunk}
use nestory.ChunkStore.Delete.{delete_func-partition, keep}
use nestory.ChunkStore.Stable.{
  Extends, new-IsValid, append-address, Reach-stable, here, next, appended, deleted,
}
use nestory.Storage.{Directory, save, load_store}
use nestory.Storage.Sync.{IsSynced, append-IsSynced, delete_func-IsSynced}
use nestory.Storage.Load.{save-IsSynced}
use nestory.Storage.Roundtrip.{load_store-save}

abbrev empty_store : ChunkStore ℕ
empty_store = new_chunk_store

abbrev one_item : ChunkStore ℕ
one_item = (append 30 empty_store).0

abbrev two_items : ChunkStore ℕ
two_items = (append 41 one_item).0

abbrev is_thirty : ℕ → Bool
is_thirty x = x == 30

abbrev no_files : Directory ℕ
no_files i = none

abbrev works : ℕ → Bool
works ci = true

one_item-IsValid : IsValid one_item
one_item-IsValid = append-IsValid 30 empty_store new-IsValid

two_items-IsValid : IsValid two_items
two_items-IsValid = append-IsValid 41 one_item one_item-IsValid

empty_store-IsSynced : IsSynced empty_store no_files
empty_store-IsSynced = record { clean = λ i h. ground arith; no_more = λ i h. refl }

one_item-IsSynced : IsSynced one_item no_files
one_item-IsSynced = append-IsSynced 30 empty_store no_files new-IsValid empty_store-IsSynced

two_items-IsSynced : IsSynced two_items no_files
two_items-IsSynced = append-IsSynced 41 one_item no_files one_item-IsValid one_item-IsSynced

two_items-range : range two_items ≡ 30 ∷ 41 ∷ []
unfolding range append range_blocks
two_items-range = refl

saved_two : (save works two_items no_files).2 ≡ true
unfolding save append dirty_indices
saved_two = refl

rest_of_two : range (delete_func is_thirty two_items).0 ≡ 41 ∷ []
unfolding range append delete_func range_blocks
rest_of_two = refl

range-append_example : range (append 41 one_item).0 ≡ range one_item ++ 41 ∷ []
range-append_example = range-append 41 one_item one_item-IsValid

abbrev loaded : ChunkStore ℕ
loaded = record {
  chunks = one_item.chunks ++ (fresh 5 1 ∷ fresh 6 1 ∷ []) ∷ [];
  tomb = one_item.tomb ++ (false ∷ false ∷ []) ∷ [];
  n = 3;
  dead = 0;
  dirty = one_item.dirty ++ false ∷ [];
}

loading : load_chunk (5 ∷ 6 ∷ []) one_item ≡ some loaded
unfolding load_chunk append
loading = refl

range-load_chunk_example : range loaded ≡ range one_item ++ 5 ∷ 6 ∷ []
range-load_chunk_example = range-load_chunk (5 ∷ 6 ∷ []) one_item loaded one_item-IsValid loading

delete_func-partition_example :
    ((delete_func is_thirty two_items).1 ≡ select is_thirty (range two_items))
    × (range (delete_func is_thirty two_items).0 ≡ select (keep is_thirty) (range two_items))
    × IsValid (delete_func is_thirty two_items).0
delete_func-partition_example = delete_func-partition is_thirty two_items two_items-IsValid

append-address_example :
    Extends one_item (append 41 one_item).0
    × (slot_at (append 41 one_item).0 (append 41 one_item).1
        ≡ some (fresh 41 (append 41 one_item).1.0))
append-address_example = append-address 41 one_item one_item-IsValid

Reach-stable_example :
    IsValid (delete_func is_thirty two_items).0
    × (len (delete_func is_thirty two_items).0 ≡ length (range (delete_func is_thirty two_items).0))
    × Extends one_item (delete_func is_thirty two_items).0
Reach-stable_example =
    Reach-stable one_item (delete_func is_thirty two_items).0 (next here (appended 30))
      (next (next here (appended 41)) (deleted is_thirty))

append-IsSynced_example : IsSynced (append 41 one_item).0 no_files
append-IsSynced_example = append-IsSynced 41 one_item no_files one_item-IsValid one_item-IsSynced

delete_func-IsSynced_example : IsSynced (delete_func is_thirty two_items).0 no_files
delete_func-IsSynced_example =
    delete_func-IsSynced is_thirty two_items no_files two_items-IsValid two_items-IsSynced

load_store-save_example :
    (t : ChunkStore ℕ) × (load_store 3 (save works two_items no_files).1 ≡ some t)
    × IsValid t
    × (range t ≡ range two_items)
unfolding append
load_store-save_example =
    load_store-save works two_items no_files 3 two_items-IsValid two_items-IsSynced saved_two
      (omega arith)

save-IsSynced_example :
    IsSynced (save works two_items no_files).0 (save works two_items no_files).1
    × (range (save works two_items no_files).0 ≡ range two_items)
    × ((save works two_items no_files).2 ≡ true
        → (dirty_indices (save works two_items no_files).0 ≡ [])
          × ((i : ℕ)
              → i < length two_items.chunks
              → (save works two_items no_files).1 i ≡ some (chunk_live two_items i)))
save-IsSynced_example = save-IsSynced works two_items no_files two_items-IsValid two_items-IsSynced
