-- ===== src/Storage.antt =====
-- storage.go: the chunk files of one entity type. The directory is a function from the number of a
-- file to what the file decodes to; encoding a chunk and decoding it again is gob's part. A file is
-- replaced by a rename, so that a failed `saveChunk` leaves the old one. The goroutines write
-- different files, and run here one after the other.
pub mod Sync
pub mod Load
pub mod Roundtrip
use nestory.Common.{
  ℕ, zero, suc, ◌-◌, Bool, true, false, Option, none, some, List, [], ◌∷◌, ◌==◌, if◌then◌else◌,
  bind_option,
}
use nestory.ChunkStore.{
  ChunkStore, new_chunk_store, load_chunk, chunk_live, dirty_indices, clear_dirty,
}

abbrev pub Directory : Type 0 → Type 0
Directory A = ℕ → Option (List A)

module _ {A : Type 0} where
  pub write_file : ℕ → List A → Directory A → Directory A
  write_file ci rows d j = if j == ci then some rows else d j

  -- the calls of `saveChunk`; `works` says which of them return no error
  pub save_chunks : (ℕ → Bool) → ChunkStore A → List ℕ → Directory A → Directory A × Bool
  unfolding write_file
  save_chunks works s [] d = (d, true)
  save_chunks works s (ci ∷ idxs) d =
      if works ci
      then save_chunks works s idxs (write_file ci (chunk_live s ci) d)
      else ((save_chunks works s idxs d).0, false)

  -- The dirty chunks are written, and marked clean if no write failed.
  unfoldable pub save : (ℕ → Bool) → ChunkStore A → Directory A → ChunkStore A × Directory A × Bool
  unfolding save_chunks
  save works s d =
      let idxs = dirty_indices s in
      let (d', good) = save_chunks works s idxs d in
      if good then (clear_dirty idxs s, d', true) else (s, d', false)

  -- `sortedChunkFiles` with the decoded contents: the files below `limit`, by number
  unfoldable pub files_from : ℕ → ℕ → Directory A → List (List A)
  files_from i zero d = []
  files_from i (suc limit) d = elim (d i) [
    | none ↦ files_from (suc i) limit d
    | some rows ↦ rows ∷ files_from (suc i) limit d
  ]

  -- the loop over `loadChunk`
  unfoldable pub load_chunks : List (List A) → ChunkStore A → Option (ChunkStore A)
  load_chunks [] s = some s
  load_chunks (rows ∷ files) s = bind_option (load_chunk rows s) (load_chunks files)

  -- `loadStore` up to the replay of the logs
  unfoldable pub load_store : ℕ → Directory A → Option (ChunkStore A)
  unfolding files_from load_chunks
  load_store limit d = load_chunks (files_from 0 limit d) new_chunk_store
