-- ===== src/Storage/Roundtrip.antt =====
-- storage.go: a store that was saved and loaded again.
use nestory.Common.{
  ℕ, zero, suc, ◌+◌, ◌≤◌, ◌<◌, ◌≡◌, refl, sym, ap, ◌∙◌, inl, inr, Bool, true, none, some, List, [],
  ◌∷◌, ◌++◌, append-nil, append_assoc, arith, Option-cases, length, get_or, concat, All,
}
use nestory.ChunkStore.{
  ResourceSlot, ChunkStore, new_chunk_store, load_chunk, chunk_live, live_of, range, range_blocks,
  chunk_limit,
}
use nestory.ChunkStore.Blocks.{AreBlocks}
use nestory.ChunkStore.Shape.{IsValid}
use nestory.ChunkStore.Grow.{load_chunk-IsValid}
use nestory.ChunkStore.Live.{range-load_chunk, length-live_of}
use nestory.Storage.{Directory, save, files_from, load_chunks, load_store}
use nestory.Storage.Sync.{IsSynced}
use nestory.ChunkStore.Stable.{new-IsValid}
use nestory.Storage.Load.{chunks-save, save-IsSynced}

module _ {A : Type 0} where
  abbrev Fits : List A → Type 0
  Fits rows = length rows ≤ chunk_limit

  -- Files that hold the live elements of some chunks, with none behind them, are those elements.
  files_from-blocks :
      (i k : ℕ) (cs : List (List (ResourceSlot A))) (ts : List (List Bool)) (ds : List Bool)
      (limit : ℕ) (d : Directory A)
      → AreBlocks k cs ts ds
      → length cs ≤ limit
      → ((j m : ℕ)
          → m ≡ i + j
          → j < length cs
          → d m ≡ some (live_of (get_or cs j []) (get_or ts j [])))
      → ((m : ℕ) → i + length cs ≤ m → d m ≡ none)
      → (concat (files_from i limit d) ≡ range_blocks cs ts) × All Fits (files_from i limit d)
  unfolding files_from range_blocks
  files_from-blocks i k [] [] [] zero d h le here past = (refl, tt)
  files_from-blocks i k [] [] [] (suc limit) d h le here past =
      rw (past i (omega arith), files_from)
        (files_from-blocks (suc i) k [] [] [] limit d h (omega arith)
          (λ j m e lt. absurd (omega arith)) (λ m le'. past m (omega arith)))
  files_from-blocks i k [] [] (x ∷ ds) limit d h le here past = elim h [ ]
  files_from-blocks i k [] (t ∷ ts) ds limit d h le here past = elim h [ ]
  files_from-blocks i k (c ∷ cs) [] ds limit d h le here past = elim h [ ]
  files_from-blocks i k (c ∷ cs) (t ∷ ts) [] limit d h le here past = elim h [ ]
  files_from-blocks i k (c ∷ cs) (t ∷ ts) (x ∷ ds) zero d h le here past = absurd (omega arith)
  files_from-blocks i k (c ∷ cs) (t ∷ ts) (x ∷ ds) (suc limit) d h le here past =
      let ih =
        files_from-blocks (suc i) (suc k) cs ts ds limit d h.1 (omega arith)
          (λ j m e lt. here (suc j) m (omega arith) (omega arith))
          (λ m le'. past m (omega arith)) in
      rw (here 0 i (omega arith) (omega arith), files_from)
        (
          ap (λ l. live_of c t ++ l) ih.0,
          (omega (arith, length-live_of c t h.0.flags, h.0.fits), ih.1),
        )

  load_chunk-some :
      (rows : List A) (s : ChunkStore A)
      → Fits rows
      → (t : ChunkStore A) × (load_chunk rows s ≡ some t)
  unfolding load_chunk
  load_chunk-some rows s fits = elim (Option-cases (load_chunk rows s)) [
    | inl e ↦ absurd (ground arith)
    | inr (t, e) ↦ (t, e)
  ]

  load_chunks-range :
      (files : List (List A)) (s : ChunkStore A)
      → IsValid s
      → All Fits files
      → (t : ChunkStore A) × (load_chunks files s ≡ some t)
        × IsValid t
        × (range t ≡ range s ++ concat files)
  unfolding load_chunks
  load_chunks-range [] s valid fits = (s, refl, valid, sym (append-nil (range s)))
  load_chunks-range (rows ∷ files) s valid fits =
      let (s', loaded) = load_chunk-some rows s fits.0 in
      let valid' = load_chunk-IsValid rows s s' valid loaded in
      let (t, rest, valid'', same) = load_chunks-range files s' valid' fits.1 in
      (
        t,
        rw (loaded, rest),
        valid'',
        same
            ∙ rw (range-load_chunk rows s s' valid loaded)
                (append_assoc (range s) rows (concat files)),
      )

  -- Loading what a `save` without an error wrote never fails, and gives a store with the live
  -- elements of the saved one in their order; `limit` is above the number of every file.
  pub load_store-save :
      (works : ℕ → Bool) (s : ChunkStore A) (d : Directory A) (limit : ℕ)
      → IsValid s
      → IsSynced s d
      → (save works s d).2 ≡ true
      → length s.chunks ≤ limit
      → (t : ChunkStore A) × (load_store limit (save works s d).1 ≡ some t)
        × IsValid t
        × (range t ≡ range s)
  unfolding load_store chunk_live range range_blocks
  load_store-save works s d limit valid sync good le =
      let (synced, _, done) = save-IsSynced works s d valid sync in
      let d' = (save works s d).1 in
      let (same, fits) =
        files_from-blocks 0 0 s.chunks s.tomb s.dirty limit d' valid.blocks le
          (λ j m e lt. let at : m ≡ j = omega arith in ap d' at ∙ (done good).1 j lt)
          (λ m le'. synced.no_more m (rw (chunks-save works s d) (omega arith))) in
      let (t, loaded, valid', all) =
        load_chunks-range (files_from 0 limit d') new_chunk_store new-IsValid fits in
      (t, loaded, valid', all ∙ same)
