-- ===== src/Storage/Load.antt =====
-- storage.go: what `save` writes, and what `loadStore` reads of it.
use nestory.Common.{
  ℕ, zero, suc, ◌+◌, ◌≤◌, ◌<◌, ◌≡◌, refl, sym, ap, ◌∙◌, ◌⊎◌, inl, inr, Bool, true, false, ◌||◌,
  none, some, List, [], ◌∷◌, arith, ◌==◌, if◌then◌else◌, ==_iff, Bool-cases, length, get_elem?, set,
  get_or, length-set,
}
use nestory.ChunkStore.{
  ChunkStore, chunk_live, dirty_indices, indices_from, clear_dirty, clear_flags, range,
}
use nestory.ChunkStore.Blocks.{AreBlocks-lengths}
use nestory.ChunkStore.Shape.{IsValid}
use nestory.Storage.{Directory, write_file, save_chunks, save}
use nestory.Storage.Sync.{IsSynced}

abbrev mem : ℕ → List ℕ → Bool
mem j [] = false
mem j (i ∷ idxs) = j == i || mem j idxs

mem_below : (i j : ℕ) (ds : List Bool) → j < i → mem j (indices_from i ds) ≡ false
unfolding indices_from
mem_below i j [] h = refl
mem_below i j (d ∷ ds) h = ground (arith, mem_below (i + 1) j ds)

mem_indices :
    (i j k : ℕ) (ds : List Bool) → k ≡ i + j → mem k (indices_from i ds) ≡ get_or ds j false
unfolding indices_from
mem_indices i j k [] e = refl
mem_indices i zero k (d ∷ ds) e = ground (arith, mem_below (i + 1) k ds)
mem_indices i (suc j) k (d ∷ ds) e = ground (arith, mem_indices (i + 1) j k ds)

get_or-set-false :
    (ds : List Bool) (i j : ℕ)
    → get_or (set ds i false) j false ≡ (if j == i then false else get_or ds j false)
get_or-set-false [] i j = ground arith
get_or-set-false (d ∷ ds) zero zero = refl
get_or-set-false (d ∷ ds) zero (suc j) = ground arith
get_or-set-false (d ∷ ds) (suc i) zero = ground arith
get_or-set-false (d ∷ ds) (suc i) (suc j) = get_or-set-false ds i j ∙ ground arith

clear_flags_at :
    (idxs : List ℕ) (ds : List Bool) (j : ℕ)
    → get_or (clear_flags idxs ds) j false ≡ (if mem j idxs then false else get_or ds j false)
unfolding clear_flags
clear_flags_at [] ds j = refl
clear_flags_at (i ∷ idxs) ds j =
    clear_flags_at idxs (set ds i false) j ∙ rw (get_or-set-false ds i j) (ground arith)

all_false :
    (i : ℕ) (ds : List Bool) → ((j : ℕ) → get_or ds j false ≡ false) → indices_from i ds ≡ []
unfolding indices_from
all_false i [] h = refl
all_false i (d ∷ ds) h = rw (h 0) (all_false (i + 1) ds (λ j. h (suc j)))

length-clear : (idxs : List ℕ) (ds : List Bool) → length (clear_flags idxs ds) ≡ length ds
unfolding clear_flags
length-clear [] ds = refl
length-clear (i ∷ idxs) ds = length-clear idxs (set ds i false) ∙ length-set ds i false

flag_at :
    (ds : List Bool) (j : ℕ)
    → j < length ds
    → get_or ds j false ≡ false
    → get_elem? ds j ≡ some false
flag_at [] j h e = absurd (omega arith)
flag_at (d ∷ ds) zero h e = ap some e
flag_at (d ∷ ds) (suc j) h e = flag_at ds j (omega arith) e

in_range : (ds : List Bool) (j : ℕ) → get_elem? ds j ≡ some false → j < length ds
in_range [] j h = absurd (ground arith)
in_range (d ∷ ds) zero h = omega arith
in_range (d ∷ ds) (suc j) h = omega (arith, in_range ds j h)

past_end : (ds : List Bool) (j : ℕ) → length ds ≤ j → get_or ds j false ≡ false
past_end [] j h = refl
past_end (d ∷ ds) zero h = absurd (omega arith)
past_end (d ∷ ds) (suc j) h = past_end ds j (omega arith)

module _ {A : Type 0} where
  written :
      (s : ChunkStore A) (d : Directory A) (i j : ℕ)
      → (j == i) ≡ true
      → write_file i (chunk_live s i) d j ≡ some (chunk_live s j)
  unfolding write_file
  written s d i j e = rw e (ap (λ k. some (chunk_live s k)) (sym ((==_iff j i).0 e)))

  skipped :
      (rows : List A) (d : Directory A) (i j : ℕ) → (j == i) ≡ false → write_file i rows d j ≡ d j
  unfolding write_file
  skipped rows d i j e = rw e

  module _ (works : ℕ → Bool) (s : ChunkStore A) where
    -- each file is what it was or the live elements of its chunk
    save_chunks_either :
        (idxs : List ℕ) (d : Directory A) (j : ℕ)
        → ((save_chunks works s idxs d).0 j ≡ some (chunk_live s j))
          ⊎ ((save_chunks works s idxs d).0 j ≡ d j)
    unfolding save_chunks
    save_chunks_either [] d j = inr refl
    save_chunks_either (i ∷ idxs) d j = elim (Bool-cases (works i)) [
      | inr fails ↦ rw fails (save_chunks_either idxs d j)
      | inl writes ↦ rw writes (elim (save_chunks_either idxs (write_file i (chunk_live s i) d) j) [
        | inl e ↦ inl e
        | inr e ↦ elim (Bool-cases (j == i)) [
          | inl same ↦ inl (e ∙ written s d i j same)
          | inr apart ↦ inr (e ∙ skipped (chunk_live s i) d i j apart)
        ]
      ])
    ]

    save_chunks_other :
        (idxs : List ℕ) (d : Directory A) (j : ℕ)
        → mem j idxs ≡ false
        → (save_chunks works s idxs d).0 j ≡ d j
    unfolding save_chunks
    save_chunks_other [] d j m = refl
    save_chunks_other (i ∷ idxs) d j m =
        let apart : (j == i) ≡ false = ground arith in
        let rest : mem j idxs ≡ false = ground arith in
        elim (Bool-cases (works i)) [
          | inr fails ↦ rw fails (save_chunks_other idxs d j rest)
          | inl writes ↦ rw writes (
              save_chunks_other idxs (write_file i (chunk_live s i) d) j rest
              ∙ skipped (chunk_live s i) d i j apart)
        ]

    -- without an error every chunk of the list is written
    save_chunks_all :
        (idxs : List ℕ) (d : Directory A) (j : ℕ)
        → (save_chunks works s idxs d).1 ≡ true
        → mem j idxs ≡ true
        → (save_chunks works s idxs d).0 j ≡ some (chunk_live s j)
    unfolding save_chunks
    save_chunks_all [] d j good m = absurd (ground arith)
    save_chunks_all (i ∷ idxs) d j good m = elim (Bool-cases (works i)) [
      | inr fails ↦ absurd (ground arith)
      | inl writes ↦
          let d' = write_file i (chunk_live s i) d in
          let rest : (save_chunks works s idxs d').1 ≡ true = ground arith in
          rw writes (elim (Bool-cases (mem j idxs)) [
            | inl later ↦ save_chunks_all idxs d' j rest later
            | inr last ↦
                let same : (j == i) ≡ true = ground arith in
                save_chunks_other idxs d' j last ∙ written s d i j same
          ])
    ]

  module _ (works : ℕ → Bool) (s : ChunkStore A) (d : Directory A) (valid : IsValid s)
      (sync : IsSynced s d) where
    abbrev idxs : List ℕ
    idxs = dirty_indices s

    flagged : (i : ℕ) → mem i idxs ≡ get_or s.dirty i false
    unfolding dirty_indices
    flagged i = mem_indices 0 i i s.dirty (omega arith)

    all_written :
        (save_chunks works s idxs d).1 ≡ true
        → (i : ℕ) → i < length s.chunks
        → (save_chunks works s idxs d).0 i ≡ some (chunk_live s i)
    all_written good i lt =
        let l = AreBlocks-lengths 0 s.chunks s.tomb s.dirty valid.blocks in
        elim (Bool-cases (mem i idxs)) [
          | inl m ↦ save_chunks_all works s idxs d i good m
          | inr m ↦
              save_chunks_other works s idxs d i m
              ∙ sync.clean i (flag_at s.dirty i (omega (arith, l.1)) (sym (flagged i) ∙ m))
        ]

    none_past : (i : ℕ) → length s.chunks ≤ i → (save_chunks works s idxs d).0 i ≡ none
    none_past i le =
        let l = AreBlocks-lengths 0 s.chunks s.tomb s.dirty valid.blocks in
        save_chunks_other works s idxs d i (flagged i ∙ past_end s.dirty i (omega (arith, l.1)))
        ∙ sync.no_more i le

    cleared-IsSynced :
        (save_chunks works s idxs d).1 ≡ true
        → IsSynced (clear_dirty idxs s) (save_chunks works s idxs d).0
    unfolding clear_dirty chunk_live
    cleared-IsSynced good =
        let l = AreBlocks-lengths 0 s.chunks s.tomb s.dirty valid.blocks in
        record {
          clean = λ i h. all_written good i (
              omega
                (arith, l.1, in_range (clear_flags idxs s.dirty) i h, length-clear idxs s.dirty));
          no_more = none_past;
        }

    kept-IsSynced : IsSynced s (save_chunks works s idxs d).0
    kept-IsSynced = record {
      clean = λ i h. elim (save_chunks_either works s idxs d i) [
        | inl e ↦ e
        | inr e ↦ e ∙ sync.clean i h
      ];
      no_more = none_past;
    }

    nothing_dirty : dirty_indices (clear_dirty idxs s) ≡ []
    unfolding dirty_indices clear_dirty
    nothing_dirty = all_false 0 (clear_flags idxs s.dirty) λ j.
        clear_flags_at idxs s.dirty j ∙ rw (mem_indices 0 j j s.dirty (omega arith)) (ground arith)

  -- `save` keeps the live elements. If it returns no error, no chunk is dirty, and every file holds
  -- the live elements of its chunk. Whether or not it returns one, a chunk that is not marked dirty
  -- is afterwards the same in its file, if that was so before.
  pub save-IsSynced :
      (works : ℕ → Bool) (s : ChunkStore A) (d : Directory A)
      → IsValid s
      → IsSynced s d
      → IsSynced (save works s d).0 (save works s d).1
        × (range (save works s d).0 ≡ range s)
        × ((save works s d).2 ≡ true
            → (dirty_indices (save works s d).0 ≡ [])
              × ((i : ℕ) → i < length s.chunks → (save works s d).1 i ≡ some (chunk_live s i)))
  unfolding save range clear_dirty
  save-IsSynced works s d valid sync =
      elim (Bool-cases (save_chunks works s (dirty_indices s) d).1) [
        | inl good ↦ rw good (
          cleared-IsSynced works s d valid sync good,
          refl,
          λ _. (nothing_dirty works s d valid sync, all_written works s d valid sync good),
        )
        | inr bad ↦ rw bad (kept-IsSynced works s d valid sync, refl, λ h. absurd (ground arith))
      ]

  pub chunks-save :
      (works : ℕ → Bool) (s : ChunkStore A) (d : Directory A) → (save works s d).0.chunks ≡ s.chunks
  unfolding save clear_dirty
  chunks-save works s d = ground arith
