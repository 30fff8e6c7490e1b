-- ===== src/Storage/Sync.antt =====
-- storage.go and chunkstore.go: the dirty flags. A chunk that is not marked is the same in its file.
use nestory.Common.{
  ℕ, zero, suc, ◌-◌, ◌≤◌, ◌<◌, ◌≡◌, refl, sym, ap, ◌∙◌, subst, inl, inr, Bool, true, false, ◌||◌,
  not, none, some, List, [], ◌∷◌, ◌++◌, arith, ◌==◌, Bool-cases, length, get_elem?, get_or, select,
}
use nestory.ChunkStore.{
  ResourceSlot, ChunkStore, chunk_live, append, delete_func, bury, bury_all, touched, live_of,
  with_room, chunk_limit,
}
use nestory.ChunkStore.Blocks.{AreBlocks, AreBlocks-lengths, length-snoc}
use nestory.ChunkStore.Shape.{IsValid, Room, with_room-Room}
use nestory.ChunkStore.Grow.{fresh, grown, append-grown}
use nestory.ChunkStore.Delete.{bury-live}
use nestory.Storage.{Directory}

get_or-append :
    {B : Type 0} (xs ys : List B) (i : ℕ) (e : B)
    → i < length xs
    → get_or (xs ++ ys) i e ≡ get_or xs i e
get_or-append [] ys i e h = absurd (omega arith)
get_or-append (x ∷ xs) ys zero e h = refl
get_or-append (x ∷ xs) ys (suc i) e h = get_or-append xs ys i e (omega arith)

get_elem?-before :
    {B : Type 0} (xs ys : List B) (i : ℕ) → i < length xs → get_elem? (xs ++ ys) i ≡ get_elem? xs i
get_elem?-before [] ys i h = absurd (omega arith)
get_elem?-before (x ∷ xs) ys zero h = refl
get_elem?-before (x ∷ xs) ys (suc i) h = get_elem?-before xs ys i (omega arith)

-- with a last flag that is set, an entry that is false stands before it
before_last :
    (ds : List Bool) (i : ℕ)
    → get_elem? (ds ++ true ∷ []) i ≡ some false
    → (i < length ds) × (get_elem? ds i ≡ some false)
before_last [] zero h = absurd (ground arith)
before_last [] (suc i) h = absurd (ground arith)
before_last (d ∷ ds) zero h = (omega arith, h)
before_last (d ∷ ds) (suc i) h = let ih = before_last ds i h in (omega (arith, ih.0), ih.1)

some_injective : {x y : Bool} → some x ≡ some y → x ≡ y
some_injective h = ground arith

module _ {A : Type 0} where
  -- a chunk that is not marked dirty is what its file holds, and there are no other files
  pub record IsSynced (s : ChunkStore A) (d : Directory A) : Type 0 where
    pub clean : (i : ℕ) → get_elem? s.dirty i ≡ some false → d i ≡ some (chunk_live s i)
    pub no_more : (i : ℕ) → length s.chunks ≤ i → d i ≡ none

  -- the same, but for the last chunk
  record IsSyncedBefore (s : ChunkStore A) (d : Directory A) : Type 0 where
    clean :
        (i : ℕ)
        → suc i < length s.chunks
        → get_elem? s.dirty i ≡ some false
        → d i ≡ some (chunk_live s i)
    no_more : (i : ℕ) → length s.chunks ≤ i → d i ≡ none

  with_room-IsSyncedBefore :
      (s : ChunkStore A) (d : Directory A)
      → IsValid s
      → IsSynced s d
      → IsSyncedBefore (with_room s) d
  unfolding with_room chunk_live
  with_room-IsSyncedBefore s d valid sync =
      let l = AreBlocks-lengths 0 s.chunks s.tomb s.dirty valid.blocks in
      elim (Bool-cases (
        length s.chunks == 0 || length (get_or s.chunks (length s.chunks - 1) []) == chunk_limit)) [
          | inl full ↦ rw full (record {
            clean = λ i lt h.
                let old : i < length s.chunks = omega (arith, length-snoc {0} s.chunks []) in
                sync.clean i (sym (get_elem?-before s.dirty (false ∷ []) i (omega arith)) ∙ h)
                ∙ ap some (
                    rw (
                      get_or-append s.chunks ([] ∷ []) i [] old,
                      get_or-append s.tomb ([] ∷ []) i [] (omega arith),
                    ));
            no_more = λ i h. sync.no_more i (omega (arith, length-snoc {0} s.chunks []));
          })
          | inr roomy ↦
              rw roomy (record { clean = λ i _ h. sync.clean i h; no_more = sync.no_more })
        ]

  grown-IsSynced :
      (v : A) (s : ChunkStore A) (d : Directory A) (r : Room s)
      → IsSyncedBefore s d
      → IsSynced (grown v s r).0 d
  unfolding chunk_live
  grown-IsSynced v s d (e, room) sync =
      let l = AreBlocks-lengths 0 e.front e.tomb_front e.dirty_front e.before in
      let block = e.last ++ fresh v (length e.front) ∷ [] in
      let flags = e.tomb_last ++ false ∷ [] in
      let size : length s.chunks ≡ suc (length e.front) =
        ap length e.chunks ∙ length-snoc e.front e.last in
      record {
        clean = λ i h.
            let (lt, was) = before_last e.dirty_front i h in
            let old : get_elem? s.dirty i ≡ some false =
              ap (λ ds. get_elem? ds i) e.dirty
              ∙ get_elem?-before e.dirty_front (e.dirty_last ∷ []) i lt
              ∙ was in
            let c : get_or s.chunks i [] ≡ get_or e.front i [] =
              ap (λ cs. get_or cs i []) e.chunks
              ∙ get_or-append e.front (e.last ∷ []) i [] (omega arith) in
            let t : get_or s.tomb i [] ≡ get_or e.tomb_front i [] =
              ap (λ ts. get_or ts i []) e.tomb
              ∙ get_or-append e.tomb_front (e.tomb_last ∷ []) i [] (omega arith) in
            sync.clean i (omega arith) old
            ∙ ap some (
                rw (
                  c,
                  t,
                  get_or-append e.front (block ∷ []) i [] (omega arith),
                  get_or-append e.tomb_front (flags ∷ []) i [] (omega arith),
                ));
        no_more = λ i h. sync.no_more i (omega (arith, length-snoc {0} e.front block));
      }

  -- `Append` marks the chunk that it changes.
  pub append-IsSynced :
      (v : A) (s : ChunkStore A) (d : Directory A)
      → IsValid s
      → IsSynced s d
      → IsSynced (append v s).0 d
  append-IsSynced v s d valid sync =
      subst (λ p. IsSynced p.0 d) (sym (append-grown v s valid))
        (grown-IsSynced v (with_room s) d (with_room-Room s valid)
          (with_room-IsSyncedBefore s d valid sync))

  select_keep_all :
      (pred : A → Bool) (xs : List A) → select pred xs ≡ [] → select (λ x. not (pred x)) xs ≡ xs
  select_keep_all pred [] h = refl
  select_keep_all pred (x ∷ xs) h = elim (Bool-cases (pred x)) [
    | inl doomed ↦ absurd (ground arith)
    | inr stays ↦ rw stays (ap (λ l. x ∷ l) (select_keep_all pred xs (rw stays at h)))
  ]

  touched-false : (xs : List A) (d : Bool) → touched xs d ≡ false → (xs ≡ []) × (d ≡ false)
  unfolding touched
  touched-false [] d h = (refl, h)
  touched-false (x ∷ xs) d h = absurd (ground arith)

  -- a chunk that `DeleteFunc` leaves unmarked was unmarked, and lost nothing
  bury_all-clean :
      (pred : A → Bool) (i j : ℕ) (cs : List (List (ResourceSlot A))) (ts : List (List Bool))
      (ds : List Bool)
      → AreBlocks i cs ts ds
      → get_elem? (bury_all pred cs ts ds).1 j ≡ some false
      → (get_elem? ds j ≡ some false)
        × (live_of (get_or cs j []) (get_or (bury_all pred cs ts ds).0 j [])
            ≡ live_of (get_or cs j []) (get_or ts j []))
  unfolding bury_all touched
  bury_all-clean pred i j [] [] [] h e = absurd (ground arith)
  bury_all-clean pred i j [] [] (d ∷ ds) h e = elim h [ ]
  bury_all-clean pred i j [] (t ∷ ts) ds h e = elim h [ ]
  bury_all-clean pred i j (c ∷ cs) [] ds h e = elim h [ ]
  bury_all-clean pred i j (c ∷ cs) (t ∷ ts) [] h e = elim h [ ]
  bury_all-clean pred i (suc j) (c ∷ cs) (t ∷ ts) (d ∷ ds) h e =
      bury_all-clean pred (suc i) j cs ts ds h.1 e
  bury_all-clean pred i zero (c ∷ cs) (t ∷ ts) (d ∷ ds) h e =
      let here = bury-live pred c t h.0.flags in
      let (lost, was) = touched-false (bury pred c t).1 d (some_injective e) in
      (ap some was, here.0 ∙ select_keep_all pred (live_of c t) (sym here.1 ∙ lost))

  -- `DeleteFunc` on a valid store marks every chunk that it changes: if every clean chunk was the
  -- same in its file, that is so afterwards.
  pub delete_func-IsSynced :
      (pred : A → Bool) (s : ChunkStore A) (d : Directory A)
      → IsValid s
      → IsSynced s d
      → IsSynced (delete_func pred s).0 d
  unfolding delete_func chunk_live
  delete_func-IsSynced pred s d valid sync = record {
    clean = λ i h.
        let (was, same) = bury_all-clean pred 0 i s.chunks s.tomb s.dirty valid.blocks h in
        sync.clean i was ∙ ap some (sym same);
    no_more = sync.no_more;
  }
