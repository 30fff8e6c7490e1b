-- ===== src/ChunkStore/Stable.antt =====
-- chunkstore.go: an address that was handed out leads to its slot for the life of the store.
use nestory.Common.{
  length-map, ◌∙◌, length-set, false, true, arith, set, map, ℕ, zero, suc, ◌-◌, ◌≡◌, refl, sym,
  subst, inl, inr, Bool, ◌||◌, Option, some, List, [], ◌∷◌, ◌++◌, ◌==◌, Bool-cases, length,
  get_elem?, get_or,
}
use nestory.ChunkStore.{
  clear_flags, len, range, delete_func, mark_dirty, mark_all_dirty, clear_dirty, new_chunk_store,
  ResourceSlot, ChunkStore, Address, chunk_limit, load_chunk, with_room, append, slot_at,
}
use nestory.ChunkStore.Blocks.{AreBlocks-dirty, get_or-snoc}
use nestory.ChunkStore.Shape.{IsValid, Room, with_room-Room}
use nestory.ChunkStore.Grow.{append-IsValid, load_chunk-IsValid, fresh, grown, append-grown}
use nestory.ChunkStore.Live.{len-eq-length-range}
use nestory.ChunkStore.Delete.{delete_func-partition}

get_elem?-append {ℓ} :
    {A : Type ℓ} (xs ys : List A) (i : ℕ) (x : A)
    → get_elem? xs i ≡ some x
    → get_elem? (xs ++ ys) i ≡ some x
get_elem?-append [] ys i x h = cc
get_elem?-append (y ∷ xs) ys zero x h = h
get_elem?-append (y ∷ xs) ys (suc i) x h = get_elem?-append xs ys i x h

get_elem?-snoc {ℓ} :
    {A : Type ℓ} (xs : List A) (y : A) → get_elem? (xs ++ y ∷ []) (length xs) ≡ some y
get_elem?-snoc [] y = refl
get_elem?-snoc (x ∷ xs) y = get_elem?-snoc xs y

length-clear_flags : (idxs : List ℕ) (ds : List Bool) → length (clear_flags idxs ds) ≡ length ds
unfolding clear_flags
length-clear_flags [] ds = refl
length-clear_flags (i ∷ idxs) ds = length-clear_flags idxs (set ds i false) ∙ length-set ds i false

module _ {A : Type 0} where
  -- every slot that `s` has is there, unchanged, in `t`
  abbrev pub Extends : ChunkStore A → ChunkStore A → Type 0
  Extends s t = (a : Address) (x : ResourceSlot A) → slot_at s a ≡ some x → slot_at t a ≡ some x

  -- the slot at (c, o) of some blocks
  abbrev at : List (List (ResourceSlot A)) → ℕ → ℕ → Option (ResourceSlot A)
  at cs c o = get_elem? (get_or cs c []) o

  at-append :
      (cs more : List (List (ResourceSlot A))) (c o : ℕ) (x : ResourceSlot A)
      → at cs c o ≡ some x
      → at (cs ++ more) c o ≡ some x
  at-append [] more c o x h = cc
  at-append (y ∷ cs) more zero o x h = h
  at-append (y ∷ cs) more (suc c) o x h = at-append cs more c o x h

  at-last :
      (cs : List (List (ResourceSlot A))) (b more : List (ResourceSlot A)) (c o : ℕ)
      (x : ResourceSlot A)
      → at (cs ++ b ∷ []) c o ≡ some x
      → at (cs ++ (b ++ more) ∷ []) c o ≡ some x
  at-last [] b more zero o x h = get_elem?-append b more o x h
  at-last [] b more (suc c) o x h = cc
  at-last (y ∷ cs) b more zero o x h = h
  at-last (y ∷ cs) b more (suc c) o x h = at-last cs b more c o x h

  with_room-Extends : (s : ChunkStore A) → Extends s (with_room s)
  unfolding with_room slot_at
  with_room-Extends s (c, o) x h =
      elim (Bool-cases (
        length s.chunks == 0 || length (get_or s.chunks (length s.chunks - 1) []) == chunk_limit)) [
          | inl full ↦ rw full (at-append s.chunks ([] ∷ []) c o x h)
          | inr roomy ↦ rw roomy h
        ]

  grown-Extends : (v : A) (s : ChunkStore A) (r : Room s) → Extends s (grown v s r).0
  unfolding slot_at
  grown-Extends v s (e, room) (c, o) x h =
      at-last e.front e.last (fresh v (length e.front) ∷ []) c o x (rw e.chunks at h)

  grown_at :
      (v : A) (s : ChunkStore A) (r : Room s)
      → slot_at (grown v s r).0 (grown v s r).1 ≡ some (fresh v (grown v s r).1.0)
  unfolding slot_at
  grown_at v s (e, room) =
      rw (get_or-snoc e.front (e.last ++ fresh v (length e.front) ∷ []) [])
        (get_elem?-snoc e.last (fresh v (length e.front)))

  -- `Append` returns an address that leads to a slot with the element, at version 0, and leaves
  -- every slot that was there where it was.
  pub append-address :
      (v : A) (s : ChunkStore A)
      → IsValid s
      → Extends s (append v s).0
        × (slot_at (append v s).0 (append v s).1 ≡ some (fresh v (append v s).1.0))
  append-address v s valid =
      let r = with_room-Room s valid in
      subst (λ p. Extends s p.0 × (slot_at p.0 p.1 ≡ some (fresh v p.1.0)))
        (sym (append-grown v s valid))
        (
          (λ a x h. grown-Extends v (with_room s) r a x (with_room-Extends s a x h)),
          grown_at v (with_room s) r,
        )

  -- the operations of the store
  pub data Step (s : ChunkStore A) : ChunkStore A → Type 0 where
    appended : (v : A) → Step s (append v s).0
    loaded : (vals : List A) (t : ChunkStore A) → load_chunk vals s ≡ some t → Step s t
    deleted : (pred : A → Bool) → Step s (delete_func pred s).0
    marked : (ci : ℕ) → Step s (mark_dirty ci s)
    all_marked : Step s (mark_all_dirty s)
    cleared : (idxs : List ℕ) → Step s (clear_dirty idxs s)

  pub data Reach (s : ChunkStore A) : ChunkStore A → Type 0 where
    here : Reach s s
    next : {t u : ChunkStore A} → Reach s t → Step t u → Reach s u

  flags-IsValid :
      (s : ChunkStore A) (es : List Bool)
      → IsValid s
      → length es ≡ length s.dirty
      → IsValid (record s { dirty = es })
  flags-IsValid s es v e = record {
    blocks = AreBlocks-dirty 0 s.chunks s.tomb s.dirty es v.blocks e;
    counted = v.counted;
    buried = v.buried;
  }

  Step-IsValid : {s t : ChunkStore A} → Step s t → IsValid s → IsValid t
  unfolding mark_dirty mark_all_dirty clear_dirty
  Step-IsValid {s} (appended v) h = append-IsValid v s h
  Step-IsValid {s} (loaded vals t e) h = load_chunk-IsValid vals s t h e
  Step-IsValid {s} (deleted pred) h = (delete_func-partition pred s h).2
  Step-IsValid {s} (marked ci) h =
      flags-IsValid s (set s.dirty ci true) h (length-set s.dirty ci true)
  Step-IsValid {s} all_marked h =
      flags-IsValid s (map (λ _. true) s.dirty) h (length-map (λ _. true) s.dirty)
  Step-IsValid {s} (cleared idxs) h =
      flags-IsValid s (clear_flags idxs s.dirty) h (length-clear_flags idxs s.dirty)

  load_chunk-Extends :
      (vals : List A) (s t : ChunkStore A) → load_chunk vals s ≡ some t → Extends s t
  unfolding load_chunk slot_at
  load_chunk-Extends vals s t e (c, o) x h =
      let slots = map (λ v. fresh v (length s.chunks)) vals in
      let now : t.chunks ≡ s.chunks ++ slots ∷ [] = ground arith in
      rw now (at-append s.chunks (slots ∷ []) c o x h)

  Step-Extends : {s t : ChunkStore A} → Step s t → IsValid s → Extends s t
  unfolding mark_dirty mark_all_dirty clear_dirty delete_func slot_at
  Step-Extends {s} (appended v) h = (append-address v s h).0
  Step-Extends {s} (loaded vals t e) h = load_chunk-Extends vals s t e
  Step-Extends (deleted pred) h = λ (c, o) x p. p
  Step-Extends (marked ci) h = λ (c, o) x p. p
  Step-Extends all_marked h = λ (c, o) x p. p
  Step-Extends (cleared idxs) h = λ (c, o) x p. p

  Reach-keeps : {s t : ChunkStore A} → Reach s t → IsValid s → IsValid t × Extends s t
  Reach-keeps here h = (h, λ a x p. p)
  Reach-keeps (next r st) h =
      let (valid, same) = Reach-keeps r h in
      (Step-IsValid st valid, λ a x p. Step-Extends st valid a x (same a x p))

  pub new-IsValid : IsValid {A = A} new_chunk_store
  new-IsValid = record { blocks = tt; counted = refl; buried = refl }

  -- Whatever operations are applied to an empty store and in whatever order, the invariant holds,
  -- `Len` counts what `Range` goes through, and an address that led to a slot at some point leads to
  -- that slot at every later one, also after the element was deleted.
  pub Reach-stable :
      (s t : ChunkStore A)
      → Reach new_chunk_store s
      → Reach s t
      → IsValid t × (len t ≡ length (range t)) × Extends s t
  Reach-stable s t start r =
      let valid = (Reach-keeps start new-IsValid).0 in
      let (later, same) = Reach-keeps r valid in (later, len-eq-length-range t later, same)
