-- ===== src/ChunkStore/Live.antt =====
-- chunkstore.go: the live elements, as the list that `Range` goes through. It specifies the store:
-- `Append` and `loadChunk` put elements at its end, `DeleteFunc` filters it, `Len` counts it.
use nestory.Common.{
  ℕ, suc, ◌+◌, ◌-◌, ◌≡◌, refl, sym, ap, ◌∙◌, inl, inr, Bool, true, false, ◌||◌, some, List, [], ◌∷◌,
  ◌++◌, map, append-nil, append_assoc, arith, ◌==◌, Bool-cases, length, get_or, length-append,
}
use nestory.ChunkStore.{
  ResourceSlot, ChunkStore, chunk_limit, load_chunk, with_room, append, live_of, range_blocks,
  range, len,
}
use nestory.ChunkStore.Blocks.{
  count_dead, total_dead, total_slots, AreBlocks, Ends, AreBlocks-lengths,
}
use nestory.ChunkStore.Shape.{IsValid, Room, with_room-Room}
use nestory.ChunkStore.Grow.{fresh, grown, append-grown}

module _ {A : Type 0} where
  live_of-snoc :
      (c : List (ResourceSlot A)) (t : List Bool) (s : ResourceSlot A)
      → length t ≡ length c
      → live_of (c ++ s ∷ []) (t ++ false ∷ []) ≡ live_of c t ++ s.item ∷ []
  unfolding live_of
  live_of-snoc [] [] s h = refl
  live_of-snoc [] (b ∷ t) s h = absurd (omega arith)
  live_of-snoc (x ∷ c) [] s h = absurd (omega arith)
  live_of-snoc (x ∷ c) (true ∷ t) s h = live_of-snoc c t s (omega arith)
  live_of-snoc (x ∷ c) (false ∷ t) s h = ap (λ l. x.item ∷ l) (live_of-snoc c t s (omega arith))

  range_blocks-snoc :
      (cs : List (List (ResourceSlot A))) (ts : List (List Bool)) (c : List (ResourceSlot A))
      (t : List Bool)
      → length ts ≡ length cs
      → range_blocks (cs ++ c ∷ []) (ts ++ t ∷ []) ≡ range_blocks cs ts ++ live_of c t
  unfolding range_blocks
  range_blocks-snoc [] [] c t h = append-nil (live_of c t)
  range_blocks-snoc [] (x ∷ ts) c t h = absurd (omega arith)
  range_blocks-snoc (x ∷ cs) [] c t h = absurd (omega arith)
  range_blocks-snoc (x ∷ cs) (y ∷ ts) c t h = rw (
    range_blocks-snoc cs ts c t (omega arith),
    append_assoc (live_of x y) (range_blocks cs ts) (live_of c t),
  )

  pub length-live_of :
      (c : List (ResourceSlot A)) (t : List Bool)
      → length t ≡ length c
      → length (live_of c t) + count_dead t ≡ length c
  unfolding live_of
  length-live_of [] [] h = omega arith
  length-live_of [] (b ∷ t) h = absurd (omega arith)
  length-live_of (x ∷ c) [] h = absurd (omega arith)
  length-live_of (x ∷ c) (true ∷ t) h = omega (arith, length-live_of c t)
  length-live_of (x ∷ c) (false ∷ t) h = omega (arith, length-live_of c t)

  length-range_blocks :
      (i : ℕ) (cs : List (List (ResourceSlot A))) (ts : List (List Bool)) (ds : List Bool)
      → AreBlocks i cs ts ds
      → length (range_blocks cs ts) + total_dead ts ≡ total_slots cs
  unfolding range_blocks
  length-range_blocks i [] [] [] h = omega arith
  length-range_blocks i [] [] (d ∷ ds) h = elim h [ ]
  length-range_blocks i [] (t ∷ ts) ds h = elim h [ ]
  length-range_blocks i (c ∷ cs) [] ds h = elim h [ ]
  length-range_blocks i (c ∷ cs) (t ∷ ts) [] h = elim h [ ]
  length-range_blocks i (c ∷ cs) (t ∷ ts) (d ∷ ds) h = omega (
    arith,
    length-append {0} (live_of c t) (range_blocks cs ts),
    length-live_of c t h.0.flags,
    length-range_blocks (suc i) cs ts ds h.1,
  )

  -- `Len` is the number of elements that `Range` goes through, in a store that keeps the invariant.
  pub len-eq-length-range : (s : ChunkStore A) → IsValid s → len s ≡ length (range s)
  unfolding len range
  len-eq-length-range s v =
      omega (arith, v.counted, v.buried, length-range_blocks 0 s.chunks s.tomb s.dirty v.blocks)

  range-with_room : (s : ChunkStore A) → IsValid s → range (with_room s) ≡ range s
  unfolding range with_room
  range-with_room s v =
      let l = AreBlocks-lengths 0 s.chunks s.tomb s.dirty v.blocks in
      elim (Bool-cases (
        length s.chunks == 0 || length (get_or s.chunks (length s.chunks - 1) []) == chunk_limit)) [
          | inl full ↦ rw full (
              range_blocks-snoc s.chunks s.tomb [] [] l.0
              ∙ unfold live_of in append-nil (range_blocks s.chunks s.tomb))
          | inr roomy ↦ rw roomy
        ]

  range-Ends :
      (s : ChunkStore A) (e : Ends 0 s.chunks s.tomb s.dirty)
      → range s ≡ range_blocks e.front e.tomb_front ++ live_of e.last e.tomb_last
  unfolding range
  range-Ends s e =
      let l = AreBlocks-lengths 0 e.front e.tomb_front e.dirty_front e.before in
      rw (e.chunks, e.tomb) (range_blocks-snoc e.front e.tomb_front e.last e.tomb_last l.0)

  range-grown : (v : A) (s : ChunkStore A) (r : Room s) → range (grown v s r).0 ≡ range s ++ v ∷ []
  unfolding range
  range-grown v s (e, room) =
      let l = AreBlocks-lengths 0 e.front e.tomb_front e.dirty_front e.before in
      let front = range_blocks e.front e.tomb_front in
      range_blocks-snoc e.front e.tomb_front (e.last ++ fresh v (length e.front) ∷ [])
        (e.tomb_last ++ false ∷ []) l.0
      ∙ ap (λ t. front ++ t)
          (live_of-snoc e.last e.tomb_last (fresh v (length e.front)) e.at_end.flags)
      ∙ sym (append_assoc front (live_of e.last e.tomb_last) (v ∷ []))
      ∙ ap (λ t. t ++ v ∷ []) (sym (range-Ends s e))

  -- After `Append` the live elements are those of before and the new one behind them.
  pub range-append :
      (v : A) (s : ChunkStore A) → IsValid s → range (append v s).0 ≡ range s ++ v ∷ []
  range-append v s valid =
      ap (λ p. range p.0) (append-grown v s valid)
      ∙ range-grown v (with_room s) (with_room-Room s valid)
      ∙ ap (λ l. l ++ v ∷ []) (range-with_room s valid)

  live_of-loaded :
      (i : ℕ) (vals : List A) → live_of (map (λ v. fresh v i) vals) (map (λ _. false) vals) ≡ vals
  unfolding live_of
  live_of-loaded i [] = refl
  live_of-loaded i (v ∷ vals) = ap (λ l. v ∷ l) (live_of-loaded i vals)

  -- After `loadChunk` the live elements are those of before and the loaded ones behind them.
  pub range-load_chunk :
      (vals : List A) (s s' : ChunkStore A)
      → IsValid s
      → load_chunk vals s ≡ some s'
      → range s' ≡ range s ++ vals
  unfolding load_chunk range
  range-load_chunk vals s s' valid h =
      let l = AreBlocks-lengths 0 s.chunks s.tomb s.dirty valid.blocks in
      let slots = map (λ v. fresh v (length s.chunks)) vals in
      let flags = map (λ (_ : A). false) vals in
      let c : s'.chunks ≡ s.chunks ++ slots ∷ [] = ground arith in
      let t : s'.tomb ≡ s.tomb ++ flags ∷ [] = ground arith in
      rw (
        c,
        t,
        range_blocks-snoc s.chunks s.tomb slots flags l.0,
        live_of-loaded (length s.chunks) vals,
      )
