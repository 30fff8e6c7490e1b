-- ===== src/ChunkStore/Grow.antt =====
-- chunkstore.go: `Append` as a step on the last block, and what it and `loadChunk` keep.
use nestory.Common.{
  lt→leb, ℕ, ◌+◌, ◌-◌, ◌<◌, ◌≡◌, refl, sym, ap, ◌∙◌, subst, inl, inr, Bool, true, false, some, List,
  [], ◌∷◌, ◌++◌, map, arith, ltb, ltb→ge, tests, Bool-cases, length, set, get_or, length-map, All,
  All-append, All-map,
}
use nestory.ChunkStore.{
  ResourceSlot, ChunkStore, Address, chunk_limit, load_chunk, with_room, push_last, append,
}
use nestory.ChunkStore.Blocks.{
  length-snoc, get_or-snoc, set-snoc, count_dead, total_dead, total_dead-append, count_dead-append,
  total_slots, total_slots-append, AreBlocks-snoc, AreBlocks-lengths,
}
use nestory.ChunkStore.Shape.{IsValid, Room, with_room-IsValid, with_room-Room}

module _ {A : Type 0} where
  abbrev pub fresh : A → ℕ → ResourceSlot A
  fresh v i = record { item = v; version = 0; chunk = i }

  -- what the second step makes of the arrays
  abbrev pub pushed :
      A
      → List (List (ResourceSlot A))
      → List (ResourceSlot A)
      → List (List Bool)
      → List Bool
      → List Bool
      → ℕ
      → ℕ
      → ChunkStore A × Address
  pushed v front last tf tl df n dead = (
    record {
      chunks = front ++ (last ++ fresh v (length front) ∷ []) ∷ [];
      tomb = tf ++ (tl ++ false ∷ []) ∷ [];
      n = n + 1;
      dead = dead;
      dirty = df ++ true ∷ [];
    },
    (length front, length last),
  )

  push_last-snoc :
      (v : A) (front : List (List (ResourceSlot A))) (last : List (ResourceSlot A))
      (tf : List (List Bool)) (tl df : List Bool) (dl : Bool) (n dead : ℕ)
      → length tf ≡ length front
      → length df ≡ length front
      → length tl ≡ length last
      → length last < chunk_limit
      → push_last v (record {
        chunks = front ++ last ∷ [];
        tomb = tf ++ tl ∷ [];
        n = n;
        dead = dead;
        dirty = df ++ dl ∷ [];
      })
        ≡ pushed v front last tf tl df n dead
  unfolding push_last
  push_last-snoc v front last tf tl df dl n dead et ed el room =
      let ci : length (front ++ last ∷ []) - 1 ≡ length front =
        omega (arith, length-snoc {0} front last) in
      let one_less : length (last ++ fresh v (length front) ∷ []) - 1 ≡ length last =
        omega (arith, length-snoc {0} last (fresh v (length front))) in
      let at_tomb : get_or (tf ++ tl ∷ []) (length front) [] ≡ tl =
        rw (← et) (get_or-snoc tf tl []) in
      let set_tomb : (x : List Bool) → set (tf ++ tl ∷ []) (length front) x ≡ tf ++ x ∷ [] =
        λ x. rw (← et) (set-snoc tf tl x) in
      let set_dirty : set (df ++ dl ∷ []) (length front) true ≡ df ++ true ∷ [] =
        rw (← ed) (set-snoc df dl true) in
      rw (
        ci,
        get_or-snoc front last [],
        at_tomb,
        lt→leb chunk_limit (length last) room,
        el,
        lt→leb chunk_limit (length last) room,
        set-snoc front last (last ++ fresh v (length front) ∷ []),
        set_tomb (tl ++ false ∷ []),
        set_dirty,
        one_less,
      )

  pub push_last-ends :
      (v : A) (s : ChunkStore A) (r : Room s)
      → push_last v s
        ≡ pushed v r.0.front r.0.last r.0.tomb_front r.0.tomb_last r.0.dirty_front s.n s.dead
  push_last-ends v s (e, room) =
      let lengths = AreBlocks-lengths 0 e.front e.tomb_front e.dirty_front e.before in
      ap (push_last v) (λ i. record {
        chunks = e.chunks i;
        tomb = e.tomb i;
        n = s.n;
        dead = s.dead;
        dirty = e.dirty i;
      })
      ∙ push_last-snoc v e.front e.last e.tomb_front e.tomb_last e.dirty_front e.dirty_last s.n
          s.dead lengths.0 lengths.1 e.at_end.flags room

  pushed-IsValid :
      (v : A) (s : ChunkStore A) (r : Room s)
      → IsValid s
      → IsValid
          (pushed v r.0.front r.0.last r.0.tomb_front r.0.tomb_last r.0.dirty_front s.n s.dead).0
  pushed-IsValid v s (e, room) valid = record {
    blocks =
        AreBlocks-snoc 0 (length e.front) e.front e.tomb_front e.dirty_front
          (e.last ++ fresh v (length e.front) ∷ []) (e.tomb_last ++ false ∷ []) true e.before
          (omega arith)
          (record {
            flags = omega (
              arith,
              e.at_end.flags,
              length-snoc {0} e.last (fresh v (length e.front)),
              length-snoc {0} e.tomb_last false,
            );
            fits = omega (arith, room, length-snoc {0} e.last (fresh v (length e.front)));
            owned =
                All-append (λ (x : ResourceSlot A). x.chunk ≡ length e.front) e.last
                  (fresh v (length e.front) ∷ [])
                  (All-map e.last (λ x p. p ∙ omega (arith, e.index_eq)) e.at_end.owned) (refl, tt);
          });
    counted = omega (
      arith,
      valid.counted,
      ap total_slots e.chunks,
      total_slots-append e.front (e.last ∷ []),
      total_slots-append e.front ((e.last ++ fresh v (length e.front) ∷ []) ∷ []),
      length-snoc {0} e.last (fresh v (length e.front)),
    );
    buried = omega (
      arith,
      valid.buried,
      ap total_dead e.tomb,
      total_dead-append e.tomb_front (e.tomb_last ∷ []),
      total_dead-append e.tomb_front ((e.tomb_last ++ false ∷ []) ∷ []),
      count_dead-append e.tomb_last (false ∷ []),
    );
  }

  abbrev pub grown : A → (s : ChunkStore A) → Room s → ChunkStore A × Address
  grown v s r = pushed v r.0.front r.0.last r.0.tomb_front r.0.tomb_last r.0.dirty_front s.n s.dead

  pub append-grown :
      (v : A) (s : ChunkStore A) (valid : IsValid s)
      → append v s ≡ grown v (with_room s) (with_room-Room s valid)
  unfolding append
  append-grown v s valid = push_last-ends v (with_room s) (with_room-Room s valid)

  pub append-IsValid : (v : A) (s : ChunkStore A) → IsValid s → IsValid (append v s).0
  append-IsValid v s valid =
      subst (λ p. IsValid p.0) (sym (append-grown v s valid))
        (pushed-IsValid v (with_room s) (with_room-Room s valid) (with_room-IsValid s valid))

  loaded_slots :
      (i : ℕ) (vals : List A)
      → All (λ (x : ResourceSlot A). x.chunk ≡ i) (map (λ v. fresh v i) vals)
  loaded_slots i [] = tt
  loaded_slots i (v ∷ vals) = (refl, loaded_slots i vals)

  no_dead : (vals : List A) → count_dead (map (λ _. false) vals) ≡ 0
  no_dead [] = refl
  no_dead (v ∷ vals) = no_dead vals

  pub load_chunk-IsValid :
      (vals : List A) (s s' : ChunkStore A) → IsValid s → load_chunk vals s ≡ some s' → IsValid s'
  unfolding load_chunk
  load_chunk-IsValid vals s s' valid h = elim (Bool-cases (ltb chunk_limit (length vals))) [
    | inl large ↦ absurd (ground arith)
    | inr fits ↦
        let slots = map (λ v. fresh v (length s.chunks)) vals in
        let flags = map (λ (_ : A). false) vals in
        let n : length slots ≡ length vals = length-map (λ v. fresh v (length s.chunks)) vals in
        let m : length flags ≡ length vals = length-map (λ _. false) vals in
        let loaded : IsValid (record {
          chunks = s.chunks ++ slots ∷ [];
          tomb = s.tomb ++ flags ∷ [];
          n = s.n + length vals;
          dead = s.dead;
          dirty = s.dirty ++ false ∷ [];
        }) =
          record {
            blocks =
                AreBlocks-snoc 0 (length s.chunks) s.chunks s.tomb s.dirty slots flags false
                  valid.blocks (omega arith)
                  (record {
                    flags = omega arith;
                    fits = omega (tests, ltb→ge chunk_limit (length vals) fits);
                    owned = loaded_slots (length s.chunks) vals;
                  });
            counted = omega (arith, valid.counted, total_slots-append s.chunks (slots ∷ []));
            buried =
                omega (arith, valid.buried, total_dead-append s.tomb (flags ∷ []), no_dead vals);
          } in
        subst IsValid (ground arith) loaded
  ]
