-- ===== src/ChunkStore/Shape.antt =====
-- chunkstore.go: the invariant of the store, and the block that `Append` makes when the last is full.
use nestory.Common.{
  ◌-◌, ◌<◌, ◌≡◌, refl, ap, inl, inr, false, ◌||◌, List, [], ◌∷◌, ◌++◌, arith, ◌==◌, Bool-cases,
  length, get_or,
}
use nestory.ChunkStore.{ResourceSlot, ChunkStore, chunk_limit, with_room}
use nestory.ChunkStore.Blocks.{
  length-snoc, get_or-snoc, total_dead, total_dead-append, total_slots, total_slots-append, IsBlock,
  AreBlocks, Ends, AreBlocks-Ends, AreBlocks-snoc,
}

module _ {A : Type 0} where
  -- the arrays have one shape, and the two counters count them
  pub record IsValid (s : ChunkStore A) : Type 0 where
    pub blocks : AreBlocks 0 s.chunks s.tomb s.dirty
    pub counted : s.n ≡ total_slots s.chunks
    pub buried : s.dead ≡ total_dead s.tomb

  -- the last block has room
  abbrev pub Room : ChunkStore A → Type 0
  Room s = (e : Ends 0 s.chunks s.tomb s.dirty) × (length e.last < chunk_limit)

  pub with_room-IsValid : (s : ChunkStore A) → IsValid s → IsValid (with_room s)
  unfolding with_room
  with_room-IsValid s v =
      let empty : IsBlock {A = A} (length s.chunks) [] [] = record {
        flags = refl;
        fits = omega arith;
        owned = tt;
      } in
      let grown : AreBlocks 0 (s.chunks ++ [] ∷ []) (s.tomb ++ [] ∷ []) (s.dirty ++ false ∷ []) =
        AreBlocks-snoc 0 (length s.chunks) s.chunks s.tomb s.dirty [] [] false v.blocks
          (omega arith) empty in
      elim (Bool-cases (
        length s.chunks == 0 || length (get_or s.chunks (length s.chunks - 1) []) == chunk_limit)) [
          | inl full ↦ rw full (record {
            blocks = grown;
            counted = omega (arith, v.counted, total_slots-append s.chunks ([] ∷ []));
            buried = omega (arith, v.buried, total_dead-append s.tomb ([] ∷ []));
          })
          | inr roomy ↦ rw roomy v
        ]

  last_block :
      (xs front : List (List (ResourceSlot A))) (last : List (ResourceSlot A))
      → xs ≡ front ++ last ∷ []
      → (length xs - 1 ≡ length front) × (get_or xs (length xs - 1) [] ≡ last)
  last_block xs front last e =
      let n : length xs - 1 ≡ length front =
        omega (arith, ap length e, length-snoc {0} front last) in
      (n, rw (n, e) (get_or-snoc front last []))

  pub with_room-Room : (s : ChunkStore A) → IsValid s → Room (with_room s)
  unfolding with_room
  with_room-Room s v =
      elim (Bool-cases (
        length s.chunks == 0 || length (get_or s.chunks (length s.chunks - 1) []) == chunk_limit)) [
          | inl full ↦ rw full (
            record {
              front = s.chunks;
              last = [];
              tomb_front = s.tomb;
              tomb_last = [];
              dirty_front = s.dirty;
              dirty_last = false;
              index = length s.chunks;
              chunks = refl;
              tomb = refl;
              dirty = refl;
              before = v.blocks;
              index_eq = omega arith;
              at_end = record { flags = refl; fits = omega arith; owned = tt };
            },
            omega arith,
          )
          | inr roomy ↦
              let some_blocks : 0 < length s.chunks = ground arith in
              let e = AreBlocks-Ends 0 s.chunks s.tomb s.dirty v.blocks some_blocks in
              let (_, at_last) = last_block s.chunks e.front e.last e.chunks in
              let not_full : (length e.last == chunk_limit) ≡ false =
                rw (← at_last) (ground arith) in
              rw roomy (e, ground (arith, e.at_end.fits))
        ]
