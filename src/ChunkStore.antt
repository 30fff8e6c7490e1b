-- ===== src/ChunkStore.antt =====
-- chunkstore.go: the arena of fixed-capacity blocks, with tombstones and dirty flags. A block is the
-- list of its first `n` elements. An address, the number of a block and an offset in it, stands for
-- the pointer to a slot, and for the pointer to the entity, which the slot never changes. The
-- mutexes are left out: each operation is one step.
pub mod Blocks
pub mod Shape
pub mod Grow
pub mod Live
pub mod Delete
pub mod Stable
use nestory.Common.{
  ℕ, ◌+◌, ◌-◌, Bool, true, false, ◌||◌, not, Option, none, some, List, [], ◌∷◌, ◌++◌, map, ltb, leb,
  ◌==◌, if◌then◌else◌, length, get_elem?, set, get_or,
}

abbrev pub chunk_limit : ℕ
chunk_limit = 512

pub record ResourceSlot (A : Type 0) : Type 0 where
  pub item : A
  pub version : ℕ
  pub chunk : ℕ

abbrev pub ChunkBlock : Type 0 → Type 0
ChunkBlock A = List A

pub record ChunkStore (A : Type 0) : Type 0 where
  pub chunks : List (ChunkBlock (ResourceSlot A))
  pub tomb : List (ChunkBlock Bool)
  pub n : ℕ
  pub dead : ℕ
  pub dirty : List Bool

abbrev pub Address : Type 0
Address = ℕ × ℕ

-- a full block stays as it is, and the result says so
unfoldable pub push : {A : Type 0} → A → ChunkBlock A → ChunkBlock A × Bool
push v block = if leb chunk_limit (length block) then (block, false) else (block ++ v ∷ [], true)

-- the loop of `dirtyIndices` over the flags from the i-th on
unfoldable pub indices_from : ℕ → List Bool → List ℕ
indices_from i [] = []
indices_from i (d ∷ ds) = let rest = indices_from (i + 1) ds in if d then i ∷ rest else rest

unfoldable pub clear_flags : List ℕ → List Bool → List Bool
clear_flags [] dirty = dirty
clear_flags (i ∷ idxs) dirty = clear_flags idxs (set dirty i false)

module _ {A : Type 0} where
  abbrev pub new_chunk_store : ChunkStore A
  new_chunk_store = record { chunks = []; tomb = []; n = 0; dead = 0; dirty = [] }

  unfoldable pub mark_dirty : ℕ → ChunkStore A → ChunkStore A
  mark_dirty ci s = record s { dirty = set s.dirty ci true }

  unfoldable pub mark_all_dirty : ChunkStore A → ChunkStore A
  mark_all_dirty s = record s { dirty = map (λ _. true) s.dirty }

  unfoldable pub dirty_indices : ChunkStore A → List ℕ
  unfolding indices_from
  dirty_indices s = indices_from 0 s.dirty

  unfoldable pub clear_dirty : List ℕ → ChunkStore A → ChunkStore A
  unfolding clear_flags
  clear_dirty idxs s = record s { dirty = clear_flags idxs s.dirty }

  -- the live elements of a block; a flag that is not there reads as false
  unfoldable pub live_of : ChunkBlock (ResourceSlot A) → ChunkBlock Bool → List A
  live_of [] ts = []
  live_of (c ∷ cs) [] = c.item ∷ live_of cs []
  live_of (c ∷ cs) (true ∷ ts) = live_of cs ts
  live_of (c ∷ cs) (false ∷ ts) = c.item ∷ live_of cs ts

  unfoldable pub chunk_live : ChunkStore A → ℕ → List A
  chunk_live s ci = live_of (get_or s.chunks ci []) (get_or s.tomb ci [])

  -- one block is put behind the others; `none` is the panic past the end of its array
  unfoldable pub load_chunk : List A → ChunkStore A → Option (ChunkStore A)
  load_chunk vals s =
      let ci = length s.chunks in
      if ltb chunk_limit (length vals)
      then none
      else some (record {
        chunks = s.chunks ++ map (λ v. record { item = v; version = 0; chunk = ci }) vals ∷ [];
        tomb = s.tomb ++ map (λ _. false) vals ∷ [];
        n = s.n + length vals;
        dead = s.dead;
        dirty = s.dirty ++ false ∷ [];
      })

  -- the first step of `Append`: a last block with room
  unfoldable pub with_room : ChunkStore A → ChunkStore A
  with_room s =
      let last = get_or s.chunks (length s.chunks - 1) [] in
      if length s.chunks == 0 || length last == chunk_limit
      then record s {
        chunks = s.chunks ++ [] ∷ [];
        tomb = s.tomb ++ [] ∷ [];
        dirty = s.dirty ++ false ∷ [];
      }
      else s

  -- the second step, on the last block
  unfoldable pub push_last : A → ChunkStore A → ChunkStore A × Address
  unfolding push
  push_last v s =
      let ci = length s.chunks - 1 in
      let slot : ResourceSlot A = record { item = v; version = 0; chunk = ci } in
      let last = (push slot (get_or s.chunks ci [])).0 in
      (
        record {
          chunks = set s.chunks ci last;
          tomb = set s.tomb ci (push false (get_or s.tomb ci [])).0;
          n = s.n + 1;
          dead = s.dead;
          dirty = set s.dirty ci true;
        },
        (ci, length last - 1),
      )

  unfoldable pub append : A → ChunkStore A → ChunkStore A × Address
  unfolding with_room push_last
  append v s = push_last v (with_room s)

  unfoldable pub len : ChunkStore A → ℕ
  len s = s.n - s.dead

  -- a valid store has a block of tombstones for each chunk; where one is missing the code would panic
  unfoldable pub range_blocks : List (ChunkBlock (ResourceSlot A)) → List (ChunkBlock Bool) → List A
  unfolding live_of
  range_blocks [] tb = []
  range_blocks (c ∷ cs) [] = live_of c [] ++ range_blocks cs []
  range_blocks (c ∷ cs) (t ∷ ts) = live_of c t ++ range_blocks cs ts

  -- what `Range` hands to its callback, in order
  unfoldable pub range : ChunkStore A → List A
  range s = range_blocks s.chunks s.tomb

  -- the slot that an address leads to
  unfoldable pub slot_at : ChunkStore A → Address → Option (ResourceSlot A)
  slot_at s (c, o) = get_elem? (get_or s.chunks c []) o

  -- the inner loop of `DeleteFunc`: the flags after it, and the elements that it removes
  unfoldable pub bury :
      (A → Bool) → ChunkBlock (ResourceSlot A) → ChunkBlock Bool → ChunkBlock Bool × List A
  bury pred [] ts = (ts, [])
  bury pred (c ∷ cs) [] = ([], [])
  bury pred (c ∷ cs) (t ∷ ts) =
      let (ts', removed) = bury pred cs ts in
      if t || not (pred c.item) then (t ∷ ts', removed) else (true ∷ ts', c.item ∷ removed)

  unfoldable pub touched : List A → Bool → Bool
  touched [] d = d
  touched (x ∷ xs) d = true

  -- the outer loop: the flags, the dirty flags and the removed elements
  unfoldable pub bury_all :
      (A → Bool)
      → List (ChunkBlock (ResourceSlot A))
      → List (ChunkBlock Bool)
      → List Bool
      → List (ChunkBlock Bool) × List Bool × List A
  bury_all pred (c ∷ cs) (t ∷ ts) (d ∷ ds) =
      let (t', here) = bury pred c t in
      let (ts', ds', more) = bury_all pred cs ts ds in
      (t' ∷ ts', touched here d ∷ ds', here ++ more)
  bury_all pred _ ts ds = (ts, ds, [])

  unfoldable pub delete_func : (A → Bool) → ChunkStore A → ChunkStore A × List A
  unfolding bury bury_all touched
  delete_func pred s =
      let (tomb, dirty, removed) = bury_all pred s.chunks s.tomb s.dirty in
      (record s { tomb = tomb; dirty = dirty; dead = s.dead + length removed }, removed)
