-- ===== src/ChunkStore/Blocks.antt =====
-- chunkstore.go: the shape of the arena as a predicate on its parallel arrays of blocks, and the
-- lists that end in a last block.
use nestory.Common.{
  ℕ, suc, ◌+◌, ◌≤◌, ◌<◌, ◌≡◌, refl, ap, Bool, true, false, List, [], ◌∷◌, ◌++◌, arith, length, set,
  get_or, length-append, All,
}
use nestory.Common.{subst}
use nestory.ChunkStore.{ResourceSlot, chunk_limit}

module _ {ℓ} {A : Type ℓ} where
  pub length-snoc : (xs : List A) (x : A) → length (xs ++ x ∷ []) ≡ suc (length xs)
  length-snoc xs x = omega (arith, length-append {ℓ} xs (x ∷ []))

  pub get_or-snoc : (xs : List A) (x d : A) → get_or (xs ++ x ∷ []) (length xs) d ≡ x
  get_or-snoc [] x d = refl
  get_or-snoc (y ∷ xs) x d = get_or-snoc xs x d

  pub set-snoc : (xs : List A) (x v : A) → set (xs ++ x ∷ []) (length xs) v ≡ xs ++ v ∷ []
  set-snoc [] x v = refl
  set-snoc (y ∷ xs) x v = ap (λ t. y ∷ t) (set-snoc xs x v)

abbrev pub count_dead : List Bool → ℕ
count_dead [] = 0
count_dead (true ∷ ts) = suc (count_dead ts)
count_dead (false ∷ ts) = count_dead ts

abbrev pub total_dead : List (List Bool) → ℕ
total_dead [] = 0
total_dead (t ∷ ts) = count_dead t + total_dead ts

pub count_dead-append : (xs ys : List Bool) → count_dead (xs ++ ys) ≡ count_dead xs + count_dead ys
count_dead-append [] ys = omega arith
count_dead-append (true ∷ xs) ys = omega (arith, count_dead-append xs ys)
count_dead-append (false ∷ xs) ys = omega (arith, count_dead-append xs ys)

pub total_dead-append :
    (xs ys : List (List Bool)) → total_dead (xs ++ ys) ≡ total_dead xs + total_dead ys
total_dead-append [] ys = omega arith
total_dead-append (x ∷ xs) ys = omega (arith, total_dead-append xs ys)

module _ {A : Type 0} where
  abbrev pub total_slots : List (List A) → ℕ
  total_slots [] = 0
  total_slots (c ∷ cs) = length c + total_slots cs

  pub total_slots-append :
      (xs ys : List (List A)) → total_slots (xs ++ ys) ≡ total_slots xs + total_slots ys
  total_slots-append [] ys = omega arith
  total_slots-append (x ∷ xs) ys = omega (arith, total_slots-append xs ys)

  -- the i-th block: as many flags as slots, no more than fit, and slots that know their block
  pub record IsBlock (i : ℕ) (c : List (ResourceSlot A)) (t : List Bool) : Type 0 where
    pub flags : length t ≡ length c
    pub fits : length c ≤ chunk_limit
    pub owned : All (λ (s : ResourceSlot A). s.chunk ≡ i) c

  abbrev pub AreBlocks : ℕ → List (List (ResourceSlot A)) → List (List Bool) → List Bool → Type 0
  AreBlocks i [] [] [] = Unit
  AreBlocks i (c ∷ cs) (t ∷ ts) (d ∷ ds) = IsBlock i c t × AreBlocks (suc i) cs ts ds
  AreBlocks i _ _ _ = ⊥

  -- the arrays with their last entries split off
  pub record Ends (i : ℕ) (cs : List (List (ResourceSlot A))) (ts : List (List Bool))
      (ds : List Bool) : Type 0 where
    pub front : List (List (ResourceSlot A))
    pub last : List (ResourceSlot A)
    pub tomb_front : List (List Bool)
    pub tomb_last : List Bool
    pub dirty_front : List Bool
    pub dirty_last : Bool
    pub index : ℕ
    pub chunks : cs ≡ front ++ last ∷ []
    pub tomb : ts ≡ tomb_front ++ tomb_last ∷ []
    pub dirty : ds ≡ dirty_front ++ dirty_last ∷ []
    pub before : AreBlocks i front tomb_front dirty_front
    pub index_eq : index ≡ i + length front
    pub at_end : IsBlock index last tomb_last

  pub AreBlocks-Ends :
      (i : ℕ) (cs : List (List (ResourceSlot A))) (ts : List (List Bool)) (ds : List Bool)
      → AreBlocks i cs ts ds
      → 0 < length cs
      → Ends i cs ts ds
  AreBlocks-Ends i [] ts ds h lt = absurd (omega arith)
  AreBlocks-Ends i (c ∷ []) [] ds h lt = elim h [ ]
  AreBlocks-Ends i (c ∷ []) (t ∷ ts) [] h lt = elim h [ ]
  AreBlocks-Ends i (c ∷ []) (t ∷ (t' ∷ ts)) (d ∷ ds) h lt = elim h.1 [ ]
  AreBlocks-Ends i (c ∷ []) (t ∷ []) (d ∷ (d' ∷ ds)) h lt = elim h.1 [ ]
  AreBlocks-Ends i (c ∷ []) (t ∷ []) (d ∷ []) h lt = record {
    front = [];
    last = c;
    tomb_front = [];
    tomb_last = t;
    dirty_front = [];
    dirty_last = d;
    index = i;
    chunks = refl;
    tomb = refl;
    dirty = refl;
    before = tt;
    index_eq = omega arith;
    at_end = h.0;
  }
  AreBlocks-Ends i (c ∷ (c' ∷ cs)) [] ds h lt = elim h [ ]
  AreBlocks-Ends i (c ∷ (c' ∷ cs)) (t ∷ ts) [] h lt = elim h [ ]
  AreBlocks-Ends i (c ∷ (c' ∷ cs)) (t ∷ ts) (d ∷ ds) h lt =
      let e = AreBlocks-Ends (suc i) (c' ∷ cs) ts ds h.1 (omega arith) in
      record {
        front = c ∷ e.front;
        last = e.last;
        tomb_front = t ∷ e.tomb_front;
        tomb_last = e.tomb_last;
        dirty_front = d ∷ e.dirty_front;
        dirty_last = e.dirty_last;
        index = e.index;
        chunks = ap (λ x. c ∷ x) e.chunks;
        tomb = ap (λ x. t ∷ x) e.tomb;
        dirty = ap (λ x. d ∷ x) e.dirty;
        before = (h.0, e.before);
        index_eq = omega (arith, e.index_eq);
        at_end = e.at_end;
      }

  pub AreBlocks-snoc :
      (i k : ℕ) (cs : List (List (ResourceSlot A))) (ts : List (List Bool)) (ds : List Bool)
      (c : List (ResourceSlot A)) (t : List Bool) (d : Bool)
      → AreBlocks i cs ts ds
      → k ≡ i + length cs
      → IsBlock k c t
      → AreBlocks i (cs ++ c ∷ []) (ts ++ t ∷ []) (ds ++ d ∷ [])
  AreBlocks-snoc i k [] [] [] c t d h e b =
      let same : k ≡ i = omega arith in (subst (λ j. IsBlock j c t) same b, tt)
  AreBlocks-snoc i k [] [] (d' ∷ ds) c t d h e b = elim h [ ]
  AreBlocks-snoc i k [] (t' ∷ ts) ds c t d h e b = elim h [ ]
  AreBlocks-snoc i k (c' ∷ cs) [] ds c t d h e b = elim h [ ]
  AreBlocks-snoc i k (c' ∷ cs) (t' ∷ ts) [] c t d h e b = elim h [ ]
  AreBlocks-snoc i k (c' ∷ cs) (t' ∷ ts) (d' ∷ ds) c t d h e b =
      (h.0, AreBlocks-snoc (suc i) k cs ts ds c t d h.1 (omega arith) b)

  -- the three arrays are of one length
  pub AreBlocks-lengths :
      (i : ℕ) (cs : List (List (ResourceSlot A))) (ts : List (List Bool)) (ds : List Bool)
      → AreBlocks i cs ts ds
      → (length ts ≡ length cs) × (length ds ≡ length cs)
  AreBlocks-lengths i [] [] [] h = (refl, refl)
  AreBlocks-lengths i [] [] (d ∷ ds) h = elim h [ ]
  AreBlocks-lengths i [] (t ∷ ts) ds h = elim h [ ]
  AreBlocks-lengths i (c ∷ cs) [] ds h = elim h [ ]
  AreBlocks-lengths i (c ∷ cs) (t ∷ ts) [] h = elim h [ ]
  AreBlocks-lengths i (c ∷ cs) (t ∷ ts) (d ∷ ds) h =
      omega (arith, AreBlocks-lengths (suc i) cs ts ds h.1)

  -- of the dirty flags only their number matters
  pub AreBlocks-dirty :
      (i : ℕ) (cs : List (List (ResourceSlot A))) (ts : List (List Bool)) (ds es : List Bool)
      → AreBlocks i cs ts ds
      → length es ≡ length ds
      → AreBlocks i cs ts es
  AreBlocks-dirty i [] [] [] [] h e = tt
  AreBlocks-dirty i [] [] [] (x ∷ es) h e = absurd (omega arith)
  AreBlocks-dirty i [] [] (d ∷ ds) es h e = elim h [ ]
  AreBlocks-dirty i [] (t ∷ ts) ds es h e = elim h [ ]
  AreBlocks-dirty i (c ∷ cs) [] ds es h e = elim h [ ]
  AreBlocks-dirty i (c ∷ cs) (t ∷ ts) [] es h e = elim h [ ]
  AreBlocks-dirty i (c ∷ cs) (t ∷ ts) (d ∷ ds) [] h e = absurd (omega arith)
  AreBlocks-dirty i (c ∷ cs) (t ∷ ts) (d ∷ ds) (x ∷ es) h e =
      (h.0, AreBlocks-dirty (suc i) cs ts ds es h.1 (omega arith))
