-- ===== src/ChunkStore/Delete.antt =====
-- chunkstore.go, `DeleteFunc`: the two loops partition the live elements by the predicate.
use nestory.Common.{
  ℕ, suc, ◌+◌, ◌≡◌, refl, sym, ap, inl, inr, Bool, true, false, not, List, [], ◌∷◌, ◌++◌, arith,
  Bool-cases, length, select, length-append,
}
use nestory.ChunkStore.{
  ResourceSlot, ChunkStore, live_of, range_blocks, range, bury, bury_all, delete_func,
}
use nestory.ChunkStore.Blocks.{count_dead, total_dead, AreBlocks}
use nestory.ChunkStore.Shape.{IsValid}

module _ {A : Type 0} (pred : A → Bool) where
  abbrev pub keep : A → Bool
  keep x = not (pred x)

  select-append : (p : A → Bool) (xs ys : List A) → select p (xs ++ ys) ≡ select p xs ++ select p ys
  select-append p [] ys = refl
  select-append p (x ∷ xs) ys = rw (select-append p xs ys) (ground arith)

  pub bury-live :
      (c : List (ResourceSlot A)) (t : List Bool)
      → length t ≡ length c
      → (live_of c (bury pred c t).0 ≡ select keep (live_of c t))
        × ((bury pred c t).1 ≡ select pred (live_of c t))
        × (length (bury pred c t).0 ≡ length c)
        × (count_dead (bury pred c t).0 ≡ count_dead t + length (bury pred c t).1)
  unfolding live_of bury
  bury-live [] [] h = (refl, refl, refl, omega arith)
  bury-live [] (b ∷ t) h = absurd (omega arith)
  bury-live (x ∷ c) [] h = absurd (omega arith)
  bury-live (x ∷ c) (true ∷ t) h =
      let ih = bury-live c t (omega arith) in (ih.0, ih.1, ap suc ih.2, omega (arith, ih.3))
  bury-live (x ∷ c) (false ∷ t) h =
      let ih = bury-live c t (omega arith) in
      elim (Bool-cases (pred x.item)) [
        | inl doomed ↦ rw doomed (ih.0, ap (λ l. x.item ∷ l) ih.1, ap suc ih.2, omega (arith, ih.3))
        | inr stays ↦ rw stays (ap (λ l. x.item ∷ l) ih.0, ih.1, ap suc ih.2, omega (arith, ih.3))
      ]

  bury_all-live :
      (i : ℕ) (cs : List (List (ResourceSlot A))) (ts : List (List Bool)) (ds : List Bool)
      → AreBlocks i cs ts ds
      → (range_blocks cs (bury_all pred cs ts ds).0 ≡ select keep (range_blocks cs ts))
        × ((bury_all pred cs ts ds).2 ≡ select pred (range_blocks cs ts))
        × AreBlocks i cs (bury_all pred cs ts ds).0 (bury_all pred cs ts ds).1
        × (total_dead (bury_all pred cs ts ds).0
            ≡ total_dead ts + length (bury_all pred cs ts ds).2)
  unfolding range_blocks bury_all
  bury_all-live i [] [] [] h = (refl, refl, tt, omega arith)
  bury_all-live i [] [] (d ∷ ds) h = elim h [ ]
  bury_all-live i [] (t ∷ ts) ds h = elim h [ ]
  bury_all-live i (c ∷ cs) [] ds h = elim h [ ]
  bury_all-live i (c ∷ cs) (t ∷ ts) [] h = elim h [ ]
  bury_all-live i (c ∷ cs) (t ∷ ts) (d ∷ ds) h =
      let here = bury-live c t h.0.flags in
      let ih = bury_all-live (suc i) cs ts ds h.1 in
      (
        rw (here.0, ih.0) (sym (select-append keep (live_of c t) (range_blocks cs ts))),
        rw (here.1, ih.1) (sym (select-append pred (live_of c t) (range_blocks cs ts))),
        (record { flags = here.2; fits = h.0.fits; owned = h.0.owned }, ih.2),
        omega (arith, here.3, ih.3, length-append {0} (bury pred c t).1 (bury_all pred cs ts ds).2),
      )

  -- `DeleteFunc` returns the live elements that satisfy the predicate, and leaves the others live,
  -- both in their order; it keeps the invariant of the store.
  pub delete_func-partition :
      (s : ChunkStore A)
      → IsValid s
      → ((delete_func pred s).1 ≡ select pred (range s))
        × (range (delete_func pred s).0 ≡ select keep (range s))
        × IsValid (delete_func pred s).0
  unfolding delete_func range
  delete_func-partition s valid =
      let all = bury_all-live 0 s.chunks s.tomb s.dirty valid.blocks in
      (
        all.1,
        all.0,
        record {
          blocks = all.2;
          counted = valid.counted;
          buried = omega (arith, valid.buried, all.3);
        },
      )
