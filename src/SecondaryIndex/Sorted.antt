-- ===== src/SecondaryIndex/Sorted.antt =====
-- secondary_index.go: sorted lists, the two parts in which a test that stays true splits them, and
-- the order of the entries of an index.
use nestory.Common.{
  ◌≡◌, refl, sym, ap, ◌∙◌, inl, inr, Bool, true, ◌&&◌, not, List, [], ◌∷◌, ◌++◌, arith, Bool-cases,
  length, take, drop, select, take-append, drop-append, All, All-map,
}
use nestory.SecondaryIndex.Search.{search_entries, search_entries_lem}

module _ {A : Type 0} where
  -- every element stands in `R` to the later ones
  abbrev pub IsSorted : (A → A → Type 0) → List A → Type 0
  IsSorted R [] = Unit
  IsSorted R (x ∷ xs) = All (R x) xs × IsSorted R xs

  pub IsSorted-map :
      {R S : A → A → Type 0} (xs : List A)
      → ((x y : A) → R x y → S x y)
      → IsSorted R xs
      → IsSorted S xs
  IsSorted-map [] f h = tt
  IsSorted-map (x ∷ xs) f h = (All-map xs (f x) h.0, IsSorted-map xs f h.1)

  pub All-select : (P : A → Type 0) (q : A → Bool) (xs : List A) → All P xs → All P (select q xs)
  All-select P q [] h = tt
  All-select P q (x ∷ xs) h = elim (Bool-cases (q x)) [
    | inl holds ↦ rw holds (h.0, All-select P q xs h.1)
    | inr lacks ↦ rw lacks (All-select P q xs h.1)
  ]

  pub select-All : (q : A → Bool) (xs : List A) → All (λ x. q x ≡ true) (select q xs)
  select-All q [] = tt
  select-All q (x ∷ xs) = elim (Bool-cases (q x)) [
    | inl holds ↦ rw holds (holds, select-All q xs)
    | inr lacks ↦ rw lacks (select-All q xs)
  ]

  pub IsSorted-select :
      (R : A → A → Type 0) (q : A → Bool) (xs : List A) → IsSorted R xs → IsSorted R (select q xs)
  IsSorted-select R q [] h = tt
  IsSorted-select R q (x ∷ xs) h = elim (Bool-cases (q x)) [
    | inl holds ↦ rw holds (All-select (R x) q xs h.0, IsSorted-select R q xs h.1)
    | inr lacks ↦ rw lacks (IsSorted-select R q xs h.1)
  ]

  -- a test that is true of every element after one of which it is true
  abbrev pub Stays : (A → Bool) → A → A → Type 0
  Stays q x y = q x ≡ true → q y ≡ true

  abbrev pub fails : (A → Bool) → A → Bool
  fails q x = not (q x)

  select_eq_self : (q : A → Bool) (xs : List A) → All (λ x. q x ≡ true) xs → select q xs ≡ xs
  select_eq_self q [] h = refl
  select_eq_self q (x ∷ xs) h = rw h.0 (ap (λ l. x ∷ l) (select_eq_self q xs h.1))

  select_none : (q : A → Bool) (xs : List A) → All (λ x. q x ≡ true) xs → select (fails q) xs ≡ []
  select_none q [] h = refl
  select_none q (x ∷ xs) h = rw h.0 (select_none q xs h.1)

  pub split :
      (q : A → Bool) (xs : List A) → IsSorted (Stays q) xs → xs ≡ select (fails q) xs ++ select q xs
  split q [] h = refl
  split q (x ∷ xs) h = elim (Bool-cases (q x)) [
    | inr lacks ↦ rw lacks (ap (λ l. x ∷ l) (split q xs h.1))
    | inl holds ↦
        let all = All-map xs (λ y k. k holds) h.0 in
        rw (holds, select_none q xs all, select_eq_self q xs all) refl
  ]

  -- the search finds the number of the elements for which the test fails
  pub search_entries-split :
      (q : A → Bool) (xs : List A)
      → IsSorted (Stays q) xs
      → search_entries q xs ≡ length (select (fails q) xs)
  search_entries-split q xs h =
      ap (search_entries q) (split q xs h)
      ∙ search_entries_lem q (select (fails q) xs) (select q xs)
          (All-map (select (fails q) xs) (λ x e. ground arith) (select-All (fails q) xs))
          (select-All q xs)

  pub take-search :
      (q : A → Bool) (xs : List A)
      → IsSorted (Stays q) xs
      → take (search_entries q xs) xs ≡ select (fails q) xs
  take-search q xs h = rw (search_entries-split q xs h) (
      ap (take (length (select (fails q) xs))) (split q xs h)
      ∙ take-append (select (fails q) xs) (select q xs))

  pub drop-search :
      (q : A → Bool) (xs : List A)
      → IsSorted (Stays q) xs
      → drop (search_entries q xs) xs ≡ select q xs
  drop-search q xs h = rw (search_entries-split q xs h) (
      ap (drop (length (select (fails q) xs))) (split q xs h)
      ∙ drop-append (select (fails q) xs) (select q xs))

  pub select-select :
      (p q r : A → Bool) (xs : List A)
      → ((x : A) → (q x && p x) ≡ r x)
      → select p (select q xs) ≡ select r xs
  select-select p q r [] h = refl
  select-select p q r (x ∷ xs) h =
      let ih = select-select p q r xs h in
      elim (Bool-cases (q x)) [
        | inr lacks ↦ rw (lacks, ← h x, lacks) ih
        | inl holds ↦ elim (Bool-cases (p x)) [
          | inl both ↦ rw (holds, ← h x, holds, both) (ap (λ l. x ∷ l) ih)
          | inr one ↦ rw (holds, ← h x, holds, one) ih
        ]
      ]

  -- the elements between two searches
  pub slice-search :
      (p q r : A → Bool) (xs : List A)
      → IsSorted (Stays p) xs
      → IsSorted (Stays q) xs
      → ((x : A) → q x ≡ true → p x ≡ true)
      → ((x : A) → (not (q x) && p x) ≡ r x)
      → drop (search_entries p xs) (take (search_entries q xs) xs) ≡ select r xs
  slice-search p q r xs hp hq le m =
      let low = select-select (fails p) (fails q) (fails p) xs (λ x. elim (Bool-cases (q x)) [
        | inl holds ↦ rw (holds, le x holds) refl
        | inr lacks ↦ rw lacks refl
      ]) in
      let same =
        search_entries-split p xs hp
        ∙ ap length (sym low)
        ∙ sym (
            search_entries-split p (select (fails q) xs)
              (IsSorted-select (Stays p) (fails q) xs hp)) in
      rw (take-search q xs hq, same)
        (drop-search p (select (fails q) xs) (IsSorted-select (Stays p) (fails q) xs hp)
          ∙ select-select p (fails q) r xs m)

  All-and :
      {P Q S : A → Type 0} (xs : List A)
      → ((x : A) → P x → Q x → S x)
      → All P xs
      → All Q xs
      → All S xs
  All-and [] f h k = tt
  All-and (x ∷ xs) f h k = (f x h.0 k.0, All-and xs f h.1 k.1)

  pub IsSorted-All :
      {P : A → Type 0} {R S : A → A → Type 0} (xs : List A)
      → ((x y : A) → P x → P y → R x y → S x y)
      → All P xs
      → IsSorted R xs
      → IsSorted S xs
  IsSorted-All [] f h k = tt
  IsSorted-All (x ∷ xs) f h k =
      (All-and xs (λ y p r. f x y h.0 p r) h.1 k.0, IsSorted-All xs f h.1 k.1)
