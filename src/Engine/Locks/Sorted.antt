-- ===== src/Engine/Locks/Sorted.antt =====
-- Sorting elements that are all different makes a list that strictly increases.
use nestory.Common.{Ordering, ◌≡◌, ◌≢◌, inl, inr, List, [], ◌∷◌, Bool-cases, All, All-map}
use nestory.SecondaryIndex.Value.{IsOrder}
use nestory.SecondaryIndex.Search.{above, Ordering-cases}
use nestory.Engine.Locks.{insert_by, sort_by}

module _ {A : Type 0} (cmp : A → A → Ordering) where
  abbrev pub IsIncreasing : List A → Type 0
  IsIncreasing [] = Unit
  IsIncreasing (x ∷ xs) = All (λ y. cmp x y ≡ Ordering.lt) xs × IsIncreasing xs

abbrev pub AreDistinct : {A : Type 0} → List A → Type 0
AreDistinct [] = Unit
AreDistinct (x ∷ xs) = All (λ y. x ≢ y) xs × AreDistinct xs

module _ {A : Type 0} (cmp : A → A → Ordering) (order : IsOrder cmp) where
  insert_by-All :
      (P : A → Type 0) (x : A) (ys : List A) → P x → All P ys → All P (insert_by cmp x ys)
  unfolding insert_by
  insert_by-All P x [] p h = (p, tt)
  insert_by-All P x (y ∷ ys) p h = elim (Bool-cases (above (cmp x y))) [
    | inl up ↦ rw up (h.0, insert_by-All P x ys p h.1)
    | inr down ↦ rw down (p, h)
  ]

  sort_by-All : (P : A → Type 0) (xs : List A) → All P xs → All P (sort_by cmp xs)
  unfolding sort_by
  sort_by-All P [] h = tt
  sort_by-All P (x ∷ xs) h = insert_by-All P x (sort_by cmp xs) h.0 (sort_by-All P xs h.1)

  insert_by-IsIncreasing :
      (x : A) (ys : List A)
      → All (λ y. x ≢ y) ys
      → IsIncreasing cmp ys
      → IsIncreasing cmp (insert_by cmp x ys)
  unfolding insert_by above
  insert_by-IsIncreasing x [] d h = (tt, tt)
  insert_by-IsIncreasing x (y ∷ ys) d h = elim (Ordering-cases (cmp x y)) [
    | inl lt ↦ rw lt ((lt, All-map ys (λ z k. order.less x y z lt k) h.0), h)
    | inr (inl eq) ↦ absurd (d.0 (order.equal x y eq))
    | inr (inr gt) ↦ rw gt (
      insert_by-All (λ z. cmp y z ≡ Ordering.lt) x ys (order.turn_back x y gt) h.0,
      insert_by-IsIncreasing x ys d.1 h.1,
    )
  ]

  pub sort_by-IsIncreasing : (xs : List A) → AreDistinct xs → IsIncreasing cmp (sort_by cmp xs)
  unfolding sort_by
  sort_by-IsIncreasing [] d = tt
  sort_by-IsIncreasing (x ∷ xs) d =
      insert_by-IsIncreasing x (sort_by cmp xs) (sort_by-All (λ y. x ≢ y) xs d.0)
        (sort_by-IsIncreasing xs d.1)
