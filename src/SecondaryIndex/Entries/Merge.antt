-- ===== src/SecondaryIndex/Entries/Merge.antt =====
-- secondary_index.go, `mergeSecondaryIndexEntries`: the entries of an index and those that a batch adds,
-- in one list.
use nestory.Common.{ℕ, ◌≡◌, refl, inl, inr, true, false, List, [], ◌∷◌, Bool-cases, All, All-map}
use nestory.SecondaryIndex.Value.{FieldType, Entity}
use nestory.SecondaryIndex.Search.{above}
use nestory.SecondaryIndex.Sorted.{IsSorted}
use nestory.SecondaryIndex.Index.{SecondaryIndex, compare_entities}
use nestory.SecondaryIndex.Entries.{merge_secondary_index_entries}
use nestory.SecondaryIndex.Entries.Keeps.{Before, entities-IsPreorder, above_turn}

-- the third list has the elements of the other two, those of each in their order, and no other
pub data IsInterleaving {A : Type 0} : List A → List A → List A → Type 0 where
  both_end : IsInterleaving [] [] []
  from_left :
      (x : A) {xs ys zs : List A} → IsInterleaving xs ys zs → IsInterleaving (x ∷ xs) ys (x ∷ zs)
  from_right :
      (y : A) {xs ys zs : List A} → IsInterleaving xs ys zs → IsInterleaving xs (y ∷ ys) (y ∷ zs)

all_left : {A : Type 0} (xs : List A) → IsInterleaving xs [] xs
all_left [] = both_end
all_left (x ∷ xs) = from_left x (all_left xs)

all_right : {A : Type 0} (ys : List A) → IsInterleaving [] ys ys
all_right [] = both_end
all_right (y ∷ ys) = from_right y (all_right ys)

module _ {layout : ℕ → FieldType} where
  module _ (index : SecondaryIndex layout) where
    merge_old :
        (e a : Entity layout) (es additions : List (Entity layout))
        → above (compare_entities index e a) ≡ false
        → merge_secondary_index_entries index (e ∷ es) (a ∷ additions)
          ≡ e ∷ merge_secondary_index_entries index es (a ∷ additions)
    unfolding merge_secondary_index_entries
    merge_old e a es additions h = rw (merge_secondary_index_entries, h) refl

    merge_new :
        (e a : Entity layout) (es additions : List (Entity layout))
        → above (compare_entities index e a) ≡ true
        → merge_secondary_index_entries index (e ∷ es) (a ∷ additions)
          ≡ a ∷ merge_secondary_index_entries index (e ∷ es) additions
    unfolding merge_secondary_index_entries
    merge_new e a es additions h = rw (merge_secondary_index_entries, h) refl

    merge-All :
        (P : Entity layout → Type 0) (es additions : List (Entity layout))
        → All P es
        → All P additions
        → All P (merge_secondary_index_entries index es additions)
    unfolding merge_secondary_index_entries
    merge-All P [] additions h k = k
    merge-All P (e ∷ es) [] h k = h
    merge-All P (e ∷ es) (a ∷ additions) h k =
        elim (Bool-cases (above (compare_entities index e a))) [
          | inr le ↦ rw (merge_old e a es additions le) (h.0, merge-All P es (a ∷ additions) h.1 k)
          | inl gt ↦ rw (merge_new e a es additions gt) (k.0, merge-All P (e ∷ es) additions h k.1)
        ]

    after_above :
        (e a : Entity layout) → above (compare_entities index e a) ≡ true → Before index a e
    after_above e a h =
        above_turn (compare_entities index a e) (compare_entities index e a)
          ((entities-IsPreorder index).flips a e) ((entities-IsPreorder index).flips e a) h

    merge-IsSorted :
        (es additions : List (Entity layout))
        → IsSorted (Before index) es
        → IsSorted (Before index) additions
        → IsSorted (Before index) (merge_secondary_index_entries index es additions)
    unfolding merge_secondary_index_entries
    merge-IsSorted [] additions h k = k
    merge-IsSorted (e ∷ es) [] h k = h
    merge-IsSorted (e ∷ es) (a ∷ additions) h k =
        elim (Bool-cases (above (compare_entities index e a))) [
          | inr le ↦ rw (merge_old e a es additions le) (
            merge-All (Before index e) es (a ∷ additions) h.0
                (le, All-map additions (λ y. (entities-IsPreorder index).le_trans e a y le) k.0),
            merge-IsSorted es (a ∷ additions) h.1 k,
          )
          | inl gt ↦
              let le = after_above e a gt in
              rw (merge_new e a es additions gt) (
                merge-All (Before index a) (e ∷ es) additions
                    (le, All-map es (λ y. (entities-IsPreorder index).le_trans a e y le) h.0) k.0,
                merge-IsSorted (e ∷ es) additions h k.1,
              )
        ]

    merge-IsInterleaving :
        (es additions : List (Entity layout))
        → IsInterleaving es additions (merge_secondary_index_entries index es additions)
    unfolding merge_secondary_index_entries
    merge-IsInterleaving [] additions = all_right additions
    merge-IsInterleaving (e ∷ es) [] = all_left (e ∷ es)
    merge-IsInterleaving (e ∷ es) (a ∷ additions) =
        elim (Bool-cases (above (compare_entities index e a))) [
          | inr le ↦
              rw (merge_old e a es additions le)
                (from_left e (merge-IsInterleaving es (a ∷ additions)))
          | inl gt ↦
              rw (merge_new e a es additions gt)
                (from_right a (merge-IsInterleaving (e ∷ es) additions))
        ]

    abbrev pub IsMergeOf :
        List (Entity layout) → List (Entity layout) → List (Entity layout) → Type 0
    IsMergeOf es additions merged =
        IsSorted (Before index) merged × IsInterleaving es additions merged

    -- `mergeSecondaryIndexEntries` of two ordered lists is in order, and has the entries of both, those
    -- of each in the order of before, and no other.
    pub merge-IsMergeOf :
        (es additions : List (Entity layout))
        → IsSorted (Before index) es
        → IsSorted (Before index) additions
        → IsMergeOf es additions (merge_secondary_index_entries index es additions)
    merge-IsMergeOf es additions h k =
        (merge-IsSorted es additions h k, merge-IsInterleaving es additions)
