-- ===== src/SecondaryIndex/Validate/Laws.antt =====
-- secondary_index.go, `validateIndexes`: what the check of one unique index lets through.
use nestory.Common.{[]}
use nestory.SecondaryIndex.Sorted.{IsSorted}
use nestory.SecondaryIndex.Value.{bytes-IsOrder}
use nestory.Common.{
  All-map, ap, Option, ◌∙◌, Ordering, All, subst, ℕ, ◌≡◌, refl, sym, ◌≢◌, ◌⊎◌, inl, inr, Bool, true,
  false, ◌&&◌, not, some, List, ◌∷◌, arith, if◌then◌else◌, Bool-cases,
}
use nestory.Common.Int.{ℤ}
use nestory.Common.Bytes.{Bytes}
use nestory.SecondaryIndex.Value.{FieldType, Entity, compare_int, compare_bytes, int-IsOrder}
use nestory.SecondaryIndex.Keys.{set_key_self}
use nestory.SecondaryIndex.Search.{Ordering-cases, is_equal, is_equal-eq}
use nestory.SecondaryIndex.Index.{SecondaryIndex, KeyMap, set_key, unique_id}
use nestory.Engine.Writes.{PendingWrite}
use nestory.SecondaryIndex.Upkeep.{has_id}
use nestory.SecondaryIndex.Validate.{is_other, is_staying, pending_key, validate_index}

not-false : (b : Bool) → not b ≡ false → b ≡ true
not-false true h = refl
not-false false h = sym h

false_ne_true : false ≢ true
false_ne_true h = ground arith

set_key-cases :
    {K : Type 0} (cmp : K → K → Ordering) (key k : K) (v : Option ℤ) (m : KeyMap K)
    → ((cmp k key ≡ Ordering.eq) × (set_key cmp key v m k ≡ v)) ⊎ (set_key cmp key v m k ≡ m k)
unfolding set_key
set_key-cases cmp key k v m = elim (Ordering-cases (cmp k key)) [
  | inl e ↦ inr (rw (set_key, e) refl)
  | inr (inl e) ↦ inl (e, rw (set_key, e) refl)
  | inr (inr e) ↦ inr (rw (set_key, e) refl)
]

is_other-same : (existing id : ℤ) → is_other (some existing) id ≡ false → existing ≡ id
unfolding is_other
is_other-same existing id h =
    int-IsOrder.equal existing id
      (is_equal-eq (compare_int existing id) (not-false (is_equal (compare_int existing id)) h))

module _ {layout : ℕ → FieldType} (index : SecondaryIndex layout) (changed : List ℤ) where
  -- a write that stays and has the key `k` is of the entity `id`
  abbrev Owns : Bytes → ℤ → PendingWrite (Entity layout) → Type 0
  Owns k id it = it.deleted ≡ false → pending_key index it.work ≡ k → it.id ≡ id

  -- two writes that stay and have one key are of one entity
  abbrev pub Agree : PendingWrite (Entity layout) → PendingWrite (Entity layout) → Type 0
  Agree a b =
      a.deleted ≡ false
      → b.deleted ≡ false
      → pending_key index b.work ≡ pending_key index a.work
      → b.id ≡ a.id

  -- the entity that has the key of a write in the index is the written one or is written too
  abbrev pub Free : PendingWrite (Entity layout) → Type 0
  Free it =
      it.deleted ≡ false
      → (e : ℤ) → unique_id index it.work ≡ some e
      → (e ≡ it.id) ⊎ (has_id e changed ≡ true)

  -- what one round of the loop checks
  round :
      (pending : KeyMap Bytes) (it : PendingWrite (Entity layout))
      (items : List (PendingWrite (Entity layout)))
      → it.deleted ≡ false
      → validate_index index changed pending (it ∷ items) ≡ true
      → (is_other (pending (pending_key index it.work)) it.id ≡ false)
        × ((is_other (unique_id index it.work) it.id
              && is_staying (unique_id index it.work) changed)
            ≡ false)
        × (validate_index index changed
              (set_key compare_bytes (pending_key index it.work) (some it.id) pending)
              items
            ≡ true)
  unfolding validate_index
  round pending it items kept h =
      let key = pending_key index it.work in
      let h' : (if is_other (unique_id index it.work) it.id
              && is_staying (unique_id index it.work) changed
            then false
            else if is_other (pending key) it.id
            then false
            else validate_index index changed (set_key compare_bytes key (some it.id) pending)
                items)
          ≡ true =
        rw kept at h in
      elim (Bool-cases (
        is_other (unique_id index it.work) it.id && is_staying (unique_id index it.work) changed)) [
          | inl clash ↦ absurd (false_ne_true (rw clash at h'))
          | inr free ↦ elim (Bool-cases (is_other (pending key) it.id)) [
            | inl taken ↦ absurd (false_ne_true (rw (free, taken) at h'))
            | inr new ↦ (new, free, rw (free, new) at h')
          ]
        ]

  skipped :
      (pending : KeyMap Bytes) (it : PendingWrite (Entity layout))
      (items : List (PendingWrite (Entity layout)))
      → it.deleted ≡ true
      → validate_index index changed pending (it ∷ items) ≡ true
      → validate_index index changed pending items ≡ true
  unfolding validate_index
  skipped pending it items gone h = rw gone at h

  owned :
      (k : Bytes) (id : ℤ) (pending : KeyMap Bytes) (items : List (PendingWrite (Entity layout)))
      → pending k ≡ some id
      → validate_index index changed pending items ≡ true
      → All (Owns k id) items
  owned k id pending [] e h = tt
  owned k id pending (it ∷ items) e h = elim (Bool-cases it.deleted) [
    | inl gone ↦ (
      λ kept same. absurd (false_ne_true (sym kept ∙ gone)),
      owned k id pending items e (skipped pending it items gone h),
    )
    | inr kept ↦
        let (new, free, rest) = round pending it items kept h in
        let here : pending_key index it.work ≡ k → it.id ≡ id = λ same. sym (
          is_other-same id it.id
            (subst (λ o. is_other o it.id ≡ false) (ap pending same ∙ e) new)) in
        let still : set_key compare_bytes (pending_key index it.work) (some it.id) pending k
            ≡ some id =
          elim (set_key-cases compare_bytes (pending_key index it.work) k (some it.id) pending) [
            | inl (same, found) ↦
                found
                ∙ ap some (here (sym (bytes-IsOrder.equal k (pending_key index it.work) same)))
            | inr found ↦ found ∙ e
          ] in
        (
          λ kept' same. here same,
          owned k id (set_key compare_bytes (pending_key index it.work) (some it.id) pending) items
              still rest,
        )
  ]

  free_id :
      (it : PendingWrite (Entity layout)) (e : ℤ)
      → unique_id index it.work ≡ some e
      → (is_other (unique_id index it.work) it.id && is_staying (unique_id index it.work) changed)
        ≡ false
      → (e ≡ it.id) ⊎ (has_id e changed ≡ true)
  unfolding is_staying
  free_id it e u h =
      let h' = subst (λ o. (is_other o it.id && is_staying o changed) ≡ false) u h in
      elim (Bool-cases (is_other (some e) it.id)) [
        | inr same ↦ inl (is_other-same e it.id same)
        | inl other ↦ inr (not-false (has_id e changed) (rw other at h'))
      ]

  -- If the check of a unique index lets the writes of a commit through, no two of them that stay
  -- have one key and different ids, and the id that the index has for the key of such a write is
  -- that of the write itself or of another write of the commit.
  pub validate_index_unique :
      (pending : KeyMap Bytes) (items : List (PendingWrite (Entity layout)))
      → validate_index index changed pending items ≡ true
      → IsSorted Agree items × All Free items
  validate_index_unique pending [] h = (tt, tt)
  validate_index_unique pending (it ∷ items) h = elim (Bool-cases it.deleted) [
    | inl gone ↦
        let later = validate_index_unique pending items (skipped pending it items gone h) in
        (
          (All-map items (λ b o kept. absurd (false_ne_true (sym kept ∙ gone))) later.1, later.0),
          (λ kept e u. absurd (false_ne_true (sym kept ∙ gone)), later.1),
        )
    | inr kept ↦
        let (new, free, rest) = round pending it items kept h in
        let key = pending_key index it.work in
        let pending' = set_key compare_bytes key (some it.id) pending in
        let later = validate_index_unique pending' items rest in
        (
          (
            All-map items (λ b o kept' kept'' same. o kept'' same)
                (owned key it.id pending' items
                  (set_key_self compare_bytes key (some it.id) pending (bytes-IsOrder.same key))
                  rest),
            later.0,
          ),
          (λ kept' e u. free_id it e u free, later.1),
        )
  ]
