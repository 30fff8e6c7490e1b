-- ===== src/Engine/Resources/Work.antt =====
-- engine.go, `recordBatch` and `work`: the lookup after a batch, with or without the map.
use nestory.Common.{
  ℕ, zero, suc, ◌+◌, ◌≡◌, refl, sym, ap, ◌∙◌, inl, inr, ◌&&◌, not, Option, none, some, List, [],
  ◌∷◌, ◌++◌, append-nil, append_assoc, arith, leb, ◌==◌, Bool-cases, length, length-append,
}
use nestory.Engine.Resources.{
  TransactionResourceKey, TouchedResource, resource_key, Positions, TransactionState, set_position,
  scan_key, position_all, position_first, start_positions, record_each, record_batch, work_at,
  first_work, work, record_resource,
}
use nestory.Engine.Resources.Laws.{
  join, touched, find, Distinct, IsValid, nth_work, find-scan_from, set_position-find,
}
use nestory.Engine.Resources.Record.{find_absent, state, record_step, cons_ne_nil}

module _ {A : Type 0} where
  position_all-find :
      (n : ℕ) (l rs : List (TouchedResource A)) (m : Positions)
      → n ≡ length l
      → ((key : TransactionResourceKey) → m key ≡ find 0 l key)
      → Distinct l rs
      → (key : TransactionResourceKey) → position_all n rs m key ≡ find 0 (l ++ rs) key
  unfolding position_all
  position_all-find n l [] m e h d key = rw (append-nil l) (h key)
  position_all-find n l (r ∷ rs) m e h d key =
      position_all-find (suc n) (l ++ r ∷ []) rs (set_position (resource_key r) n m)
        (omega (arith, length-append {0} l (r ∷ [])))
        (rw e (set_position-find m l r h (find_absent l (resource_key r) d.0))) d.1 key
      ∙ ap (λ xs. find 0 xs key) (append_assoc l (r ∷ []) rs)

  start_Indexes :
      (f : Option (TouchedResource A)) (rs : List (TouchedResource A))
      → (f ≡ none → rs ≡ [])
      → Distinct [] (join f rs)
      → (key : TransactionResourceKey)
      → position_all 1 rs (position_first f (λ k. none)) key ≡ find 0 (join f rs) key
  unfolding position_all position_first
  start_Indexes none [] shape d key = refl
  start_Indexes none (x ∷ rs) shape d key = absurd (cons_ne_nil x rs (shape refl))
  start_Indexes (some r) rs shape d key =
      position_all-find 1 (r ∷ []) rs (set_position (resource_key r) 0 (λ k. none)) refl
        (set_position-find (λ k. none) [] r (λ k. refl) refl) d.1 key

  start-IsValid_at :
      (batch : List (TouchedResource A)) (f : Option (TouchedResource A))
      (rs : List (TouchedResource A)) (p : Option Positions)
      → IsValid (state f rs p)
      → IsValid (start_positions batch (state f rs p))
        × (touched (start_positions batch (state f rs p)) ≡ join f rs)
  unfolding start_positions
  start-IsValid_at batch f rs (some m) v = (v, refl)
  start-IsValid_at batch f rs none v =
      elim (Bool-cases (not (length batch == 0) && leb 8 (1 + length rs + length batch))) [
        | inr few ↦ rw (start_positions, few) (v, refl)
        | inl many ↦
            rw (start_positions, many)
              (
                record {
                  shape = v.shape;
                  distinct = v.distinct;
                  indexed = start_Indexes f rs v.shape v.distinct;
                },
                refl,
              )
      ]

  record_each-IsValid :
      (batch : List (TouchedResource A)) (tx : TransactionState A)
      → IsValid tx
      → IsValid (record_each batch tx)
        × ((key : TransactionResourceKey)
            → scan_key key (touched (record_each batch tx)) ≡ scan_key key (touched tx ++ batch))
  unfolding record_each
  record_each-IsValid [] tx v = (v, λ key. ap (scan_key key) (sym (append-nil (touched tx))))
  record_each-IsValid (r ∷ rs) tx v =
      let (valid, same) = record_step r tx v in
      let (later, found) = record_each-IsValid rs (record_resource r tx) valid in
      (later, λ key. found key ∙ same key rs)

  work_at-nth :
      (f : Option (TouchedResource A)) (rs : List (TouchedResource A)) (p : Option Positions)
      (o : Option ℕ)
      → (f ≡ none → rs ≡ [])
      → work_at (state f rs p) o ≡ nth_work (join f rs) o
  unfolding work_at nth_work
  work_at-nth f rs p none shape = refl
  work_at-nth none (x ∷ rs) p (some i) shape = absurd (cons_ne_nil x rs (shape refl))
  work_at-nth none [] p (some zero) shape = refl
  work_at-nth none [] p (some (suc i)) shape = refl
  work_at-nth (some r) rs p (some zero) shape = refl
  work_at-nth (some r) rs p (some (suc i)) shape = refl

  work-scan_at :
      (f : Option (TouchedResource A)) (rs : List (TouchedResource A)) (p : Option Positions)
      (key : TransactionResourceKey)
      → IsValid (state f rs p)
      → work (state f rs p) key ≡ scan_key key (join f rs)
  unfolding work first_work scan_key
  work-scan_at none rs none key v = refl
  work-scan_at (some r) rs none key v = refl
  work-scan_at f rs (some m) key v =
      work_at-nth f rs (some m) (m key) v.shape
      ∙ ap (nth_work (join f rs)) (v.indexed key)
      ∙ find-scan_from [] (join f rs) key

  -- After `recordBatch`, whether or not the positions are in a map, `work` finds the copy of a key
  -- that a scan of the resources of before and then of the batch finds first; the state keeps its
  -- invariant.
  pub work-record_batch :
      (batch : List (TouchedResource A)) (tx : TransactionState A)
      → IsValid tx
      → IsValid (record_batch batch tx)
        × ((key : TransactionResourceKey)
            → work (record_batch batch tx) key ≡ scan_key key (touched tx ++ batch))
  unfolding record_batch
  work-record_batch batch tx v =
      let (started, same) = start-IsValid_at batch tx.resource tx.resources tx.resource_pos v in
      let (valid, found) = record_each-IsValid batch (start_positions batch tx) started in
      let after = record_each batch (start_positions batch tx) in
      (
        valid,
        λ key.
            work-scan_at after.resource after.resources after.resource_pos key valid
            ∙ found key
            ∙ ap (λ xs. scan_key key (xs ++ batch)) same,
      )
