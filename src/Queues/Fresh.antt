-- ===== src/Queues/Fresh.antt =====
-- db.go, relation_runtime.go: the counter of a table, and the ids that `relationPrepareCreate` gives.
use nestory.Common.{
  some_ne_none, All-In, ℕ, suc, ◌+◌, ◌-◌, ◌^◌, ◌≤◌, ◌<◌, compare, ◌≡◌, refl, sym, ap, ◌∙◌, subst,
  ◌≢◌, inl, inr, true, false, Option, none, some, List, [], ◌∷◌, arith, ltb, if◌then◌else◌, ltb→lt,
  ltb→ge, Bool-cases, All, All-map, In,
}
use nestory.Common.Int.{ℤ, pos, negsuc, IsInt64}
use nestory.SecondaryIndex.Value.{compare_int}
use nestory.SecondaryIndex.Search.{above}
use nestory.Queues.{
  PersistEntity, IdTable, PersistError, already_exists, same_id, contains_id, next_int, ids_of,
  sync_res_by_id, seed_counter, open_table, add_entity, relation_prepare_create, relation_delete,
}
use nestory.Queues.Ids.{
  IsAtMost, IsAtMost-more, next_int-pos, max_id-Highest, put_id-All, put_ids-All, All-In_self,
  select-All_same,
}

module _ {A : Type 0} where
  -- what a table goes through after `Open`, with the ids that it had then or that were prepared
  -- since; the ids are of 64 bits, and the counter is not at the end of its range
  pub data Assigns : IdTable A → List ℤ → Type 0 where
    opened :
        (live : List (PersistEntity A))
        → All IsInt64 (ids_of live)
        → Assigns (open_table live) (ids_of live)
    prepared :
        (e : PersistEntity A) {t : IdTable A} {used : List ℤ}
        → IsInt64 e.id
        → t.counter ≢ pos (2 ^ 63 - 1)
        → (relation_prepare_create e t).2 ≡ none
        → Assigns t used
        → Assigns (relation_prepare_create e t).0 ((relation_prepare_create e t).1.id ∷ used)
    added :
        (e : PersistEntity A) {t : IdTable A} {used : List ℤ}
        → In e.id used
        → Assigns t used
        → Assigns (add_entity e t) used
    deleted :
        (ids : List ℤ) {t : IdTable A} {used : List ℤ}
        → Assigns t used
        → Assigns (relation_delete ids t) used

  record IsAssigned (t : IdTable A) (used : List ℤ) : Type 0 where
    pub most : ℕ
    pub counter : t.counter ≡ pos most
    pub small : most < 2 ^ 63
    pub all : All (IsAtMost most) used
    pub stored : All (λ id. In id used) t.res_by_id

  open_table-IsAssigned :
      (live : List (PersistEntity A))
      → All IsInt64 (ids_of live)
      → IsAssigned (open_table live) (ids_of live)
  unfolding open_table sync_res_by_id seed_counter
  open_table-IsAssigned live h =
      let top = max_id-Highest 0 (ids_of live) (omega arith) h in
      record {
        most = top.most;
        counter = top.found;
        small = top.small;
        all = top.all;
        stored =
            put_ids-All (λ id. In id (ids_of live)) (ids_of live) [] (All-In_self (ids_of live)) tt;
      }

  room :
      (t : IdTable A) (used : List ℤ) (v : IsAssigned t used)
      → t.counter ≢ pos (2 ^ 63 - 1)
      → v.most + 1 < 2 ^ 63
  room t used v h = elim (Bool-cases (ltb (v.most + 1) (2 ^ 63))) [
    | inl less ↦ ltb→lt (v.most + 1) (2 ^ 63) less
    | inr full ↦
        absurd (h (v.counter ∙ ap pos (omega (arith, ltb→ge (v.most + 1) (2 ^ 63) full, v.small))))
  ]

  module _ (e : PersistEntity A) (t : IdTable A) where
    abbrev new : IdTable A × PersistEntity A × Option PersistError
    new = (record t { counter = next_int t.counter }, record e { id = next_int t.counter }, none)

    abbrev given : IdTable A × PersistEntity A × Option PersistError
    given = (
      record t { counter = if above (compare_int e.id t.counter) then e.id else t.counter },
      e,
      none,
    )

    abbrev taken : IdTable A × PersistEntity A × Option PersistError
    taken = (t, e, some (already_exists e.id))

    abbrev named : IdTable A × PersistEntity A × Option PersistError
    named = if contains_id e.id t.res_by_id then taken else given

    new_outcome : same_id e.id (pos 0) ≡ true → relation_prepare_create e t ≡ new
    unfolding relation_prepare_create
    new_outcome h = ap (λ b. if b then new else named) h

    named_outcome : same_id e.id (pos 0) ≡ false → relation_prepare_create e t ≡ named
    unfolding relation_prepare_create
    named_outcome h = ap (λ b. if b then new else named) h

    new-IsAssigned :
        (used : List ℤ) (v : IsAssigned t used)
        → t.counter ≢ pos (2 ^ 63 - 1)
        → IsAssigned new.0 (new.1.id ∷ used)
    new-IsAssigned used v h =
        let next = ap next_int v.counter ∙ next_int-pos v.most (room t used v h) in
        record {
          most = suc v.most;
          counter = next;
          small = let r = room t used v h in omega arith;
          all = (
            subst (IsAtMost (suc v.most)) (sym next) (omega arith),
            All-map used (λ id k. IsAtMost-more v.most (suc v.most) id (omega arith) k) v.all,
          );
          stored = All-map t.res_by_id (λ id i. inr i) v.stored;
        }

    higher :
        (c : ℕ) (id : ℤ)
        → IsInt64 id
        → c < 2 ^ 63
        → (most : ℕ) × ((if above (compare_int id (pos c)) then id else pos c) ≡ pos most)
          × (most < 2 ^ 63)
          × (c ≤ most)
          × IsAtMost most id
    unfolding above compare_int
    higher c (negsuc n) h small = (c, refl, small, omega arith, tt)
    higher c (pos n) h small = elim (Bool-cases (above (compare n c))) [
      | inl more ↦ (n, rw more refl, h, ground arith, omega arith)
      | inr less ↦ (c, rw less refl, small, omega arith, ground arith)
    ]

    given-IsAssigned :
        (used : List ℤ) → IsInt64 e.id → IsAssigned t used → IsAssigned given.0 (e.id ∷ used)
    given-IsAssigned used h v =
        let (most, found, small, more, own) = higher v.most e.id h v.small in
        record {
          most = most;
          counter = ap (λ c. if above (compare_int e.id c) then e.id else c) v.counter ∙ found;
          small = small;
          all = (own, All-map used (λ id k. IsAtMost-more v.most most id more k) v.all);
          stored = All-map t.res_by_id (λ id i. inr i) v.stored;
        }

    prepared-IsAssigned :
        (used : List ℤ)
        → IsInt64 e.id
        → t.counter ≢ pos (2 ^ 63 - 1)
        → (relation_prepare_create e t).2 ≡ none
        → IsAssigned t used
        → IsAssigned (relation_prepare_create e t).0 ((relation_prepare_create e t).1.id ∷ used)
    prepared-IsAssigned used h room ends v =
        let Kept : IdTable A × PersistEntity A × Option PersistError → Type 0 =
          λ r. IsAssigned r.0 (r.1.id ∷ used) in
        elim (Bool-cases (same_id e.id (pos 0))) [
          | inl zero_id ↦ subst Kept (sym (new_outcome zero_id)) (new-IsAssigned used v room)
          | inr own_id ↦ elim (Bool-cases (contains_id e.id t.res_by_id)) [
            | inl there ↦ absurd (
                some_ne_none (
                  sym (
                    ap (λ r. r.2)
                      (named_outcome own_id ∙ ap (λ b. if b then taken else given) there))
                  ∙ ends))
            | inr absent ↦
                subst Kept
                  (sym (named_outcome own_id ∙ ap (λ b. if b then taken else given) absent))
                  (given-IsAssigned used h v)
          ]
        ]

  Assigns-IsAssigned : {t : IdTable A} {used : List ℤ} → Assigns t used → IsAssigned t used
  unfolding add_entity relation_delete
  Assigns-IsAssigned (opened live h) = open_table-IsAssigned live h
  Assigns-IsAssigned (prepared e {t} {used} h room ends s) =
      prepared-IsAssigned e t used h room ends (Assigns-IsAssigned s)
  Assigns-IsAssigned (added e {t} {used} i s) =
      let v = Assigns-IsAssigned s in
      record {
        most = v.most;
        counter = v.counter;
        small = v.small;
        all = v.all;
        stored = put_id-All (λ id. In id used) e.id t.res_by_id i v.stored;
      }
  Assigns-IsAssigned (deleted ids {t} {used} s) =
      let v = Assigns-IsAssigned s in
      record {
        most = v.most;
        counter = v.counter;
        small = v.small;
        all = v.all;
        stored = select-All_same (λ id. In id used) _ t.res_by_id v.stored;
      }

  -- Whatever commits a table goes through after Open, if relationPrepareCreate is called for an entity
  -- without an id while the counter is not at the end of the range of an int, it returns no error, and
  -- the id that it gives is positive and above every id that the table has, had at Open, or that
  -- was prepared since.
  pub relation_prepare_create-above :
      (t : IdTable A) (used : List ℤ) (e : PersistEntity A)
      → Assigns t used
      → e.id ≡ pos 0
      → t.counter ≢ pos (2 ^ 63 - 1)
      → (most : ℕ) × ((relation_prepare_create e t).1.id ≡ pos (suc most))
        × ((relation_prepare_create e t).2 ≡ none)
        × All (IsAtMost most) used
        × All (IsAtMost most) t.res_by_id
  unfolding same_id compare_int
  relation_prepare_create-above t used e s zero_id h =
      let v = Assigns-IsAssigned s in
      let is_new = new_outcome e t (subst (λ id. same_id id (pos 0) ≡ true) (sym zero_id) refl) in
      (
        v.most,
        ap (λ r. r.1.id) is_new ∙ ap next_int v.counter ∙ next_int-pos v.most (room t used v h),
        ap (λ r. r.2) is_new,
        v.all,
        All-map t.res_by_id (λ id i. All-In (IsAtMost v.most) used id v.all i) v.stored,
      )
