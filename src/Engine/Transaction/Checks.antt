-- ===== src/Engine/Transaction/Checks.antt =====
-- engine.go, `commit`: what its checks have found when they let the commit pass.
use nestory.Common.{
  some_ne_none, ℕ, ◌≡◌, refl, ap, ◌≢◌, ◌⊎◌, inl, inr, Bool, true, false, Option, none, some, List,
  [], ◌∷◌, map, arith, ◌==◌, ==_iff, Bool-cases, Option-cases, length, select, All,
}
use nestory.Common.Bytes.{Bytes}
use nestory.Wal.Log.{Device}
use nestory.Relations.Node.{NodeKey, has_node, node_equality}
use nestory.SecondaryIndex.Value.{compare_bytes}
use nestory.Engine.Writes.{PendingWrite, encode_transaction}
use nestory.Engine.Resources.{TouchedResource}
use nestory.Engine.Locks.{sort_by}
use nestory.Engine.Locks.Sorted.{AreDistinct}
use nestory.Engine.Single.{Tables, resource_version, is_version}
use nestory.Engine.Single.Laws.{set_table-rows}
use nestory.Engine.Transaction.Rows.{row_of}
use nestory.Engine.Transaction.Commit.{is_structural}
use nestory.Engine.Transaction.{
  Transaction, Store, Changes, encode_work, log_transaction_changes, find_existing, are_current,
  deletes_current,
}

pub is_version-some : (o : Option ℕ) (v : ℕ) → is_version o v ≡ true → o ≡ some v
unfolding is_version
is_version-some none v h = ground arith
is_version-some (some w) v h = ap some ((==_iff w v).0 h)

pub select-All :
    {B : Type 0} (P : NodeKey → Type 0) (f : B → NodeKey) (test : B → Bool) (l : List B)
    → All P (map f l)
    → All P (map f (select test l))
select-All P f test [] h = tt
select-All P f test (x ∷ l) h = elim (Bool-cases (test x)) [
  | inl holds ↦ rw holds (h.0, select-All P f test l h.1)
  | inr fails ↦ rw fails (select-All P f test l h.1)
]

pub select-AreDistinct :
    {B : Type 0} (f : B → NodeKey) (test : B → Bool) (l : List B)
    → AreDistinct (map f l)
    → AreDistinct (map f (select test l))
select-AreDistinct f test [] h = tt
select-AreDistinct f test (x ∷ l) h = elim (Bool-cases (test x)) [
  | inl holds ↦ rw holds (select-All (λ k. f x ≢ k) f test l h.0, select-AreDistinct f test l h.1)
  | inr fails ↦ rw fails (select-AreDistinct f test l h.1)
]

pub length-nil : {B : Type 0} (l : List B) → length l ≡ 0 → l ≡ []
length-nil [] h = refl
length-nil (x ∷ l) h = ground arith

module _ {A : Type 0} where
  pub log_transaction_changes-row :
      (encode : A → Option Bytes) (d : Device) (store : Store A) (changes : Changes A)
      (key : NodeKey)
      → row_of (log_transaction_changes encode d store changes).0.tables key
        ≡ row_of store.tables key
  unfolding log_transaction_changes
  log_transaction_changes-row encode d store [] key = refl
  log_transaction_changes-row encode d store ((name, items) ∷ []) key =
      ap (λ rows. rows key.id) (set_table-rows name key.typ _ store.tables refl)
  log_transaction_changes-row encode d store ((name, items) ∷ other ∷ more) key =
      elim (Option-cases (
        encode_transaction (encode_work encode) (
          sort_by (λ (a b : Bytes × List (PendingWrite (Option A))). compare_bytes a.0 b.0)
            ((name, items) ∷ other ∷ more)))) [
              | inl absent ↦ rw (log_transaction_changes, absent) refl
              | inr (rows, present) ↦ rw (log_transaction_changes, present) refl
            ]

  abbrev pub IsCurrent : Tables A → TouchedResource A → Type 0
  IsCurrent tables r = resource_version (tables r.db_name) r.id ≡ some r.ver

  pub are_current-IsCurrent :
      (tables : Tables A) (resources : List (TouchedResource A))
      → are_current tables resources ≡ true
      → All (IsCurrent tables) resources
  unfolding are_current
  are_current-IsCurrent tables [] h = tt
  are_current-IsCurrent tables (r ∷ resources) h =
      elim (Bool-cases (is_version (resource_version (tables r.db_name) r.id) r.ver)) [
        | inl holds ↦ (
          is_version-some (resource_version (tables r.db_name) r.id) r.ver holds,
          are_current-IsCurrent tables resources (rw holds at h),
        )
        | inr fails ↦ let f = rw fails at h in ground arith
      ]

  pub find_existing-none :
      (tables : Tables A) (created : List NodeKey)
      → find_existing tables created ≡ none
      → All (λ key. row_of tables key ≡ none) created
  unfolding find_existing resource_version
  find_existing-none tables [] h = tt
  find_existing-none tables (key ∷ created) h = elim (Option-cases (row_of tables key)) [
    | inl absent ↦ (
      absent,
      find_existing-none tables created (rw (find_existing, resource_version, absent) at h),
    )
    | inr (v, present) ↦
        let f = rw (find_existing, resource_version, present) at h in absurd (some_ne_none f)
  ]

  -- a node to delete is created by the transaction, or its version is the one that was read
  abbrev pub IsDeletable : Tables A → List NodeKey → NodeKey × ℕ → Type 0
  IsDeletable tables created p =
      (has_node p.0 created ≡ true) ⊎ (resource_version (tables p.0.typ) p.0.id ≡ some p.1)

  pub deletes_current-IsDeletable :
      (tables : Tables A) (created : List NodeKey) (deletes : List (NodeKey × ℕ))
      → deletes_current tables created deletes ≡ true
      → All (IsDeletable tables created) deletes
  unfolding deletes_current
  deletes_current-IsDeletable tables created [] h = tt
  deletes_current-IsDeletable tables created ((key, ver) ∷ deletes) h =
      elim (Bool-cases (has_node key created)) [
        | inl holds ↦
            (inl holds, deletes_current-IsDeletable tables created deletes (rw holds at h))
        | inr fails ↦
            elim (Bool-cases (is_version (resource_version (tables key.typ) key.id) ver)) [
              | inl holds ↦ (
                inr (is_version-some (resource_version (tables key.typ) key.id) ver holds),
                deletes_current-IsDeletable tables created deletes (rw (fails, holds) at h),
              )
              | inr bad ↦ let f = rw (fails, bad) at h in ground arith
            ]
      ]

  pub plain-creates : (tx : Transaction A) → is_structural tx ≡ false → tx.creates ≡ []
  plain-creates tx h = length-nil tx.creates (elim (Bool-cases (length tx.creates == 0)) [
    | inl empty ↦ (==_iff (length tx.creates) 0).0 empty
    | inr more ↦ let f = rw more at h in ground arith
  ])

  pub plain-deletes : (tx : Transaction A) → is_structural tx ≡ false → tx.deletes ≡ []
  plain-deletes tx h = length-nil tx.deletes (elim (Bool-cases (length tx.deletes == 0)) [
    | inl empty ↦ (==_iff (length tx.deletes) 0).0 empty
    | inr more ↦ elim (Bool-cases (length tx.creates == 0)) [
      | inl empty ↦ let f = rw (more, empty) at h in ground arith
      | inr other ↦ let f = rw (more, other) at h in ground arith
    ]
  ])
