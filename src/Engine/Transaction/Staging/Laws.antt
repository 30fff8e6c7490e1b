-- ===== src/Engine/Transaction/Staging/Laws.antt =====
-- engine.go: the commit of a transaction that `begin`, `recordBatch`, `stageCreate` and `stageDelete`
-- have built.
use nestory.Common.{
  ℕ, sym, subst, ◌≢◌, inl, inr, not, Option, none, some, List, [], ◌∷◌, if◌then◌else◌, Bool-cases,
  Option-cases, All,
}
use nestory.Common.Bytes.{Bytes}
use nestory.Common.Maps.{put, same_ne}
use nestory.Relations.Node.{NodeKey, node_equality}
use nestory.Engine.Resources.Laws.{IsValid, Distinct}
use nestory.Engine.Locks.Sorted.{AreDistinct}
use nestory.Engine.Transaction.{TransactionError, expired, already_exists, Transaction, keys}
use nestory.Engine.Transaction.Staging.{created, stage_create, stage_delete}

module _ {V : Type 0} where
  put-All :
      (P : NodeKey → Type 0) (k : NodeKey) (v : V) (m : List (NodeKey × V))
      → P k
      → All P (keys m)
      → All P (keys (put k v m))
  unfolding put
  put-All P k v [] p h = (p, tt)
  put-All P k v ((j, w) ∷ m) p h = elim (Bool-cases (node_equality.same k j)) [
    | inl same ↦ rw same (p, h.1)
    | inr other ↦ rw other (h.0, put-All P k v m p h.1)
  ]

  put-AreDistinct :
      (k : NodeKey) (v : V) (m : List (NodeKey × V))
      → AreDistinct (keys m)
      → AreDistinct (keys (put k v m))
  unfolding put
  put-AreDistinct k v [] d = (tt, tt)
  put-AreDistinct k v ((j, w) ∷ m) d = elim (Bool-cases (node_equality.same k j)) [
    | inl same ↦
        rw same
          (subst (λ x. All (λ y. x ≢ y) (keys m)) (sym (node_equality.same-eq k j same)) d.0, d.1)
    | inr other ↦
        rw other (
          put-All (λ y. j ≢ y) k v m (λ e. same_ne k j other (sym e)) d.0,
          put-AreDistinct k v m d.1,
        )
  ]

module _ {A : Type 0} where
  pub record IsReady (tx : Transaction A) : Type 0 where
    pub valid : IsValid tx.state
    pub creates_distinct : AreDistinct (keys tx.creates)
    pub deletes_distinct : AreDistinct (keys tx.deletes)

  create-IsReady :
      (key : NodeKey) (work : A) (tx : Transaction A)
      → IsReady tx
      → IsReady (record tx { creates = put key work tx.creates })
  create-IsReady key work tx v = record {
    valid = v.valid;
    creates_distinct = put-AreDistinct key work tx.creates v.creates_distinct;
    deletes_distinct = v.deletes_distinct;
  }

  pub stage_create-IsReady :
      (key : NodeKey) (work : A) (tx : Transaction A)
      → IsReady tx
      → IsReady (stage_create key work tx).0
  unfolding stage_create
  stage_create-IsReady key work tx v =
      let create : Option A → Transaction A × Option TransactionError = λ found. elim found [
        | some other ↦ (tx, some (already_exists key))
        | none ↦ (record tx { creates = put key work tx.creates }, none)
      ] in
      elim (Bool-cases tx.active) [
        | inr over ↦
            subst (λ b. IsReady (if not b then (tx, some expired) else create (created tx key)).0)
              (sym over) v
        | inl active ↦
            subst (λ b. IsReady (if not b then (tx, some expired) else create (created tx key)).0)
              (sym active)
              (elim (Option-cases (created tx key)) [
                | inr (x, present) ↦ subst (λ o. IsReady (create o).0) (sym present) v
                | inl absent ↦
                    subst (λ o. IsReady (create o).0) (sym absent) (create-IsReady key work tx v)
              ])
      ]

  pub stage_delete-IsReady :
      (key : NodeKey) (ver : ℕ) (tx : Transaction A)
      → IsReady tx
      → IsReady (stage_delete key ver tx).0
  unfolding stage_delete
  stage_delete-IsReady key ver tx v =
      let after : Transaction A × Option TransactionError =
        (record tx { deletes = put key ver tx.deletes }, none) in
      elim (Bool-cases tx.active) [
        | inr over ↦
            subst (λ b. IsReady (if not b then (tx, some expired) else after).0) (sym over) v
        | inl active ↦
            subst (λ b. IsReady (if not b then (tx, some expired) else after).0) (sym active)
              (record {
                valid = v.valid;
                creates_distinct = v.creates_distinct;
                deletes_distinct = put-AreDistinct key ver tx.deletes v.deletes_distinct;
              })
      ]
