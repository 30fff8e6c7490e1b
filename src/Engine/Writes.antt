-- ===== src/Engine/Writes.antt =====
-- engine.go, db.go: the writes of a commit, the rows that they are logged as, and what a restart
-- recovers of them. The encoding of an entity is a parameter: `encodeRow` of its schema row.
use nestory.Common.{
  zero, suc, ◌^◌, ◌<◌, ◌≡◌, refl, subst, inl, inr, Bool, Option, none, some, List, [], ◌∷◌, ◌++◌,
  map, arith, if◌then◌else◌, Bool-cases, Option-cases, All, ok, bind_option,
}
use nestory.Common.Int.{ℤ, pos, negsuc}
use nestory.Common.Bytes.{Bytes}
use nestory.Wal.Frame.{WalRow}
use nestory.Wal.TransactionFrame.{TransactionWalRow}
use nestory.Wal.Log.{Wal, Device, LogError, append_frame}
use nestory.Wal.Replay.Rows.{
  store_row, RecoveredRow, deleted, stored, negate, recover_row, recover_rows,
}

pub record PendingWrite (A : Type 0) : Type 0 where
  pub id : ℤ
  pub work : A
  pub deleted : Bool

pub data CommitError : Type 0 where
  encoding_failed : CommitError
  log_failed : LogError → CommitError

-- what a write is recovered as
abbrev pub recovered : {A : Type 0} → PendingWrite A → RecoveredRow A
recovered it = if it.deleted then deleted it.id else stored it.id it.work

-- an id that `Create` gives, within 64 bits
abbrev pub IsPositive : ℤ → Type 0
IsPositive (pos zero) = ⊥
IsPositive (pos (suc n)) = suc n < 2 ^ 63
IsPositive (negsuc n) = ⊥

unfoldable pub as_commit_error : Option LogError → Option CommitError
as_commit_error none = none
as_commit_error (some e) = some (log_failed e)

module _ {A : Type 0} (encode : A → Option Bytes) where
  unfoldable pub encode_write : PendingWrite A → Option WalRow
  unfolding negate
  encode_write it =
      if it.deleted
      then some (record { id = negate it.id; row = [] })
      else bind_option (encode it.work) λ bytes. some (record { id = it.id; row = bytes })

  unfoldable pub encode_writes : List (PendingWrite A) → Option (List WalRow)
  unfolding encode_write
  encode_writes [] = some []
  encode_writes (it ∷ items) =
      bind_option (encode_write it)
        λ row. bind_option (encode_writes items) λ rows. some (row ∷ rows)

  unfoldable pub log_writes : Device → Wal → List (PendingWrite A) → Wal × Option CommitError
  unfolding encode_writes append_frame as_commit_error
  log_writes d w items = elim (encode_writes items) [
    | none ↦ (w, some encoding_failed)
    | some rows ↦ let (w', e) = append_frame d w (record { rows = rows }) in (w', as_commit_error e)
  ]

  -- the loop of `logTransactionChanges` over the types of a transaction, in the order of their names
  unfoldable pub encode_transaction :
      List (Bytes × List (PendingWrite A)) → Option (List TransactionWalRow)
  unfolding encode_writes
  encode_transaction [] = some []
  encode_transaction ((name, items) ∷ others) = bind_option (encode_writes items) λ rows.
      bind_option (encode_transaction others)
        λ more. some (map (λ row. record { typ = name; wal_row = row }) rows ++ more)

  recover_deleted :
      (decode : Bytes → Option A) (id : ℤ)
      → IsPositive id
      → recover_row decode (negate id) [] ≡ ok (deleted id)
  unfolding recover_row negate
  recover_deleted decode (pos zero) h = absurd h
  recover_deleted decode (pos (suc n)) h = ground arith
  recover_deleted decode (negsuc n) h = absurd h

  recover_stored :
      (decode : Bytes → Option A) (id : ℤ) (bytes : Bytes) (a : A)
      → IsPositive id
      → decode bytes ≡ some a
      → recover_row decode id bytes ≡ ok (stored id a)
  unfolding recover_row store_row
  recover_stored decode (pos zero) bytes a h e = absurd h
  recover_stored decode (pos (suc n)) bytes a h e = ground (arith, e)
  recover_stored decode (negsuc n) bytes a h e = absurd h

  module _ (decode : Bytes → Option A)
      (back : (a : A) (bytes : Bytes) → encode a ≡ some bytes → decode bytes ≡ some a) where
    abbrev RowOf : PendingWrite A → Option WalRow → Type 0
    RowOf it none = Unit
    RowOf it (some row) = recover_row decode row.id row.row ≡ ok (recovered it)

    encode_write-RowOf : (it : PendingWrite A) → IsPositive it.id → RowOf it (encode_write it)
    unfolding encode_write
    encode_write-RowOf it h = elim (Bool-cases it.deleted) [
      | inl gone ↦ rw gone (recover_deleted decode it.id h)
      | inr kept ↦ elim (Option-cases (encode it.work)) [
        | inl e ↦ rw (kept, e) tt
        | inr (bytes, e) ↦
            rw (kept, e) (recover_stored decode it.id bytes it.work h (back it.work bytes e))
      ]
    ]

    abbrev RowsOf : List (PendingWrite A) → Option (List WalRow) → Type 0
    RowsOf items none = Unit
    RowsOf items (some rows) = recover_rows decode rows ≡ ok (map recovered items)

    encode_writes-RowsOf :
        (items : List (PendingWrite A))
        → All (λ it. IsPositive it.id) items
        → RowsOf items (encode_writes items)
    unfolding encode_writes recover_rows
    encode_writes-RowsOf [] h = refl
    encode_writes-RowsOf (it ∷ items) h = elim (Option-cases (encode_write it)) [
      | inl e ↦ rw e tt
      | inr (row, e) ↦ elim (Option-cases (encode_writes items)) [
        | inl k ↦ rw (e, k) tt
        | inr (rows, k) ↦
            let here = subst (RowOf it) e (encode_write-RowOf it h.0) in
            let later = subst (RowsOf items) k (encode_writes-RowsOf items h.1) in
            rw (e, k, here, later) refl
      ]
    ]

    -- The rows that the writes of a commit are logged as are recovered as those writes, deletions
    -- included, if their ids are positive and fit 64 bits, and decoding undoes the encoding of an entity.
    pub recover_rows-encode_writes :
        (items : List (PendingWrite A)) (rows : List WalRow)
        → All (λ it. IsPositive it.id) items
        → encode_writes items ≡ some rows
        → recover_rows decode rows ≡ ok (map recovered items)
    recover_rows-encode_writes items rows h e =
        subst (RowsOf items) e (encode_writes-RowsOf items h)
