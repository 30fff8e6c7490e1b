-- ===== src/Wal/Replay/Rows.antt =====
-- wal.go and transaction_wal.go: the loops of the replays over the rows of one frame.
use nestory.Common.{
  zero, suc, ◌+◌, ◌-◌, ◌^◌, ◌≡◌, sym, Bool, true, false, ◌&&◌, Option, none, some, List, [], ◌∷◌,
  ◌++◌, arith, ◌==◌, if◌then◌else◌, Result, ok, err, bind_result, bind_result-ok,
}
use nestory.Common.Int.{ℤ, pos, negsuc}
use nestory.Common.Bytes.{Bytes}
use nestory.Wal.Frame.{WalRow}
use nestory.Wal.TransactionFrame.{TransactionWalRow}

pub data ReplayError : Type 0 where
  open_failed : ReplayError
  malformed_id : ℤ → ReplayError
  bad_row : ReplayError

-- `recoveredRow`: a deletion has no row
pub data RecoveredRow (A : Type 0) : Type 0 where
  deleted : ℤ → RecoveredRow A
  stored : ℤ → A → RecoveredRow A

-- `-int(id)`, which wraps at the smallest `int64`
unfoldable pub negate : ℤ → ℤ
negate (pos zero) = pos 0
negate (pos (suc n)) = negsuc n
negate (negsuc n) = if n == 2 ^ 63 - 1 then negsuc n else pos (n + 1)

unfoldable pub same_bytes : Bytes → Bytes → Bool
same_bytes [] [] = true
same_bytes (x ∷ xs) (y ∷ ys) = x == y && same_bytes xs ys
same_bytes _ _ = false

module _ {A : Type 0} (decode_row : Bytes → Option A) where
  unfoldable pub store_row : ℤ → Bytes → Result ReplayError (RecoveredRow A)
  store_row id row = elim (decode_row row) [ none ↦ err bad_row | some v ↦ ok (stored id v) ]

  -- one round: a negative id with no row is a deletion, and no other id below 1 is accepted
  unfoldable pub recover_row : ℤ → Bytes → Result ReplayError (RecoveredRow A)
  unfolding store_row negate
  recover_row (pos zero) row = err (malformed_id (pos 0))
  recover_row (pos (suc n)) row = store_row (pos (suc n)) row
  recover_row (negsuc n) [] = ok (deleted (negate (negsuc n)))
  recover_row (negsuc n) (b ∷ row) = err (malformed_id (negsuc n))

  unfoldable pub recover_rows : List WalRow → Result ReplayError (List (RecoveredRow A))
  recover_rows [] = ok []
  recover_rows (p ∷ rows) =
      bind_result (recover_row p.id p.row) λ r. bind_result (recover_rows rows) λ rs. ok (r ∷ rs)

  -- rows of other entity types are passed over
  unfoldable pub recover_transaction_rows :
      Bytes → List TransactionWalRow → Result ReplayError (List (RecoveredRow A))
  unfolding same_bytes
  recover_transaction_rows type_name [] = ok []
  recover_transaction_rows type_name (p ∷ rows) =
      let rest = recover_transaction_rows type_name rows in
      if same_bytes p.typ type_name
      then (bind_result (recover_row p.id p.row) λ r. bind_result rest λ rs. ok (r ∷ rs))
      else rest

  abbrev join :
      Result ReplayError (List (RecoveredRow A))
      → Result ReplayError (List (RecoveredRow A))
      → Result ReplayError (List (RecoveredRow A))
  join a b = bind_result a λ xs. bind_result b λ ys. ok (xs ++ ys)

  pub recover_rows-append :
      (xs ys : List WalRow) → recover_rows (xs ++ ys) ≡ join (recover_rows xs) (recover_rows ys)
  unfolding recover_rows
  recover_rows-append [] ys = sym (bind_result-ok (recover_rows ys))
  recover_rows-append (p ∷ xs) ys = rw (recover_rows-append xs ys) (ground arith)

  pub recover_transaction_rows-append :
      (name : Bytes) (xs ys : List TransactionWalRow)
      → recover_transaction_rows name (xs ++ ys)
        ≡ join (recover_transaction_rows name xs) (recover_transaction_rows name ys)
  unfolding recover_transaction_rows
  recover_transaction_rows-append name [] ys =
      sym (bind_result-ok (recover_transaction_rows name ys))
  recover_transaction_rows-append name (p ∷ xs) ys =
      rw (recover_transaction_rows-append name xs ys) (ground arith)
