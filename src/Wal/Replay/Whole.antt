-- ===== src/Wal/Replay/Whole.antt =====
-- wal.go, `replayWAL`, and transaction_wal.go, `replayTransactionWAL`: where the loop over the frames
-- ends, and what it has read by then.
use nestory.Common.{
  ℕ, zero, suc, ◌<◌, ◌≡◌, ap, ◌∙◌, subst, inl, inr, Option, none, some, List, [], ◌++◌, arith, ltb,
  ltb→lt, ltb→ge, Bool-cases, Option-cases, length, take, drop, length-take, length-drop,
  take-append-drop, Result, ok, err, bind_result, Result-cases,
}
use nestory.Common.Bytes.{Bytes, be_value}
use nestory.Wal.Frame.{decode_wal_frame}
use nestory.Wal.TransactionFrame.{decode_transaction_wal_frame}
use nestory.Wal.Replay.{replay_wal, replay_transaction_wal, contents}
use nestory.Wal.Replay.Scan.{read_full, next_frame, scan}
use nestory.Wal.Replay.Rows.{recover_rows, recover_transaction_rows}

module _ {E Row Out : Type 0} (decode : Bytes → Option (List Row))
    (recover : List Row → Result E (List Out)) where
  -- What the bytes of a log are read as. The log ends where the four bytes of a length are missing,
  -- where fewer bytes follow than the length says, or at a body that does not decode; the rows of the
  -- frames before are recovered in order, up to the first error.
  pub data IsReplay : Bytes → Result E (List Out) → Type 0 where
    no_header : {bytes : Bytes} → length bytes < 4 → IsReplay bytes (ok [])
    no_body :
        (header rest : Bytes)
        → length header ≡ 4
        → length rest < be_value header
        → IsReplay (header ++ rest) (ok [])
    not_valid :
        (header body rest : Bytes)
        → length header ≡ 4
        → length body ≡ be_value header
        → decode body ≡ none
        → IsReplay (header ++ (body ++ rest)) (ok [])
    not_recovered :
        (header body rest : Bytes) (rows : List Row) (e : E)
        → length header ≡ 4
        → length body ≡ be_value header
        → decode body ≡ some rows
        → recover rows ≡ err e
        → IsReplay (header ++ (body ++ rest)) (err e)
    later_error :
        (header body rest : Bytes) (rows : List Row) (here : List Out) (e : E)
        → length header ≡ 4
        → length body ≡ be_value header
        → decode body ≡ some rows
        → recover rows ≡ ok here
        → IsReplay rest (err e)
        → IsReplay (header ++ (body ++ rest)) (err e)
    frame :
        (header body rest : Bytes) (rows : List Row) (here more : List Out)
        → length header ≡ 4
        → length body ≡ be_value header
        → decode body ≡ some rows
        → recover rows ≡ ok here
        → IsReplay rest (ok more)
        → IsReplay (header ++ (body ++ rest)) (ok (here ++ more))

  joined :
      (header body rest : Bytes) (rows : List Row) (here : List Out) (r : Result E (List Out))
      → length header ≡ 4
      → length body ≡ be_value header
      → decode body ≡ some rows
      → recover rows ≡ ok here
      → IsReplay rest r
      → IsReplay (header ++ (body ++ rest)) (bind_result r λ more. ok (here ++ more))
  joined header body rest rows here (err e) h b d k later =
      later_error header body rest rows here e h b d k later
  joined header body rest rows here (ok more) h b d k later =
      frame header body rest rows here more h b d k later

  pub scan-IsReplay :
      (fuel : ℕ) (bytes : Bytes)
      → length bytes < fuel
      → IsReplay bytes (scan decode recover fuel bytes)
  unfolding scan next_frame read_full
  scan-IsReplay zero bytes enough = absurd (omega (arith, enough))
  scan-IsReplay (suc fuel) bytes enough = elim (Bool-cases (ltb (length bytes) 4)) [
    | inl short ↦ rw (scan, short) (no_header (ltb→lt (length bytes) 4 short))
    | inr long ↦
        let header = take 4 bytes in
        let rest = drop 4 bytes in
        let four : length header ≡ 4 =
          omega (arith, length-take 4 bytes, ltb→ge (length bytes) 4 long) in
        let n = be_value header in
        elim (Bool-cases (ltb (length rest) n)) [
          | inl cut ↦
              rw (scan, long, cut)
                (subst (λ b. IsReplay b (ok [])) (take-append-drop 4 bytes)
                  (no_body header rest four (ltb→lt (length rest) n cut)))
          | inr whole ↦
              let body = take n rest in
              let after = drop n rest in
              let size : length body ≡ n =
                omega (arith, length-take n rest, ltb→ge (length rest) n whole) in
              let parts : header ++ (body ++ after) ≡ bytes =
                ap (λ xs. header ++ xs) (take-append-drop n rest) ∙ take-append-drop 4 bytes in
              elim (Option-cases (decode body)) [
                | inl bad ↦
                    rw (scan, long, whole, bad)
                      (subst (λ b. IsReplay b (ok [])) parts
                        (not_valid header body after four size bad))
                | inr (rows, good) ↦ elim (Result-cases (recover rows)) [
                  | inl (e, k) ↦
                      rw (scan, long, whole, good, k)
                        (subst (λ b. IsReplay b (err e)) parts
                          (not_recovered header body after rows e four size good k))
                  | inr (here, k) ↦
                      rw (scan, long, whole, good, k)
                        (subst
                          (λ b. IsReplay b (
                            bind_result (scan decode recover fuel after) λ more. ok (here ++ more)))
                          parts
                          (joined header body after rows here (scan decode recover fuel after) four
                            size good k
                            (scan-IsReplay fuel after (
                              omega (
                                arith,
                                length-drop 4 bytes,
                                length-drop n rest,
                                ltb→ge (length bytes) 4 long,
                                enough,
                              )))))
                ]
              ]
        ]
  ]

-- Whatever bytes a log is, the replay of either kind of log comes to an end within its fuel, a round for
-- each byte and one. It recovers, in order, the rows of the frames up to the first place where the
-- length or the body of a frame is cut or the body does not decode, and fails with the error of the
-- first frame among them whose rows cannot be recovered.
pub replay_wal-IsReplay :
    {A : Type 0} (decode_row : Bytes → Option A) (bytes type_name : Bytes)
    → IsReplay decode_wal_frame
        (recover_rows decode_row)
        bytes
        (replay_wal decode_row (contents bytes))
      × IsReplay decode_transaction_wal_frame
          (recover_transaction_rows decode_row type_name)
          bytes
          (replay_transaction_wal decode_row (contents bytes) type_name)
unfolding replay_wal replay_transaction_wal
replay_wal-IsReplay decode_row bytes type_name = (
  scan-IsReplay decode_wal_frame (recover_rows decode_row) (suc (length bytes)) bytes (omega arith),
  scan-IsReplay decode_transaction_wal_frame (recover_transaction_rows decode_row type_name)
      (suc (length bytes)) bytes (omega arith),
)
