-- ===== src/Wal/Replay/Scan.antt =====
-- The loop over the frames of a log, which wal.go and transaction_wal.go share in form: it ends at
-- the first frame that is short or does not decode.
use nestory.Common.{
  ℕ, zero, suc, ◌<◌, ◌≡◌, Option, none, some, List, [], ◌++◌, arith, ltb, if◌then◌else◌, length,
  take, drop, length-drop, Result, ok, bind_result, bind_option,
}
use nestory.Common.Bytes.{Bytes, be_value}

-- `io.ReadFull`: the next bytes and the rest, or nothing
unfoldable pub read_full : ℕ → Bytes → Option (Bytes × Bytes)
read_full n bytes = if ltb (length bytes) n then none else some (take n bytes, drop n bytes)

-- `none` where the code breaks out of the loop
unfoldable pub next_frame :
    {Row : Type 0} → (Bytes → Option (List Row)) → Bytes → Option (List Row × Bytes)
unfolding read_full
next_frame decode bytes = bind_option (read_full 4 bytes) λ (hdr, rest).
    bind_option (read_full (be_value hdr) rest)
      λ (body, rest'). bind_option (decode body) λ rows. some (rows, rest')

module _ {E Row Out : Type 0} (decode : Bytes → Option (List Row))
    (recover : List Row → Result E (List Out)) where
  unfoldable pub scan : ℕ → Bytes → Result E (List Out)
  scan zero bytes = ok []
  scan (suc fuel) bytes = elim (next_frame decode bytes) [
    | none ↦ ok []
    | some (rows, rest) ↦
        bind_result (recover rows) λ here. bind_result (scan fuel rest) λ more. ok (here ++ more)
  ]

  pub next_frame-lt :
      (bytes : Bytes) (rows : List Row) (rest : Bytes)
      → next_frame decode bytes ≡ some (rows, rest)
      → length rest < length bytes
  unfolding next_frame
  next_frame-lt bytes rows rest h =
      ground (arith, length-drop 4 bytes, length-drop (be_value (take 4 bytes)) (drop 4 bytes))
