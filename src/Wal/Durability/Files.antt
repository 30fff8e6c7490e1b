-- ===== src/Wal/Durability/Files.antt =====
-- The replay of a log file after an append, for any frame codec.
use nestory.Common.{
  ℕ, suc, ◌+◌, ◌≤◌, ◌<◌, ◌≡◌, ap, ◌∙◌, ◌⊎◌, inl, inr, some, List, [], ◌∷◌, ◌++◌, append-nil,
  append_assoc, arith, leb, if◌then◌else◌, le→leb, Bool-cases, length, take, concat, length-append,
  All, Result, ok, bind_result,
}
use nestory.Common.Bytes.{Bytes}
use nestory.Wal.Replay.{LogFile, missing, contents}
use nestory.Wal.Replay.Scan.{scan}
use nestory.Wal.Replay.Frames.{
  next_frame_short, length-encoded, Codec, IsLog, next_frame-torn_then, scan-IsLog, scan-part,
}
use nestory.Wal.Log.{Holds}

module _ {E Row Out : Type 0} (c : Codec Row) (recover : List Row → Result E (List Out))
    (recover_nil : recover [] ≡ ok [])
    (recover_append : (xs ys : List Row)
      → recover (xs ++ ys)
        ≡ bind_result (recover xs) (λ a. bind_result (recover ys) (λ b. ok (a ++ b))))
    (replay : LogFile → Result E (List Out)) (replay_missing : replay missing ≡ ok [])
    (replay_contents : (b : Bytes)
      → replay (contents b) ≡ scan c.decode recover (suc (length b)) b) where
  pub replay-Holds :
      (file : LogFile) (frames : List (List Row)) (bytes : Bytes)
      → Holds file bytes
      → IsLog c frames bytes
      → replay file ≡ recover (concat frames)
  replay-Holds file frames bytes (inl e) log =
      rw (e, replay_contents bytes, ← append-nil bytes)
        (scan-IsLog c recover recover_nil recover_append frames bytes [] _ log
          (next_frame_short c.decode [] (omega arith)) (omega arith))
  replay-Holds file [] bytes (inr (e, none_there)) log = rw (e, replay_missing, recover_nil)
  replay-Holds file (rows ∷ frames) bytes (inr (e, none_there)) (x, rest, enc, fit, log, split) =
      absurd (
        omega (
          arith,
          length-encoded c rows x enc fit,
          ap length none_there,
          ap length split,
          length-append {0} x rest,
        ))

  module _ (file : LogFile) (frames : List (List Row)) (bytes : Bytes) (rows : List Row) (k : ℕ)
      (log : IsLog c frames bytes) (fit : All c.IsFit rows) where
    replay-part :
        (e : Bytes)
        → c.encode rows ≡ some e
        → file ≡ contents (bytes ++ take k e)
        → replay file ≡ recover (if leb (length e) k then concat frames ++ rows else concat frames)
    replay-part e enc now =
        rw (now, replay_contents (bytes ++ take k e))
          (scan-part c recover recover_nil recover_append frames bytes rows e k log enc fit)

    pub replay_atomic :
        Holds file bytes
          ⊎ ((e : Bytes) × (c.encode rows ≡ some e) × (file ≡ contents (bytes ++ take k e)))
        → (replay file ≡ recover (concat frames)) ⊎ (replay file ≡ recover (concat frames ++ rows))
    replay_atomic (inl same) = inl (replay-Holds file frames bytes same log)
    replay_atomic (inr (e, enc, now)) = elim (Bool-cases (leb (length e) k)) [
      | inl all ↦ inr (replay-part e enc now ∙ rw all)
      | inr cut ↦ inl (replay-part e enc now ∙ rw cut)
    ]

    pub replay_durable :
        ((e : Bytes) × (c.encode rows ≡ some e)
          × (length e ≤ k)
          × (file ≡ contents (bytes ++ take k e)))
        → replay file ≡ recover (concat frames ++ rows)
    replay_durable (e, enc, whole, now) = replay-part e enc now ∙ rw (le→leb (length e) k whole)

  -- A frame that was cut hides what was written behind it.
  pub replay_torn_then :
      (file : LogFile) (frames : List (List Row)) (bytes : Bytes) (rows : List Row) (k : ℕ)
      (e more : Bytes)
      → IsLog c frames bytes
      → All c.IsFit rows
      → c.encode rows ≡ some e
      → 4 ≤ k
      → k + length more < length e
      → file ≡ contents ((bytes ++ take k e) ++ more)
      → replay file ≡ recover (concat frames)
  replay_torn_then file frames bytes rows k e more log fit enc few short now =
      rw (now, replay_contents _, append_assoc bytes (take k e) more)
        (scan-IsLog c recover recover_nil recover_append frames bytes (take k e ++ more) _ log
          (next_frame-torn_then c rows e more k enc fit few short) (omega arith))
