-- ===== src/Wal/Replay/Frames.antt =====
-- What the replay of a log reads, for any frame codec that puts the length of a body before it.
use nestory.Common.{
  concat-append, leb→le, take_all, leb, sym, append-nil, if◌then◌else◌, ℕ, zero, suc, ◌+◌, ◌^◌, ◌≤◌,
  ◌<◌, ◌≡◌, refl, ap, ◌∙◌, inl, inr, true, false, Option, none, some, List, [], ◌∷◌, ◌++◌,
  append_assoc, arith, ltb, lt→ltb, ltb→ge, ge→ltb, tests, Bool-cases, length, take, drop, concat,
  take-take, length-append, length-take, length-drop, take_front, drop_front, All, Result, ok,
  bind_result, bind_option,
}
use nestory.Common.Bytes.{Bytes, put_be, be_value, length-put_be, be_value-put_be}
use nestory.Wal.Replay.Scan.{next_frame, scan}

-- the two codecs of wal.go, and what the replay needs of them
pub record Codec (Row : Type 0) : Type 1 where
  pub encode : List Row → Option Bytes
  pub decode : Bytes → Option (List Row)
  pub IsFit : Row → Type 0
  pub framed :
      (rows : List Row) (bytes : Bytes)
      → encode rows ≡ some bytes
      → All IsFit rows
      → (body : Bytes) × (bytes ≡ put_be 4 (length body) ++ body)
        × (length body < 2 ^ 32)
        × (decode body ≡ some rows)

-- the bytes of a log that holds these frames, each of them encoded whole
abbrev pub IsLog : {Row : Type 0} → Codec Row → List (List Row) → Bytes → Type 0
IsLog c [] bytes = bytes ≡ []
IsLog c (rows ∷ frames) bytes =
    (e : Bytes) × (rest : Bytes) × (c.encode rows ≡ some e)
    × All c.IsFit rows
    × IsLog c frames rest
    × (bytes ≡ e ++ rest)

next_frame_at :
    {Row : Type 0} (decode : Bytes → Option (List Row)) (body rest : Bytes)
    → length body < 2 ^ 32
    → next_frame decode (put_be 4 (length body) ++ (body ++ rest))
      ≡ bind_option (decode body) (λ rows. some (rows, rest))
unfolding next_frame
next_frame_at decode body rest small =
    let hdr = put_be 4 (length body) in
    let long : ltb (length (hdr ++ (body ++ rest))) 4 ≡ false =
      ge→ltb _ _
        (omega (arith, length-append {0} hdr (body ++ rest), length-put_be 4 (length body))) in
    let enough : ltb (length (body ++ rest)) (length body) ≡ false =
      ge→ltb _ _ (omega (arith, length-append {0} body rest)) in
    rw (
      long,
      take_front 4 hdr (body ++ rest) (length-put_be 4 _),
      drop_front 4 hdr (body ++ rest) (length-put_be 4 _),
      be_value-put_be 4 (length body) small,
      enough,
      take_front (length body) body rest refl,
      drop_front (length body) body rest refl,
    )

pub next_frame_short :
    {Row : Type 0} (decode : Bytes → Option (List Row)) (bytes : Bytes)
    → length bytes < 4
    → next_frame decode bytes ≡ none
unfolding next_frame
next_frame_short decode bytes h = rw (lt→ltb _ _ h)

-- a header that announces more than there is
pub next_frame_cut :
    {Row : Type 0} (decode : Bytes → Option (List Row)) (bytes : Bytes)
    → 4 ≤ length bytes
    → length bytes < 4 + be_value (take 4 bytes)
    → next_frame decode bytes ≡ none
unfolding next_frame
next_frame_cut decode bytes long short =
    let cut : ltb (length (drop 4 bytes)) (be_value (take 4 bytes)) ≡ true =
      lt→ltb _ _ (omega (arith, length-drop {0} 4 bytes)) in
    rw (ge→ltb _ _ long, cut)

module _ {Row : Type 0} (c : Codec Row) where
  pub next_frame-encoded :
      (rows : List Row) (e rest : Bytes)
      → c.encode rows ≡ some e
      → All c.IsFit rows
      → next_frame c.decode (e ++ rest) ≡ some (rows, rest)
  next_frame-encoded rows e rest h fit =
      let (body, split, small, back) = c.framed rows e h fit in
      rw (split, append_assoc (put_be 4 (length body)) body rest)
        (next_frame_at c.decode body rest small ∙ rw back)

  pub length-encoded :
      (rows : List Row) (e : Bytes) → c.encode rows ≡ some e → All c.IsFit rows → 4 ≤ length e
  length-encoded rows e h fit =
      let (body, split, _, _) = c.framed rows e h fit in
      omega (
        arith,
        ap length split,
        length-append {0} (put_be 4 (length body)) body,
        length-put_be 4 (length body),
      )

  pub next_frame-torn :
      (rows : List Row) (e : Bytes) (k : ℕ)
      → c.encode rows ≡ some e
      → All c.IsFit rows
      → k < length e
      → next_frame c.decode (take k e) ≡ none
  next_frame-torn rows e k h fit lt =
      let (body, split, small, back) = c.framed rows e h fit in
      let size : length e ≡ 4 + length body = rw split (
        omega (
          arith,
          length-append {0} (put_be 4 (length body)) body,
          length-put_be 4 (length body),
        )) in
      let hdr : take 4 e ≡ put_be 4 (length body) =
        ap (take 4) split ∙ take_front 4 (put_be 4 (length body)) body (length-put_be 4 _) in
      let cut : length (take k e) ≡ k = omega (arith, length-take {0} k e) in
      elim (Bool-cases (ltb k 4)) [
        | inl few ↦ next_frame_short c.decode (take k e) (omega (tests, few))
        | inr many ↦
            let value : be_value (take 4 (take k e)) ≡ length body =
              rw (take-take 4 k e (ltb→ge k 4 many), hdr) (be_value-put_be 4 _ small) in
            next_frame_cut c.decode (take k e) (omega (tests, ltb→ge k 4 many)) (omega arith)
      ]

  -- A frame that was cut behind its header, and bytes that do not make up for what is missing.
  pub next_frame-torn_then :
      (rows : List Row) (e more : Bytes) (k : ℕ)
      → c.encode rows ≡ some e
      → All c.IsFit rows
      → 4 ≤ k
      → k + length more < length e
      → next_frame c.decode (take k e ++ more) ≡ none
  next_frame-torn_then rows e more k h fit few lt =
      let (body, split, small, back) = c.framed rows e h fit in
      let torn = take k e ++ more in
      let size : length e ≡ 4 + length body = omega (
        arith,
        ap length split,
        length-append {0} (put_be 4 (length body)) body,
        length-put_be 4 (length body),
      ) in
      let cut : length (take k e) ≡ k = omega (arith, length-take {0} k e) in
      let front : take 4 torn ≡ take 4 e =
        sym (take-take 4 k torn few)
        ∙ ap (take 4) (take_front k (take k e) more cut)
        ∙ take-take 4 k e few in
      let value : be_value (take 4 torn) ≡ length body =
        ap be_value (
          front
          ∙ ap (take 4) split
          ∙ take_front 4 (put_be 4 (length body)) body (length-put_be 4 _))
        ∙ be_value-put_be 4 _ small in
      next_frame_cut c.decode torn (omega (arith, length-append {0} (take k e) more))
        (omega (arith, length-append {0} (take k e) more))

  pub IsLog-append :
      (frames : List (List Row)) (bytes : Bytes) (rows : List Row) (e : Bytes)
      → IsLog c frames bytes
      → c.encode rows ≡ some e
      → All c.IsFit rows
      → IsLog c (frames ++ rows ∷ []) (bytes ++ e)
  IsLog-append [] bytes rows e log enc fit = (e, [], enc, fit, refl, rw (log, append-nil e))
  IsLog-append (f ∷ frames) bytes rows e (e', rest, enc', fit', log, split) enc fit = (
    e',
    rest ++ e,
    enc',
    fit',
    IsLog-append frames rest rows e log enc fit,
    rw (split, append_assoc e' rest e),
  )

module _ {E Row Out : Type 0} (c : Codec Row) (recover : List Row → Result E (List Out))
    (recover_nil : recover [] ≡ ok [])
    (recover_append : (xs ys : List Row)
      → recover (xs ++ ys)
        ≡ bind_result (recover xs) (λ a. bind_result (recover ys) (λ b. ok (a ++ b)))) where
  -- The replay of whole frames and what follows them, where that is no frame, recovers the rows of
  -- the frames.
  pub scan-IsLog :
      (frames : List (List Row)) (bytes torn : Bytes) (fuel : ℕ)
      → IsLog c frames bytes
      → next_frame c.decode torn ≡ none
      → length (bytes ++ torn) < fuel
      → scan c.decode recover fuel (bytes ++ torn) ≡ recover (concat frames)
  unfolding scan
  scan-IsLog frames bytes torn zero log end lt = elim lt [ ]
  scan-IsLog [] bytes torn (suc fuel) log end lt = rw (log, end, scan, recover_nil)
  scan-IsLog (rows ∷ frames) bytes torn (suc fuel) (e, rest, enc, fit, log, split) end lt =
      let shorter : length (rest ++ torn) < fuel = omega (
        arith,
        lt,
        ap length split,
        length-encoded c rows e enc fit,
        length-append {0} bytes torn,
        length-append {0} e rest,
        length-append {0} rest torn,
      ) in
      rw (
        split,
        append_assoc e rest torn,
        next_frame-encoded c rows e (rest ++ torn) enc fit,
        scan,
        scan-IsLog frames rest torn fuel log end shorter,
        recover_append rows (concat frames),
      )

  -- A log with whole frames and a part of one more: the rows of that one are read all or not at all.
  pub scan-part :
      (frames : List (List Row)) (bytes : Bytes) (rows : List Row) (e : Bytes) (k : ℕ)
      → IsLog c frames bytes
      → c.encode rows ≡ some e
      → All c.IsFit rows
      → let log = bytes ++ take k e in
        scan c.decode recover (suc (length log)) log
        ≡ recover (if leb (length e) k then concat frames ++ rows else concat frames)
  scan-part frames bytes rows e k log enc fit = elim (Bool-cases (leb (length e) k)) [
    | inr cut ↦ rw cut (
        scan-IsLog frames bytes (take k e) _ log (next_frame-torn c rows e k enc fit (ground arith))
          (omega arith))
    | inl all ↦
        rw
          (
            all,
            take_all e k (leb→le _ _ all),
            ← append-nil rows,
            ← concat-append frames (rows ∷ []),
            ← append-nil (bytes ++ e),
          )
          (scan-IsLog (frames ++ rows ∷ []) (bytes ++ e) [] _
            (IsLog-append c frames bytes rows e log enc fit)
            (next_frame_short c.decode [] (omega arith)) (omega arith))
  ]
