-- ===== src/Encoder/DeltaDelta.antt =====
-- Second-order differences, and the choice of a mode. A decoder slices `data[offset:offset+8]`
-- here, which Go bounds by the capacity: `spare` is what lies behind the slice in its array.
use go_project.Base.{
  ℕ, zero, suc, ◌+◌, ◌<◌, ◌≡◌, List, [], ◌∷◌, ◌++◌, none, some, length, arith, All, length-append,
  drop, take, ltb, leb, if◌then◌else◌,
}
use go_project.Int64
use go_project.Float64.{Float64}
use go_project.Varint.{encode_varint, decode_varint}
use go_project.Varint.RoundTrip.{length-encode_varint}
use go_project.Encoder.{
  DataPoint, CompressionMode, compress_none, compress_delta, compress_delta_delta, Outcome,
  returned, panicked, encode_base, decode_base, encode_raw, decode_raw, to_milli, of_milli,
  encode_record, encode_delta, next_record, decode_delta,
}
use go_project.Encoder.Record.{length-encode_base, drop-encode_base, decode_base-encode_base}
use go_project.Encoder.Delta.{IsTimed}

module _ (F : Float64) where
  open F use {Value, plus, minus}

  unfoldable pub encode_seconds : DataPoint Value → ℕ → Value → List (DataPoint Value) → List ℕ
  encode_seconds last time_delta value_delta [] = []
  encode_seconds last time_delta value_delta (p ∷ ps) =
      let t = Int64.sub p.time last.time in
      let v = minus p.value last.value in
      encode_record F (Int64.sub t time_delta) (minus v value_delta) ++ encode_seconds p t v ps

  -- The first differences, and the records of the second ones.
  unfoldable pub encode_changes :
      DataPoint Value → DataPoint Value → List (DataPoint Value) → List ℕ
  encode_changes p q [] = []
  encode_changes p q (r ∷ rs) =
      let t = Int64.sub q.time p.time in
      let v = minus q.value p.value in
      encode_varint t ++ (encode_varint (to_milli F v) ++ encode_seconds q t v (r ∷ rs))

  unfoldable pub encode_delta_delta : List (DataPoint Value) → List ℕ
  encode_delta_delta [] = []
  encode_delta_delta (p ∷ []) = encode_base F p
  encode_delta_delta (p ∷ q ∷ rs) = encode_base F p ++ (encode_base F q ++ encode_changes p q rs)

  unfoldable pub decode_seconds : ℕ → DataPoint Value → ℕ → Value → List ℕ → List (DataPoint Value)
  decode_seconds zero last time_delta value_delta d = []
  decode_seconds (suc fuel) last time_delta value_delta d = elim (next_record F d) [
    | none ↦ []
    | some (second_time, second_value, rest) ↦
        let t = Int64.add time_delta second_time in
        let v = plus value_delta second_value in
        let p : DataPoint Value = record {
          time = Int64.add last.time t;
          value = plus last.value v;
        } in
        p ∷ decode_seconds fuel p t v rest
  ]

  unfoldable pub decode_delta_delta : List ℕ → List ℕ → Outcome (List (DataPoint Value))
  decode_delta_delta d spare =
      let p = decode_base F d in
      let q = decode_base F (drop 16 d) in
      let array = d ++ spare in
      let time_base = decode_varint (take 8 (drop 32 array)) in
      let value_base = of_milli F (decode_varint (take 8 (drop 40 array))) in
      if ltb (length d) 32
      then returned []
      else if leb (length d) 32
      then returned (p ∷ q ∷ [])
      else if ltb (length array) 48
      then panicked
      else returned (p ∷ q ∷ decode_seconds (length d) q time_base value_base (drop 48 d))

  unfoldable pub encode_batch : CompressionMode → List (DataPoint Value) → List ℕ
  encode_batch mode [] = []
  encode_batch compress_none (p ∷ ps) = encode_raw F (p ∷ ps)
  encode_batch compress_delta (p ∷ ps) = encode_delta F (p ∷ ps)
  encode_batch compress_delta_delta (p ∷ ps) = encode_delta_delta (p ∷ ps)

  unfoldable pub decode : CompressionMode → List ℕ → List ℕ → Outcome (List (DataPoint Value))
  decode mode [] spare = returned []
  decode compress_none (b ∷ d) spare = returned (decode_raw F (b ∷ d))
  decode compress_delta (b ∷ d) spare = returned (decode_delta F (b ∷ d))
  decode compress_delta_delta (b ∷ d) spare = decode_delta_delta (b ∷ d) spare

  two_bases :
      (p q : DataPoint Value) (rest : List ℕ)
      → length (encode_base F p ++ (encode_base F q ++ rest)) ≡ 32 + length rest
  two_bases p q rest =
      simp length-append (omega (arith, length-encode_base F p, length-encode_base F q))

  changes_pos :
      (p q r : DataPoint Value) (rs : List (DataPoint Value))
      → 0 < length (encode_changes p q (r ∷ rs))
  unfolding encode_changes
  changes_pos p q r rs =
      rw length-append (omega (arith, length-encode_varint (Int64.sub q.time p.time)))

  -- Two points whose times are int64 patterns come back exactly, whatever stands behind the block in
  -- its array.
  pub delta_delta_two :
      (p q : DataPoint Value) (spare : List ℕ)
      → All IsTimed (p ∷ q ∷ [])
      → decode_delta_delta (encode_delta_delta (p ∷ q ∷ [])) spare ≡ returned (p ∷ q ∷ [])
  unfolding decode_delta_delta encode_delta_delta encode_changes
  delta_delta_two p q spare (hp, hq) = ground (
    arith,
    two_bases p q [],
    decode_base-encode_base F p (encode_base F q ++ []) hp,
    drop-encode_base F p (encode_base F q ++ []),
    decode_base-encode_base F q [] hq.0,
  )

  -- A single point is lost: its block is decoded to no point at all.
  pub delta_delta_one :
      (p : DataPoint Value) (spare : List ℕ)
      → decode_delta_delta (encode_delta_delta (p ∷ [])) spare ≡ returned []
  unfolding decode_delta_delta encode_delta_delta
  delta_delta_one p spare = ground (arith, length-encode_base F p)
