-- ===== src/Encoder/Delta.antt =====
-- What decoding a raw or a delta block gives back.
use go_project.Base.{
  ℕ, zero, suc, ◌+◌, ◌*◌, ◌/◌, ◌≤◌, ◌<◌, ◌≡◌, refl, ap, ◌∙◌, List, [], ◌∷◌, ◌++◌, some, map, length,
  arith, All, length-append, le→ltb,
}
use go_project.Int64
use go_project.Int64.{IsWord}
use go_project.Float64.{Float64}
use go_project.Encoder.{
  DataPoint, encode_base, encode_raw, decode_raw, decode_raw_loop, to_milli, of_milli,
  encode_record, encode_deltas, encode_delta, next_record, decode_deltas, decode_delta,
}
use go_project.Encoder.Record.{
  length-encode_base, drop-encode_base, decode_base-encode_base, next_record-encode_record,
}

abbrev pub IsTimed {ℓ} : {V : Type ℓ} → DataPoint V → Type 0
IsTimed p = IsWord p.time

module _ (F : Float64) where
  open F use {Value, plus, minus}

  length-encode_raw : (ps : List (DataPoint Value)) → length (encode_raw F ps) ≡ 16 * length ps
  unfolding encode_raw
  length-encode_raw [] = refl
  length-encode_raw (p ∷ ps) =
      rw length-append (omega (arith, length-encode_base F p, length-encode_raw ps))

  decode_raw_loop-encode_raw :
      (ps : List (DataPoint Value))
      → All IsTimed ps
      → decode_raw_loop F (length ps) (encode_raw F ps) ≡ ps
  unfolding encode_raw decode_raw_loop
  decode_raw_loop-encode_raw [] h = refl
  decode_raw_loop-encode_raw (p ∷ ps) (hp, hps) = rw (
    decode_base-encode_base F p (encode_raw F ps) hp,
    drop-encode_base F p (encode_raw F ps),
    decode_raw_loop-encode_raw ps hps,
  )

  -- A raw block is read back exactly.
  pub decode_raw-encode_raw :
      (ps : List (DataPoint Value)) → All IsTimed ps → decode_raw F (encode_raw F ps) ≡ ps
  unfolding decode_raw
  decode_raw-encode_raw ps h =
      let count : length (encode_raw F ps) / 16 ≡ length ps = omega (arith, length-encode_raw ps) in
      rw count (decode_raw_loop-encode_raw ps h)

  -- The values that a reader of a delta block gets: each adds the difference of two original
  -- values, cut to thousandths, to what has been read so far.
  unfoldable pub quantise : Value → Value → List (DataPoint Value) → List (DataPoint Value)
  quantise last read [] = []
  quantise last read (p ∷ ps) =
      let v : Value = plus read (of_milli F (to_milli F (minus p.value last))) in
      record { time = p.time; value = v } ∷ quantise p.value v ps

  decode_deltas_step :
      (fuel : ℕ) (last : DataPoint Value) (d : List ℕ) (t : ℕ) (v : Value) (rest : List ℕ)
      → next_record F d ≡ some (t, v, rest)
      → decode_deltas F (suc fuel) last d
        ≡ record { time = Int64.add last.time t; value = plus last.value v }
          ∷ decode_deltas F fuel
              (record { time = Int64.add last.time t; value = plus last.value v })
              rest
  unfolding decode_deltas
  decode_deltas_step fuel last d t v rest e = rw (e, decode_deltas)

  deltas_size :
      (p : DataPoint Value) (ps : List (DataPoint Value)) (last : DataPoint Value)
      → length (encode_deltas F p ps) < length (encode_deltas F last (p ∷ ps))
  unfolding encode_deltas encode_record
  deltas_size p ps last = rw length-append (omega arith)

  decode_deltas-encode_deltas :
      (ps : List (DataPoint Value)) (fuel : ℕ) (last : DataPoint Value) (read : Value)
      → IsTimed last
      → All IsTimed ps
      → length (encode_deltas F last ps) ≤ fuel
      → decode_deltas F fuel (record { time = last.time; value = read }) (encode_deltas F last ps)
        ≡ quantise last.value read ps
  unfolding encode_deltas quantise
  decode_deltas-encode_deltas [] zero last read hl h f = unfold decode_deltas in refl
  decode_deltas-encode_deltas [] (suc fuel) last read hl h f =
      unfold decode_deltas next_record in refl
  decode_deltas-encode_deltas (p ∷ ps) zero last read hl h f =
      absurd (omega (arith, deltas_size p ps last))
  decode_deltas-encode_deltas (p ∷ ps) (suc fuel) last read hl (hp, hps) f =
      let v : Value = plus read (of_milli F (to_milli F (minus p.value last.value))) in
      decode_deltas_step fuel _ _ _ _ _
        (next_record-encode_record F _ _ (encode_deltas F p ps) (Int64.sub-IsWord p.time last.time))
      ∙ rw (Int64.add-sub p.time last.time hp hl) (
          ap (λ (l : List (DataPoint Value)). record { time = p.time; value = v } ∷ l)
            (decode_deltas-encode_deltas ps fuel p v hp hps (omega (arith, deltas_size p ps last))))

  -- Decoding a delta block gives the first point exactly, every later time exactly, and the
  -- quantised values.
  pub decode_delta-encode_delta :
      (p : DataPoint Value) (ps : List (DataPoint Value))
      → All IsTimed (p ∷ ps)
      → decode_delta F (encode_delta F (p ∷ ps)) ≡ p ∷ quantise p.value p.value ps
  unfolding decode_delta encode_delta
  decode_delta-encode_delta p ps (hp, hps) =
      let size : length (encode_base F p ++ encode_deltas F p ps)
          ≡ 16 + length (encode_deltas F p ps) =
        length-append (encode_base F p) _ ∙ omega (arith, length-encode_base F p) in
      rw
        (
          le→ltb (length (encode_base F p ++ encode_deltas F p ps)) 16 (omega (arith, size)),
          decode_base-encode_base F p (encode_deltas F p ps) hp,
          drop-encode_base F p (encode_deltas F p ps),
        )
        (ap (λ (l : List (DataPoint Value)). p ∷ l)
          (decode_deltas-encode_deltas ps _ p p.value hp hps (omega (arith, size))))

  map-quantise :
      (ps : List (DataPoint Value)) (last read : Value)
      → map (λ (p : DataPoint Value). p.time) (quantise last read ps) ≡ map (λ p. p.time) ps
  unfolding quantise
  map-quantise [] last read = refl
  map-quantise (p ∷ ps) last read = cc (map-quantise ps p.value _)

  -- Where the times are int64 patterns, decoding a delta block gives the times of the encoded points,
  -- all of them and in order.
  pub delta_times :
      (ps : List (DataPoint Value))
      → All IsTimed ps
      → map (λ (p : DataPoint Value). p.time) (decode_delta F (encode_delta F ps))
        ≡ map (λ p. p.time) ps
  delta_times [] h = unfold decode_delta encode_delta in refl
  delta_times (p ∷ ps) h =
      rw (decode_delta-encode_delta p ps h) (cc (map-quantise ps p.value p.value))
