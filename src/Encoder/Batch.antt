-- ===== src/Encoder/Batch.antt =====
-- EncodeBatch and Decode, which choose by the mode.
use go_project.Base.{
  ℕ, ◌<◌, ◌≡◌, refl, ap, ◌∙◌, ◌≢◌, List, [], ◌∷◌, length, arith, All, length-append,
}
use go_project.Float64.{Float64}
use go_project.Encoder.{
  DataPoint, CompressionMode, compress_none, compress_delta, compress_delta_delta, returned,
  encode_raw, decode_raw, encode_delta, decode_delta,
}
use go_project.Encoder.Record.{length-encode_base}
use go_project.Encoder.Delta.{IsTimed, quantise, decode_raw-encode_raw, decode_delta-encode_delta}
use go_project.Encoder.DeltaDelta.{encode_batch, decode}

module _ (F : Float64) where
  open F use {Value}

  decode_none :
      (d spare : List ℕ) → 0 < length d → decode F compress_none d spare ≡ returned (decode_raw F d)
  unfolding decode
  decode_none [] spare h = absurd (omega arith)
  decode_none (b ∷ d) spare h = refl

  decode_some :
      (d spare : List ℕ)
      → 0 < length d
      → decode F compress_delta d spare ≡ returned (decode_delta F d)
  unfolding decode
  decode_some [] spare h = absurd (omega arith)
  decode_some (b ∷ d) spare h = refl

  -- What the two modes without second differences give back.
  abbrev pub restored : CompressionMode → List (DataPoint Value) → List (DataPoint Value)
  restored mode [] = []
  restored compress_delta (p ∷ ps) = p ∷ quantise F p.value p.value ps
  restored mode (p ∷ ps) = p ∷ ps

  -- In a mode other than that of the second differences, and with times that are int64 patterns, a
  -- batch is read back: exactly in the raw mode, and in the delta mode with all times exact and the
  -- values quantised.
  pub decode-encode_batch :
      (mode : CompressionMode) (ps : List (DataPoint Value)) (spare : List ℕ)
      → mode ≢ compress_delta_delta
      → All IsTimed ps
      → decode F mode (encode_batch F mode ps) spare ≡ returned (restored mode ps)
  unfolding encode_batch
  decode-encode_batch mode [] spare m h = unfold decode in refl
  decode-encode_batch compress_none (p ∷ ps) spare m h =
      decode_none (encode_raw F (p ∷ ps)) spare
        (unfold encode_raw in rw length-append (omega (arith, length-encode_base F p)))
      ∙ ap returned (decode_raw-encode_raw F (p ∷ ps) h)
  decode-encode_batch compress_delta (p ∷ ps) spare m h =
      decode_some (encode_delta F (p ∷ ps)) spare
        (unfold encode_delta in rw length-append (omega (arith, length-encode_base F p)))
      ∙ ap returned (decode_delta-encode_delta F p ps h)
  decode-encode_batch compress_delta_delta (p ∷ ps) spare m h = absurd (m refl)
