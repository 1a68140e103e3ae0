-- ===== src/Encoder.antt =====
-- tffiles/encoder.go: OptimizedEncoder, over a float64 that is taken as a parameter.
pub mod Record
pub mod Delta
pub mod DeltaDelta
pub mod Batch
use Prim.Native.Nat.{bit_and, bit_or}
use go_project.Base.{
  ℕ, zero, suc, ◌+◌, ◌*◌, ◌/◌, ◌%◌, List, [], ◌∷◌, ◌++◌, Option, none, some, length, take, drop,
  ltb, leb, if◌then◌else◌,
}
use go_project.Bytes.{le_bytes, get_le}
use go_project.Int64
use go_project.Float64.{Float64}
use go_project.Varint.{encode_varint, decode_varint}

pub data CompressionMode : Type 0 where
  compress_none compress_delta compress_delta_delta : CompressionMode

-- A decoder's result, or a run-time panic.
pub data Outcome {ℓ} (A : Type ℓ) : Type ℓ where
  returned : A → Outcome A
  panicked : Outcome A

pub record DataPoint {ℓ} (V : Type ℓ) : Type ℓ where
  pub time : ℕ
  pub value : V

module _ (F : Float64) where
  open F use {
    Value, plus, minus, times, over, thousand, of_int64, to_int64, to_bits, of_bits, of_uint64,
    to_uint64,
  }

  -- The sixteen bytes of a point.
  unfoldable pub encode_base : DataPoint Value → List ℕ
  encode_base p = le_bytes 8 p.time ++ le_bytes 8 (to_bits p.value)

  unfoldable pub decode_base : List ℕ → DataPoint Value
  decode_base d = record { time = get_le 8 d; value = of_bits (get_le 8 (drop 8 d)) }

  unfoldable pub encode_raw : List (DataPoint Value) → List ℕ
  encode_raw [] = []
  encode_raw (p ∷ ps) = encode_base p ++ encode_raw ps

  unfoldable pub decode_raw_loop : ℕ → List ℕ → List (DataPoint Value)
  decode_raw_loop zero d = []
  decode_raw_loop (suc count) d = decode_base d ∷ decode_raw_loop count (drop 16 d)

  unfoldable pub decode_raw : List ℕ → List (DataPoint Value)
  decode_raw d = decode_raw_loop (length d / 16) d

  -- int64(delta * 1000), and float64(x) / 1000
  unfoldable pub to_milli : Value → ℕ
  to_milli v = to_int64 (times v thousand)

  unfoldable pub of_milli : ℕ → Value
  of_milli n = over (of_int64 n) thousand

  -- The flags byte holds the two lengths; then come the two differences.
  unfoldable pub encode_record : ℕ → Value → List ℕ
  encode_record time_delta value_delta =
      let time_encoded = encode_varint time_delta in
      let value_encoded = encode_varint (to_milli value_delta) in
      bit_or (bit_or 0 (length time_encoded % 256 * 16 % 256)) (length value_encoded % 256)
      ∷ (time_encoded ++ value_encoded)

  unfoldable pub encode_deltas : DataPoint Value → List (DataPoint Value) → List ℕ
  encode_deltas last [] = []
  encode_deltas last (p ∷ ps) =
      encode_record (Int64.sub p.time last.time) (minus p.value last.value) ++ encode_deltas p ps

  unfoldable pub encode_delta : List (DataPoint Value) → List ℕ
  encode_delta [] = []
  encode_delta (p ∷ ps) = encode_base p ++ encode_deltas p ps

  -- The two differences at the front of `data[offset:]`, and what follows them. `none` ends the
  -- loop: the slice is empty, or the record runs past its end.
  unfoldable pub next_record : List ℕ → Option (ℕ × Value × List ℕ)
  next_record [] = none
  next_record (flags ∷ d) =
      let time_len = flags / 16 in
      let value_len = bit_and flags 0x0f in
      if ltb (length d) (time_len + value_len)
      then none
      else some (
        decode_varint (take time_len d),
        of_milli (decode_varint (take value_len (drop time_len d))),
        drop (time_len + value_len) d,
      )

  -- Each round takes a byte at least.
  unfoldable pub decode_deltas : ℕ → DataPoint Value → List ℕ → List (DataPoint Value)
  decode_deltas zero last d = []
  decode_deltas (suc fuel) last d = elim (next_record d) [
    | none ↦ []
    | some (time_delta, value_delta, rest) ↦
        let p : DataPoint Value = record {
          time = Int64.add last.time time_delta;
          value = plus last.value value_delta;
        } in
        p ∷ decode_deltas fuel p rest
  ]

  unfoldable pub decode_delta : List ℕ → List (DataPoint Value)
  decode_delta d =
      if ltb (length d) 16
      then []
      else let first = decode_base d in first ∷ decode_deltas (length d) first (drop 16 d)
