-- ===== src/Encoder/Record.antt =====
-- One record of two differences, and one point of sixteen bytes, written and read back.
use Prim.Native.Nat.{bit_and, bit_or}
use go_project.Base.{
  ℕ, ◌+◌, ◌*◌, ◌/◌, ◌%◌, ◌≤◌, ◌<◌, ◌≡◌, refl, ap, ◌∙◌, List, [], ◌∷◌, ◌++◌, some, length, arith,
  take, drop, take-append, drop-append, length-append, append_assoc, le→ltb, length-drop,
}
use go_project.Bytes.{le_bytes, length-le_bytes, get_le-le_bytes, little_endian, drop-put}
use go_project.Bits.{two_lengths, low_half}
use go_project.Int64.{IsWord}
use go_project.Float64.{Float64}
use go_project.Varint.{encode_varint, decode_varint}
use go_project.Varint.RoundTrip.{length-encode_varint, decode_varint-encode_varint}
use go_project.Encoder.{
  DataPoint, encode_base, decode_base, to_milli, of_milli, encode_record, next_record,
}

flags_read :
    (a b : ℕ)
    → a ≤ 10
    → b ≤ 10
    → (bit_or (bit_or 0 (a % 256 * 16 % 256)) (b % 256) / 16 ≡ a)
      × (bit_and (bit_or (bit_or 0 (a % 256 * 16 % 256)) (b % 256)) 0x0f ≡ b)
flags_read a b ha hb =
    rw (two_lengths a b ha hb) (omega arith, low_half (a * 16 + b) (omega arith) ∙ omega arith)

module _ (F : Float64) where
  open F use {
    Value, times, thousand, to_int64_fits, to_bits, of_bits, to_bits_fits, of_bits-to_bits,
  }

  pub length-encode_base : (p : DataPoint Value) → length (encode_base F p) ≡ 16
  unfolding encode_base
  length-encode_base p =
      rw length-append
        (omega (arith, length-le_bytes 8 p.time, length-le_bytes 8 (to_bits p.value)))

  pub drop-encode_base :
      (p : DataPoint Value) (rest : List ℕ) → drop 16 (encode_base F p ++ rest) ≡ rest
  drop-encode_base p rest = drop-append 16 (encode_base F p) rest (length-encode_base p)

  pub decode_base-encode_base :
      (p : DataPoint Value) (rest : List ℕ)
      → IsWord p.time
      → decode_base F (encode_base F p ++ rest) ≡ p
  unfolding decode_base encode_base
  decode_base-encode_base p rest h = simp (
    append_assoc,
    get_le-le_bytes 8 p.time (le_bytes 8 (to_bits p.value) ++ rest) h,
    drop-put little_endian,
    get_le-le_bytes 8 (to_bits p.value) rest (to_bits_fits p.value),
    of_bits-to_bits,
  )

  to_milli-IsWord : (v : Value) → IsWord (to_milli F v)
  unfolding to_milli
  to_milli-IsWord v = to_int64_fits (times v thousand)

  module _ (t : ℕ) (v : Value) (rest : List ℕ) (h : IsWord t) where
    abbrev a : List ℕ
    a = encode_varint t

    abbrev b : List ℕ
    b = encode_varint (to_milli F v)

    joined : (a ++ b) ++ rest ≡ a ++ (b ++ rest)
    joined = append_assoc a b rest

    size : length ((a ++ b) ++ rest) ≡ length a + length b + length rest
    size = length-append (a ++ b) rest ∙ omega (arith, length-append a b)

    after_time : drop (length a) ((a ++ b) ++ rest) ≡ b ++ rest
    after_time = ap (drop (length a)) joined ∙ drop-append _ a _ refl

    read_time : decode_varint (take (length a) ((a ++ b) ++ rest)) ≡ t
    read_time =
        ap (λ (l : List ℕ). decode_varint (take (length a) l)) joined
        ∙ ap decode_varint (take-append _ a _ refl)
        ∙ decode_varint-encode_varint t h

    read_value : decode_varint (take (length b) (drop (length a) ((a ++ b) ++ rest))) ≡ to_milli F v
    read_value =
        ap (λ (l : List ℕ). decode_varint (take (length b) l)) after_time
        ∙ ap decode_varint (take-append _ b rest refl)
        ∙ decode_varint-encode_varint _ (to_milli-IsWord v)

    after_both : drop (length a + length b) ((a ++ b) ++ rest) ≡ rest
    after_both = drop-append _ (a ++ b) rest (length-append a b)

    -- The time difference comes back, and the value difference in thousandths.
    pub next_record-encode_record :
        next_record F (encode_record F t v ++ rest) ≡ some (t, of_milli F (to_milli F v), rest)
    unfolding next_record encode_record
    next_record-encode_record =
        let (high, low) =
          flags_read (length a) (length b) (length-encode_varint t).1
            (length-encode_varint (to_milli F v)).1 in
        rw (
          high,
          low,
          le→ltb (length ((a ++ b) ++ rest)) (length a + length b) (omega (arith, size)),
          read_time,
          read_value,
          after_both,
        )

  pub next_record_takes :
      (d : List ℕ) {t : ℕ} {v : Value} {rest : List ℕ}
      → next_record F d ≡ some (t, v, rest)
      → length rest < length d
  unfolding next_record
  next_record_takes [] e = cc
  next_record_takes (flags ∷ d) e = ground (arith, length-drop (flags / 16 + bit_and flags 0x0f) d)
