-- ===== src/Point.antt =====
-- tffiles/simple_datapoint.go: the points that are stored, and their bytes.
-- A float32 is kept as its 32 bits, so math.Float32bits and Float32frombits leave it alone.
pub mod Layout
pub mod RoundTrip
pub mod Device
pub mod Fields
use go_project.Base.{
  ℕ, zero, suc, ◌+◌, ◌*◌, ◌^◌, ◌<◌, ◌≡◌, List, [], ◌∷◌, ◌++◌, length, All, Option, none, some, ltb,
  if◌then◌else◌, drop,
}
use go_project.Bytes.{ByteOrder, little_endian}

pub record SimpleDataPoint : Type 0 where
  pub timestamp : ℕ
  pub values : List ℕ

-- A point whose fields fit their types, with a number of values that fits the count on the wire.
pub record IsPoint (p : SimpleDataPoint) : Type 0 where
  pub stamp_fits : p.timestamp < 2 ^ 64
  pub count_fits : length p.values < 2 ^ 16
  pub values_fit : All (λ v. v < 2 ^ 32) p.values

module _ (b : ByteOrder) where
  unfoldable pub encode_values : List ℕ → List ℕ
  encode_values [] = []
  encode_values (v ∷ vs) = b.put 4 v ++ encode_values vs

  unfoldable pub decode_values : ℕ → List ℕ → List ℕ
  decode_values zero d = []
  decode_values (suc n) d = b.get 4 d ∷ decode_values n (drop 4 d)

  -- [timestamp: 8] [field count: 2] [value: 4] ...; PutUint16 keeps the low 16 bits of the count.
  unfoldable pub encode_point : SimpleDataPoint → List ℕ
  encode_point p = b.put 8 p.timestamp ++ (b.put 2 (length p.values) ++ encode_values p.values)

-- What stands at the front of a slice: fewer bytes than a header, a header whose values run past
-- the end, or a point and what follows it.
pub data Next : Type 0 where
  short : Next
  overrun : ℕ → Next
  point : SimpleDataPoint → List ℕ → Next

module _ (b : ByteOrder) where
  -- The body of the loops that read points, at `d = data[offset:]`.
  unfoldable pub next_point : List ℕ → Next
  next_point d =
      let count = b.get 2 (drop 8 d) in
      let point_len = 10 + count * 4 in
      if ltb (length d) 10
      then short
      else if ltb (length d) point_len
      then overrun count
      else point (record { timestamp = b.get 8 d; values = decode_values b count (drop 10 d) })
          (drop point_len d)

unfoldable pub encode_simple_point : SimpleDataPoint → List ℕ
encode_simple_point p = encode_point little_endian p

-- `none` is the nil pointer, which comes with a nil error.
unfoldable pub decode_simple_point : List ℕ → Option SimpleDataPoint
decode_simple_point d = elim (next_point little_endian d) [
  | short ↦ none
  | overrun n ↦ none
  | point p rest ↦ some p
]
