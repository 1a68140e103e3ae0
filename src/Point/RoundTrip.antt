-- ===== src/Point/RoundTrip.antt =====
-- EncodeSimplePoint and DecodeSimplePoint undo one another.
use go_project.Base.{ℕ, ◌+◌, ◌*◌, ◌<◌, ◌≡◌, List, ◌++◌, length, some, none, arith, drop, ◌⊎◌, ◌↔◌}
use go_project.Bytes.{little_endian}
use go_project.Point.{
  SimpleDataPoint, IsPoint, point, encode_simple_point, decode_simple_point, next_point,
}
use go_project.Point.Layout.{next_point-encode_point, length-encode_point}

pub next_point-encode_simple_point :
    (p : SimpleDataPoint) (rest : List ℕ)
    → IsPoint p
    → next_point little_endian (encode_simple_point p ++ rest) ≡ point p rest
unfolding encode_simple_point
next_point-encode_simple_point p rest h = next_point-encode_point little_endian p rest h

-- Decoding the bytes of a point whose fields fit gives the point back, whatever bytes follow.
pub decode_simple_point-encode_simple_point :
    (p : SimpleDataPoint) (rest : List ℕ)
    → IsPoint p
    → decode_simple_point (encode_simple_point p ++ rest) ≡ some p
unfolding decode_simple_point encode_simple_point
decode_simple_point-encode_simple_point p rest h =
    ground (arith, next_point-encode_point little_endian p rest h)

pub length-encode_simple_point :
    (p : SimpleDataPoint) → length (encode_simple_point p) ≡ 10 + length p.values * 4
unfolding encode_simple_point
length-encode_simple_point p = length-encode_point little_endian p

-- Decoding answers nil exactly on an input that is shorter than the ten header bytes, or than the
-- length that the header announces.
pub decode_simple_point-eq-none :
    (d : List ℕ)
    → (decode_simple_point d ≡ none)
      ↔ ((length d < 10) ⊎ (length d < 10 + little_endian.get 2 (drop 8 d) * 4))
unfolding decode_simple_point next_point
decode_simple_point-eq-none d = ground arith
