-- ===== src/Tcp/Request.antt =====
-- The requests of the protocol, as README.md lays them out, and the bodies that crash a handler.
use go_project.Base.{
  ℕ, suc, ◌+◌, ◌-◌, ◌%◌, ◌^◌, ◌≤◌, ◌<◌, ◌≡◌, ◌↔◌, refl, ap, ◌∙◌, List, [], ◌∷◌, ◌++◌, length, All,
  arith, take, drop, take-append, drop-append, drop-add, length-append, append_assoc, append-nil,
  le→ltb,
}
use go_project.Bytes.{be_bytes, get_be, big_endian, length-be_bytes, get_be-be_bytes, drop-put}
use go_project.Int64.{IsWord}
use go_project.Point.{SimpleDataPoint, IsPoint, encode_point}
use go_project.Point.Layout.{next_point-encode_point}
use go_project.Tcp.{
  all_read, prepend, read_points, write_crashed, write_points, query_crashed, query_range,
  parse_write, parse_query,
}

-- [points, one after the other]
unfoldable pub encode_points : List SimpleDataPoint → List ℕ
encode_points [] = []
encode_points (p ∷ ps) = encode_point big_endian p ++ encode_points ps

-- [device id length: 2] [device id] [number of points: 4] [points]
unfoldable pub encode_write : List ℕ → List SimpleDataPoint → List ℕ
encode_write id ps = be_bytes 2 (length id) ++ (id ++ (be_bytes 4 (length ps) ++ encode_points ps))

-- [device id length: 2] [device id] [start: 8] [end: 8]
unfoldable pub encode_query : List ℕ → ℕ → ℕ → List ℕ
encode_query id start_time end_time =
    be_bytes 2 (length id) ++ (id ++ (be_bytes 8 start_time ++ be_bytes 8 end_time))

read_points_step :
    (rounds i : ℕ) (p : SimpleDataPoint) (rest : List ℕ)
    → IsPoint p
    → read_points (suc rounds) i (encode_point big_endian p ++ rest)
      ≡ prepend p (read_points rounds (i + 1) rest)
unfolding read_points
read_points_step rounds i p rest h = rw (next_point-encode_point big_endian p rest h, read_points)

pub read_points-encode_points :
    (ps : List SimpleDataPoint) (i : ℕ) (rest : List ℕ)
    → All IsPoint ps
    → read_points (length ps) i (encode_points ps ++ rest) ≡ all_read ps
unfolding encode_points
read_points-encode_points [] i rest h = unfold read_points in refl
read_points-encode_points (p ∷ ps) i rest (hp, hps) = rw append_assoc (
    read_points_step (length ps) i p (encode_points ps ++ rest) hp
    ∙ ap (prepend p) (read_points-encode_points ps (i + 1) rest hps))

-- The parts of a body that begins with a device id and goes on with `tail`.
module _ (id tail : List ℕ) (short : length id < 65530) where
  abbrev body : List ℕ
  body = be_bytes 2 (length id) ++ (id ++ tail)

  id_len : get_be 2 body ≡ length id
  id_len = get_be-be_bytes 2 (length id) (id ++ tail) (omega arith)

  size : length body ≡ 2 + length id + length tail
  size =
      length-append (be_bytes 2 (length id)) (id ++ tail)
      ∙ omega (arith, length-be_bytes 2 (length id), length-append id tail)

  after_len : drop 2 body ≡ id ++ tail
  after_len = drop-put big_endian 2 (length id) (id ++ tail)

  after_id : drop (2 + length id) body ≡ tail
  after_id =
      drop-add 2 (length id) body
      ∙ ap (drop (length id)) after_len
      ∙ drop-append (length id) id tail refl

  the_id : take (2 + length id - 2) (drop 2 body) ≡ id
  the_id =
      let same : 2 + length id - 2 ≡ length id = omega arith in
      rw (same, after_len) (take-append (length id) id tail refl)

-- A write request of a device id shorter than 65530 bytes, with points whose fields fit the format
-- and fewer than 2^32 of them, is understood: the handler takes from it the device and all its
-- points, in order.
pub parse_write-encode_write :
    (id : List ℕ) (ps : List SimpleDataPoint)
    → length id < 65530
    → length ps < 2 ^ 32
    → All IsPoint ps
    → parse_write (encode_write id ps) ≡ write_points id (all_read ps)
unfolding parse_write encode_write
parse_write-encode_write id ps hid hps h =
    let tail : List ℕ = be_bytes 4 (length ps) ++ encode_points ps in
    let total = size id tail hid in
    let long : 4 ≤ length tail = rw length-append (omega (arith, length-be_bytes 4 (length ps))) in
    let id_end : (2 + length id) % 65536 ≡ 2 + length id = omega arith in
    let count_end : (6 + length id) % 65536 ≡ 6 + length id = omega arith in
    let checked : (2 + length id + 4) % 65536 ≡ 2 + length id + 4 = omega arith in
    let points : drop (6 + length id) (body id tail hid) ≡ encode_points ps =
      ap (λ (n : ℕ). drop n (body id tail hid)) (omega arith)
      ∙ drop-add (2 + length id) 4 (body id tail hid)
      ∙ ap (drop 4) (after_id id tail hid)
      ∙ drop-put big_endian 4 (length ps) (encode_points ps) in
    rw
      (
        id_len id tail hid,
        id_end,
        count_end,
        checked,
        le→ltb (length (body id tail hid)) 6 (omega arith),
        le→ltb (length (body id tail hid)) (2 + length id + 4) (omega arith),
        le→ltb (2 + length id) 2 (omega arith),
        le→ltb (length (body id tail hid)) (2 + length id) (omega arith),
        le→ltb (6 + length id) (2 + length id) (omega arith),
        le→ltb (length (body id tail hid)) (6 + length id) (omega arith),
        the_id id tail hid,
        after_id id tail hid,
        points,
        get_be-be_bytes 4 (length ps) (encode_points ps) hps,
      )
      (ap (write_points id) (rw append-nil at (read_points-encode_points ps 0 [] h)))

-- A query that the protocol describes is understood: the device and the two times.
pub parse_query-encode_query :
    (id : List ℕ) (start_time end_time : ℕ)
    → length id < 65518
    → IsWord start_time
    → IsWord end_time
    → parse_query (encode_query id start_time end_time) ≡ query_range id start_time end_time
unfolding parse_query encode_query
parse_query-encode_query id start_time end_time hid hs he =
    let short : length id < 65530 = omega arith in
    let tail : List ℕ = be_bytes 8 start_time ++ be_bytes 8 end_time in
    let total = size id tail short in
    let long : length tail ≡ 16 =
      rw length-append (omega (arith, length-be_bytes 8 start_time, length-be_bytes 8 end_time)) in
    let id_end : (2 + length id) % 65536 ≡ 2 + length id = omega arith in
    let start_end : (10 + length id) % 65536 ≡ 10 + length id = omega arith in
    let end_end : (18 + length id) % 65536 ≡ 18 + length id = omega arith in
    let checked : (2 + length id + 16) % 65536 ≡ 2 + length id + 16 = omega arith in
    let ending : drop (10 + length id) (body id tail short) ≡ be_bytes 8 end_time =
      ap (λ (n : ℕ). drop n (body id tail short)) (omega arith)
      ∙ drop-add (2 + length id) 8 (body id tail short)
      ∙ ap (drop 8) (after_id id tail short)
      ∙ drop-put big_endian 8 start_time (be_bytes 8 end_time) in
    let read_end : get_be 8 (be_bytes 8 end_time) ≡ end_time =
      rw append-nil at (get_be-be_bytes 8 end_time [] he) in
    rw (
      id_len id tail short,
      id_end,
      start_end,
      end_end,
      checked,
      le→ltb (length (body id tail short)) 18 (omega arith),
      le→ltb (length (body id tail short)) (2 + length id + 16) (omega arith),
      le→ltb (2 + length id) 2 (omega arith),
      le→ltb (length (body id tail short)) (2 + length id) (omega arith),
      le→ltb (10 + length id) (2 + length id) (omega arith),
      le→ltb (length (body id tail short)) (10 + length id) (omega arith),
      le→ltb (18 + length id) (10 + length id) (omega arith),
      le→ltb (length (body id tail short)) (18 + length id) (omega arith),
      the_id id tail short,
      after_id id tail short,
      ending,
      get_be-be_bytes 8 start_time (be_bytes 8 end_time) hs,
      read_end,
    )

-- A write request of six bytes or more crashes the server exactly if the length that it claims for
-- the device id is 65530 or more: the 16-bit sum in the length check wraps around.
pub parse_write_crashes :
    (d : List ℕ)
    → 6 ≤ length d
    → get_be 2 d < 65536
    → (parse_write d ≡ write_crashed) ↔ (65530 ≤ get_be 2 d)
unfolding parse_write
parse_write_crashes d h n = ground arith

-- A query of 18 bytes or more crashes the server exactly if the length that it claims for the
-- device id is 65518 or more.
pub parse_query_crashes :
    (d : List ℕ)
    → 18 ≤ length d
    → get_be 2 d < 65536
    → (parse_query d ≡ query_crashed) ↔ (65518 ≤ get_be 2 d)
unfolding parse_query
parse_query_crashes d h n = ground arith
