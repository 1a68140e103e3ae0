-- ===== src/Tcp.antt =====
-- tffiles/tcp_server.go: the messages of the protocol and what the server does with them. A message
-- is the list of its bytes; the slices that the handlers take have no spare capacity.
pub mod Request
pub mod Server
pub mod Session
pub mod Wire
pub mod Crash
pub mod Accept
pub mod Counts
pub mod Lifetime
use go_project.Base.{
  ℕ, zero, suc, ◌+◌, ◌-◌, ◌%◌, List, [], ◌∷◌, ◌++◌, length, take, drop, Bool, ◌||◌, ltb, leb,
  if◌then◌else◌,
}
use go_project.Bytes.{get_be, big_endian}
use go_project.Point.{SimpleDataPoint, Next, short, overrun, point, next_point}

-- Unsigned 16-bit sums, as `2+deviceIDLen+4` is one.
abbrev pub u16 : ℕ → ℕ
u16 n = n % 65536

-- What the loop over the points of a write request ends with.
pub data Points : Type 0 where
  all_read : List SimpleDataPoint → Points
  point_short : ℕ → Points
  point_overrun : ℕ → ℕ → Points

abbrev pub prepend : SimpleDataPoint → Points → Points
prepend p (all_read ps) = all_read (p ∷ ps)
prepend p (point_short i) = point_short i
prepend p (point_overrun i n) = point_overrun i n

-- The rounds left, i, and body[dataOffset:].
unfoldable pub read_points : ℕ → ℕ → List ℕ → Points
read_points zero i d = all_read []
read_points (suc rounds) i d = elim (next_point big_endian d) [
  | short ↦ point_short i
  | overrun n ↦ point_overrun i n
  | point p rest ↦ prepend p (read_points rounds (i + 1) rest)
]

-- What a handler makes of the body of its message. `crashed` is a slice expression out of bounds.
pub data WriteRequest : Type 0 where
  write_malformed : WriteRequest
  write_crashed : WriteRequest
  write_points : List ℕ → Points → WriteRequest

pub data QueryRequest : Type 0 where
  query_malformed : QueryRequest
  query_crashed : QueryRequest
  query_range : List ℕ → ℕ → ℕ → QueryRequest

-- body[low:high] is out of bounds.
abbrev pub bad_slice : List ℕ → ℕ → ℕ → Bool
bad_slice body low high = ltb high low || ltb (length body) high

-- handleWrite up to the call of the storage; dataOffset is an int, and does not wrap, and the slice
-- that is made for pointCount points, below 2^37 bytes, is taken to fit the memory.
unfoldable pub parse_write : List ℕ → WriteRequest
parse_write body =
    let id_len = get_be 2 body in
    let id_end = u16 (2 + id_len) in
    let count_end = u16 (6 + id_len) in
    if ltb (length body) 6
    then write_malformed
    else if ltb (length body) (u16 (2 + id_len + 4))
    then write_malformed
    else if bad_slice body 2 id_end || bad_slice body id_end count_end
    then write_crashed
    else write_points (take (id_end - 2) (drop 2 body))
        (read_points (get_be 4 (drop id_end body)) 0 (drop (6 + id_len) body))

-- handleQuery up to the call of the storage.
unfoldable pub parse_query : List ℕ → QueryRequest
parse_query body =
    let id_len = get_be 2 body in
    let id_end = u16 (2 + id_len) in
    let start_end = u16 (10 + id_len) in
    let end_end = u16 (18 + id_len) in
    if ltb (length body) 18
    then query_malformed
    else if ltb (length body) (u16 (2 + id_len + 16))
    then query_malformed
    else if bad_slice body 2 id_end
        || bad_slice body id_end start_end
        || bad_slice body start_end end_end
    then query_crashed
    else query_range (take (id_end - 2) (drop 2 body)) (get_be 8 (drop id_end body))
        (get_be 8 (drop start_end body))
