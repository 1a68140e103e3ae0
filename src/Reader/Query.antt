-- ===== src/Reader/Query.antt =====
-- DayReader.QueryWithIndex and DayReader.Query. The file is the list of its bytes.
use go_project.Base.{
  ℕ, ◌+◌, ◌-◌, ◌^◌, List, [], ◌∷◌, ◌++◌, Option, none, some, length, take, drop, Bool, ◌&&◌, ◌||◌,
  ltb, leb, ◌==◌, if◌then◌else◌,
}
use go_project.Bytes.{get_le}
use go_project.Int64
use go_project.Crc.{checksum}
use go_project.Zstd.{Zstd}
use go_project.Point.{SimpleDataPoint}
use go_project.Index.{IndexEntry, binary_search_index}
use go_project.Reader.{parse_points, parse_legacy_format}

-- A result, an error of the file, or a run-time panic.
pub data Run {ℓ} (A : Type ℓ) : Type ℓ where
  done : A → Run A
  io_error : Run A
  panicked : Run A

module _ (start_time end_time : ℕ) where
  abbrev pub overlaps : IndexEntry → Bool
  overlaps e = Int64.le e.start_time end_time && Int64.le start_time e.end_time

  -- The loop `for i := startIdx; ...` over indexes[i:].
  unfoldable pub scan_blocks : List IndexEntry → List IndexEntry
  scan_blocks [] = []
  scan_blocks (e ∷ es) =
      let more = scan_blocks es in
      if Int64.lt end_time e.start_time then [] else if overlaps e then e ∷ more else more

  -- `none`: the search panicked.
  unfoldable pub relevant_blocks : List IndexEntry → Option (List IndexEntry)
  relevant_blocks indexes = elim (binary_search_index indexes start_time) [
    | none ↦ none
    | some start_idx ↦ some (scan_blocks (drop start_idx indexes))
  ]

-- make([]byte, block.Length) and ReadAt(raw, block.Offset), over signed numbers. `make` panics for a
-- negative length and for one of 2^48 or more, the address space of amd64; no file is as long as that,
-- so the second is written for a length beyond the file. For others there is memory enough.
unfoldable pub read_at : List ℕ → IndexEntry → Run (List ℕ)
read_at file block =
    if leb (2 ^ 63) block.block_length
      || (leb (2 ^ 48) block.block_length && ltb (length file) block.block_length)
    then panicked
    else if leb (2 ^ 63) block.offset
    then io_error
    else if block.block_length == 0
    then done []
    else if ltb (length file) (block.offset + block.block_length)
    then io_error
    else done (take block.block_length (drop block.offset file))

-- What the loop makes of one block: the early return for the old format, `continue`, or points.
pub data BlockRead : Type 0 where
  legacy : List SimpleDataPoint → BlockRead
  skipped : BlockRead
  parsed : List SimpleDataPoint → BlockRead

module _ (z : Zstd) (start_time end_time : ℕ) where
  unfoldable pub check_block : List ℕ → BlockRead
  check_block d =
      let data_len = length d - 4 in
      if ltb (length d) 4
      then skipped
      else if get_le 4 (drop data_len d) == checksum (take data_len d)
      then parsed (parse_points (take data_len d) start_time end_time)
      else skipped

  unfoldable pub read_block : List ℕ → ℕ → BlockRead
  read_block raw crc32 = elim (z.decode_all raw) [
    | none ↦
        if crc32 == 0 then legacy (parse_legacy_format raw start_time end_time) else check_block raw
    | some d ↦ check_block d
  ]

  unfoldable pub query_blocks :
      List ℕ → List IndexEntry → List SimpleDataPoint → Run (List SimpleDataPoint)
  query_blocks file [] all_points = done all_points
  query_blocks file (block ∷ blocks) all_points = elim (read_at file block) [
    | io_error ↦ io_error
    | panicked ↦ panicked
    | done raw ↦ elim (read_block raw block.crc32) [
      | legacy points ↦ done points
      | skipped ↦ query_blocks file blocks all_points
      | parsed points ↦ query_blocks file blocks (all_points ++ points)
    ]
  ]

  unfoldable pub query_with_index : List ℕ → List IndexEntry → Run (List SimpleDataPoint)
  query_with_index file indexes = elim (relevant_blocks start_time end_time indexes) [
    | none ↦ panicked
    | some blocks ↦ query_blocks file blocks []
  ]

  -- Query, the full scan: a checksum that does not fit is only logged.
  unfoldable pub query : List ℕ → List SimpleDataPoint
  query file = elim (z.decode_all file) [
    | none ↦ parse_legacy_format file start_time end_time
    | some d ↦
        if ltb (length d) 4 then [] else parse_points (take (length d - 4) d) start_time end_time
  ]
