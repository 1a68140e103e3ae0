-- ===== src/Reader.antt =====
-- tffiles/reader.go: reading the points of a day file. The file is the list of its bytes.
pub mod Parse
pub mod Query
pub mod Select
use go_project.Base.{ℕ, zero, suc, List, [], ◌∷◌, ◌++◌, length, Bool, ◌&&◌, if◌then◌else◌}
use go_project.Bytes.{little_endian}
use go_project.Int64
use go_project.Point.{SimpleDataPoint, Next, short, overrun, point, next_point}

-- timestamp >= startTime && timestamp <= endTime
abbrev pub in_range : ℕ → ℕ → SimpleDataPoint → Bool
in_range start_time end_time p = Int64.le start_time p.timestamp && Int64.le p.timestamp end_time

-- The loop over `data[offset:]`. Each round takes ten bytes at least.
unfoldable pub parse_loop : ℕ → List ℕ → ℕ → ℕ → List SimpleDataPoint
parse_loop zero d start_time end_time = []
parse_loop (suc fuel) d start_time end_time = elim (next_point little_endian d) [
  | short ↦ []
  | overrun n ↦ []
  | point p rest ↦
      let more = parse_loop fuel rest start_time end_time in
      if in_range start_time end_time p then p ∷ more else more
]

unfoldable pub parse_points : List ℕ → ℕ → ℕ → List SimpleDataPoint
parse_points d start_time end_time = parse_loop (length d) d start_time end_time

unfoldable pub parse_legacy_format : List ℕ → ℕ → ℕ → List SimpleDataPoint
parse_legacy_format d start_time end_time = parse_loop (length d) d start_time end_time
