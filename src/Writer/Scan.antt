-- ===== src/Writer/Scan.antt =====
-- DayReader.Query, the full scan, on a file of one block: it needs no index.
use go_project.Base.{
  ℕ, ◌+◌, ◌-◌, ◌≡◌, refl, ap, ◌∙◌, sym, List, [], ◌++◌, none, some, length, All, arith, keep,
  take-append, length-append, append-nil, leb, le→ltb, Bool-cases, inl, inr, ◌<◌,
}
use go_project.Bytes.{le_bytes, length-le_bytes}
use go_project.Crc.{checksum}
use go_project.Zstd.{Zstd}
use go_project.Point.{SimpleDataPoint, IsPoint}
use go_project.Reader.{in_range, parse_points}
use go_project.Reader.Parse.{encode_all, parse_points-encode_all, parse_legacy_format-encode_all}
use go_project.Reader.Query.{query}
use go_project.Writer.{block_bytes}
use go_project.Writer.Blocks.{Block, points_of}
use go_project.Writer.ReadBack.{IsReadable, with_crc}

module _ (z : Zstd) (index_interval start_time end_time : ℕ) where
  scan_compressed :
      (file : List ℕ) (ps : List SimpleDataPoint)
      → All IsPoint ps
      → z.decode_all file ≡ some (with_crc ps)
      → query z start_time end_time file ≡ keep (in_range start_time end_time) ps
  unfolding query
  scan_compressed file ps h e =
      let raw : List ℕ = encode_all ps in
      let crc : List ℕ = le_bytes 4 (checksum raw) in
      let total : length (raw ++ crc) ≡ length raw + 4 =
        omega (arith, length-append raw crc, length-le_bytes 4 (checksum raw)) in
      let size : length (raw ++ crc) - 4 ≡ length raw = omega (arith, total) in
      let points : parse_points raw start_time end_time ≡ keep (in_range start_time end_time) ps =
        ap (λ (l : List ℕ). parse_points l start_time end_time) (sym (append-nil raw))
        ∙ parse_points-encode_all start_time end_time ps [] h (omega arith) in
      rw (
        e,
        query,
        le→ltb (length (raw ++ crc)) 4 (omega (arith, total)),
        size,
        take-append (length raw) raw crc refl,
        points,
      )

  scan_plain :
      (ps : List SimpleDataPoint)
      → All IsPoint ps
      → z.decode_all (with_crc ps) ≡ none
      → query z start_time end_time (with_crc ps) ≡ keep (in_range start_time end_time) ps
  unfolding query
  scan_plain ps h e =
      let crc : List ℕ = le_bytes 4 (checksum (encode_all ps)) in
      let short : length crc < 10 = omega (arith, length-le_bytes 4 (checksum (encode_all ps))) in
      rw (e, query) (parse_legacy_format-encode_all start_time end_time ps crc h short)

  -- A full scan of a file of one readable block, compressed or not, gives just the points of the
  -- range, in order.
  pub query-block_bytes :
      (b : Block)
      → IsReadable z index_interval b
      → query z start_time end_time (block_bytes z index_interval (points_of b))
        ≡ keep (in_range start_time end_time) (points_of b)
  unfolding block_bytes
  query-block_bytes b h =
      elim (Bool-cases (leb index_interval (length (encode_all (points_of b))))) [
        | inl large ↦ rw large (
            scan_compressed _ (points_of b) h.fits
              (z.decode_all-encode_all (with_crc (points_of b))))
        | inr small ↦ rw small (scan_plain (points_of b) h.fits (h.refused small))
      ]
