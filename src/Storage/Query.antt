-- ===== src/Storage/Query.antt =====
-- Storage.queryFile: one data file with its index file, as the bytes that the two hold, `none` for
-- a file that is not there; and that it gives back what a writer left on the disk.
use go_project.Base.{
  ℕ, ◌+◌, ◌^◌, ◌<◌, ◌≡◌, ap, ◌∙◌, sym, List, [], ◌∷◌, ◌++◌, Option, none, some, length, last_of,
  All, arith, keep, length-append,
}
use go_project.Zstd.{Zstd}
use go_project.Crc.{checksum-lt}
use go_project.Point.{SimpleDataPoint, IsPoint}
use go_project.Index.{IsEntry, read_index}
use go_project.Index.Format.{read_index-encode_index}
use go_project.Reader.{in_range}
use go_project.Reader.Parse.{encode_all}
use go_project.Reader.Query.{Run, done, query, query_with_index}
use go_project.Writer.{DayWriter, block_bytes}
use go_project.Writer.Blocks.{Block, points_of, all_points, file_of, entries_of, Holds}
use go_project.Writer.ReadBack.{IsReadable}
use go_project.Writer.Order.{IsSorted}
use go_project.Writer.Query.{query_with_index-Holds}

module _ (z : Zstd) (start_time end_time : ℕ) where
  unfoldable pub full_scan : List ℕ → Run (List SimpleDataPoint)
  full_scan file = done (query z start_time end_time file)

  -- The only error of readIndex is that the index file cannot be read.
  unfoldable pub query_file : Option (List ℕ) → Option (List ℕ) → Run (List SimpleDataPoint)
  query_file none idx_file = done []
  query_file (some file) none = full_scan file
  query_file (some file) (some idx_file) =
      query_with_index z start_time end_time file (read_index idx_file)

last_of-IsPoint :
    (p : SimpleDataPoint) (ps : List SimpleDataPoint)
    → IsPoint p
    → All IsPoint ps
    → IsPoint (last_of p ps)
last_of-IsPoint p [] h hs = h
last_of-IsPoint p (q ∷ qs) h (hq, hqs) = last_of-IsPoint q qs hq hqs

module _ (z : Zstd) (index_interval : ℕ) where
  -- Every entry of a data file that an int64 can measure fits its 36 bytes.
  entries_of-IsEntry :
      (bs : List Block) (offset : ℕ)
      → All (IsReadable z index_interval) bs
      → length (file_of z index_interval bs) < 2 ^ 63
      → All IsEntry (entries_of z index_interval offset bs)
  unfolding entries_of file_of
  entries_of-IsEntry [] offset r small = tt
  entries_of-IsEntry (b ∷ bs) offset (rb, rbs) small =
      let bytes : List ℕ = block_bytes z index_interval (points_of b) in
      let sum : length (bytes ++ file_of z index_interval bs)
          ≡ length bytes + length (file_of z index_interval bs) =
        length-append bytes (file_of z index_interval bs) in
      let first : IsPoint b.first = rb.fits.0 in
      let last : IsPoint (last_of b.first b.others) =
        last_of-IsPoint b.first b.others first rb.fits.1 in
      (
        record {
          start_fits = first.stamp_fits;
          end_fits = last.stamp_fits;
          offset_fits = omega arith;
          length_fits = omega arith;
          crc_fits = checksum-lt (encode_all (points_of b));
        },
        entries_of-IsEntry bs (offset + length bytes) rbs (omega arith),
      )

  -- The two files that a writer leaves give back the points of any range, in order: if they
  -- were empty when it began, the points came in the order of time, every block is readable, and
  -- the data file is shorter than an int64 can tell.
  pub query_file-Holds :
      (start_time end_time : ℕ) (bs : List Block) (w : DayWriter)
      → Holds z index_interval [] [] bs w
      → All (IsReadable z index_interval) bs
      → IsSorted (all_points bs)
      → length w.file < 2 ^ 63
      → query_file z start_time end_time (some w.file) (some w.idx_file)
        ≡ done (keep (in_range start_time end_time) (all_points bs))
  unfolding query_file
  query_file-Holds start_time end_time bs w h r s small =
      let fits : All IsEntry (entries_of z index_interval 0 bs) =
        entries_of-IsEntry bs 0 r (rw h.data_file at small) in
      let index : read_index w.idx_file ≡ w.indexes =
        ap read_index h.idx_file
        ∙ read_index-encode_index (entries_of z index_interval 0 bs) fits
        ∙ sym h.entries in
      rw index (query_with_index-Holds z index_interval start_time end_time bs w h r s small)
