-- ===== src/Writer/Query.antt =====
-- QueryWithIndex on the file of a writer, with the index that the writer kept.
use native.Mathlib.Nat.{le_refl}
use go_project.Base.{
  ℕ, ◌+◌, ◌%◌, ◌^◌, ◌<◌, ◌≡◌, ap, ◌∙◌, sym, List, [], ◌∷◌, ◌++◌, length, All, arith, keep,
  keep-append, keep-true, keep-false, some, last_of, length-append, append_assoc, append-nil, false,
  Bool-cases, inl, inr,
}
use go_project.Int64
use go_project.Int64.{rank}
use go_project.Zstd.{Zstd}
use go_project.Point.{SimpleDataPoint}
use go_project.Reader.{in_range}
use go_project.Reader.Query.{
  done, overlaps, relevant_blocks, read_at, parsed, read_block, query_blocks, query_with_index,
}
use go_project.Reader.Select.{relevant_blocks-keep}
use go_project.Index.{IndexEntry}
use go_project.Writer.{DayWriter, block_bytes, entry_for}
use go_project.Writer.Blocks.{Block, points_of, all_points, file_of, entries_of, Holds}
use go_project.Writer.ReadBack.{IsReadable, read_block-block_bytes, read_at-entry_for}
use go_project.Writer.Order.{
  IsSorted, IsSorted-left, IsSorted-right, last-UpTo, entries_of-IsOrdered, keep_too_late,
  keep_too_early,
}

module _ (z : Zstd) (index_interval start_time end_time : ℕ) where
  -- One round of the loop over the blocks.
  query_blocks_step :
      (file raw : List ℕ) (e : IndexEntry) (es : List IndexEntry) (acc ps : List SimpleDataPoint)
      → read_at file e ≡ done raw
      → read_block z start_time end_time raw e.crc32 ≡ parsed ps
      → query_blocks z start_time end_time file (e ∷ es) acc
        ≡ query_blocks z start_time end_time file es (acc ++ ps)
  unfolding query_blocks
  query_blocks_step file raw e es acc ps r p = ground (arith, r, p)

  -- A block that does not overlap the range has no point in it.
  outside :
      (offset : ℕ) (b : Block)
      → IsSorted (points_of b)
      → overlaps start_time end_time (entry_for z index_interval offset b.first b.others) ≡ false
      → keep (in_range start_time end_time) (points_of b) ≡ []
  outside offset b s e = elim (Bool-cases (Int64.le b.first.timestamp end_time)) [
    | inl starts ↦
        keep_too_early start_time end_time (points_of b) (rank (last_of b.first b.others).timestamp)
          (ground arith) (last-UpTo b.first b.others s)
    | inr late ↦
        keep_too_late start_time end_time (points_of b) (rank b.first.timestamp) (ground arith)
          (le_refl _, s.0)
  ]

  query_blocks-entries_of :
      (bs : List Block) (before : List ℕ) (acc : List SimpleDataPoint)
      → All (IsReadable z index_interval) bs
      → IsSorted (all_points bs)
      → length (before ++ file_of z index_interval bs) < 2 ^ 63
      → query_blocks z start_time end_time
          (before ++ file_of z index_interval bs)
          (keep (overlaps start_time end_time) (entries_of z index_interval (length before) bs))
          acc
        ≡ done (acc ++ keep (in_range start_time end_time) (all_points bs))
  unfolding file_of entries_of
  query_blocks-entries_of [] before acc r s small =
      unfold query_blocks in ap done (sym (append-nil acc))
  query_blocks-entries_of (b ∷ bs) before acc (rb, rbs) s small =
      let bytes : List ℕ = block_bytes z index_interval (points_of b) in
      let file : List ℕ = before ++ (bytes ++ file_of z index_interval bs) in
      let e : IndexEntry = entry_for z index_interval (length before % 2 ^ 64) b.first b.others in
      let es : List IndexEntry = entries_of z index_interval (length before + length bytes) bs in
      let later : List SimpleDataPoint = keep (in_range start_time end_time) (all_points bs) in
      let split : keep (in_range start_time end_time) (all_points (b ∷ bs))
          ≡ keep (in_range start_time end_time) (points_of b) ++ later =
        keep-append (in_range start_time end_time) (points_of b) (all_points bs) in
      let rest : (more : List SimpleDataPoint)
          → query_blocks z start_time end_time file (keep (overlaps start_time end_time) es) more
            ≡ done (more ++ later) =
        λ more.
          rw (append_assoc, length-append before bytes) at
            (query_blocks-entries_of bs (before ++ bytes) more rbs
              (IsSorted-right (points_of b) _ s) (rw append_assoc small)) in
      elim (Bool-cases (overlaps start_time end_time e)) [
        | inl hit ↦
            ap (λ (l : List IndexEntry). query_blocks z start_time end_time file l acc)
              (keep-true (overlaps start_time end_time) e es hit)
            ∙ query_blocks_step file bytes e _ acc _
                (read_at-entry_for z index_interval before _ b small)
                (read_block-block_bytes z index_interval start_time end_time b rb)
            ∙ rest (acc ++ keep (in_range start_time end_time) (points_of b))
            ∙ ap done
                (append_assoc acc _ later ∙ ap (λ (l : List SimpleDataPoint). acc ++ l) (sym split))
        | inr miss ↦
            ap (λ (l : List IndexEntry). query_blocks z start_time end_time file l acc)
              (keep-false (overlaps start_time end_time) e es miss)
            ∙ rest acc
            ∙ ap (λ (l : List SimpleDataPoint). done (acc ++ l))
                (sym (
                  split
                  ∙ ap (λ (l : List SimpleDataPoint). l ++ later)
                      (outside (length before) b (IsSorted-left (points_of b) _ s) miss)))
      ]

  -- Querying the file of a writer that started on no data returns, and gives just the points of
  -- the range, in order: if the points came in the order of time, every block is readable, and the
  -- file is shorter than an int64 can tell.
  pub query_with_index-Holds :
      (bs : List Block) (w : DayWriter) {old_idx : List ℕ}
      → Holds z index_interval [] old_idx bs w
      → All (IsReadable z index_interval) bs
      → IsSorted (all_points bs)
      → length w.file < 2 ^ 63
      → query_with_index z start_time end_time w.file w.indexes
        ≡ done (keep (in_range start_time end_time) (all_points bs))
  unfolding query_with_index
  query_with_index-Holds bs w h r s small =
      let entries : relevant_blocks start_time end_time w.indexes
          ≡ some (keep (overlaps start_time end_time) (entries_of z index_interval 0 bs)) =
        ap (relevant_blocks start_time end_time) h.entries
        ∙ relevant_blocks-keep start_time end_time _
            (entries_of-IsOrdered z index_interval bs 0 s) in
      rw (entries, query_with_index, h.data_file)
        (query_blocks-entries_of bs [] [] r s (rw h.data_file at small))
