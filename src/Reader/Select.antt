-- ===== src/Reader/Select.antt =====
-- On an ordered index the search and the scan select just the blocks that overlap the query.
use go_project.Base.{
  ℕ, zero, suc, ◌≤◌, ◌<◌, ◌≡◌, refl, ap, ◌∙◌, List, [], ◌∷◌, some, length, drop, arith, All, keep,
}
use go_project.Int64.{rank}
use go_project.Index.{IndexEntry, binary_search_index}
use go_project.Index.Search.{IsOrdered, end_at, Finds-some, binary_search_index-Splits}
use go_project.Reader.Query.{overlaps, scan_blocks, relevant_blocks}

module _ (start_time end_time : ℕ) where
  -- Once a block starts too late, so do all that follow.
  keep_late :
      (e : IndexEntry) (es : List IndexEntry)
      → rank end_time < rank e.start_time
      → All
          (λ (x : IndexEntry).
            (rank e.start_time ≤ rank x.start_time) × (rank e.end_time ≤ rank x.end_time))
          es
      → keep (overlaps start_time end_time) es ≡ []
  keep_late e [] h a = refl
  keep_late e (x ∷ xs) h (hx, hxs) = ground (arith, keep_late e xs h hxs)

  scan_blocks-keep :
      (es : List IndexEntry)
      → IsOrdered es
      → scan_blocks start_time end_time es ≡ keep (overlaps start_time end_time) es
  unfolding scan_blocks
  scan_blocks-keep [] h = refl
  scan_blocks-keep (e ∷ es) (he, hes, h) = ground (arith, scan_blocks-keep es h, keep_late e es)

  -- Nothing is lost by starting where the search says.
  keep-drop :
      (r : ℕ) (es : List IndexEntry)
      → ((i : ℕ) → i < r → end_at es i < rank start_time)
      → r ≤ length es
      → keep (overlaps start_time end_time) (drop r es) ≡ keep (overlaps start_time end_time) es
  unfolding drop
  keep-drop zero es early b = refl
  keep-drop (suc r) [] early b = refl
  keep-drop (suc r) (e ∷ es) early b =
      keep-drop r es (λ i p. early (suc i) (omega arith)) (omega arith)
      ∙ ground (arith, early 0 (omega arith))

  drop-IsOrdered : (r : ℕ) (es : List IndexEntry) → IsOrdered es → IsOrdered (drop r es)
  unfolding drop
  drop-IsOrdered zero es h = h
  drop-IsOrdered (suc r) [] h = h
  drop-IsOrdered (suc r) (e ∷ es) (he, hes, h) = drop-IsOrdered r es h

  -- On an ordered index the selection does not panic, and it keeps a block exactly if the block
  -- overlaps the range.
  pub relevant_blocks-keep :
      (es : List IndexEntry)
      → IsOrdered es
      → relevant_blocks start_time end_time es ≡ some (keep (overlaps start_time end_time) es)
  unfolding relevant_blocks
  relevant_blocks-keep es h =
      let (r, found, splits) =
        Finds-some (binary_search_index es start_time) _
          (binary_search_index-Splits es start_time h) in
      rw (found, relevant_blocks)
        (ap some
          (scan_blocks-keep (drop r es) (drop-IsOrdered r es h) ∙ keep-drop r es splits.1 splits.0))
