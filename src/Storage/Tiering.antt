-- ===== src/Storage/Tiering.antt =====
-- Storage.recompressCold, with the calls that may fail in it.
use go_project.Base.{ℕ, ◌^◌, ◌≡◌, refl, ◌∙◌, List, [], keep, Bool, ◌||◌, if◌then◌else◌}
use go_project.Zstd.{Zstd}
use go_project.Reader.{in_range}
use go_project.Reader.Query.{query}
use go_project.Writer
use go_project.Writer.{
  DayWriter, Disk, new_day_writer, healthy, block_bytes, close, flush, flush_points, record_block,
}
use go_project.Writer.Blocks.{Block, points_of}
use go_project.Writer.ReadBack.{IsReadable}
use go_project.Writer.Scan.{query-block_bytes}

-- Which calls fail: those of NewDayReader and of Query, the two of NewDayWriter that open its files,
-- its Seek or its encoder; and what the disk does in the flush of the deferred Close.
pub record Obstacles : Type 0 where
  pub no_source : Bool
  pub no_scan : Bool
  pub no_tmp : Bool
  pub no_tmp_index : Bool
  pub no_encoder : Bool
  pub on_close : Disk

-- An error leaves the temporary files that were opened, and so created, behind.
pub data Recompressed : Type 0 where
  not_begun tmp_opened both_opened : Recompressed
  rewritten : DayWriter → Recompressed

-- The level of compression is that of the encoder: `hot` and `cold` are zstd at the two levels.
module _ (hot_z cold_z : Zstd) (index_interval : ℕ) where
  -- The writer starts on what the temporary files hold already, and is closed at the return, with
  -- its error dropped.
  abbrev pub rewrite : Disk → List ℕ → List ℕ → List ℕ → DayWriter
  rewrite disk file tmp tmp_idx =
      close cold_z index_interval disk
        (Writer.write_batch (query hot_z 0 (2 ^ 62) file) (new_day_writer tmp tmp_idx))

  unfoldable pub recompress_cold : Obstacles → List ℕ → List ℕ → List ℕ → Recompressed
  recompress_cold o file tmp tmp_idx =
      if o.no_source || o.no_scan || o.no_tmp
      then not_begun
      else if o.no_tmp_index
      then tmp_opened
      else if o.no_encoder
      then both_opened
      else rewritten (rewrite o.on_close file tmp tmp_idx)

  -- Where every time lies between 0 and 2^62, the full scan of a hot file of one readable block
  -- loses nothing in recompression: the new file is one block of the same points.
  pub rewrite-block_bytes :
      (b : Block)
      → IsReadable hot_z index_interval b
      → keep (in_range 0 (2 ^ 62)) (points_of b) ≡ points_of b
      → (rewrite healthy (block_bytes hot_z index_interval (points_of b)) [] []).file
        ≡ block_bytes cold_z index_interval (points_of b)
  unfolding close new_day_writer flush flush_points record_block Writer.write_batch
  rewrite-block_bytes b h times =
      let scanned : query hot_z 0 (2 ^ 62) (block_bytes hot_z index_interval (points_of b))
          ≡ points_of b =
        query-block_bytes hot_z index_interval 0 (2 ^ 62) b h ∙ times in
      rw scanned refl
