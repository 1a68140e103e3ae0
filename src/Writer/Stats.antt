-- ===== src/Writer/Stats.antt =====
-- GetBufferSize, GetIndexCount, GetFileSize and GetStats of tffiles/writer.go.
use go_project.Base.{
  ℕ, suc, ◌+◌, ◌%◌, ◌^◌, ◌≡◌, refl, ap, sym, ◌∙◌, List, [], ◌∷◌, ◌++◌, Option, none, some, length,
  length-append, All, Bool, false, if◌then◌else◌,
}
use go_project.Zstd.{Zstd}
use go_project.Writer
use go_project.Writer.Blocks.{Block, all_points, file_of, entries_of}
use go_project.Writer.Runs.{IsHealthy, written, run-Accounts, new_day_writer-Accounts}
use go_project.Writer.{DayWriter, Event, new_day_writer}

abbrev pub get_buffer_size : DayWriter → ℕ
get_buffer_size w = length w.buffer

abbrev pub get_index_count : DayWriter → ℕ
get_index_count w = length w.indexes

-- `failed`: Stat gives an error.
abbrev pub get_file_size : Bool → DayWriter → Option ℕ
get_file_size failed w = if failed then none else some (length w.file % 2 ^ 64)

-- The device and the date, as text, are fields of the writer that the model keeps in its key.
pub record WriterStats : Type 0 where
  pub device_id : List ℕ
  pub date : List ℕ
  pub buffer_size : ℕ
  pub index_count : ℕ
  pub current_offset : ℕ

unfoldable pub get_writer_stats : List ℕ → List ℕ → DayWriter → WriterStats
get_writer_stats device date w = record {
  device_id = device;
  date = date;
  buffer_size = get_buffer_size w;
  index_count = get_index_count w;
  current_offset = w.current_offset;
}

module _ (z : Zstd) (index_interval : ℕ) (old old_idx : List ℕ) where
  length-entries_of :
      (bs : List Block) (offset : ℕ) → length (entries_of z index_interval offset bs) ≡ length bs
  unfolding entries_of
  length-entries_of [] offset = refl
  length-entries_of (b ∷ bs) offset = ap suc (length-entries_of bs _)

  -- The writer, opened over the two files, behind some events.
  abbrev pub behind_events : List Event → DayWriter
  behind_events es = Writer.run z index_interval es (new_day_writer old old_idx)

  -- What GetStats tells of a writer that was opened and went through any events on a healthy disk:
  -- the count of its index is that of the blocks behind what the data file held; their points and
  -- those counted in the buffer are as many as were handed over; and the offset is what GetFileSize
  -- gives.
  pub get_writer_stats-run :
      (device date : List ℕ) (es : List Event)
      → All IsHealthy es
      → (bs : List Block) × ((behind_events es).file ≡ old ++ file_of z index_interval bs)
        × ((get_writer_stats device date (behind_events es)).index_count ≡ length bs)
        × (length (all_points bs) + (get_writer_stats device date (behind_events es)).buffer_size
            ≡ length (written es))
        × (get_file_size false (behind_events es)
            ≡ some (get_writer_stats device date (behind_events es)).current_offset)
  unfolding get_writer_stats
  get_writer_stats-run device date es h =
      let a =
        run-Accounts z index_interval old old_idx es [] (new_day_writer old old_idx) h
          (new_day_writer-Accounts z index_interval old old_idx) in
      (
        a.blocks,
        a.holds.data_file,
        ap length a.holds.entries ∙ length-entries_of a.blocks (length old),
        sym (length-append (all_points a.blocks) _) ∙ ap length a.accepted,
        ap some (sym a.holds.offset),
      )
