-- ===== src/Storage/Engine/Answers.antt =====
-- After Close, the files answer queries by what was handed over.
use mathlib.Core.Path.{subst}
use go_project.Base.{
  ℕ, ◌<◌, ◌^◌, ◌≡◌, refl, ap, ◌∙◌, sym, List, [], ◌∷◌, ◌++◌, Option, none, some, length, All, keep,
  append_assoc, append-nil, arith,
}
use go_project.Base.Dict.{lookup}
use go_project.Zstd.{Zstd}
use go_project.Point.{SimpleDataPoint}
use go_project.Reader.{in_range}
use go_project.Reader.Query.{done}
use go_project.Writer
use go_project.Writer.{DayWriter, Disk, healthy}
use go_project.Writer.Blocks.{Block, points_of, all_points}
use go_project.Writer.ReadBack.{IsReadable}
use go_project.Writer.Order.{IsSorted}
use go_project.Writer.Runs.{Accounts, close-Accounts, close-buffer}
use go_project.Storage.{StorageConfig, Storage, Calendar, Open, FieldName, new_storage, writer_key}
use go_project.Storage.Query.{query_file, query_file-Holds}
use go_project.Storage.Engine.{Action, run_actions, close_writers, close_storage}
use go_project.Storage.Engine.Refinement.{IsDate, IsFresh, IsAction, Tracks}
use go_project.Storage.Engine.Runs.{accepted, run_actions-Refines}

-- No disk fails at Close.
abbrev pub all_healthy : List ℕ → Disk
all_healthy k = healthy

module _ (z : Zstd) (index_interval : ℕ) where
  abbrev closed_writer : Option DayWriter → Option DayWriter
  closed_writer none = none
  closed_writer (some w) = some (Writer.close z index_interval healthy w)

  lookup-close_writers :
      (k : List ℕ) (m : List (List ℕ × DayWriter))
      → lookup k (close_writers z index_interval all_healthy m) ≡ closed_writer (lookup k m)
  unfolding lookup close_writers
  lookup-close_writers k [] = refl
  lookup-close_writers k ((j, w) ∷ m) = ground (arith, lookup-close_writers k m)

  -- What is known of a writer behind Close: nothing waits.
  abbrev pub Settled : List SimpleDataPoint → Option DayWriter → Type 0
  Settled ps none = ps ≡ []
  Settled ps (some w) = Accounts z index_interval [] [] ps w × (w.buffer ≡ [])

  closed_writer-Settled :
      (o : Option DayWriter) (ps : List SimpleDataPoint)
      → Tracks z index_interval ps o
      → Settled ps (closed_writer o)
  closed_writer-Settled none ps t = t
  closed_writer-Settled (some w) ps t =
      (close-Accounts z index_interval [] [] ps w t, close-buffer z index_interval [] [] healthy w)

  module _ (cal : Calendar) (open_writer : Open) (fresh : IsFresh open_writer)
      (name : FieldName) where
    -- The engine behind a sequence and Close.
    abbrev pub finished : StorageConfig → List Action → Storage
    finished config actions =
        close_storage z index_interval all_healthy
          (run_actions z index_interval cal open_writer name actions (new_storage config))

    -- Behind any sequence of batches and turns, from a new engine over empty files, and Close, on a
    -- disk that does not fail: the writer of a device and a date, if there is one, holds in whole
    -- blocks on the disk just the points handed over for them, in order and once, and nothing waits
    -- in its buffer; and if there is none, there was no point.
    pub close_storage-Settled :
        (config : StorageConfig) (actions : List Action) (device date : List ℕ)
        → All IsAction actions
        → IsDate date
        → Settled
            (accepted cal actions device date)
            (lookup (writer_key device date) (finished config actions).writers)
    unfolding close_storage
    close_storage-Settled config actions device date t d =
        let s : Storage =
          run_actions z index_interval cal open_writer name actions (new_storage config) in
        subst (Settled (accepted cal actions device date))
          (sym (lookup-close_writers (writer_key device date) s.writers))
          (closed_writer-Settled (lookup (writer_key device date) s.writers) _ (
            run_actions-Refines z index_interval cal open_writer fresh name config actions t device
              date d))

-- Every row of points in `ps`, as a block, can be read.
abbrev pub IsReadableIn : Zstd → ℕ → List SimpleDataPoint → Type 0
IsReadableIn z index_interval ps =
    (before after : List SimpleDataPoint) (b : Block)
    → before ++ (points_of b ++ after) ≡ ps
    → IsReadable z index_interval b

all-IsReadable :
    (z : Zstd) (index_interval : ℕ) (bs : List Block) (before ps : List SimpleDataPoint)
    → before ++ all_points bs ≡ ps
    → IsReadableIn z index_interval ps
    → All (IsReadable z index_interval) bs
all-IsReadable z index_interval [] before ps e h = tt
all-IsReadable z index_interval (b ∷ bs) before ps e h = (
  h before (all_points bs) b e,
  all-IsReadable z index_interval bs (before ++ points_of b) ps
      (append_assoc before (points_of b) (all_points bs) ∙ e) h,
)

-- The same, as a client sees it: querying the two files of the writer gives just the points of the
-- range that were handed over for the device and the date, in order; if they came in the order of
-- time, any consecutive ones of them make a readable block, and the data file is shorter than an
-- int64 can tell.
pub query_file-close_storage :
    (z : Zstd) (index_interval : ℕ) (cal : Calendar) (open_writer : Open)
    (fresh : IsFresh open_writer) (name : FieldName) (config : StorageConfig)
    (actions : List Action) (device date : List ℕ) (start_time end_time : ℕ) (w : DayWriter)
    → All IsAction actions
    → IsDate date
    → lookup
        (writer_key device date)
        (finished z index_interval cal open_writer fresh name config actions).writers
      ≡ some w
    → IsReadableIn z index_interval (accepted cal actions device date)
    → IsSorted (accepted cal actions device date)
    → length w.file < 2 ^ 63
    → query_file z start_time end_time (some w.file) (some w.idx_file)
      ≡ done (keep (in_range start_time end_time) (accepted cal actions device date))
query_file-close_storage z index_interval cal open_writer fresh name config actions device date
      start_time end_time w t d there readable sorted small =
    let ps : List SimpleDataPoint = accepted cal actions device date in
    let (a, empty) = subst (Settled z index_interval ps) there (
      close_storage-Settled z index_interval cal open_writer fresh name config actions device date t
        d) in
    let points : all_points a.blocks ≡ ps =
      sym (append-nil (all_points a.blocks))
      ∙ ap (λ (l : List SimpleDataPoint). all_points a.blocks ++ l) (sym empty)
      ∙ a.accepted in
    query_file-Holds z index_interval start_time end_time a.blocks w a.holds
      (all-IsReadable z index_interval a.blocks [] ps points readable)
      (subst IsSorted (sym points) sorted) small
    ∙ ap (λ (l : List SimpleDataPoint). done (keep (in_range start_time end_time) l)) points
