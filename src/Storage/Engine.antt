-- ===== src/Storage/Engine.antt =====
-- The storage engine as a whole: the calls of WriteBatch of tffiles/storage.go and, between them,
-- the turns of the writers' goroutines, in one sequence; and Close.
pub mod Keys
pub mod Refinement
pub mod Batch
pub mod Runs
pub mod Answers
pub mod Served
use go_project.Base.{ℕ, List, [], ◌∷◌, length, Option, none, some}
use go_project.Base.Dict.{lookup, insert}
use go_project.Zstd.{Zstd}
use go_project.Point.{SimpleDataPoint}
use go_project.Writer
use go_project.Writer.{DayWriter, Disk, Event}
use go_project.Storage.{Storage, StorageConfig, Calendar, Open, Groups, FieldName, write_batch}

-- A call at a time, with the order in which it walks its map of groups, or an event of the writer
-- with the given key.
pub data Action : Type 0 where
  stored : ℕ → (Groups → Groups) → List ℕ → List SimpleDataPoint → Action
  turned : List ℕ → Event → Action

module _ (z : Zstd) (index_interval : ℕ) where
  unfoldable pub turn : List ℕ → Event → Storage → Storage
  turn k e s = elim (lookup k s.writers) [
    | none ↦ s
    | some w ↦ record s { writers = insert k (Writer.step z index_interval e w) s.writers }
  ]

  unfoldable pub close_writers :
      (List ℕ → Disk) → List (List ℕ × DayWriter) → List (List ℕ × DayWriter)
  close_writers disks [] = []
  close_writers disks ((k, w) ∷ m) =
      (k, Writer.close z index_interval (disks k) w) ∷ close_writers disks m

  -- Close, but for the errors of closing a file handle.
  unfoldable pub close_storage : (List ℕ → Disk) → Storage → Storage
  close_storage disks s = record s { writers = close_writers disks s.writers }

  module _ (cal : Calendar) (open_writer : Open) (name : FieldName) where
    -- An error of WriteBatch goes to the caller.
    unfoldable pub act : Action → Storage → Storage
    unfolding turn
    act (stored now order device ps) s = (write_batch cal open_writer now order name device ps s).1
    act (turned k e) s = turn k e s

    unfoldable pub run_actions : List Action → Storage → Storage
    run_actions [] s = s
    run_actions (a ∷ later) s = run_actions later (act a s)

-- GetStats of the engine.
pub record StorageStats : Type 0 where
  pub active_writers : ℕ
  pub device_count : ℕ
  pub config : StorageConfig

abbrev pub get_storage_stats : Storage → StorageStats
get_storage_stats s = record {
  active_writers = length s.writers;
  device_count = length s.device_schemas;
  config = s.config;
}
