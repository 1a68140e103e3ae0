-- ===== src/Storage.antt =====
-- tffiles/storage.go: the storage engine over its writers. The calendar, the opening of files and
-- the order in which Go walks a map are taken as parameters; locks are left out.
pub mod Grouping
pub mod Query
pub mod Days
pub mod Tiering
pub mod Cleanup
pub mod Batches
pub mod Engine
pub mod Gather
pub mod Collected
pub mod Repeated
pub mod Moving
pub mod Moved
use go_project.Base.{
  ℕ, zero, suc, ◌+◌, ◌-◌, ◌*◌, ◌<◌, ◌≡◌, List, [], ◌∷◌, ◌++◌, Option, none, some, length, Bool,
  true, false, ltb, if◌then◌else◌,
}
use go_project.Base.Dict.{lookup, insert}
use go_project.Point.{SimpleDataPoint}
use go_project.Writer
use go_project.Writer.{DayWriter}

pub record StorageConfig : Type 0 where
  pub data_dir : List ℕ
  pub hot_days : ℕ
  pub retention_days : ℕ
  pub compress_level : ℕ
  pub index_interval : ℕ
  pub max_memory_mb : ℕ

unfoldable pub default_config : List ℕ → StorageConfig
default_config dir = record {
  data_dir = dir;
  hot_days = 3;
  retention_days = 30;
  compress_level = 6;
  index_interval = 64 * 1024;
  max_memory_mb = 512;
}

pub data Tier : Type 0 where
  hot cold : Tier

-- The writers by device and date, and the names of a device's fields.
pub record Storage : Type 0 where
  pub config : StorageConfig
  pub writers : List (List ℕ × DayWriter)
  pub device_schemas : List (List ℕ × List (List ℕ))

-- NewStorage, once its directories are there.
unfoldable pub new_storage : StorageConfig → Storage
new_storage config = record { config = config; writers = []; device_schemas = [] }

-- package time: the date of a timestamp as "2006-01-02", and the nanosecond at which such a date
-- begins in UTC. Parsing the text and formatting it again gives the text.
pub record Calendar : Type 0 where
  pub date_of : ℕ → List ℕ
  pub midnight : List ℕ → ℕ
  pub date_length : (t : ℕ) → length (date_of t) ≡ 10

-- "field_%d"
abbrev pub FieldName : Type 0
FieldName = ℕ → List ℕ

unfoldable pub field_names : FieldName → ℕ → ℕ → List (List ℕ)
field_names name i zero = []
field_names name i (suc n) = name i ∷ field_names name (i + 1) n

unfoldable pub register_schema : FieldName → List ℕ → ℕ → Storage → Storage
register_schema name device field_count s = elim (lookup device s.device_schemas) [
  | some names ↦ s
  | none ↦ record s {
    device_schemas = insert device (field_names name 0 field_count) s.device_schemas;
  }
]

unfoldable pub get_device_schema : List ℕ → Storage → Option (List (List ℕ))
get_device_schema device s = lookup device s.device_schemas

-- deviceID + "_" + date
unfoldable pub writer_key : List ℕ → List ℕ → List ℕ
writer_key device date = device ++ (b'_' ∷ date)

-- A day has 86400 * 10^9 nanoseconds; a date in the future has no age.
abbrev pub day_ns : ℕ
day_ns = 86_400_000_000_000

unfoldable pub tier_of : Calendar → ℕ → ℕ → List ℕ → Tier
tier_of cal hot_days now date =
    if ltb (hot_days * day_ns) (now - cal.midnight date) then cold else hot

-- NewDayWriter at a path of the data directory; `none` is an error of the file system.
abbrev pub Open : Type 0
Open = Tier → List ℕ → List ℕ → Option DayWriter

-- groups[dateKey] = append(groups[dateKey], point)
abbrev pub Groups : Type 0
Groups = List (List ℕ × List SimpleDataPoint)

abbrev pub group_at : List ℕ → Groups → List SimpleDataPoint
group_at date gs = elim (lookup date gs) [ none ↦ [] | some ps ↦ ps ]

unfoldable pub group_by_day : Calendar → List SimpleDataPoint → Groups → Groups
group_by_day cal [] gs = gs
group_by_day cal (p ∷ ps) gs =
    let date = cal.date_of p.timestamp in
    group_by_day cal ps (insert date (group_at date gs ++ (p ∷ [])) gs)

module _ (cal : Calendar) (open_writer : Open) (now : ℕ) where
  unfoldable pub get_or_create_writer : List ℕ → List ℕ → Storage → Option DayWriter × Storage
  get_or_create_writer device date s = elim (lookup (writer_key device date) s.writers) [
    | some w ↦ (some w, s)
    | none ↦ elim (open_writer (tier_of cal s.config.hot_days now date) device date) [
      | none ↦ (none, s)
      | some w ↦ (some w, record s { writers = insert (writer_key device date) w s.writers })
    ]
  ]

  -- The second loop; `false` is the early return with an error. A writer is a pointer, so that
  -- its new state is the one in the map.
  unfoldable pub write_groups : List ℕ → Groups → Storage → Bool × Storage
  write_groups device [] s = (true, s)
  write_groups device ((date, ps) ∷ gs) s =
      let (found, s') = get_or_create_writer device date s in
      elim found [
        | none ↦ (false, s')
        | some w ↦ write_groups device gs (record s' {
          writers = insert (writer_key device date) (Writer.write_batch ps w) s'.writers;
        })
      ]

  -- `arrange` is the order in which the groups are walked.
  unfoldable pub write_batch :
      (Groups → Groups) → FieldName → List ℕ → List SimpleDataPoint → Storage → Bool × Storage
  write_batch arrange name device [] s = (true, s)
  write_batch arrange name device (p ∷ ps) s =
      write_groups device (arrange (group_by_day cal (p ∷ ps) []))
        (register_schema name device (length p.values) s)
