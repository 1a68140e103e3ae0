-- ===== src/Storage/Engine/Served.antt =====
-- From the calls of WriteBatch to the answer of Query: a closed engine over the files of its writers.
use mathlib.Core.Path.{subst}
use mathlib.Core.List.{Perm}
use go_project.Base.{
  ℕ, ◌<◌, ◌^◌, ◌≡◌, refl, ap, ◌∙◌, sym, List, [], ◌∷◌, ◌++◌, Option, none, some, length, All,
  if◌then◌else◌, keep, keep-append, Bool-cases, Option-cases, inl, inr, append-nil,
}
use go_project.Base.Dict.{same, lookup}
use go_project.Zstd.{Zstd}
use go_project.Point.{SimpleDataPoint}
use go_project.Reader.{in_range}
use go_project.Reader.Query.{done}
use go_project.Writer.{DayWriter}
use go_project.Writer.Order.{IsSorted}
use go_project.Storage.{
  StorageConfig, Storage, Calendar, Open, FieldName, Tier, hot, cold, writer_key,
}
use go_project.Storage.Query.{query_file}
use go_project.Storage.Grouping.{on_day}
use go_project.Storage.Days.{Files, query_days, both_tiers, query_day, query_storage}
use go_project.Storage.Collected.{IsRegular, query_storage-Perm}
use go_project.Storage.Engine.{Action, stored, turned}
use go_project.Storage.Engine.Refinement.{IsDate, IsFresh, IsAction}
use go_project.Storage.Engine.Runs.{accepted}
use go_project.Storage.Engine.Answers.{
  Settled, finished, IsReadableIn, close_storage-Settled, query_file-close_storage,
}

-- The points handed over for a device, batch after batch.
abbrev pub handed : List Action → List ℕ → List SimpleDataPoint
handed [] device = []
handed (stored now order other ps ∷ later) device =
    let rest = handed later device in if same other device then ps ++ rest else rest
handed (turned k e ∷ later) device = handed later device

pub accepted-handed :
    (cal : Calendar) (actions : List Action) (device date : List ℕ)
    → accepted cal actions device date ≡ keep (on_day cal date) (handed actions device)
accepted-handed cal [] device date = refl
accepted-handed cal (turned k e ∷ later) device date = accepted-handed cal later device date
accepted-handed cal (stored now order other ps ∷ later) device date =
    elim (Bool-cases (same other device)) [
      | inl here ↦ rw here (
          ap (λ l. keep (on_day cal date) ps ++ l) (accepted-handed cal later device date)
          ∙ sym (keep-append (on_day cal date) ps (handed later device)))
      | inr elsewhere ↦ rw elsewhere (accepted-handed cal later device date)
    ]

-- The two files of a writer.
abbrev pub files_of : Option DayWriter → Option (List ℕ) × Option (List ℕ)
files_of none = (none, none)
files_of (some w) = (some w.file, some w.idx_file)

abbrev in_tier : Tier → Tier → Option (List ℕ) × Option (List ℕ) → Option (List ℕ) × Option (List ℕ)
in_tier hot hot pair = pair
in_tier cold cold pair = pair
in_tier hot cold pair = (none, none)
in_tier cold hot pair = (none, none)

-- The files of a device, those of each date in the tier where its writer was opened.
abbrev pub device_files : (List ℕ → Tier) → List ℕ → Storage → Files
device_files placed device s tier date =
    in_tier (placed date) tier (files_of (lookup (writer_key device date) s.writers))

module _ (z : Zstd) (cal : Calendar) (files : Files) (start_time end_time : ℕ) where
  tiers_answer :
      (placed : Tier) (pair : Option (List ℕ) × Option (List ℕ)) (ps : List SimpleDataPoint)
      → query_file z start_time end_time pair.0 pair.1 ≡ done ps
      → both_tiers z cal files start_time end_time
          (in_tier placed hot pair)
          (in_tier placed cold pair)
        ≡ some ps
  unfolding query_file
  tiers_answer hot pair ps e = rw e (ap some (append-nil ps))
  tiers_answer cold pair ps e = rw e refl

-- For every date: the points of the device came in the order of time, any consecutive ones of them
-- make a readable block, and the data file is shorter than an int64 can tell.
pub record IsServed (z : Zstd) (index_interval : ℕ) (cal : Calendar) (actions : List Action)
    (device : List ℕ) (s : Storage) : Type 0 where
  pub sorted : (date : List ℕ) → IsDate date → IsSorted (accepted cal actions device date)
  pub readable :
      (date : List ℕ)
      → IsDate date
      → IsReadableIn z index_interval (accepted cal actions device date)
  pub small :
      (date : List ℕ) (w : DayWriter)
      → lookup (writer_key device date) s.writers ≡ some w
      → length w.file < 2 ^ 63

module _ (z : Zstd) (index_interval : ℕ) (cal : Calendar) (open_writer : Open)
    (fresh : IsFresh open_writer) (name : FieldName) (config : StorageConfig)
    (actions : List Action) (device : List ℕ) (start_time end_time : ℕ)
    (all : All IsAction actions) where
  abbrev closed : Storage
  closed = finished z index_interval cal open_writer fresh name config actions

  -- The points of a date that are asked for.
  abbrev wanted : List ℕ → List SimpleDataPoint
  wanted date = keep (in_range start_time end_time) (accepted cal actions device date)

  module _ (served : IsServed z index_interval cal actions device closed) where
    date_answer :
        (date : List ℕ)
        → IsDate date
        → query_file z start_time end_time
            (files_of (lookup (writer_key device date) closed.writers)).0
            (files_of (lookup (writer_key device date) closed.writers)).1
          ≡ done (wanted date)
    unfolding query_file
    date_answer date d = elim (Option-cases (lookup (writer_key device date) closed.writers)) [
      | inl missing ↦
          let none_there : accepted cal actions device date ≡ [] =
            subst (Settled z index_interval (accepted cal actions device date)) missing (
              close_storage-Settled z index_interval cal open_writer fresh name config actions
                device date all d) in
          rw (missing, none_there) refl
      | inr (w, there) ↦ rw there (
          query_file-close_storage z index_interval cal open_writer fresh name config actions device
            date start_time end_time w all d there (served.readable date d) (served.sorted date d)
            (served.small date w there))
    ]

    day_answer :
        (placed : List ℕ → Tier) (d : ℕ)
        → query_day z cal (device_files placed device closed) start_time end_time d
          ≡ some (
              keep
                (in_range start_time end_time)
                (keep (on_day cal (cal.date_of d)) (handed actions device)))
    unfolding query_day
    day_answer placed d =
        let date : List ℕ = cal.date_of d in
        tiers_answer z cal (device_files placed device closed) start_time end_time (placed date)
          (files_of (lookup (writer_key device date) closed.writers)) (wanted date)
          (date_answer date (cal.date_length d))
        ∙ ap (λ l. some (keep (in_range start_time end_time) l))
            (accepted-handed cal actions device date)

    -- After any sequence of batches and turns of the writers, from a new engine over empty files on
    -- a disk that does not fail, and Close; in a calendar without changes of the clock, with times
    -- of this device and ends of the range from 1970 on, and in whatever tiers the files stand and
    -- in whatever order the goroutines of Query end: Query returns, and gives just the points of
    -- the range that were handed over for the device in all batches, each as often as it was; if on
    -- every date they came in the order of time, any consecutive ones make a readable block, and
    -- the data files are shorter than an int64 can tell.
    pub query_storage-close_storage :
        (regular : IsRegular cal) (placed : List ℕ → Tier) (order : List ℕ → List ℕ)
        → start_time < 2 ^ 63
        → end_time < 2 ^ 63
        → All (λ p. p.timestamp < 2 ^ 63) (handed actions device)
        → Perm (order (query_days start_time end_time)) (query_days start_time end_time)
        → (result : List SimpleDataPoint) × (query_storage z cal
              (device_files placed device closed)
              start_time
              end_time
              order
            ≡ some result)
          × Perm result (keep (in_range start_time end_time) (handed actions device))
    query_storage-close_storage regular placed order a b fits turns =
        query_storage-Perm cal regular start_time end_time a b z (device_files placed device closed)
          order (handed actions device) turns fits (day_answer placed)
