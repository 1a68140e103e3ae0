-- ===== src/Storage/Moving.antt =====
-- Storage.moveColdData: the hot files of a device that are old enough are compressed anew into the
-- cold directory. A directory is a map from the names of its files to their bytes, and which calls
-- fail is given for each file.
use go_project.Base.{
  ℕ, List, [], ◌∷◌, ◌++◌, Option, none, some, Bool, true, false, length, ltb, if◌then◌else◌,
}
use go_project.Base.Dict.{same, lookup, insert}
use go_project.Text.{codes}
use go_project.Zstd.{Zstd}
use go_project.Writer.{DayWriter}
use go_project.Storage.Cleanup.{DirEntry, idx_suffix, is_expired}
use go_project.Storage.Tiering.{
  Obstacles, Recompressed, not_begun, tmp_opened, both_opened, rewritten, recompress_cold,
}

abbrev pub Directory : Type 0
Directory = List (List ℕ × List ℕ)

abbrev pub erase : List ℕ → Directory → Directory
erase k [] = []
erase k ((j, bytes) ∷ m) = let rest = erase k m in if same j k then rest else (j, bytes) ∷ rest

-- The directories of a device in the two tiers.
pub record Tiers : Type 0 where
  pub hot_files : Directory
  pub cold_files : Directory

-- Which of MkdirAll, the calls in recompressCold, Rename, the Remove of the temporary file, WriteFile
-- and the two other calls of Remove fail.
pub record Faults : Type 0 where
  pub no_directory : Bool
  pub obstacles : Obstacles
  pub kept_tmp : Bool
  pub no_rename : Bool
  pub no_index : Bool
  pub kept_file : Bool
  pub kept_index : Bool

abbrev pub tmp_suffix : List ℕ
tmp_suffix = codes ".tmp"

abbrev pub contents : Option (List ℕ) → List ℕ
contents none = []
contents (some bytes) = bytes

-- A file that was opened, and created if it was not there.
abbrev pub opened : List ℕ → Directory → Directory
opened name cold = insert name (contents (lookup name cold)) cold

-- The cold directory behind recompressCold.
abbrev pub with_tmp : List ℕ → DayWriter → Directory → Directory
with_tmp name w cold =
    insert ((name ++ tmp_suffix) ++ idx_suffix) w.idx_file (insert (name ++ tmp_suffix) w.file cold)

-- Rename, behind which the temporary file is gone; its index file stays.
abbrev pub renamed : List ℕ → DayWriter → Directory → Directory
renamed name w cold = insert name w.file (erase (name ++ tmp_suffix) (with_tmp name w cold))

abbrev pub with_index : Bool → List ℕ → Option (List ℕ) → Directory → Directory
with_index failed name none cold = cold
with_index true name (some idx) cold = cold
with_index false name (some idx) cold = insert (name ++ idx_suffix) idx cold

abbrev pub unless : Bool → List ℕ → Directory → Directory
unless failed name hot = if failed then hot else erase name hot

module _ (hot_z cold_z : Zstd) (index_interval : ℕ) where
  -- The temporary file and its index file, which the writer appends to if they are there.
  abbrev pub recompressed : Obstacles → List ℕ → List ℕ → Directory → Recompressed
  recompressed o name file cold =
      recompress_cold hot_z cold_z index_interval o file
        (contents (lookup (name ++ tmp_suffix) cold))
        (contents (lookup ((name ++ tmp_suffix) ++ idx_suffix) cold))

  -- Behind recompressCold: an error of it, or of Rename, removes the temporary file.
  unfoldable pub finish_move : Faults → List ℕ → Tiers → Recompressed → Tiers
  finish_move faults name t (rewritten w) =
      if faults.no_rename
      then record t {
        cold_files = unless faults.kept_tmp (name ++ tmp_suffix) (with_tmp name w t.cold_files);
      }
      else record {
        hot_files =
            unless faults.kept_index (name ++ idx_suffix)
              (unless faults.kept_file name t.hot_files);
        cold_files =
            with_index faults.no_index name (lookup (name ++ idx_suffix) t.hot_files)
              (renamed name w t.cold_files);
      }
  finish_move faults name t not_begun = record t {
    cold_files = unless faults.kept_tmp (name ++ tmp_suffix) t.cold_files;
  }
  finish_move faults name t tmp_opened = record t {
    cold_files =
        unless faults.kept_tmp (name ++ tmp_suffix) (opened (name ++ tmp_suffix) t.cold_files);
  }
  finish_move faults name t both_opened = record t {
    cold_files =
        unless faults.kept_tmp (name ++ tmp_suffix)
          (opened ((name ++ tmp_suffix) ++ idx_suffix) (opened (name ++ tmp_suffix) t.cold_files));
  }

  -- A file that is there and old enough.
  unfoldable pub move_found : Faults → List ℕ → List ℕ → Tiers → Tiers
  move_found faults name file t =
      finish_move faults name t (recompressed faults.obstacles name file t.cold_files)

  unfoldable pub move_file : Faults → List ℕ → Tiers → Tiers
  move_file faults name t =
      if faults.no_directory
      then t
      else elim (lookup name t.hot_files) [ none ↦ t | some file ↦ move_found faults name file t ]

  -- The loop over the files of a device, which were listed before. `false`: the slice
  -- file.Name()[:10] panicked.
  unfoldable pub move_files :
      (List ℕ → Option ℕ) → ℕ → (List ℕ → Faults) → List DirEntry → Tiers → Bool × Tiers
  move_files parse_date cutoff faults [] t = (true, t)
  move_files parse_date cutoff faults (file ∷ files) t = elim file.is_dir [
    | true ↦ move_files parse_date cutoff faults files t
    | false ↦ elim (ltb (length file.name) 10) [
      | true ↦ (false, t)
      | false ↦ elim (is_expired parse_date cutoff file.name) [
        | true ↦
            move_files parse_date cutoff faults files (move_file (faults file.name) file.name t)
        | false ↦ move_files parse_date cutoff faults files t
      ]
    ]
  ]

  -- The loop over the devices of the hot directory, each with its files in the two tiers.
  unfoldable pub move_devices :
      (List ℕ → Option ℕ)
      → ℕ
      → (List ℕ → List ℕ → Faults)
      → List (DirEntry × List DirEntry × Tiers)
      → Bool × List (DirEntry × List DirEntry × Tiers)
  move_devices parse_date cutoff faults [] = (true, [])
  move_devices parse_date cutoff faults ((device, files, t) ∷ devices) = elim device.is_dir [
    | false ↦
        let (ended, rest) = move_devices parse_date cutoff faults devices in
        (ended, (device, files, t) ∷ rest)
    | true ↦
        let (ended, t') = move_files parse_date cutoff (faults device.name) files t in
        let (later, rest) = move_devices parse_date cutoff faults devices in
        elim ended [
          | false ↦ (false, (device, files, t') ∷ devices)
          | true ↦ (later, (device, files, t') ∷ rest)
        ]
  ]
