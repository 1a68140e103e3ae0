-- ===== src/Storage/Moved.antt =====
-- What a move of Storage.moveColdData keeps, whichever of its calls fail.
use go_project.Base.{ℕ, ◌≡◌, ◌⊎◌, List, some}
use go_project.Base.Dict.{lookup}
use go_project.Zstd.{Zstd}
use go_project.Storage.Tiering.{Recompressed, rewritten}
use go_project.Storage.Moving.{Tiers, Faults}

module _ (name : List ℕ) where
  -- The hot directory is as it was, and so is the cold file of this name; or that holds `bytes`.
  abbrev pub IsMoved : List ℕ → Tiers → Tiers → Type 0
  IsMoved bytes t t' =
      ((t'.hot_files ≡ t.hot_files) × (lookup name t'.cold_files ≡ lookup name t.cold_files))
      ⊎ (lookup name t'.cold_files ≡ some bytes)

-- A writer that recompressCold ends with has written just `bytes`.
abbrev Writes : List ℕ → Recompressed → Type 0
Writes bytes (rewritten w) = w.file ≡ bytes
Writes bytes _ = Unit {0}

module _ (hot_z cold_z : Zstd) (index_interval : ℕ) (name : List ℕ) (faults : Faults) where
  -- What the move does by what recompressCold ends with.
  abbrev Ends : Recompressed → Tiers → Tiers → Type 0
  Ends (rewritten w) t t' = IsMoved name w.file t t'
  Ends _ t t' =
      (t'.hot_files ≡ t.hot_files) × (lookup name t'.cold_files ≡ lookup name t.cold_files)
