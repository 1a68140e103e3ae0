-- ===== src/Storage/Engine/Refinement.antt =====
-- The engine against what it promises: a history says which points of a device and a date were
-- accepted, and the writer of the two holds just those, on the disk and in its buffer.
use mathlib.Core.Path.{subst}
use go_project.Base.{
  ℕ, ◌≡◌, ap, ◌∙◌, sym, List, [], Option, none, some, length, All, Bool, true, ◌&&◌, if◌then◌else◌,
  Bool-cases, inl, inr, arith,
}
use go_project.Base.Dict.{same, same_sound, lookup, insert, lookup-insert}
use go_project.Zstd.{Zstd}
use go_project.Point.{SimpleDataPoint}
use go_project.Writer.{DayWriter, new_day_writer}
use go_project.Writer.Runs.{Accounts, IsTurn}
use go_project.Storage.{Storage, Open, Groups, writer_key, group_at}
use go_project.Storage.Grouping.{IsDistinct}
use go_project.Storage.Engine.{Action, stored, turned}
use go_project.Storage.Engine.Keys.{same-writer_key}

-- The points accepted for a device and a date.
abbrev pub History : Type 0
History = List ℕ → List ℕ → List SimpleDataPoint

abbrev pub IsDate : List ℕ → Type 0
IsDate date = length date ≡ 10

-- Every date of the groups is one.
abbrev pub AreDated : Groups → Type 0
AreDated gs = All (λ g. IsDate g.0) gs

-- An order in which a map may be walked: it keeps the groups as they are.
abbrev pub IsOrder : (Groups → Groups) → Type 0
IsOrder order =
    (gs : Groups)
    → IsDistinct gs
    → AreDated gs
    → IsDistinct (order gs)
      × AreDated (order gs)
      × ((date : List ℕ) → group_at date (order gs) ≡ group_at date gs)

-- Files that are there to be opened, and empty when they are.
abbrev pub IsFresh : Open → Type 0
IsFresh open_writer =
    (tier : _) (device date : List ℕ) → open_writer tier device date ≡ some (new_day_writer [] [])

abbrev pub IsAction : Action → Type 0
IsAction (stored now order device ps) = IsOrder order
IsAction (turned k e) = IsTurn e

-- A history of which one entry is another.
abbrev pub with_entry : History → List ℕ → List ℕ → List SimpleDataPoint → History
with_entry h device date ps other day =
    if same device other && same date day then ps else h other day

pub same_both :
    (device other date day : List ℕ)
    → (same device other && same date day) ≡ true
    → (device ≡ other) × (date ≡ day)
same_both device other date day e = elim (Bool-cases (same device other)) [
  | inr differ ↦ ground (arith, differ, e)
  | inl agree ↦ (same_sound device other agree, same_sound date day (ground (arith, agree, e)))
]

pub with_same_entry :
    (h : History) (device date other day : List ℕ)
    → with_entry h device date (h device date) other day ≡ h other day
with_same_entry h device date other day = elim (Bool-cases (same device other && same date day)) [
  | inl here ↦
      let (d, e) = same_both device other date day here in
      rw here (ap (λ (l : List ℕ). h l date) d ∙ ap (h other) e)
  | inr elsewhere ↦ rw elsewhere
]

module _ (z : Zstd) (index_interval : ℕ) where
  -- What is known of the writer of a device and a date by the points accepted for them.
  abbrev pub Tracks : List SimpleDataPoint → Option DayWriter → Type 0
  Tracks ps none = ps ≡ []
  Tracks ps (some w) = Accounts z index_interval [] [] ps w

  abbrev pub Refines : History → Storage → Type 0
  Refines h s =
      (device date : List ℕ)
      → IsDate date
      → Tracks (h device date) (lookup (writer_key device date) s.writers)

  pub Refines-resp :
      (h g : History) (s : Storage)
      → ((device date : List ℕ) → h device date ≡ g device date)
      → Refines h s
      → Refines g s
  Refines-resp h g s e r device date d =
      subst (λ (ps : List SimpleDataPoint). Tracks ps (lookup (writer_key device date) s.writers))
        (e device date) (r device date d)

  pub insert-Refines :
      (h : History) (device date : List ℕ) (ps : List SimpleDataPoint) (w : DayWriter) (s : Storage)
      → IsDate date
      → Refines h s
      → Accounts z index_interval [] [] ps w
      → Refines
          (with_entry h device date ps)
          (record s { writers = insert (writer_key device date) w s.writers })
  insert-Refines h device date ps w s d r a other day e =
      let found : lookup (writer_key other day) (insert (writer_key device date) w s.writers) ≡ (
          if same device other && same date day
          then some w
          else lookup (writer_key other day) s.writers) =
        lookup-insert (writer_key device date) (writer_key other day) w s.writers
        ∙ ap (λ (b : Bool). if b then some w else lookup (writer_key other day) s.writers)
            (same-writer_key device other date day (d ∙ sym e)) in
      rw found (elim (Bool-cases (same device other && same date day)) [
        | inl here ↦ rw here a
        | inr elsewhere ↦ rw elsewhere (r other day e)
      ])
