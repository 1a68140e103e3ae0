-- ===== src/Storage/Engine/Runs.antt =====
-- Any sequence of calls and turns, from an engine that has just been made.
use mathlib.Core.Path.{subst}
use go_project.Base.{
  ℕ, ◌≡◌, refl, ap, ◌∙◌, sym, List, [], ◌∷◌, ◌++◌, none, some, All, Bool, keep, if◌then◌else◌,
  Bool-cases, Option-cases, inl, inr, append_assoc, append-nil,
}
use go_project.Base.Dict.{same, same_sound, lookup, insert, lookup-insert}
use go_project.Zstd.{Zstd}
use go_project.Point.{SimpleDataPoint}
use go_project.Writer
use go_project.Writer.{DayWriter, Event}
use go_project.Writer.Runs.{IsTurn, turn-Accounts}
use go_project.Storage.{
  StorageConfig, Storage, Calendar, Open, FieldName, new_storage, writer_key, write_batch,
}
use go_project.Storage.Grouping.{on_day}
use go_project.Storage.Engine.{Action, stored, turned, turn, act, run_actions}
use go_project.Storage.Engine.Refinement.{History, IsFresh, IsAction, Tracks, Refines, Refines-resp}
use go_project.Storage.Engine.Batch.{write_batch-Refines, with_batch}

-- The points that a sequence hands over for a device and a date, in order.
abbrev pub accepted : Calendar → List Action → History
accepted cal [] device date = []
accepted cal (stored now order other ps ∷ later) device date =
    let rest = accepted cal later device date in
    if same other device then keep (on_day cal date) ps ++ rest else rest
accepted cal (turned k e ∷ later) device date = accepted cal later device date

accepted-cons :
    (cal : Calendar) (a : Action) (later : List Action) (device date : List ℕ)
    → accepted cal (a ∷ []) device date ++ accepted cal later device date
      ≡ accepted cal (a ∷ later) device date
accepted-cons cal (turned k e) later device date = refl
accepted-cons cal (stored now o other ps) later device date =
    elim (Bool-cases (same other device)) [
      | inl here ↦ rw (here, append-nil)
      | inr elsewhere ↦ rw elsewhere
    ]

module _ (z : Zstd) (index_interval : ℕ) where
  turn_missing :
      (k : List ℕ) (e : Event) (s : Storage)
      → lookup k s.writers ≡ none
      → turn z index_interval k e s ≡ s
  unfolding turn
  turn_missing k e s missing = rw (missing, turn)

  turn_there :
      (k : List ℕ) (e : Event) (s : Storage) (w : DayWriter)
      → lookup k s.writers ≡ some w
      → turn z index_interval k e s
        ≡ record s { writers = insert k (Writer.step z index_interval e w) s.writers }
  unfolding turn
  turn_there k e s w there = rw (there, turn)

  stepped-Refines :
      (k : List ℕ) (e : Event) (h : History) (s : Storage) (w : DayWriter)
      → IsTurn e
      → lookup k s.writers ≡ some w
      → Refines z index_interval h s
      → Refines z index_interval h
          (record s { writers = insert k (Writer.step z index_interval e w) s.writers })
  stepped-Refines k e h s w t there r device date d =
      let key : List ℕ = writer_key device date in
      rw (lookup-insert k key (Writer.step z index_interval e w) s.writers)
        (elim (Bool-cases (same k key)) [
          | inr elsewhere ↦ rw elsewhere (r device date d)
          | inl here ↦
              let it : lookup key s.writers ≡ some w =
                ap (λ (l : List ℕ). lookup l s.writers) (sym (same_sound k key here)) ∙ there in
              let a : Tracks z index_interval (h device date) (some w) =
                subst (Tracks z index_interval (h device date)) it (r device date d) in
              rw here (turn-Accounts z index_interval [] [] e (h device date) w t a)
        ])

  turn-Refines :
      (k : List ℕ) (e : Event) (h : History) (s : Storage)
      → IsTurn e
      → Refines z index_interval h s
      → Refines z index_interval h (turn z index_interval k e s)
  turn-Refines k e h s t r = elim (Option-cases (lookup k s.writers)) [
    | inl missing ↦ subst (Refines z index_interval h) (sym (turn_missing k e s missing)) r
    | inr (w, there) ↦
        subst (Refines z index_interval h) (sym (turn_there k e s w there))
          (stepped-Refines k e h s w t there r)
  ]

  module _ (cal : Calendar) (open_writer : Open) (fresh : IsFresh open_writer)
      (name : FieldName) where
    act-Refines :
        (a : Action) (h : History) (s : Storage)
        → IsAction a
        → Refines z index_interval h s
        → Refines z index_interval
            (λ device date. h device date ++ accepted cal (a ∷ []) device date)
            (act z index_interval cal open_writer name a s)
    unfolding act
    act-Refines (turned k e) h s t r =
        Refines-resp z index_interval h _ (turn z index_interval k e s)
          (λ device date. sym (append-nil (h device date))) (turn-Refines k e h s t r)
    act-Refines (stored now o' other ps) h s o r =
        let (s', run, r') =
          write_batch-Refines z index_interval cal open_writer fresh now o' name other ps h s o r in
        let state : (write_batch cal open_writer now o' name other ps s).1 ≡ s' =
          ap (λ (x : Bool × Storage). x.1) run in
        rw state (
          Refines-resp z index_interval
            (with_batch z index_interval cal open_writer fresh now h other ps) _ s'
            (λ device date. elim (Bool-cases (same other device)) [
              | inl here ↦ rw (here, append-nil)
              | inr elsewhere ↦ rw (elsewhere, append-nil)
            ])
            r')

    new_storage-Refines :
        (config : StorageConfig) → Refines z index_interval (λ device date. []) (new_storage config)
    unfolding new_storage lookup
    new_storage-Refines config device date d = refl

    run_actions-Refines_from :
        (actions : List Action) (h : History) (s : Storage)
        → All IsAction actions
        → Refines z index_interval h s
        → Refines z index_interval
            (λ device date. h device date ++ accepted cal actions device date)
            (run_actions z index_interval cal open_writer name actions s)
    unfolding run_actions
    run_actions-Refines_from [] h s t r =
        Refines-resp z index_interval h _ s (λ device date. sym (append-nil (h device date))) r
    run_actions-Refines_from (a ∷ later) h s (t, ts) r =
        Refines-resp z index_interval _ _
          (run_actions z index_interval cal open_writer name later
            (act z index_interval cal open_writer name a s))
          (λ device date.
            append_assoc (h device date) (accepted cal (a ∷ []) device date)
              (accepted cal later device date)
            ∙ ap (λ (l : List SimpleDataPoint). h device date ++ l)
                (accepted-cons cal a later device date))
          (run_actions-Refines_from later _ _ ts (act-Refines a h s t r))

    -- From a new engine, over files that were empty, through any sequence of batches, at any times
    -- and in any order of their groups, and of turns of the writers on a disk that does not fail:
    -- for every device and date the writer holds just the points handed over for them, in order
    -- and once, in whole blocks on the disk and behind those in its buffer; and where there is no
    -- writer there was no point.
    pub run_actions-Refines :
        (config : StorageConfig) (actions : List Action)
        → All IsAction actions
        → Refines z index_interval
            (accepted cal actions)
            (run_actions z index_interval cal open_writer name actions (new_storage config))
    run_actions-Refines config actions t =
        run_actions-Refines_from actions (λ device date. []) (new_storage config) t
          (new_storage-Refines config)
