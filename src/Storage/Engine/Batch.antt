-- ===== src/Storage/Engine/Batch.antt =====
-- One batch in the engine: every history that the engine refines, it refines with the points of
-- the batch added.
use mathlib.Core.Path.{subst}
use go_project.Base.{
  ℕ, ◌≡◌, refl, ap, ◌∙◌, sym, List, [], ◌∷◌, ◌++◌, some, length, All, true, false, keep,
  if◌then◌else◌, Bool-cases, Option-cases, inl, inr, append-nil, arith,
}
use go_project.Base.Dict.{same, same_sound, lookup, insert}
use go_project.Zstd.{Zstd}
use go_project.Point.{SimpleDataPoint}
use go_project.Writer
use go_project.Writer.{DayWriter, Event, new_day_writer}
use go_project.Writer.Runs.{Accounts, write_batch-Accounts, new_day_writer-Accounts}
use go_project.Storage.{
  Storage, Calendar, Open, Groups, FieldName, tier_of, writer_key, get_or_create_writer, group_at,
  group_by_day, write_groups, write_batch, register_schema,
}
use go_project.Storage.Grouping.{
  on_day, IsDistinct, absent, group_at-cons, group_at-group_by_day, write_groups_step,
}
use go_project.Storage.Batches.{group_by_day-IsDistinct, writers-register_schema, nothing_at}
use go_project.Storage.Engine.Refinement.{
  History, IsDate, AreDated, IsOrder, IsFresh, Tracks, Refines, Refines-resp, with_entry,
  with_same_entry, insert-Refines,
}

insert-AreDated :
    (gs : Groups) (k : List ℕ) (ps : List SimpleDataPoint)
    → IsDate k
    → AreDated gs
    → AreDated (insert k ps gs)
unfolding insert
insert-AreDated [] k ps d h = (d, tt)
insert-AreDated ((j, qs) ∷ gs) k ps d (e, h) = elim (Bool-cases (same j k)) [
  | inl here ↦ rw here (d, h)
  | inr elsewhere ↦ rw elsewhere (e, insert-AreDated gs k ps d h)
]

module _ (z : Zstd) (index_interval : ℕ) where
  module _ (cal : Calendar) (open_writer : Open) (fresh : IsFresh open_writer) (now : ℕ) where
    found :
        (h : History) (device date : List ℕ) (s : Storage)
        → IsDate date
        → Refines z index_interval h s
        → (w : DayWriter) × (s' : Storage) × (get_or_create_writer cal open_writer now device date s
            ≡ (some w, s'))
          × Refines z index_interval h s'
          × Accounts z index_interval [] [] (h device date) w
    unfolding get_or_create_writer
    found h device date s d r = elim (Option-cases (lookup (writer_key device date) s.writers)) [
      | inr (w, e) ↦ (w, s, ground (arith, e), r, rw e at (r device date d))
      | inl e ↦
          let nothing : h device date ≡ [] = rw e at (r device date d) in
          let s' : Storage = record s {
            writers = insert (writer_key device date) (new_day_writer [] []) s.writers;
          } in
          let o = fresh (tier_of cal s.config.hot_days now date) device date in
          let a : Accounts z index_interval [] [] (h device date) (new_day_writer [] []) =
            rw nothing (new_day_writer-Accounts z index_interval [] []) in
          (
            new_day_writer [] [],
            s',
            ground (arith, e, o),
            Refines-resp z index_interval (with_entry h device date (h device date)) h s'
                (with_same_entry h device date)
                (insert-Refines z index_interval h device date (h device date)
                  (new_day_writer [] []) s d r a),
            a,
          )
    ]

    abbrev with_groups : History → List ℕ → Groups → History
    with_groups h device gs other day =
        if same device other then h other day ++ group_at day gs else h other day

    groups-cons :
        (h : History) (device date : List ℕ) (ps : List SimpleDataPoint) (gs : Groups)
        (other day : List ℕ)
        → All (λ g. same g.0 date ≡ false) gs
        → with_groups (with_entry h device date (h device date ++ ps)) device gs other day
          ≡ with_groups h device ((date, ps) ∷ gs) other day
    groups-cons h device date ps gs other day new = elim (Bool-cases (same device other)) [
      | inr elsewhere ↦ rw elsewhere
      | inl here ↦ elim (Bool-cases (same date day)) [
        | inr later ↦ rw (here, later, group_at-cons date day ps gs, later)
        | inl today ↦
            let d : date ≡ day = same_sound date day today in
            let k : device ≡ other = same_sound device other here in
            let gone : group_at day gs ≡ [] =
              ap (λ (t : List ℕ). group_at t gs) (sym d) ∙ absent date gs new in
            let entry : h device date ≡ h other day =
              ap (λ (l : List ℕ). h l date) k ∙ ap (h other) d in
            rw (here, today, group_at-cons date day ps gs, today, gone, append-nil, entry)
      ]
    ]

    write_groups-Refines :
        (gs : Groups) (device : List ℕ) (h : History) (s : Storage)
        → AreDated gs
        → IsDistinct gs
        → Refines z index_interval h s
        → (s' : Storage) × (write_groups cal open_writer now device gs s ≡ (true, s'))
          × Refines z index_interval (with_groups h device gs) s'
    write_groups-Refines [] device h s dated distinct r = (
      s,
      unfold write_groups in refl,
      Refines-resp z index_interval h _ s
          (λ other day. elim (Bool-cases (same device other)) [
            | inl here ↦ rw (here, nothing_at day, append-nil)
            | inr elsewhere ↦ rw elsewhere
          ])
          r,
    )
    write_groups-Refines ((date, ps) ∷ gs) device h s (d, dated) (new, distinct) r =
        let (w, s', e, r', a) = found h device date s d r in
        let next : Storage = record s' {
          writers = insert (writer_key device date) (Writer.write_batch ps w) s'.writers;
        } in
        let more = write_batch-Accounts z index_interval [] [] (h device date) ps w a in
        let (s'', run, r'') =
          write_groups-Refines gs device (with_entry h device date (h device date ++ ps)) next dated
            distinct
            (insert-Refines z index_interval h device date (h device date ++ ps)
              (Writer.write_batch ps w) s' d r' more) in
        (
          s'',
          write_groups_step cal open_writer now device date ps gs s s' w e ∙ run,
          Refines-resp z index_interval _ _ s''
              (λ other day. groups-cons h device date ps gs other day new) r'',
        )

    group_by_day-AreDated :
        (ps : List SimpleDataPoint) (gs : Groups) → AreDated gs → AreDated (group_by_day cal ps gs)
    unfolding group_by_day
    group_by_day-AreDated [] gs h = h
    group_by_day-AreDated (p ∷ ps) gs h =
        group_by_day-AreDated ps _ (insert-AreDated gs _ _ (cal.date_length p.timestamp) h)

    -- What one call of WriteBatch adds to a history.
    abbrev pub with_batch : History → List ℕ → List SimpleDataPoint → History
    with_batch h device ps other day =
        if same device other then h other day ++ keep (on_day cal day) ps else h other day

    batch_groups :
        (h : History) (device : List ℕ) (ps : List SimpleDataPoint) (gs : Groups)
        (other day : List ℕ)
        → group_at day gs ≡ group_at day (group_by_day cal ps [])
        → with_groups h device gs other day ≡ with_batch h device ps other day
    batch_groups h device ps gs other day e =
        let points : group_at day gs ≡ keep (on_day cal day) ps =
          e
          ∙ group_at-group_by_day cal ps [] day
          ∙ ap (λ (l : List SimpleDataPoint). l ++ keep (on_day cal day) ps) (nothing_at day) in
        rw points

    pub write_batch-Refines :
        (order : Groups → Groups) (name : FieldName) (device : List ℕ) (ps : List SimpleDataPoint)
        (h : History) (s : Storage)
        → IsOrder order
        → Refines z index_interval h s
        → (s' : Storage) × (write_batch cal open_writer now order name device ps s ≡ (true, s'))
          × Refines z index_interval (with_batch h device ps) s'
    unfolding write_batch
    write_batch-Refines order name device [] h s o r = (
      s,
      refl,
      Refines-resp z index_interval h (with_batch h device []) s
          (λ other day. elim (Bool-cases (same device other)) [
            | inl here ↦ rw (here, append-nil)
            | inr elsewhere ↦ rw elsewhere
          ])
          r,
    )
    write_batch-Refines order name device (p ∷ ps) h s o r =
        let gs : Groups = group_by_day cal (p ∷ ps) [] in
        let start : Storage = register_schema name device (length p.values) s in
        let (distinct, dated, kept) =
          o gs (group_by_day-IsDistinct cal (p ∷ ps) [] tt)
            (group_by_day-AreDated (p ∷ ps) [] tt) in
        let begun : Refines z index_interval h start = λ other day d.
          subst
            (λ (m : List (List ℕ × DayWriter)).
              Tracks z index_interval (h other day) (lookup (writer_key other day) m))
            (sym (writers-register_schema name device (length p.values) s)) (r other day d) in
        let (s', run, r') = write_groups-Refines (order gs) device h start dated distinct begun in
        (
          s',
          run,
          Refines-resp z index_interval (with_groups h device (order gs))
              (with_batch h device (p ∷ ps)) s'
              (λ other day. batch_groups h device (p ∷ ps) (order gs) other day (kept day)) r',
        )
