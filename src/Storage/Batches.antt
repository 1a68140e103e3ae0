-- ===== src/Storage/Batches.antt =====
-- Storage.WriteBatch as a whole, in whatever order the groups are walked.
use mathlib.Core.Path.{subst}
use go_project.Base.{
  ℕ, ◌≡◌, refl, ap, ◌∙◌, List, [], ◌∷◌, ◌++◌, true, false, All, keep, length, Bool-cases,
  Option-cases, none, some, inl, inr, append-nil, sym, arith,
}
use go_project.Base.Dict.{same, same_sound, insert, lookup}
use go_project.Point.{SimpleDataPoint}
use go_project.Writer.{DayWriter}
use go_project.Storage.{
  Storage, Calendar, Open, Groups, FieldName, write_batch, register_schema, group_by_day, group_at,
  writer_key,
}
use go_project.Storage.Grouping.{
  on_day, IsDistinct, pending, Opens, group_at-group_by_day, write_groups-pending,
}

insert-All :
    (gs : Groups) (k date : List ℕ) (ps : List SimpleDataPoint)
    → same k date ≡ false
    → All (λ h. same h.0 date ≡ false) gs
    → All (λ h. same h.0 date ≡ false) (insert k ps gs)
unfolding insert
insert-All [] k date ps e h = (e, tt)
insert-All ((j, qs) ∷ gs) k date ps e (h, hs) = elim (Bool-cases (same j k)) [
  | inl here ↦ rw here (e, hs)
  | inr elsewhere ↦ rw elsewhere (h, insert-All gs k date ps e hs)
]

same_sym : (xs ys : List ℕ) → same xs ys ≡ false → same ys xs ≡ false
same_sym xs ys h = elim (Bool-cases (same ys xs)) [
  | inr differ ↦ differ
  | inl agree ↦ let e : ys ≡ xs = same_sound ys xs agree in rw e (rw e at h)
]

insert-IsDistinct :
    (gs : Groups) (k : List ℕ) (ps : List SimpleDataPoint)
    → IsDistinct gs
    → IsDistinct (insert k ps gs)
unfolding insert
insert-IsDistinct [] k ps h = (tt, tt)
insert-IsDistinct ((j, qs) ∷ gs) k ps (new, h) = elim (Bool-cases (same j k)) [
  | inl here ↦
      let e : j ≡ k = same_sound j k here in
      rw here (subst (λ (d : List ℕ). All (λ h. same h.0 d ≡ false) gs) e new, h)
  | inr elsewhere ↦
      rw elsewhere (insert-All gs k j ps (same_sym j k elsewhere) new, insert-IsDistinct gs k ps h)
]

pub group_by_day-IsDistinct :
    (cal : Calendar) (ps : List SimpleDataPoint) (gs : Groups)
    → IsDistinct gs
    → IsDistinct (group_by_day cal ps gs)
unfolding group_by_day
group_by_day-IsDistinct cal [] gs h = h
group_by_day-IsDistinct cal (p ∷ ps) gs h =
    group_by_day-IsDistinct cal ps _ (insert-IsDistinct gs _ _ h)

pub writers-register_schema :
    (name : FieldName) (device : List ℕ) (count : ℕ) (s : Storage)
    → (register_schema name device count s).writers ≡ s.writers
unfolding register_schema
writers-register_schema name device count s = elim (Option-cases (lookup device s.device_schemas)) [
  | inl e ↦ ground (arith, e)
  | inr (names, e) ↦ ground (arith, e)
]

pending-register_schema :
    (name : FieldName) (device date : List ℕ) (count : ℕ) (s : Storage)
    → pending device date (register_schema name device count s) ≡ pending device date s
pending-register_schema name device date count s =
    ap
      (λ (m : List (List ℕ × DayWriter)). elim (lookup (writer_key device date) m) [
        | none ↦ []
        | some w ↦ w.buffer
      ])
      (writers-register_schema name device count s)

pub nothing_at : (date : List ℕ) → group_at date [] ≡ []
unfolding lookup
nothing_at date = refl

-- For a calendar, a clock and files that can always be opened, and any order in which a map may be
-- walked: writing a batch returns without an error, and behind it every date's writer of the device
-- has in its buffer what it had, followed by the points of the batch with that date, in their order.
pub write_batch-pending :
    (cal : Calendar) (open_writer : Open) (now : ℕ) (arrange : Groups → Groups)
    → Opens open_writer
    → ((gs : Groups)
        → IsDistinct gs
        → IsDistinct (arrange gs)
          × ((date : List ℕ) → group_at date (arrange gs) ≡ group_at date gs))
    → (name : FieldName) (device : List ℕ) (ps : List SimpleDataPoint) (s : Storage)
    → (s' : Storage) × (write_batch cal open_writer now arrange name device ps s ≡ (true, s'))
      × ((date : List ℕ)
          → pending device date s' ≡ pending device date s ++ keep (on_day cal date) ps)
unfolding write_batch
write_batch-pending cal open_writer now arrange opens order name device [] s =
    (s, refl, λ date. sym (append-nil (pending device date s)))
write_batch-pending cal open_writer now arrange opens order name device (p ∷ ps) s =
    let gs : Groups = group_by_day cal (p ∷ ps) [] in
    let (distinct, kept) = order gs (group_by_day-IsDistinct cal (p ∷ ps) [] tt) in
    let start : Storage = register_schema name device (length p.values) s in
    let (s', run, waits) =
      write_groups-pending cal open_writer now opens (arrange gs) device start distinct in
    (
      s',
      run,
      λ date.
          waits date
          ∙ rw (
            pending-register_schema name device date (length p.values) s,
            kept date,
            group_at-group_by_day cal (p ∷ ps) [] date,
            nothing_at date,
          ),
    )
