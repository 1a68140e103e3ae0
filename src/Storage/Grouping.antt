-- ===== src/Storage/Grouping.antt =====
-- A batch reaches the writers of its days: each writer's buffer grows by the batch's points of its
-- day, in their order, and no other writer changes.
use go_project.Base.{
  ℕ, ◌≡◌, refl, ap, ◌∙◌, sym, List, [], ◌∷◌, ◌++◌, Option, none, some, All, arith, keep, keep-true,
  keep-false, append_assoc, append-nil, Bool, true, false, if◌then◌else◌, Bool-cases, Option-cases,
  inl, inr,
}
use go_project.Base.Dict.{same, same_iff, same_sound, lookup, insert, lookup-insert}
use go_project.Point.{SimpleDataPoint}
use go_project.Writer
use go_project.Writer.{DayWriter}
use go_project.Storage.{
  Storage, Calendar, Open, Groups, FieldName, tier_of, writer_key, get_or_create_writer, group_at,
  group_by_day, write_groups, register_schema, get_device_schema, field_names,
}

-- After a device is registered, every schema that was there is the same, and the device has one
-- name for each field if it had no schema.
pub get_device_schema-register_schema :
    (name : FieldName) (device other : List ℕ) (count : ℕ) (s : Storage)
    → get_device_schema other (register_schema name device count s)
      ≡ (elim (get_device_schema other s) [
        | some names ↦ some names
        | none ↦ if same device other then some (field_names name 0 count) else none
      ])
unfolding get_device_schema register_schema
get_device_schema-register_schema name device other count s = ground (
  arith,
  same_iff device other,
  lookup-insert device other (field_names name 0 count) s.device_schemas,
)

group_at-insert :
    (k date : List ℕ) (ps : List SimpleDataPoint) (gs : Groups)
    → group_at date (insert k ps gs) ≡ (if same k date then ps else group_at date gs)
group_at-insert k date ps gs = ground (arith, lookup-insert k date ps gs)

module _ (cal : Calendar) where
  abbrev pub on_day : List ℕ → SimpleDataPoint → Bool
  on_day date p = same (cal.date_of p.timestamp) date

  -- Grouping a batch leaves in the group of any date what was there, followed by the points of
  -- the batch with that date, in their order.
  pub group_at-group_by_day :
      (ps : List SimpleDataPoint) (gs : Groups) (date : List ℕ)
      → group_at date (group_by_day cal ps gs) ≡ group_at date gs ++ keep (on_day date) ps
  unfolding group_by_day
  group_at-group_by_day [] gs date = sym (append-nil (group_at date gs))
  group_at-group_by_day (p ∷ ps) gs date =
      let d : List ℕ = cal.date_of p.timestamp in
      group_at-group_by_day ps (insert d (group_at d gs ++ (p ∷ [])) gs) date
      ∙ rw (group_at-insert d date (group_at d gs ++ (p ∷ [])) gs)
          (elim (Bool-cases (same d date)) [
            | inl here ↦
                rw (here, keep-true (on_day date) p ps here, same_sound d date here)
                  (append_assoc (group_at date gs) (p ∷ []) (keep (on_day date) ps))
            | inr elsewhere ↦ rw (elsewhere, keep-false (on_day date) p ps elsewhere)
          ])

-- No date occurs twice.
abbrev pub IsDistinct : Groups → Type 0
IsDistinct [] = Unit
IsDistinct (g ∷ gs) = All (λ h. same h.0 g.0 ≡ false) gs × IsDistinct gs

-- What may be waiting in the writer of a device and a date.
abbrev pub pending : List ℕ → List ℕ → Storage → List SimpleDataPoint
pending device date s = elim (lookup (writer_key device date) s.writers) [
  | none ↦ []
  | some w ↦ w.buffer
]

same_key : (device a b : List ℕ) → same (writer_key device a) (writer_key device b) ≡ same a b
unfolding writer_key same
same_key [] a b = ground arith
same_key (x ∷ device) a b = ground (arith, same_key device a b)

pub absent :
    (date : List ℕ) (gs : Groups) → All (λ h. same h.0 date ≡ false) gs → group_at date gs ≡ []
unfolding lookup
absent date [] h = refl
absent date ((d, ps) ∷ gs) (h, hs) = ground (arith, absent date gs hs)

pub group_at-cons :
    (date other : List ℕ) (ps : List SimpleDataPoint) (gs : Groups)
    → group_at other ((date, ps) ∷ gs) ≡ (if same date other then ps else group_at other gs)
unfolding lookup
group_at-cons date other ps gs = ground arith

-- Opening a writer never fails, and a new writer has nothing in its buffer.
abbrev pub Opens : Open → Type 0
Opens open_writer =
    (tier : _) (device date : List ℕ)
    → (w : DayWriter) × (open_writer tier device date ≡ some w) × (w.buffer ≡ [])

buffer-write_batch :
    (ps : List SimpleDataPoint) (w : DayWriter) → (Writer.write_batch ps w).buffer ≡ w.buffer ++ ps
unfolding Writer.write_batch
buffer-write_batch [] w = sym (append-nil w.buffer)
buffer-write_batch (p ∷ ps) w = refl

-- What waits after one writer of a device is put into the map.
pending-insert :
    (device date other : List ℕ) (w : DayWriter) (s : Storage)
    → pending device other (record s { writers = insert (writer_key device date) w s.writers })
      ≡ (if same date other then w.buffer else pending device other s)
pending-insert device date other w s = ground (
  arith,
  lookup-insert (writer_key device date) (writer_key device other) w s.writers,
  same_key device date other,
)

module _ (cal : Calendar) (open_writer : Open) (now : ℕ) where
  pub write_groups_step :
      (device date : List ℕ) (ps : List SimpleDataPoint) (gs : Groups) (s s' : Storage)
      (w : DayWriter)
      → get_or_create_writer cal open_writer now device date s ≡ (some w, s')
      → write_groups cal open_writer now device ((date, ps) ∷ gs) s
        ≡ write_groups cal open_writer now device gs (record s' {
          writers = insert (writer_key device date) (Writer.write_batch ps w) s'.writers;
        })
  unfolding write_groups
  write_groups_step device date ps gs s s' w e =
      let first : (get_or_create_writer cal open_writer now device date s).0 ≡ some w =
        ap (λ (r : Option DayWriter × Storage). r.0) e in
      let second : (get_or_create_writer cal open_writer now device date s).1 ≡ s' =
        ap (λ (r : Option DayWriter × Storage). r.1) e in
      rw (first, second, write_groups)

module _ (cal : Calendar) (open_writer : Open) (now : ℕ) (opens : Opens open_writer) where
  -- A writer is found or made, and nothing that waits is changed by that.
  found :
      (device date : List ℕ) (s : Storage)
      → (w : DayWriter) × (s' : Storage) × (get_or_create_writer cal open_writer now device date s
          ≡ (some w, s'))
        × (w.buffer ≡ pending device date s)
        × ((other : List ℕ) → pending device other s' ≡ pending device other s)
  unfolding get_or_create_writer
  found device date s = elim (Option-cases (lookup (writer_key device date) s.writers)) [
    | inr (w, e) ↦ (w, s, ground (arith, e), ground (arith, e), λ other. refl)
    | inl e ↦
        let (w, o, b) = opens (tier_of cal s.config.hot_days now date) device date in
        let empty : [] ≡ pending device date s = ground (arith, e) in
        (
          w,
          record s { writers = insert (writer_key device date) w s.writers },
          ground (arith, e, o),
          b ∙ empty,
          λ other. pending-insert device date other w s ∙ elim (Bool-cases (same date other)) [
            | inl here ↦ rw (here, b, empty, same_sound date other here)
            | inr elsewhere ↦ rw elsewhere
          ],
        )
  ]

  -- For a calendar, a clock and files that can always be opened, and groups of which no two have the
  -- same date: the loop ends without an error, and behind it every date's writer of the device has
  -- in its buffer what it had, followed by the group of that date.
  pub write_groups-pending :
      (gs : Groups) (device : List ℕ) (s : Storage)
      → IsDistinct gs
      → (s' : Storage) × (write_groups cal open_writer now device gs s ≡ (true, s'))
        × ((date : List ℕ) → pending device date s' ≡ pending device date s ++ group_at date gs)
  write_groups-pending [] device s h = (
    s,
    unfold write_groups in refl,
    λ date. unfold lookup in sym (append-nil (pending device date s)),
  )
  write_groups-pending ((date, ps) ∷ gs) device s (new, h) =
      let (w, s', e, b, kept) = found device date s in
      let next : Storage = record s' {
        writers = insert (writer_key device date) (Writer.write_batch ps w) s'.writers;
      } in
      let (s'', run, waits) = write_groups-pending gs device next h in
      (
        s'',
        write_groups_step cal open_writer now device date ps gs s s' w e ∙ run,
        λ other.
            waits other
            ∙ rw (pending-insert device date other (Writer.write_batch ps w) s')
                (elim (Bool-cases (same date other)) [
                  | inl here ↦
                      let e : date ≡ other = same_sound date other here in
                      let gone : group_at other gs ≡ [] =
                        ap (λ (d : List ℕ). group_at d gs) (sym e) ∙ absent date gs new in
                      let before : w.buffer ≡ pending device other s =
                        b ∙ ap (λ (d : List ℕ). pending device d s) e in
                      rw (
                        here,
                        group_at-cons date other ps gs,
                        here,
                        gone,
                        buffer-write_batch ps w,
                        before,
                        append-nil,
                      )
                  | inr elsewhere ↦
                      rw (elsewhere, group_at-cons date other ps gs, elsewhere, kept other)
                ]),
      )
