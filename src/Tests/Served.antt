-- ===== src/Tests/Served.antt =====
-- The whole engine, asked for a time of each of two days.
use mathlib.Core.Path.{subst}
use go_project.Base.{
  keep, Option, none, ◌/◌, ap, Bool, Bool-cases, inl, inr, keep-true, keep-false, ℕ, ◌<◌, ◌^◌, ◌≡◌,
  refl, sym, List, [], ◌∷◌, some, All, arith, length,
}
use go_project.Base.Dict.{same, lookup, insert}
use go_project.Int64.{rank}
use go_project.Bytes.{le_bytes}
use go_project.Reader.Parse.{encode_all}
use mathlib.Core.List.{Perm}
use mathlib.Core.List.Perm
use go_project.Storage.Days.{query_days, query_storage}
use go_project.Storage.Grouping.{on_day}
use go_project.Storage.Collected.{IsRegular}
use go_project.Storage.Engine.Served.{
  IsServed, accepted-handed, device_files, query_storage-close_storage,
}
use go_project.Storage.{Tier, hot, day_ns}
use go_project.Tests.Days.{two_dates}
use go_project.Point.{SimpleDataPoint, IsPoint, encode_point, encode_values, encode_simple_point}
use go_project.Writer
use go_project.Writer.{DayWriter, ticked, healthy, new_day_writer}
use go_project.Writer.Blocks.{points_of}
use go_project.Writer.Order.{IsSorted, From}
use go_project.Storage.{
  writer_key, default_config, new_storage, write_batch, write_groups, group_by_day,
  get_or_create_writer, register_schema,
}
use go_project.Storage.Engine.{turn, act, run_actions, close_writers, close_storage}
use go_project.Storage.Engine.Runs.{accepted}
use go_project.Storage.Engine.Answers.{IsReadableIn}
use go_project.Tests.Days.{counting, date_text, next_morning, fresh, name_field}
use go_project.Tests.Files.{tagging, at_five, at_nine, at_five-IsPoint, at_nine-IsPoint}
use go_project.Tests.Engine.{
  device, first_key, actions, actions-IsAction, fresh-IsFresh, closed, All-middle, first_writer,
  first_writer-small,
}

From-keep :
    (t : ℕ) (p : SimpleDataPoint → Bool) (ps : List SimpleDataPoint)
    → From t ps
    → From t (keep p ps)
From-keep t p [] h = tt
From-keep t p (x ∷ ps) (h, hs) = elim (Bool-cases (p x)) [
  | inl e ↦ rw (keep-true p x ps e) (h, From-keep t p ps hs)
  | inr e ↦ rw (keep-false p x ps e) (From-keep t p ps hs)
]

IsSorted-keep :
    (p : SimpleDataPoint → Bool) (ps : List SimpleDataPoint) → IsSorted ps → IsSorted (keep p ps)
IsSorted-keep p [] h = tt
IsSorted-keep p (x ∷ ps) (h, hs) = elim (Bool-cases (p x)) [
  | inl e ↦ rw (keep-true p x ps e) (From-keep _ p ps h, IsSorted-keep p ps hs)
  | inr e ↦ rw (keep-false p x ps e) (IsSorted-keep p ps hs)
]

IsPoint-keep :
    (p : SimpleDataPoint → Bool) (ps : List SimpleDataPoint)
    → All IsPoint ps
    → All IsPoint (keep p ps)
IsPoint-keep p [] h = tt
IsPoint-keep p (x ∷ ps) (h, hs) = elim (Bool-cases (p x)) [
  | inl e ↦ rw (keep-true p x ps e) (h, IsPoint-keep p ps hs)
  | inr e ↦ rw (keep-false p x ps e) (IsPoint-keep p ps hs)
]

-- Every block that is marked can be read.
all-IsReadableIn : (ps : List SimpleDataPoint) → All IsPoint ps → IsReadableIn tagging 0 ps
all-IsReadableIn ps points before after b e = record {
  fits = All-middle IsPoint before (points_of b) after (subst (All IsPoint) (sym e) points);
  refused = λ h. absurd (ground (arith, h));
  marked = λ h. absurd (ground (arith, h));
}

abbrev IsSmall : Option DayWriter → Type 0
IsSmall none = Unit {0}
IsSmall (some w) = length w.file < 2 ^ 63

lookup-IsSmall :
    (k : List ℕ) (m : List (List ℕ × DayWriter))
    → All (λ e. IsSmall (some e.1)) m
    → IsSmall (lookup k m)
unfolding lookup
lookup-IsSmall k [] h = tt
lookup-IsSmall k ((j, v) ∷ m) (h, hs) = elim (Bool-cases (same j k)) [
  | inl here ↦ rw here h
  | inr other ↦ rw other (lookup-IsSmall k m hs)
]

abbrev second_writer : DayWriter
second_writer =
    Writer.close tagging 0 healthy (Writer.write_batch (next_morning ∷ []) (new_day_writer [] []))

closed_writers :
    closed.writers
    ≡ (first_key, first_writer) ∷ (writer_key device (date_text 1), second_writer) ∷ []
unfolding lookup insert same writer_key close_storage close_writers run_actions act turn write_batch
    write_groups group_by_day get_or_create_writer register_schema new_storage
closed_writers = refl

second_writer-small : length second_writer.file < 2 ^ 63
unfolding Writer.close Writer.flush Writer.flush_points Writer.record_block Writer.write_batch
    Writer.block_bytes Writer.step new_day_writer encode_all encode_simple_point encode_point
    le_bytes encode_values
second_writer-small = omega arith

abbrev three : List SimpleDataPoint
three = at_five ∷ at_nine ∷ next_morning ∷ []

three-IsSorted : IsSorted three
unfolding rank
three-IsSorted = ((omega arith, (omega arith, tt)), ((omega arith, tt), (tt, tt)))

next_morning-IsPoint : IsPoint next_morning
next_morning-IsPoint = record {
  stamp_fits = omega arith;
  count_fits = omega arith;
  values_fit = tt;
}

three-IsPoint : All IsPoint three
three-IsPoint = (at_five-IsPoint, (at_nine-IsPoint, (next_morning-IsPoint, tt)))

three-accepted :
    (date : List ℕ) → accepted counting actions device date ≡ keep (on_day counting date) three
unfolding same
three-accepted date = accepted-handed counting actions device date

closed-IsServed : IsServed tagging 0 counting actions device closed
closed-IsServed = record {
  sorted = λ date d.
      subst IsSorted (sym (three-accepted date))
        (IsSorted-keep (on_day counting date) three three-IsSorted);
  readable = λ date d. all-IsReadableIn (accepted counting actions device date) (
      subst (All IsPoint) (sym (three-accepted date))
        (IsPoint-keep (on_day counting date) three three-IsPoint));
  small = λ date w there. subst IsSmall there (
      lookup-IsSmall (writer_key device date) closed.writers (
        subst (All (λ e. IsSmall (some e.1))) (sym closed_writers)
          (first_writer-small, (second_writer-small, tt))));
}

abbrev first_of : List ℕ → ℕ
first_of [] = 0
first_of (n ∷ date) = n

counting-IsRegular : IsRegular counting
counting-IsRegular = record {
  two_dates = two_dates;
  later_date =
      λ d e h equal. let one : d / day_ns ≡ e / day_ns = ap first_of equal in omega (arith, one, h);
}

abbrev hot_place : List ℕ → Tier
hot_place date = hot

query_storage-close_storage_example :
    (result : List SimpleDataPoint) × (query_storage tagging counting
        (device_files hot_place device closed)
        6
        90_000_000_000_000
        (λ ds. ds)
      ≡ some result)
    × Perm result (at_nine ∷ next_morning ∷ [])
unfolding same rank
query_storage-close_storage_example =
    query_storage-close_storage tagging 0 counting fresh fresh-IsFresh name_field
      (default_config []) actions device 6 90_000_000_000_000 actions-IsAction closed-IsServed
      counting-IsRegular hot_place (λ ds. ds) (omega arith) (omega arith)
      (omega arith, (omega arith, (omega arith, tt))) (Perm.refl (query_days 6 90_000_000_000_000))
