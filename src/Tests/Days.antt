-- ===== src/Tests/Days.antt =====
-- The storage engine, in a calendar of which a date is the number of the day behind 1970, written
-- in ten bytes.
use go_project.Base.{
  ℕ, ◌+◌, ◌/◌, ◌≤◌, ◌<◌, ◌≡◌, ◌⊎◌, inl, inr, refl, ap, List, [], ◌∷◌, ◌++◌, none, some, arith, true,
  keep, ◌==◌, Bool-cases,
}
use go_project.Base.Dict.{same}
use go_project.Int64.{rank}
use go_project.Point.{SimpleDataPoint}
use go_project.Writer.{new_day_writer}
use go_project.Storage.{
  day_ns, Storage, Calendar, Open, Groups, new_storage, default_config, group_at, write_batch,
}
use go_project.Storage.Grouping.{on_day, IsDistinct, pending, Opens}
use go_project.Storage.Batches.{write_batch-pending}
use go_project.Reader.Query.{done}
use go_project.Storage.{hot, cold}
use go_project.Storage.Query.{query_file, query_file-Holds}
use go_project.Storage.Days.{Files, both, or_nothing, query_day, query_storage}
use go_project.Storage.Repeated.{query_storage_twice}
use go_project.Tests.Files.{
  two_written, two-Holds, two-IsSorted, two_small, tagging, at_five, at_nine, two, two-IsReadable,
}

abbrev pub date_text : ℕ → List ℕ
date_text n = n ∷ 0 ∷ 0 ∷ 0 ∷ 0 ∷ 0 ∷ 0 ∷ 0 ∷ 0 ∷ 0 ∷ []

abbrev pub counting : Calendar
counting = record {
  date_of = λ t. date_text (t / day_ns);
  midnight = λ d. 0;
  date_length = λ t. refl;
}

pub two_dates :
    (d u : ℕ)
    → d ≤ u
    → u < d + day_ns
    → (counting.date_of u ≡ counting.date_of d)
      ⊎ (counting.date_of u ≡ counting.date_of (d + day_ns))
two_dates d u a b = elim (Bool-cases (u / day_ns == d / day_ns)) [
  | inl same ↦ let e : u / day_ns ≡ d / day_ns = ground arith in inl (ap date_text e)
  | inr later ↦ let e : u / day_ns ≡ (d + day_ns) / day_ns = ground arith in inr (ap date_text e)
]

abbrev pub next_morning : SimpleDataPoint
next_morning = record { timestamp = 90_000_000_000_000; values = [] }

abbrev batch : List SimpleDataPoint
batch = at_five ∷ next_morning ∷ at_nine ∷ []

abbrev pub fresh : Open
fresh tier device date = some (new_day_writer [] [])

fresh-Opens : Opens fresh
unfolding new_day_writer
fresh-Opens tier device date = (new_day_writer [] [], refl, refl)

abbrev empty_storage : Storage
empty_storage = new_storage (default_config [])

abbrev pub name_field : ℕ → List ℕ
name_field i = i ∷ []

in_order :
    (gs : Groups)
    → IsDistinct gs
    → IsDistinct gs × ((date : List ℕ) → group_at date gs ≡ group_at date gs)
in_order gs h = (h, λ date. refl)

abbrev pub as_it_is : Groups → Groups
as_it_is gs = gs

write_batch-pending_example :
    (s : Storage) × (write_batch counting fresh 0 as_it_is name_field
        (b'd' ∷ [])
        batch
        empty_storage
      ≡ (true, s))
    × ((date : List ℕ)
        → pending (b'd' ∷ []) date s
          ≡ pending (b'd' ∷ []) date empty_storage ++ keep (on_day counting date) batch)
write_batch-pending_example =
    write_batch-pending counting fresh 0 as_it_is fresh-Opens in_order name_field (b'd' ∷ []) batch
      empty_storage

-- A calendar whose days have 25 hours, and the files of the writer of the other tests on each.
abbrev long_days : Calendar
long_days = record {
  date_of = λ t. date_text (t / 90_000_000_000_000);
  midnight = λ d. 0;
  date_length = λ t. refl;
}

abbrev two_files : Files
two_files hot date = (some two_written.file, some two_written.idx_file)
two_files cold date = (none, none)

two_found :
    query_file tagging 5 20 (some two_written.file) (some two_written.idx_file)
    ≡ done (at_five ∷ at_nine ∷ [])
unfolding rank
two_found =
    query_file-Holds tagging 100 5 20 (two ∷ []) two_written two-Holds (two-IsReadable, tt)
      two-IsSorted two_small

two_answer : query_day tagging long_days two_files 5 20 5 ≡ some (at_five ∷ at_nine ∷ [])
unfolding query_day query_file
two_answer = ap (λ r. both (or_nothing r) (some [])) two_found

query_storage_twice_example :
    query_storage tagging long_days two_files 5 20 (λ ds. ds)
    ≡ some (at_five ∷ at_nine ∷ at_five ∷ at_nine ∷ [])
query_storage_twice_example =
    query_storage_twice tagging long_days two_files 5 20 (at_five ∷ at_nine ∷ []) (omega arith)
      (omega arith) refl two_answer
