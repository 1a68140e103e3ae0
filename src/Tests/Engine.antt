-- ===== src/Tests/Engine.antt =====
-- The storage engine from the first batch to Close: two batches of one device with a tick of a
-- writer between them, in the calendar and the compression of the other tests.
use mathlib.Core.Path.{subst}
use go_project.Base.{ℕ, ◌<◌, ◌^◌, ◌≡◌, refl, sym, List, [], ◌∷◌, ◌++◌, some, All, arith, length}
use go_project.Base.Dict.{same, lookup, insert}
use go_project.Int64.{rank}
use go_project.Bytes.{le_bytes}
use go_project.Reader.Parse.{encode_all}
use go_project.Point.{IsPoint, encode_point, encode_values, encode_simple_point}
use go_project.Reader.Query.{done}
use go_project.Writer
use go_project.Writer.{DayWriter, ticked, healthy, new_day_writer}
use go_project.Writer.Blocks.{points_of}
use go_project.Storage.{
  Storage, writer_key, default_config, new_storage, write_batch, write_groups, group_by_day,
  get_or_create_writer, register_schema,
}
use go_project.Storage.Query.{query_file}
use go_project.Storage.Engine.{
  Action, stored, turned, turn, act, run_actions, close_writers, close_storage,
}
use go_project.Storage.Engine.Refinement.{IsOrder, IsFresh, IsAction, Tracks}
use go_project.Storage.Engine.Runs.{run_actions-Refines}
use go_project.Storage.Engine.Answers.{
  Settled, finished, IsReadableIn, close_storage-Settled, query_file-close_storage,
}
use go_project.Tests.Days.{counting, date_text, next_morning, fresh, name_field, as_it_is}
use go_project.Tests.Files.{tagging, at_five, at_nine, at_five-IsPoint, at_nine-IsPoint}

abbrev pub device : List ℕ
device = b'd' ∷ []

abbrev pub first_key : List ℕ
first_key = writer_key device (date_text 0)

abbrev pub actions : List Action
actions =
    stored 0 as_it_is device (at_five ∷ [])
    ∷ turned first_key (ticked healthy)
    ∷ stored 0 as_it_is device (at_nine ∷ next_morning ∷ [])
    ∷ []

as_it_is-IsOrder : IsOrder as_it_is
as_it_is-IsOrder gs distinct dated = (distinct, dated, λ date. refl)

pub actions-IsAction : All IsAction actions
actions-IsAction = (as_it_is-IsOrder, (refl, (as_it_is-IsOrder, tt)))

pub fresh-IsFresh : IsFresh fresh
fresh-IsFresh tier d date = refl

abbrev behind : Storage
behind = run_actions tagging 0 counting fresh name_field actions (new_storage (default_config []))

run_actions-Refines_example :
    Tracks tagging 0 (at_five ∷ at_nine ∷ []) (lookup first_key behind.writers)
unfolding same
run_actions-Refines_example =
    run_actions-Refines tagging 0 counting fresh fresh-IsFresh name_field (default_config [])
      actions actions-IsAction device (date_text 0) refl

abbrev pub closed : Storage
closed = finished tagging 0 counting fresh fresh-IsFresh name_field (default_config []) actions

close_storage-Settled_example :
    Settled tagging 0 (at_five ∷ at_nine ∷ []) (lookup first_key closed.writers)
unfolding same
close_storage-Settled_example =
    close_storage-Settled tagging 0 counting fresh fresh-IsFresh name_field (default_config [])
      actions device (date_text 0) actions-IsAction refl

-- The points of a row within another are among its own.
pub All-middle :
    {A : Type 0} (P : A → Type 0) (xs ys zs : List A) → All P (xs ++ (ys ++ zs)) → All P ys
All-middle P (x ∷ xs) ys zs (h, hs) = All-middle P xs ys zs hs
All-middle P [] [] zs h = tt
All-middle P [] (y ∷ ys) zs (h, hs) = (h, All-middle P [] ys zs hs)

both-IsReadableIn : IsReadableIn tagging 0 (at_five ∷ at_nine ∷ [])
both-IsReadableIn before after b e = record {
  fits =
      All-middle IsPoint before (points_of b) after
        (subst (All IsPoint) (sym e) (at_five-IsPoint, (at_nine-IsPoint, tt)));
  refused = λ h. absurd (ground (arith, h));
  marked = λ h. absurd (ground (arith, h));
}

abbrev pub first_writer : DayWriter
first_writer = Writer.close tagging 0 healthy (
    Writer.write_batch (at_nine ∷ []) (
      Writer.step tagging 0 (ticked healthy)
        (Writer.write_batch (at_five ∷ []) (new_day_writer [] []))))

there : lookup first_key closed.writers ≡ some first_writer
unfolding lookup insert same writer_key close_storage close_writers run_actions act turn write_batch
    write_groups group_by_day get_or_create_writer register_schema new_storage
there = refl

pub first_writer-small : length first_writer.file < 2 ^ 63
unfolding Writer.close Writer.flush Writer.flush_points Writer.record_block Writer.write_batch
    Writer.block_bytes Writer.step new_day_writer encode_all encode_simple_point encode_point
    le_bytes encode_values
first_writer-small = omega arith

query_file-close_storage_example :
    query_file tagging 0 7 (some first_writer.file) (some first_writer.idx_file)
    ≡ done (at_five ∷ [])
unfolding same rank
query_file-close_storage_example =
    query_file-close_storage tagging 0 counting fresh fresh-IsFresh name_field (default_config [])
      actions device (date_text 0) 0 7 first_writer actions-IsAction refl there both-IsReadableIn
      ((omega arith, tt), (tt, tt)) first_writer-small
