-- ===== src/Tests/Files.antt =====
-- Data files, index files, and the storage above them, on a device with two or three points. The
-- compression of these tests puts one byte before the data.
use go_project.Base.{
  ◌↔◌, ap, get_elem?, get_or, false, ℕ, zero, suc, ◌<◌, ◌^◌, ◌≡◌, ◌≢◌, refl, List, [], ◌∷◌, ◌++◌,
  ◌+◌, ◌*◌, ◌⊎◌, Option, none, some, length, All, arith, keep, drop,
}
use go_project.Bytes.{le_bytes, little_endian}
use go_project.Int64.{add, rank}
use go_project.Zstd.{Zstd}
use go_project.Crc.{checksum, update, shift_bits}
use go_project.Point.{
  SimpleDataPoint, IsPoint, encode_point, encode_values, encode_simple_point, decode_simple_point,
  next_point,
}
use go_project.Index.{
  IndexEntry, IsEntry, read_index, binary_search_index, encode_entry, encode_old_entry,
}
use go_project.Index.Format.{encode_index, encode_old_index, read_index_misread}
use go_project.Reader.{parse_loop}
use go_project.Reader.Parse.{encode_all, parse_loop_fuel}
use go_project.Reader.Query.{relevant_blocks, overlaps}
use go_project.Writer.Runs.{close-run}
use go_project.Reader.Select.{relevant_blocks-keep}
use go_project.Index.Search.{IsOrdered, Splits, Finds, binary_search_index-Splits}
use go_project.Storage.{FieldName, register_schema, get_device_schema, new_storage, default_config}
use go_project.Base.Dict.{lookup}
use go_project.Writer.Stats.{get_writer_stats, get_file_size, behind_events, get_writer_stats-run}
use go_project.Point.Fields.{IsApart, field_value, field_value-encode_simple_point}
use go_project.Point.RoundTrip.{decode_simple_point-eq-none}
use go_project.Writer.{
  Event, write, signalled, ticked, run, close, DayWriter, new_day_writer, write_batch, healthy,
  flush, flush_points, record_block, block_bytes,
}
use go_project.Writer.Blocks.{Block, points_of, all_points, file_of, entries_of, Holds}
use go_project.Writer.ReadBack.{IsReadable}
use go_project.Writer.Order.{IsSorted}

abbrev pub tag : List ℕ → List ℕ
tag d = 1 ∷ d

abbrev untag : List ℕ → Option (List ℕ)
untag [] = none
untag (zero ∷ d) = none
untag (suc zero ∷ d) = some d
untag (suc (suc n) ∷ d) = none

abbrev pub tagging : Zstd
tagging = record { encode_all = tag; decode_all = untag; decode_all-encode_all = λ d. refl }

abbrev pub at_five : SimpleDataPoint
at_five = record { timestamp = 5; values = 7 ∷ [] }

abbrev pub at_nine : SimpleDataPoint
at_nine = record { timestamp = 9; values = [] }

abbrev pub two : Block
two = record { first = at_five; others = at_nine ∷ [] }

abbrev pub two_written : DayWriter
two_written =
    flush tagging 100 healthy (write_batch (at_five ∷ at_nine ∷ []) (new_day_writer [] []))

pub two-Holds : Holds tagging 100 [] [] (two ∷ []) two_written
unfolding flush flush_points record_block write_batch new_day_writer file_of entries_of encode_index
    block_bytes encode_all encode_simple_point encode_point le_bytes encode_values encode_entry
    encode_old_entry add
two-Holds = record { data_file = refl; entries = refl; idx_file = refl; offset = refl }

pub at_five-IsPoint : IsPoint at_five
at_five-IsPoint = record {
  stamp_fits = omega arith;
  count_fits = omega arith;
  values_fit = (omega arith, tt);
}

pub at_nine-IsPoint : IsPoint at_nine
at_nine-IsPoint = record { stamp_fits = omega arith; count_fits = omega arith; values_fit = tt }

two-crc : checksum (encode_all (points_of two)) ≢ 0
unfolding checksum update shift_bits encode_all encode_simple_point encode_point le_bytes
    encode_values
two-crc = omega arith

pub two-IsReadable : IsReadable tagging 100 two
unfolding encode_all encode_simple_point encode_point le_bytes encode_values
two-IsReadable = record {
  fits = (at_five-IsPoint, (at_nine-IsPoint, tt));
  refused = λ h. refl;
  marked = λ h. two-crc;
}

pub two-IsSorted : IsSorted (all_points (two ∷ []))
unfolding rank
two-IsSorted = ((omega arith, tt), (tt, tt))

pub two_small : length two_written.file < 2 ^ 63
unfolding flush flush_points record_block write_batch new_day_writer block_bytes encode_all
    encode_simple_point encode_point le_bytes encode_values
two_small = omega arith

compressed-IsReadable : IsReadable tagging 20 two
unfolding encode_all encode_simple_point encode_point le_bytes encode_values
compressed-IsReadable = record {
  fits = (at_five-IsPoint, (at_nine-IsPoint, tt));
  refused = λ h. ground (arith, h);
  marked = λ h. two-crc;
}

abbrev one_two : List ℕ
one_two = 1 ∷ 2 ∷ []

two_bytes : decode_simple_point one_two ≡ none
unfolding decode_simple_point next_point
two_bytes = refl

-- Two writes, a signal that is not there, and a tick between them.
abbrev events : List Event
events = write (at_five ∷ []) ∷ signalled healthy ∷ ticked healthy ∷ write (at_nine ∷ []) ∷ []

close-run_example :
    (bs : List Block) × Holds tagging 100 [] [] bs
      (close tagging 100 healthy (run tagging 100 events (new_day_writer [] [])))
    × (all_points bs ≡ at_five ∷ at_nine ∷ [])
    × ((close tagging 100 healthy (run tagging 100 events (new_day_writer [] []))).buffer ≡ [])
close-run_example = close-run tagging 100 [] [] events (tt, (refl, (refl, (tt, tt))))

get_writer_stats-run_example :
    (bs : List Block) × ((behind_events tagging 100 [] [] events).file
      ≡ [] ++ file_of tagging 100 bs)
    × ((get_writer_stats [] [] (behind_events tagging 100 [] [] events)).index_count ≡ length bs)
    × (length (all_points bs)
          + (get_writer_stats [] [] (behind_events tagging 100 [] [] events)).buffer_size
        ≡ length (at_five ∷ at_nine ∷ []))
    × (get_file_size false (behind_events tagging 100 [] [] events)
        ≡ some (get_writer_stats [] [] (behind_events tagging 100 [] [] events)).current_offset)
get_writer_stats-run_example =
    get_writer_stats-run tagging 100 [] [] [] [] events (tt, (refl, (refl, (tt, tt))))

-- An index of two blocks, of which the second begins where the first ends.
abbrev entries : List IndexEntry
entries =
    record { start_time = 5; end_time = 9; offset = 0; block_length = 28; crc32 = 3 }
    ∷ record { start_time = 9; end_time = 12; offset = 28; block_length = 28; crc32 = 4 }
    ∷ []

entries-IsOrdered : IsOrdered entries
unfolding rank
entries-IsOrdered = (omega arith, ((omega arith, omega arith), tt), (omega arith, tt, tt))

entries-IsEntry : All IsEntry entries
entries-IsEntry = (
  record {
    start_fits = omega arith;
    end_fits = omega arith;
    offset_fits = omega arith;
    length_fits = omega arith;
    crc_fits = omega arith;
  },
  (
    record {
      start_fits = omega arith;
      end_fits = omega arith;
      offset_fits = omega arith;
      length_fits = omega arith;
      crc_fits = omega arith;
    },
    tt,
  ),
)

binary_search_index-Splits_example : Finds (binary_search_index entries 9) (Splits entries 9)
binary_search_index-Splits_example = binary_search_index-Splits entries 9 entries-IsOrdered

relevant_blocks-keep_example : relevant_blocks 10 20 entries ≡ some (keep (overlaps 10 20) entries)
relevant_blocks-keep_example = relevant_blocks-keep 10 20 entries entries-IsOrdered

abbrev old_nine : List IndexEntry
old_nine =
    let e : IndexEntry = record {
      start_time = 5;
      end_time = 9;
      offset = 0;
      block_length = 28;
      crc32 = 0;
    } in
    e ∷ e ∷ e ∷ e ∷ e ∷ e ∷ e ∷ e ∷ e ∷ []

read_index_misread_example : length (read_index (encode_old_index old_nine)) ≡ 8
read_index_misread_example = read_index_misread old_nine (omega arith)

parse_loop_fuel_example : parse_loop 3 (1 ∷ 2 ∷ []) 0 6 ≡ parse_loop 2 (1 ∷ 2 ∷ []) 0 6
parse_loop_fuel_example = parse_loop_fuel 0 6 3 2 (1 ∷ 2 ∷ []) (omega arith) (omega arith)

-- A name for each number.
abbrev letter_field : FieldName
letter_field i = i ∷ []

letter_field-IsApart : IsApart letter_field
letter_field-IsApart i j e = ap (λ (s : List ℕ). get_or s 0 0) e

no_schema : get_device_schema [] (new_storage (default_config [])) ≡ none
unfolding get_device_schema new_storage lookup
no_schema = refl

field_value-encode_simple_point_example :
    field_value
      (register_schema letter_field [] (length at_five.values) (new_storage (default_config [])))
      []
      (letter_field 1)
      (encode_simple_point at_five ++ (1 ∷ []))
    ≡ get_elem? at_five.values 1
field_value-encode_simple_point_example =
    field_value-encode_simple_point letter_field at_five [] (1 ∷ [])
      (new_storage (default_config [])) 1 letter_field-IsApart at_five-IsPoint no_schema

decode_simple_point-eq-none_example :
    (decode_simple_point one_two ≡ none)
    ↔ ((length one_two < 10) ⊎ (length one_two < 10 + little_endian.get 2 (drop 8 one_two) * 4))
decode_simple_point-eq-none_example = decode_simple_point-eq-none one_two
