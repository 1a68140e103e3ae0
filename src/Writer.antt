-- ===== src/Writer.antt =====
-- tffiles/writer.go: DayWriter. The data file and the index file are the lists of their bytes; the
-- log, the file handles and the mutexes are left out.
pub mod Blocks
pub mod Runs
pub mod ReadBack
pub mod Order
pub mod Query
pub mod Scan
pub mod Stats
use go_project.Base.{
  ℕ, ◌%◌, ◌^◌, List, [], ◌∷◌, ◌++◌, Option, none, some, length, take, last_of, Bool, true, false,
  ◌||◌, leb, if◌then◌else◌,
}
use go_project.Bytes.{le_bytes}
use go_project.Int64
use go_project.Crc.{checksum}
use go_project.Zstd.{Zstd}
use go_project.Point.{SimpleDataPoint}
use go_project.Reader.Parse.{encode_all}
use go_project.Index.{IndexEntry, encode_entry}

pub record DayWriter : Type 0 where
  pub buffer : List SimpleDataPoint
  pub file : List ℕ
  pub idx_file : List ℕ
  pub indexes : List IndexEntry
  pub current_offset : ℕ
  -- flushChan holds a signal
  pub flush_signal : Bool
  -- closeChan is closed
  pub closed : Bool

-- NewDayWriter, on what the two files hold already: the offset is the end of the data file, as
-- an int64.
unfoldable pub new_day_writer : List ℕ → List ℕ → DayWriter
new_day_writer file idx_file = record {
  buffer = [];
  file = file;
  idx_file = idx_file;
  indexes = [];
  current_offset = length file % 2 ^ 64;
  flush_signal = false;
  closed = false;
}

abbrev pub batch_size : ℕ
batch_size = 1000

-- The send on the channel of capacity one does nothing where it is full.
unfoldable pub write_batch : List SimpleDataPoint → DayWriter → DayWriter
write_batch [] w = w
write_batch (p ∷ ps) w = record w {
  buffer = w.buffer ++ (p ∷ ps);
  flush_signal = w.flush_signal || leb batch_size (length (w.buffer ++ (p ∷ ps)));
}

-- What the disk does in one flush: `some n` is an error after n bytes. The code ignores the result
-- of writing the index entry.
pub record Disk : Type 0 where
  pub data_error : Option ℕ
  pub idx_error : Option ℕ

abbrev pub healthy : Disk
healthy = record { data_error = none; idx_error = none }

abbrev pub on_disk : Option ℕ → List ℕ → List ℕ
on_disk none d = d
on_disk (some n) d = take n d

-- The cases of the select in flushLoop, and the calls that other goroutines make between them.
-- A case whose channel is not ready is not taken.
pub data Event : Type 0 where
  write : List SimpleDataPoint → Event
  signalled : Disk → Event
  ticked : Disk → Event

module _ (z : Zstd) (index_interval : ℕ) where
  -- dataToWrite: the encoded points with their checksum, compressed from IndexInterval bytes on.
  unfoldable pub block_bytes : List SimpleDataPoint → List ℕ
  block_bytes points =
      let raw_data = encode_all points in
      let with_crc = raw_data ++ le_bytes 4 (checksum raw_data) in
      if leb index_interval (length raw_data) then z.encode_all with_crc else with_crc

  abbrev pub entry_for : ℕ → SimpleDataPoint → List SimpleDataPoint → IndexEntry
  entry_for offset p ps = record {
    start_time = p.timestamp;
    end_time = (last_of p ps).timestamp;
    offset = offset;
    block_length = length (block_bytes (p ∷ ps));
    crc32 = checksum (encode_all (p ∷ ps));
  }

  -- The part of flush behind `w.file.Write`, by its error.
  unfoldable pub record_block :
      Disk → SimpleDataPoint → List SimpleDataPoint → DayWriter → Option ℕ → DayWriter
  record_block disk p ps w (some n) = record w { file = w.file ++ take n (block_bytes (p ∷ ps)) }
  record_block disk p ps w none =
      let idx = entry_for w.current_offset p ps in
      record w {
        file = w.file ++ block_bytes (p ∷ ps);
        idx_file = w.idx_file ++ on_disk disk.idx_error (encode_entry idx);
        indexes = w.indexes ++ (idx ∷ []);
        current_offset = Int64.add w.current_offset (length (block_bytes (p ∷ ps)));
      }

  unfoldable pub flush_points : Disk → List SimpleDataPoint → DayWriter → DayWriter
  unfolding record_block
  flush_points disk [] w = w
  flush_points disk (p ∷ ps) w = record_block disk p ps w disk.data_error

  unfoldable pub flush : Disk → DayWriter → DayWriter
  flush disk w = flush_points disk w.buffer (record w { buffer = [] })

  unfoldable pub step : Event → DayWriter → DayWriter
  step (write ps) w = write_batch ps w
  step (signalled disk) w =
      if w.flush_signal then flush disk (record w { flush_signal = false }) else w
  step (ticked disk) w = flush disk w

  unfoldable pub run : List Event → DayWriter → DayWriter
  run [] w = w
  run (e ∷ es) w = run es (step e w)

  -- Close lets the loop flush once more and end.
  unfoldable pub close : Disk → DayWriter → DayWriter
  close disk w = record (flush disk w) { closed = true }
