-- ===== src/Index.antt =====
-- The index of a day file: IndexEntry with the bytes that flush writes for it
-- (tffiles/writer.go), readIndex (tffiles/storage.go) and binarySearchIndex (tffiles/reader.go).
pub mod Format
pub mod Search
use go_project.Base.{
  ℕ, zero, suc, ◌+◌, ◌-◌, ◌*◌, ◌/◌, ◌%◌, ◌^◌, ◌<◌, List, [], ◌∷◌, ◌++◌, Option, none, some, length,
  drop, get_elem?, Bool, not, ◌&&◌, leb, ◌==◌, if◌then◌else◌,
}
use go_project.Bytes.{le_bytes, get_le}
use go_project.Int64

pub record IndexEntry : Type 0 where
  pub start_time : ℕ
  pub end_time : ℕ
  pub offset : ℕ
  pub block_length : ℕ
  pub crc32 : ℕ

pub record IsEntry (e : IndexEntry) : Type 0 where
  pub start_fits : e.start_time < 2 ^ 64
  pub end_fits : e.end_time < 2 ^ 64
  pub offset_fits : e.offset < 2 ^ 64
  pub length_fits : e.block_length < 2 ^ 64
  pub crc_fits : e.crc32 < 2 ^ 32

-- The 32 bytes of an entry of the old format.
unfoldable pub encode_old_entry : IndexEntry → List ℕ
encode_old_entry e =
    le_bytes 8 e.start_time
    ++ (le_bytes 8 e.end_time ++ (le_bytes 8 e.offset ++ le_bytes 8 e.block_length))

-- idxData, 36 bytes.
unfoldable pub encode_entry : IndexEntry → List ℕ
encode_entry e = encode_old_entry e ++ le_bytes 4 e.crc32

unfoldable pub entry_at : ℕ → List ℕ → IndexEntry
entry_at entry_size d = record {
  start_time = get_le 8 d;
  end_time = get_le 8 (drop 8 d);
  offset = get_le 8 (drop 16 d);
  block_length = get_le 8 (drop 24 d);
  crc32 = if entry_size == 36 then get_le 4 (drop 32 d) else 0;
}

-- The loop on i, at `data[i:]`; it makes len(data) / entrySize rounds.
unfoldable pub read_entries : ℕ → ℕ → List ℕ → List IndexEntry
read_entries entry_size zero d = []
read_entries entry_size (suc rounds) d =
    entry_at entry_size d ∷ read_entries entry_size rounds (drop entry_size d)

unfoldable pub entry_size_of : ℕ → ℕ
entry_size_of n = if (n % 32 == 0) && not (n % 36 == 0) then 32 else 36

unfoldable pub read_index : List ℕ → List IndexEntry
read_index d =
    let entry_size = entry_size_of (length d) in read_entries entry_size (length d / entry_size) d

module _ (indexes : List IndexEntry) (target_time : ℕ) where
  -- for mid > 0 && indexes[mid-1].EndTime >= targetTime { mid-- }
  unfoldable pub walk_back : ℕ → Option ℕ
  walk_back zero = some zero
  walk_back (suc m) = elim (get_elem? indexes m) [
    | none ↦ none
    | some e ↦ if Int64.le target_time e.end_time then walk_back m else some (suc m)
  ]

  -- The loop on left and right, where `stop` is right + 1 since right may be -1. `none` is an
  -- index out of range, or the end of the fuel.
  unfoldable pub search_loop : ℕ → ℕ → ℕ → Option ℕ
  search_loop zero left stop = none
  search_loop (suc fuel) left stop =
      let mid = (left + stop - 1) / 2 in
      let above = search_loop fuel (mid + 1) stop in
      let below = search_loop fuel left mid in
      if leb stop left then some left else (elim (get_elem? indexes mid) [
        | none ↦ none
        | some e ↦
            if Int64.lt e.end_time target_time
            then above
            else if Int64.lt target_time e.start_time
            then below
            else walk_back mid
      ])

  -- The range shrinks in every round.
  unfoldable pub binary_search_index : Option ℕ
  binary_search_index = search_loop (suc (length indexes)) 0 (length indexes)
