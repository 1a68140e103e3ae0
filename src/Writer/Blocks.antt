-- ===== src/Writer/Blocks.antt =====
-- What the two files of a writer hold: the blocks flushed so far, one after the other.
use go_project.Base.{
  ℕ, ◌+◌, ◌%◌, ◌^◌, ◌≡◌, refl, ap, ◌∙◌, sym, List, [], ◌∷◌, ◌++◌, none, length, arith,
  length-append, append_assoc, append-nil,
}
use native.Mathlib.Nat.{add-zero, add_assoc}
use go_project.Int64
use go_project.Zstd.{Zstd}
use go_project.Point.{SimpleDataPoint}
use go_project.Index.{IndexEntry}
use go_project.Index.Format.{encode_index, encode_index-append}
use go_project.Writer.{
  DayWriter, new_day_writer, Disk, healthy, block_bytes, entry_for, record_block, flush_points,
  flush,
}

-- A flush writes at least one point.
pub record Block : Type 0 where
  pub first : SimpleDataPoint
  pub others : List SimpleDataPoint

abbrev pub points_of : Block → List SimpleDataPoint
points_of b = b.first ∷ b.others

-- All points, in the order in which they were flushed.
abbrev pub all_points : List Block → List SimpleDataPoint
all_points [] = []
all_points (b ∷ bs) = points_of b ++ all_points bs

module _ (z : Zstd) (index_interval : ℕ) where
  unfoldable pub file_of : List Block → List ℕ
  file_of [] = []
  file_of (b ∷ bs) = block_bytes z index_interval (points_of b) ++ file_of bs

  -- The entries of blocks that begin at `offset`.
  unfoldable pub entries_of : ℕ → List Block → List IndexEntry
  entries_of offset [] = []
  entries_of offset (b ∷ bs) =
      entry_for z index_interval (offset % 2 ^ 64) b.first b.others
      ∷ entries_of (offset + length (block_bytes z index_interval (points_of b))) bs

  -- The files hold the blocks behind what they held when the writer was opened.
  pub record Holds (old old_idx : List ℕ) (bs : List Block) (w : DayWriter) : Type 0 where
    pub data_file : w.file ≡ old ++ file_of bs
    pub entries : w.indexes ≡ entries_of (length old) bs
    pub idx_file : w.idx_file ≡ old_idx ++ encode_index (entries_of (length old) bs)
    pub offset : w.current_offset ≡ length w.file % 2 ^ 64

  file_of-append :
      (bs : List Block) (b : Block)
      → file_of (bs ++ (b ∷ [])) ≡ file_of bs ++ block_bytes z index_interval (points_of b)
  unfolding file_of
  file_of-append [] b = append-nil _
  file_of-append (c ∷ bs) b = rw (file_of-append bs b, append_assoc)

  entries_of-append :
      (bs : List Block) (b : Block) (offset : ℕ)
      → entries_of offset (bs ++ (b ∷ []))
        ≡ entries_of offset bs
          ++ (entry_for z index_interval ((offset + length (file_of bs)) % 2 ^ 64) b.first b.others
              ∷ [])
  unfolding entries_of file_of
  entries_of-append [] b offset = rw add-zero
  entries_of-append (c ∷ bs) b offset =
      rw
        (
          length-append (block_bytes z index_interval (points_of c)) (file_of bs),
          ← add_assoc offset (length (block_bytes z index_interval (points_of c)))
              (length (file_of bs)),
        )
        (ap
          (λ (l : List IndexEntry).
            entry_for z index_interval (offset % 2 ^ 64) c.first c.others ∷ l)
          (entries_of-append bs b (offset + length (block_bytes z index_interval (points_of c)))))

  pub new_day_writer-Holds :
      (old old_idx : List ℕ) → Holds old old_idx [] (new_day_writer old old_idx)
  unfolding new_day_writer file_of entries_of
  new_day_writer-Holds old old_idx = record {
    data_file = sym (append-nil old);
    entries = refl;
    idx_file = unfold encode_index in sym (append-nil old_idx);
    offset = refl;
  }

  module _ {old old_idx : List ℕ} {bs : List Block} {w : DayWriter} where
    -- A block that reaches the disk is one block more in both files and in the index in memory.
    record_block-Holds :
        (p : SimpleDataPoint) (ps : List SimpleDataPoint)
        → Holds old old_idx bs w
        → Holds old old_idx
            (bs ++ (record { first = p; others = ps } ∷ []))
            (record_block z index_interval healthy p ps w none)
    unfolding record_block
    record_block-Holds p ps h =
        let b : Block = record { first = p; others = ps } in
        let place : w.current_offset ≡ (length old + length (file_of bs)) % 2 ^ 64 =
          h.offset
          ∙ ap (λ (l : List ℕ). length l % 2 ^ 64) h.data_file
          ∙ ap (λ (n : ℕ). n % 2 ^ 64) (length-append old (file_of bs)) in
        let all : entries_of (length old) (bs ++ (b ∷ []))
            ≡ entries_of (length old) bs
              ++ (entry_for z index_interval w.current_offset p ps ∷ []) =
          rw place (entries_of-append bs b (length old)) in
        record {
          data_file = rw (file_of-append bs b, ← append_assoc, h.data_file);
          entries = rw (all, h.entries);
          idx_file = rw (all, encode_index-append, ← append_assoc, h.idx_file);
          offset =
              unfold Int64.add in
              omega (arith, h.offset, length-append w.file (block_bytes z index_interval (p ∷ ps)));
        }

-- The block that a flush of the buffer makes: none, if it is empty.
abbrev pub blocks_for : List SimpleDataPoint → List Block
blocks_for [] = []
blocks_for (p ∷ ps) = record { first = p; others = ps } ∷ []

pub all_points-append :
    (bs cs : List Block) → all_points (bs ++ cs) ≡ all_points bs ++ all_points cs
all_points-append [] cs = refl
all_points-append (b ∷ bs) cs = rw (all_points-append bs cs, append_assoc)

pub all_points-blocks_for : (ps : List SimpleDataPoint) → all_points (blocks_for ps) ≡ ps
all_points-blocks_for [] = refl
all_points-blocks_for (p ∷ ps) = append-nil (p ∷ ps)

module _ (z : Zstd) (index_interval : ℕ) {old old_idx : List ℕ} {bs : List Block} where
  empty_buffer :
      (w : DayWriter)
      → Holds z index_interval old old_idx bs w
      → Holds z index_interval old old_idx bs (record w { buffer = [] })
  empty_buffer w h = record {
    data_file = h.data_file;
    entries = h.entries;
    idx_file = h.idx_file;
    offset = h.offset;
  }

  flush_points-Holds :
      (ps : List SimpleDataPoint) (w : DayWriter)
      → Holds z index_interval old old_idx bs w
      → Holds z index_interval old old_idx
          (bs ++ blocks_for ps)
          (flush_points z index_interval healthy ps w)
  unfolding flush_points
  flush_points-Holds [] w h = rw append-nil h
  flush_points-Holds (p ∷ ps) w h = record_block-Holds z index_interval p ps h

  -- A flush on a healthy disk adds the buffer as one block, or nothing if the buffer is empty.
  pub flush-Holds :
      (w : DayWriter)
      → Holds z index_interval old old_idx bs w
      → Holds z index_interval old old_idx
          (bs ++ blocks_for w.buffer)
          (flush z index_interval healthy w)
  unfolding flush
  flush-Holds w h = flush_points-Holds w.buffer (record w { buffer = [] }) (empty_buffer w h)

flush_points-buffer :
    (z : Zstd) (index_interval : ℕ) (disk : Disk) (ps : List SimpleDataPoint) (w : DayWriter)
    → (flush_points z index_interval disk ps w).buffer ≡ w.buffer
unfolding flush_points
flush_points-buffer z i disk [] w = refl
flush_points-buffer z i disk (p ∷ ps) w = ground arith

-- The buffer is empty after every flush, also after one that failed.
pub flush-buffer :
    (z : Zstd) (index_interval : ℕ) (disk : Disk) (w : DayWriter)
    → (flush z index_interval disk w).buffer ≡ []
unfolding flush
flush-buffer z i disk w = flush_points-buffer z i disk w.buffer (record w { buffer = [] })
