-- ===== src/Writer/ReadBack.antt =====
-- What QueryWithIndex reads from the file of a writer, with the index that the writer kept.
use go_project.Base.{
  ℕ, ◌+◌, ◌-◌, ◌%◌, ◌^◌, ◌≤◌, ◌<◌, ◌≡◌, ◌≢◌, refl, ap, ◌∙◌, sym, List, [], ◌∷◌, ◌++◌, none, some,
  length, All, arith, keep, take, drop, take-append, drop-append, length-append, append-nil, false,
  leb, le→ltb, ==_iff, Bool-cases, inl, inr,
}
use go_project.Bytes.{le_bytes, length-le_bytes, get_le, get_le-le_bytes}
use go_project.Crc.{checksum, checksum-lt}
use go_project.Zstd.{Zstd}
use go_project.Point.{SimpleDataPoint, IsPoint}
use go_project.Reader.{in_range, parse_points}
use go_project.Reader.Parse.{encode_all, parse_points-encode_all}
use go_project.Reader.Query.{done, read_at, parsed, check_block, read_block}
use go_project.Index.{IndexEntry}
use go_project.Writer.{block_bytes, entry_for}
use go_project.Writer.Blocks.{Block, points_of}

abbrev pub with_crc : List SimpleDataPoint → List ℕ
with_crc ps = encode_all ps ++ le_bytes 4 (checksum (encode_all ps))

-- Reading inside the file, where `place` is the offset as a number.
read_at_inside :
    (file : List ℕ) (e : IndexEntry) (bytes : List ℕ) (place : ℕ)
    → e.offset ≡ place
    → e.block_length ≡ length bytes
    → place + length bytes ≤ length file
    → place + length bytes < 2 ^ 63
    → take (length bytes) (drop place file) ≡ bytes
    → read_at file e ≡ done bytes
unfolding read_at
read_at_inside file e [] place o l inside small t = ground (arith, o, l)
read_at_inside file e (b ∷ bs) place o l inside small t = rw (o, l, read_at) (ground (arith, t))

module _ (z : Zstd) (index_interval : ℕ) where
  -- A block that the reader can tell for what it is: its points fit the format, and if it is
  -- written without compression, zstd does not take its bytes for compressed ones, and its
  -- checksum is not the zero that marks the old format.
  pub record IsReadable (b : Block) : Type 0 where
    pub fits : All IsPoint (points_of b)
    pub refused :
        leb index_interval (length (encode_all (points_of b))) ≡ false
        → z.decode_all (with_crc (points_of b)) ≡ none
    pub marked :
        leb index_interval (length (encode_all (points_of b))) ≡ false
        → checksum (encode_all (points_of b)) ≢ 0

  module _ (start_time end_time : ℕ) where
    check_block-with_crc :
        (ps : List SimpleDataPoint)
        → All IsPoint ps
        → check_block z start_time end_time (with_crc ps)
          ≡ parsed (keep (in_range start_time end_time) ps)
    unfolding check_block
    check_block-with_crc ps h =
        let raw : List ℕ = encode_all ps in
        let crc : List ℕ = le_bytes 4 (checksum raw) in
        let total : length (raw ++ crc) ≡ length raw + 4 =
          omega (arith, length-append raw crc, length-le_bytes 4 (checksum raw)) in
        let size : length (raw ++ crc) - 4 ≡ length raw = omega (arith, total) in
        let stored : get_le 4 crc ≡ checksum raw =
          ap (get_le 4) (sym (append-nil crc))
          ∙ get_le-le_bytes 4 (checksum raw) [] (checksum-lt raw) in
        let points : parse_points raw start_time end_time ≡ keep (in_range start_time end_time) ps =
          ap (λ (l : List ℕ). parse_points l start_time end_time) (sym (append-nil raw))
          ∙ parse_points-encode_all start_time end_time ps [] h (omega arith) in
        rw (
          le→ltb (length (raw ++ crc)) 4 (omega (arith, total)),
          size,
          drop-append (length raw) raw crc refl,
          take-append (length raw) raw crc refl,
          stored,
          (==_iff (checksum raw) (checksum raw)).1 refl,
          points,
        )

    read_compressed :
        (raw d : List ℕ) (crc : ℕ)
        → z.decode_all raw ≡ some d
        → read_block z start_time end_time raw crc ≡ check_block z start_time end_time d
    unfolding read_block
    read_compressed raw d crc e = rw (e, read_block)

    read_plain :
        (raw : List ℕ) (crc : ℕ)
        → z.decode_all raw ≡ none
        → crc ≢ 0
        → read_block z start_time end_time raw crc ≡ check_block z start_time end_time raw
    unfolding read_block
    read_plain raw crc e h = ground (arith, e)

    pub read_block-block_bytes :
        (b : Block)
        → IsReadable b
        → read_block z start_time end_time
            (block_bytes z index_interval (points_of b))
            (checksum (encode_all (points_of b)))
          ≡ parsed (keep (in_range start_time end_time) (points_of b))
    unfolding block_bytes
    read_block-block_bytes b h =
        elim (Bool-cases (leb index_interval (length (encode_all (points_of b))))) [
          | inl large ↦ rw large (
              read_compressed _ _ _ (z.decode_all-encode_all (with_crc (points_of b)))
              ∙ check_block-with_crc (points_of b) h.fits)
          | inr small ↦ rw small (
              read_plain _ _ (h.refused small) (h.marked small)
              ∙ check_block-with_crc (points_of b) h.fits)
        ]

  -- The bytes of a block are read at the place that its entry tells.
  pub read_at-entry_for :
      (before after : List ℕ) (b : Block)
      → length (before ++ (block_bytes z index_interval (points_of b) ++ after)) < 2 ^ 63
      → read_at
          (before ++ (block_bytes z index_interval (points_of b) ++ after))
          (entry_for z index_interval (length before % 2 ^ 64) b.first b.others)
        ≡ done (block_bytes z index_interval (points_of b))
  read_at-entry_for before after b h =
      let bytes : List ℕ = block_bytes z index_interval (points_of b) in
      let total : length (before ++ (bytes ++ after))
          ≡ length before + length bytes + length after =
        length-append before (bytes ++ after) ∙ omega (arith, length-append bytes after) in
      read_at_inside (before ++ (bytes ++ after))
        (entry_for z index_interval (length before % 2 ^ 64) b.first b.others) bytes (length before)
        (omega (arith, total)) refl (omega (arith, total)) (omega (arith, total))
        (ap (take (length bytes)) (drop-append (length before) before (bytes ++ after) refl)
          ∙ take-append (length bytes) bytes after refl)
