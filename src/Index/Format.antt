-- ===== src/Index/Format.antt =====
-- The index file, written entry by entry and read back.
use go_project.Base.{
  ℕ, zero, suc, ◌*◌, ◌/◌, ◌%◌, ◌≡◌, refl, ap, ◌∙◌, List, [], ◌∷◌, ◌++◌, length, map, ◌≢◌, All,
  arith, drop, drop-add, drop-append, length-append, append_assoc, append-nil,
}
use go_project.Bytes.{le_bytes, get_le, length-le_bytes, get_le-le_bytes, little_endian, drop-put}
use go_project.Index.{
  IndexEntry, IsEntry, encode_old_entry, encode_entry, entry_at, read_entries, entry_size_of,
  read_index,
}

unfoldable pub encode_index : List IndexEntry → List ℕ
encode_index [] = []
encode_index (e ∷ es) = encode_entry e ++ encode_index es

pub encode_index-append :
    (es : List IndexEntry) (e : IndexEntry)
    → encode_index (es ++ (e ∷ [])) ≡ encode_index es ++ encode_entry e
unfolding encode_index
encode_index-append [] e = append-nil _
encode_index-append (x ∷ es) e = rw (encode_index-append es e, append_assoc)

unfoldable pub encode_old_index : List IndexEntry → List ℕ
encode_old_index [] = []
encode_old_index (e ∷ es) = encode_old_entry e ++ encode_old_index es

length-encode_old_entry : (e : IndexEntry) → length (encode_old_entry e) ≡ 32
unfolding encode_old_entry
length-encode_old_entry e = simp length-append (
    omega (
      arith,
      length-le_bytes 8 e.start_time,
      length-le_bytes 8 e.end_time,
      length-le_bytes 8 e.offset,
      length-le_bytes 8 e.block_length,
    ))

pub length-encode_entry : (e : IndexEntry) → length (encode_entry e) ≡ 36
unfolding encode_entry
length-encode_entry e =
    rw length-append (omega (arith, length-encode_old_entry e, length-le_bytes 4 e.crc32))

module _ (e : IndexEntry) (rest : List ℕ) (h : IsEntry e) where
  d : List ℕ
  d = encode_old_entry e ++ rest

  spelled :
      d
      ≡ le_bytes 8 e.start_time
        ++ (le_bytes 8 e.end_time ++ (le_bytes 8 e.offset ++ (le_bytes 8 e.block_length ++ rest)))
  unfolding d encode_old_entry
  spelled = simp append_assoc

  drop_8 :
      drop 8 d
      ≡ le_bytes 8 e.end_time ++ (le_bytes 8 e.offset ++ (le_bytes 8 e.block_length ++ rest))
  drop_8 = ap (drop 8) spelled ∙ drop-put little_endian 8 e.start_time _

  drop_16 : drop 16 d ≡ le_bytes 8 e.offset ++ (le_bytes 8 e.block_length ++ rest)
  drop_16 = drop-add 8 8 d ∙ ap (drop 8) drop_8 ∙ drop-put little_endian 8 e.end_time _

  drop_24 : drop 24 d ≡ le_bytes 8 e.block_length ++ rest
  drop_24 = drop-add 16 8 d ∙ ap (drop 8) drop_16 ∙ drop-put little_endian 8 e.offset _

  read_start : get_le 8 d ≡ e.start_time
  read_start = ap (get_le 8) spelled ∙ get_le-le_bytes 8 e.start_time _ h.start_fits

  read_end : get_le 8 (drop 8 d) ≡ e.end_time
  read_end = ap (get_le 8) drop_8 ∙ get_le-le_bytes 8 e.end_time _ h.end_fits

  read_offset : get_le 8 (drop 16 d) ≡ e.offset
  read_offset = ap (get_le 8) drop_16 ∙ get_le-le_bytes 8 e.offset _ h.offset_fits

  read_length : get_le 8 (drop 24 d) ≡ e.block_length
  read_length = ap (get_le 8) drop_24 ∙ get_le-le_bytes 8 e.block_length _ h.length_fits

  -- The four fields that both formats have.
  old_entry_at : entry_at 32 (encode_old_entry e ++ rest) ≡ record e { crc32 = 0 }
  unfolding entry_at d
  old_entry_at = cc (read_start, read_end, read_offset, read_length)

  new_entry_at :
      (more : List ℕ)
      → rest ≡ le_bytes 4 e.crc32 ++ more
      → entry_at 36 (encode_old_entry e ++ rest) ≡ e
  unfolding entry_at d
  new_entry_at more r =
      let crc : get_le 4 (drop 32 (encode_old_entry e ++ rest)) ≡ e.crc32 =
        ap (get_le 4) (drop-append 32 (encode_old_entry e) rest (length-encode_old_entry e) ∙ r)
        ∙ get_le-le_bytes 4 e.crc32 more h.crc_fits in
      cc (read_start, read_end, read_offset, read_length, crc)

read_entry : (e : IndexEntry) (rest : List ℕ) → IsEntry e → entry_at 36 (encode_entry e ++ rest) ≡ e
unfolding encode_entry
read_entry e rest h =
    ap (entry_at 36) (append_assoc (encode_old_entry e) (le_bytes 4 e.crc32) rest)
    ∙ new_entry_at e (le_bytes 4 e.crc32 ++ rest) h rest refl

new_size : (n : ℕ) → entry_size_of (36 * n) ≡ 36
unfolding entry_size_of
new_size n = ground arith

old_size : (n : ℕ) → n % 9 ≢ 0 → entry_size_of (32 * n) ≡ 32
unfolding entry_size_of
old_size n h = ground arith

mistaken_size : (n : ℕ) → n % 9 ≡ 0 → entry_size_of (32 * n) ≡ 36
unfolding entry_size_of
mistaken_size n h = ground arith

length-read_entries :
    (entry_size rounds : ℕ) (d : List ℕ) → length (read_entries entry_size rounds d) ≡ rounds
unfolding read_entries
length-read_entries k zero d = refl
length-read_entries k (suc n) d = ap suc (length-read_entries k n (drop k d))

length-encode_index : (es : List IndexEntry) → length (encode_index es) ≡ 36 * length es
unfolding encode_index
length-encode_index [] = refl
length-encode_index (e ∷ es) =
    rw length-append (omega (arith, length-encode_entry e, length-encode_index es))

length-encode_old_index : (es : List IndexEntry) → length (encode_old_index es) ≡ 32 * length es
unfolding encode_old_index
length-encode_old_index [] = refl
length-encode_old_index (e ∷ es) =
    rw length-append (omega (arith, length-encode_old_entry e, length-encode_old_index es))

read_entries-encode_index :
    (es : List IndexEntry) → All IsEntry es → read_entries 36 (length es) (encode_index es) ≡ es
unfolding read_entries encode_index
read_entries-encode_index [] h = refl
read_entries-encode_index (e ∷ es) (he, hes) =
    rw (drop-append 36 (encode_entry e) (encode_index es) (length-encode_entry e))
      (cc (read_entries-encode_index es hes, read_entry e (encode_index es) he))

-- An index file of entries that fit their fields, whatever their number, is read back exactly.
pub read_index-encode_index :
    (es : List IndexEntry) → All IsEntry es → read_index (encode_index es) ≡ es
unfolding read_index
read_index-encode_index es h =
    let rounds : 36 * length es / 36 ≡ length es = omega arith in
    rw (length-encode_index es, new_size (length es), rounds) (read_entries-encode_index es h)

abbrev pub without_crc : IndexEntry → IndexEntry
without_crc e = record e { crc32 = 0 }

read_entries-encode_old_index :
    (es : List IndexEntry)
    → All IsEntry es
    → read_entries 32 (length es) (encode_old_index es) ≡ map without_crc es
unfolding read_entries encode_old_index
read_entries-encode_old_index [] h = refl
read_entries-encode_old_index (e ∷ es) (he, hes) =
    rw (drop-append 32 (encode_old_entry e) (encode_old_index es) (length-encode_old_entry e))
      (cc (read_entries-encode_old_index es hes, old_entry_at e (encode_old_index es) he))

-- An index file of the old format is read back, with checksums of zero, if its entries fit their
-- fields and their number is not a multiple of nine.
pub read_index-encode_old_index :
    (es : List IndexEntry)
    → All IsEntry es
    → length es % 9 ≢ 0
    → read_index (encode_old_index es) ≡ map without_crc es
unfolding read_index
read_index-encode_old_index es h nine =
    let rounds : 32 * length es / 32 ≡ length es = omega arith in
    rw (length-encode_old_index es, old_size (length es) nine, rounds)
      (read_entries-encode_old_index es h)

-- If the number of entries is a multiple of nine, an index file of the old format is taken for one
-- of the new, and the number of entries read from it is eight ninths of those written.
pub read_index_misread :
    (es : List IndexEntry)
    → length es % 9 ≡ 0
    → length (read_index (encode_old_index es)) ≡ length es / 9 * 8
unfolding read_index
read_index_misread es nine =
    rw (length-encode_old_index es, mistaken_size (length es) nine, length-read_entries)
      (omega arith)
