-- ===== src/CarPlay/Ncm/RoundTrip.antt =====
-- `ethernet_frames` reads what `ntb` writes.
use project_argo.Common.{
  ℕ, ◌+◌, ◌-◌, ◌/◌, ◌%◌, ◌≤◌, ◌<◌, ◌≡◌, refl, sym, ap, ◌∙◌, List, [], ◌∷◌, ◌++◌, true, false, arith,
  length, length-append, take, take-length, append-nil, ◌≢◌, le16, le16-le16_bytes,
}
use project_argo.CarPlay.Defs.{ok}
use project_argo.CarPlay.Ncm.Blocks.{
  range, Layout, layout, u16le, is_tag, overlaps, any_overlaps, add_range, entries_loop, table_size,
  tables_loop, slice, datagrams, ethernet_frames, ntb_header, padding, ntb,
}

take_whole : (xs : List ℕ) (n : ℕ) → n ≡ length xs → take n xs ≡ xs
take_whole xs n e = ap (take n) (sym (append-nil xs)) ∙ take-length xs [] n e

padded_length : (n : ℕ) → n ≤ 4096 → (n + 28 + length (padding n)) % 512 ≢ 0
padded_length n h = ground arith

module _ (frame : List ℕ) (sequence : ℕ) (small : 14 ≤ length frame)
    (large : length frame ≤ 4096) where
  abbrev block : List ℕ
  block = ntb_header (length frame) sequence ++ frame

  block_word : (n : ℕ) → n < 65536 → le16 (n % 256) (n / 256 % 256) ≡ n
  block_word n h = le16-le16_bytes n h

  add_frame : add_range block 28 (length frame) [] ≡ ok (range 28 (28 + length frame) ∷ [])
  unfolding add_range overlaps
  add_frame = ground arith

  read_start : u16le block 20 ≡ ok 28
  unfolding u16le
  read_start = ground arith

  read_size : u16le block 22 ≡ ok (length frame)
  unfolding u16le
  read_size = ground (arith, block_word (length frame) (omega arith))

  read_end : (u16le block 24 ≡ ok 0) × (u16le block 26 ≡ ok 0)
  unfolding u16le
  read_end = (ground arith, ground arith)

  read_entries : entries_loop block 2 20 [] ≡ ok (range 28 (28 + length frame) ∷ [])
  unfolding entries_loop
  read_entries = rw (read_start, read_size) (ground (arith, add_frame, read_end))

  read_table : table_size block 12 (range 0 12 ∷ []) ≡ ok 16
  unfolding table_size u16le is_tag overlaps
  read_table = ground arith

  read_next : u16le block 18 ≡ ok 0
  unfolding u16le
  read_next = ground arith

  abbrev found : Layout
  found = layout (range 0 12 ∷ range 12 28 ∷ []) (range 28 (28 + length frame) ∷ [])

  read_tables : tables_loop 9 block 12 (layout (range 0 12 ∷ []) []) ≡ ok found
  unfolding tables_loop
  read_tables = rw (read_table, read_entries, read_next) refl

  apart : any_overlaps found.ranges found.tables ≡ false
  unfolding any_overlaps overlaps
  apart = ground arith

  slice-frame : slice block (range 28 (28 + length frame)) ≡ frame
  unfolding slice
  slice-frame = take_whole frame ((28 + length frame) - 28) (omega arith)

  read_first : u16le block 10 ≡ ok 12
  unfolding u16le
  read_first = ground arith

  datagrams-block : datagrams block ≡ ok (frame ∷ [])
  unfolding datagrams
  datagrams-block = rw (read_first, read_tables, apart, slice-frame) refl

  abbrev sent : List ℕ
  sent = block ++ padding (length frame)

  sent_tag : is_tag sent 0 72 ≡ true
  unfolding is_tag
  sent_tag = ground arith

  sent_words : (u16le sent 4 ≡ ok 12) × (u16le sent 8 ≡ ok (length frame + 28))
  unfolding u16le
  sent_words = (ground arith, ground (arith, block_word (length frame + 28) (omega arith)))

  length-sent : length frame + 28 ≤ length sent
  length-sent = omega (arith, length-append frame (padding (length frame)))

  take-sent : take (length frame + 28) sent ≡ block
  take-sent = take-length block (padding (length frame)) (length frame + 28) (omega arith)

  ethernet_frames-sent : ethernet_frames sent ≡ ok (frame ∷ [])
  unfolding ethernet_frames
  ethernet_frames-sent =
      rw (sent_tag, sent_words.0, sent_words.1, take-sent, datagrams-block)
        (ground (arith, length-sent))

-- A frame of 14 to 4096 bytes is sent, in a block whose length is no multiple of 512, and read
-- back from it alone.
pub ethernet_frames-ntb :
    (frame : List ℕ) (sequence : ℕ)
    → 14 ≤ length frame
    → length frame ≤ 4096
    → (bytes : List ℕ) × (ntb frame sequence ≡ ok bytes)
      × (length bytes % 512 ≢ 0)
      × (ethernet_frames bytes ≡ ok (frame ∷ []))
unfolding ntb
ethernet_frames-ntb frame sequence small large = (
  sent frame sequence small large,
  ground arith,
  omega (arith, length-append frame (padding (length frame)), padded_length (length frame) large),
  ethernet_frames-sent frame sequence small large,
)
