-- ===== src/CarPlay/Ncm/Blocks.antt =====
-- ncm.rs, `u16le`, `ethernet_frames` and `ntb`.
use project_argo.Common.{
  ℕ, zero, suc, ◌+◌, ◌-◌, ◌/◌, ◌%◌, List, [], ◌∷◌, ◌++◌, map, Bool, false, not, ◌||◌, ◌&&◌, ltb,
  leb, ◌==◌, if◌then◌else◌, length, take, drop, byte_at, le16,
}
use project_argo.CarPlay.Defs.{bounds, malformed, unsupported, Result, ok, err, ◌>>=◌}

-- A half-open range of offsets in a block.
pub record Range : Type 0 where
  pub start : ℕ
  pub end : ℕ

abbrev pub range : ℕ → ℕ → Range
range start end = record { start = start; end = end }

-- `tables` and `ranges` of `ethernet_frames`: the parts of the block that hold pointers, and the
-- datagrams found so far.
pub record Layout : Type 0 where
  pub tables : List Range
  pub ranges : List Range

abbrev pub layout : List Range → List Range → Layout
layout tables ranges = record { tables = tables; ranges = ranges }

unfoldable pub u16le : List ℕ → ℕ → Result ℕ
u16le bytes index =
    if ltb (length bytes) (index + 2)
    then err bounds
    else ok (le16 (byte_at bytes index) (byte_at bytes (index + 1)))

-- Whether "NCM" and the given letter stand at the offset.
unfoldable pub is_tag : List ℕ → ℕ → ℕ → Bool
is_tag bytes offset letter =
    leb (offset + 4) (length bytes)
    && byte_at bytes offset == 78
    && byte_at bytes (offset + 1) == 67
    && byte_at bytes (offset + 2) == 77
    && byte_at bytes (offset + 3) == letter

unfoldable pub overlaps : Range → List Range → Bool
overlaps r [] = false
overlaps r (t ∷ ts) = (ltb r.start t.end && ltb t.start r.end) || overlaps r ts

unfoldable pub any_overlaps : List Range → List Range → Bool
any_overlaps [] ts = false
any_overlaps (r ∷ rs) ts = overlaps r ts || any_overlaps rs ts

-- The checks on one datagram: its range is added.
unfoldable pub add_range : List ℕ → ℕ → ℕ → List Range → Result (List Range)
add_range bytes start size ranges =
    if ltb start 12
      || not (leb 14 size && leb size 4096)
      || ltb (length bytes) (start + size)
      || leb 32 (length ranges)
    then err bounds
    else if overlaps (range start (start + size)) ranges
    then err malformed
    else ok (ranges ++ (range start (start + size) ∷ []))

-- The loop over the entries of a table, of which so many are left; running out of them is the
-- error of a table that is not terminated.
unfoldable pub entries_loop : List ℕ → ℕ → ℕ → List Range → Result (List Range)
entries_loop bytes zero entry ranges = err malformed
entries_loop bytes (suc count) entry ranges = do
  start ← u16le bytes entry
  size ← u16le bytes (entry + 2)
  if start == 0 && size == 0
      then ok ranges
      else (add_range bytes start size ranges >>= entries_loop bytes count (entry + 4))

-- The checks on the table at the offset: where it ends.
unfoldable pub table_size : List ℕ → ℕ → List Range → Result ℕ
table_size bytes offset tables =
    if ltb offset 12 || not (offset % 4 == 0) || ltb 8 (length tables)
    then err bounds
    else if not (is_tag bytes offset 48)
    then err unsupported
    else do
      size ← u16le bytes (offset + 4)
      if ltb size 12 || not (size % 4 == 0) || ltb (length bytes) (offset + size)
          then err bounds
          else if overlaps (range offset (offset + size)) tables
          then err malformed
          else ok size

-- The loop over the tables. More than 8 are refused, so fuel 9 is enough.
unfoldable pub tables_loop : ℕ → List ℕ → ℕ → Layout → Result Layout
tables_loop zero bytes offset l = if offset == 0 then ok l else err bounds
tables_loop (suc fuel) bytes offset l = if offset == 0 then ok l else do
  size ← table_size bytes offset l.tables
  ranges ← entries_loop bytes ((size - 8) / 4) (offset + 8) l.ranges
  next ← u16le bytes (offset + 6)
  tables_loop fuel bytes next (layout (l.tables ++ (range offset (offset + size) ∷ [])) ranges)

unfoldable pub slice : List ℕ → Range → List ℕ
slice bytes r = take (r.end - r.start) (drop r.start bytes)

-- From the offset of the first table on, on the bytes of the block only.
unfoldable pub datagrams : List ℕ → Result (List (List ℕ))
datagrams bytes = do
  offset ← u16le bytes 10
  l ← tables_loop 9 bytes offset (layout (range 0 12 ∷ []) [])
  if any_overlaps l.ranges l.tables then err malformed else ok (map (slice bytes) l.ranges)

unfoldable pub ethernet_frames : List ℕ → Result (List (List ℕ))
ethernet_frames bytes =
    if ltb (length bytes) 12 || not (is_tag bytes 0 72) then err malformed else do
      header ← u16le bytes 4
      if not (header == 12) then err malformed else do
        len ← u16le bytes 8
        if not (leb 12 len && leb len 32768) || ltb (length bytes) len
            then err bounds
            else datagrams (take len bytes)

-- The 28 bytes before the datagram, each word at its offset.
abbrev pub ntb_header : ℕ → ℕ → List ℕ
ntb_header len sequence =
    78
    ∷ 67
    ∷ 77
    ∷ 72
    ∷ 12
    ∷ 0
    ∷ (sequence % 256)
    ∷ (sequence / 256 % 256)
    ∷ ((len + 28) % 256)
    ∷ ((len + 28) / 256 % 256)
    ∷ 12
    ∷ 0
    ∷ 78
    ∷ 67
    ∷ 77
    ∷ 48
    ∷ 16
    ∷ 0
    ∷ 0
    ∷ 0
    ∷ 28
    ∷ 0
    ∷ (len % 256)
    ∷ (len / 256 % 256)
    ∷ 0
    ∷ 0
    ∷ 0
    ∷ 0
    ∷ []

-- A block is never a multiple of 512 bytes: one more byte follows then.
abbrev pub padding : ℕ → List ℕ
padding len = if (len + 28) % 512 == 0 then 0 ∷ [] else []

unfoldable pub ntb : List ℕ → ℕ → Result (List ℕ)
ntb frame sequence =
    if not (leb 14 (length frame) && leb (length frame) 4096)
    then err bounds
    else ok (ntb_header (length frame) sequence ++ (frame ++ padding (length frame)))
