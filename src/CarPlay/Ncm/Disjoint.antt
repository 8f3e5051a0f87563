-- ===== src/CarPlay/Ncm/Disjoint.antt =====
-- What `ethernet_frames` answers: the datagrams lie in the block and apart from one another.
use project_argo.Common.{
  ℕ, zero, suc, ◌+◌, ◌-◌, ◌/◌, ◌≤◌, ◌<◌, ◌≡◌, ◌⊎◌, inl, inr, List, [], ◌∷◌, ◌++◌, map, false, ◌==◌,
  ◌&&◌, if◌then◌else◌, not, ◌||◌, ltb, leb, length-take, arith, length, length-append, take, All,
  All-append,
}
use project_argo.CarPlay.Defs.{bounds, malformed, ok, err, ◌>>=◌, bind-ok}
use project_argo.CarPlay.Ncm.Blocks.{
  Range, range, Layout, layout, u16le, overlaps, any_overlaps, add_range, entries_loop, table_size,
  tables_loop, slice, datagrams, ethernet_frames,
}

abbrev pub IsApart : Range → Range → Type 0
IsApart r t = (r.end ≤ t.start) ⊎ (t.end ≤ r.start)

abbrev pub AreDisjoint : List Range → Type 0
AreDisjoint [] = Unit {0}
AreDisjoint (r ∷ rs) = All (IsApart r) rs × AreDisjoint rs

-- A datagram of 14 to 4096 bytes within a block of so many bytes, behind its header.
abbrev pub IsDatagram : ℕ → Range → Type 0
IsDatagram n r = (12 ≤ r.start) × (r.start + 14 ≤ r.end) × (r.end ≤ r.start + 4096) × (r.end ≤ n)

pub record AreDatagrams (n : ℕ) (rs : List Range) : Type 0 where
  pub placed : All (IsDatagram n) rs
  pub apart : AreDisjoint rs
  pub few : length rs ≤ 32

overlaps-false : (r : Range) (ts : List Range) → overlaps r ts ≡ false → All (IsApart r) ts
unfolding overlaps
overlaps-false r [] e = tt
overlaps-false r (t ∷ ts) e = ground (arith, overlaps-false r ts)

any_overlaps-false :
    (rs ts : List Range) → any_overlaps rs ts ≡ false → All (λ r. All (IsApart r) ts) rs
unfolding any_overlaps
any_overlaps-false [] ts e = tt
any_overlaps-false (r ∷ rs) ts e = ground (arith, any_overlaps-false rs ts, overlaps-false r ts)

snoc-AreDisjoint :
    (rs : List Range) (r : Range)
    → AreDisjoint rs
    → All (IsApart r) rs
    → AreDisjoint (rs ++ (r ∷ []))
snoc-AreDisjoint [] r d h = (tt, tt)
snoc-AreDisjoint (s ∷ rs) r d h =
    (All-append (IsApart s) rs (r ∷ []) d.0 (swapped h.0, tt), snoc-AreDisjoint rs r d.1 h.1)
  where
    swapped : IsApart r s → IsApart s r
    swapped (inl e) = inr e
    swapped (inr e) = inl e

add_range-ok :
    (bytes : List ℕ) (start size : ℕ) (ranges rs : List Range)
    → add_range bytes start size ranges ≡ ok rs
    → IsDatagram (length bytes) (range start (start + size))
      × (length ranges < 32)
      × (overlaps (range start (start + size)) ranges ≡ false)
      × (rs ≡ ranges ++ (range start (start + size) ∷ []))
unfolding add_range
add_range-ok bytes start size ranges rs e = ground arith

add_range-AreDatagrams :
    (bytes : List ℕ) (start size : ℕ) (ranges rs : List Range)
    → AreDatagrams (length bytes) ranges
    → add_range bytes start size ranges ≡ ok rs
    → AreDatagrams (length bytes) rs
add_range-AreDatagrams bytes start size ranges rs v e =
    let (d, n, o, p) = add_range-ok bytes start size ranges rs e in
    let r = range start (start + size) in
    rw p (record {
      placed = All-append (IsDatagram (length bytes)) ranges (r ∷ []) v.placed (d, tt);
      apart = snoc-AreDisjoint ranges r v.apart (overlaps-false r ranges o);
      few = omega (arith, length-append ranges (r ∷ []));
    })

entry_cases :
    (bytes : List ℕ) (count entry start size : ℕ) (ranges rs : List Range)
    → (if start == 0 && size == 0
        then ok ranges
        else (add_range bytes start size ranges >>= entries_loop bytes count (entry + 4)))
      ≡ ok rs
    → (rs ≡ ranges)
      ⊎ ((add_range bytes start size ranges >>= entries_loop bytes count (entry + 4)) ≡ ok rs)
entry_cases bytes count entry start size ranges rs e = ground arith

entries_loop-AreDatagrams :
    (bytes : List ℕ) (count entry : ℕ) (ranges rs : List Range)
    → AreDatagrams (length bytes) ranges
    → entries_loop bytes count entry ranges ≡ ok rs
    → AreDatagrams (length bytes) rs
unfolding entries_loop
entries_loop-AreDatagrams bytes zero entry ranges rs v e = cc
entries_loop-AreDatagrams bytes (suc count) entry ranges rs v e =
    let (start, p, f) = bind-ok (u16le bytes entry) _ rs e in
    let (size, q, g) = bind-ok (u16le bytes (entry + 2)) _ rs f in
    elim (entry_cases bytes count entry start size ranges rs g) [
      | inl h ↦ rw h v
      | inr h ↦
          let (more, a, k) =
            bind-ok (add_range bytes start size ranges) (entries_loop bytes count (entry + 4)) rs
              h in
          entries_loop-AreDatagrams bytes count (entry + 4) more rs
            (add_range-AreDatagrams bytes start size ranges more v a) k
    ]

tables_step :
    (fuel : ℕ) (bytes : List ℕ) (offset : ℕ) (l k : Layout)
    → tables_loop (suc fuel) bytes offset l ≡ ok k
    → (k ≡ l)
      ⊎ ((table_size bytes offset l.tables >>= λ size.
            entries_loop bytes ((size - 8) / 4) (offset + 8) l.ranges >>= λ ranges.
            u16le bytes (offset + 6) >>= λ next.
            tables_loop fuel bytes next
              (layout (l.tables ++ (range offset (offset + size) ∷ [])) ranges))
          ≡ ok k)
unfolding tables_loop
tables_step fuel bytes offset l k e = ground arith

tables_loop-AreDatagrams :
    (fuel : ℕ) (bytes : List ℕ) (offset : ℕ) (l k : Layout)
    → AreDatagrams (length bytes) l.ranges
    → tables_loop fuel bytes offset l ≡ ok k
    → AreDatagrams (length bytes) k.ranges
tables_loop-AreDatagrams zero bytes offset l k v e =
    out_of_fuel v (unfold tables_loop in ground arith)
  where
    out_of_fuel :
        AreDatagrams (length bytes) l.ranges → k ≡ l → AreDatagrams (length bytes) k.ranges
    out_of_fuel w p = rw p w
tables_loop-AreDatagrams (suc fuel) bytes offset l k v e =
    elim (tables_step fuel bytes offset l k e) [
      | inl h ↦ rw h v
      | inr h ↦
          let (size, a, f) = bind-ok (table_size bytes offset l.tables) _ k h in
          let (rs, b, g) =
            bind-ok (entries_loop bytes ((size - 8) / 4) (offset + 8) l.ranges) _ k f in
          let (next, c, i) = bind-ok (u16le bytes (offset + 6)) _ k g in
          tables_loop-AreDatagrams fuel bytes next
            (layout (l.tables ++ (range offset (offset + size) ∷ [])) rs) k
            (entries_loop-AreDatagrams bytes ((size - 8) / 4) (offset + 8) l.ranges rs v b) i
    ]

no_datagrams : (n : ℕ) → AreDatagrams n []
no_datagrams n = record { placed = tt; apart = tt; few = omega arith }

placed_frames :
    (bytes : List ℕ) (l : Layout) (fs : List (List ℕ))
    → (if any_overlaps l.ranges l.tables then err malformed else ok (map (slice bytes) l.ranges))
      ≡ ok fs
    → fs ≡ map (slice bytes) l.ranges
placed_frames bytes l fs e = ground arith

datagrams-ok :
    (bytes : List ℕ) (fs : List (List ℕ))
    → datagrams bytes ≡ ok fs
    → (rs : List Range) × AreDatagrams (length bytes) rs × (fs ≡ map (slice bytes) rs)
unfolding datagrams
datagrams-ok bytes fs e =
    let (offset, a, f) = bind-ok (u16le bytes 10) _ fs e in
    let (l, b, g) = bind-ok (tables_loop 9 bytes offset (layout (range 0 12 ∷ []) [])) _ fs f in
    (
      l.ranges,
      tables_loop-AreDatagrams 9 bytes offset (layout (range 0 12 ∷ []) []) l
          (no_datagrams (length bytes)) b,
      placed_frames bytes l fs g,
    )

sized_block :
    (bytes : List ℕ) (len : ℕ) (fs : List (List ℕ))
    → (if not (leb 12 len && leb len 32768) || ltb (length bytes) len
        then err bounds
        else datagrams (take len bytes))
      ≡ ok fs
    → (len ≤ 32768) × (length (take len bytes) ≡ len) × (datagrams (take len bytes) ≡ ok fs)
sized_block bytes len fs e = ground (arith, length-take len bytes)

headed_block :
    (bytes : List ℕ) (fs : List (List ℕ))
    → ethernet_frames bytes ≡ ok fs
    → (u16le bytes 8 >>= λ len.
        if not (leb 12 len && leb len 32768) || ltb (length bytes) len
        then err bounds
        else datagrams (take len bytes))
      ≡ ok fs
unfolding ethernet_frames
headed_block bytes fs e = ground arith

-- What `ethernet_frames` answers are at most 32 parts of a block, which is at most the first 32768
-- bytes: each of 14 to 4096 bytes, behind the header of 12 bytes and within the block, and no two
-- of them overlap.
pub ethernet_frames-AreDatagrams :
    (bytes : List ℕ) (fs : List (List ℕ))
    → ethernet_frames bytes ≡ ok fs
    → (n : ℕ) × (rs : List Range) × (n ≤ 32768)
      × (length (take n bytes) ≡ n)
      × AreDatagrams n rs
      × (fs ≡ map (slice (take n bytes)) rs)
ethernet_frames-AreDatagrams bytes fs e =
    let (n, a, f) = bind-ok (u16le bytes 8) _ fs (headed_block bytes fs e) in
    let (small, whole, g) = sized_block bytes n fs f in
    let (rs, v, p) = datagrams-ok (take n bytes) fs g in (n, rs, small, whole, rw whole at v, p)
