-- ===== src/CarPlay/Ncm/Examples.antt =====
-- Runs of the transfer blocks, and their theorems at concrete inputs.
use project_argo.Common.{ℕ, ◌%◌, ◌≤◌, ◌≡◌, ◌≢◌, refl, List, [], ◌∷◌, ◌++◌, map, take, arith, length}
use project_argo.CarPlay.Defs.{ok}
use project_argo.CarPlay.Ncm.Blocks.{
  Range, u16le, is_tag, overlaps, any_overlaps, add_range, entries_loop, table_size, tables_loop,
  slice, datagrams, ethernet_frames, ntb_header, ntb,
}
use project_argo.CarPlay.Ncm.Disjoint.{AreDatagrams, ethernet_frames-AreDatagrams}
use project_argo.CarPlay.Ncm.RoundTrip.{ethernet_frames-ntb}

abbrev ethernet : List ℕ
ethernet = 1 ∷ 2 ∷ 3 ∷ 4 ∷ 5 ∷ 6 ∷ 7 ∷ 8 ∷ 9 ∷ 10 ∷ 11 ∷ 12 ∷ 8 ∷ 0 ∷ []

abbrev ethernet_block : List ℕ
ethernet_block = ntb_header 14 7 ++ ethernet

ethernet_read : ethernet_frames ethernet_block ≡ ok (ethernet ∷ [])
unfolding ethernet_frames datagrams tables_loop table_size entries_loop add_range overlaps
    any_overlaps is_tag u16le slice
ethernet_read = refl

ethernet_frames-AreDatagrams_example :
    (n : ℕ) × (rs : List Range) × (n ≤ 32768)
    × (length (take n ethernet_block) ≡ n)
    × AreDatagrams n rs
    × (ethernet ∷ [] ≡ map (slice (take n ethernet_block)) rs)
ethernet_frames-AreDatagrams_example =
    ethernet_frames-AreDatagrams ethernet_block (ethernet ∷ []) ethernet_read

ethernet_frames-ntb_example :
    (bytes : List ℕ) × (ntb ethernet 7 ≡ ok bytes)
    × (length bytes % 512 ≢ 0)
    × (ethernet_frames bytes ≡ ok (ethernet ∷ []))
ethernet_frames-ntb_example = ethernet_frames-ntb ethernet 7 (omega arith) (omega arith)
