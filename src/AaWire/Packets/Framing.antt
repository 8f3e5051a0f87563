-- ===== src/AaWire/Packets/Framing.antt =====
-- The laws of `packet`, so that the reader of Common.Stream serves the decoder.
use project_argo.Common.{
  ℕ, ◌+◌, ◌≤◌, ◌<◌, ◌≡◌, List, ◌++◌, arith, length, take, drop, byte_at, be16, length-append,
  length-drop, get_or-append, take-append, drop-append,
}
use project_argo.Common.Stream.{bad, item, Framing}
use project_argo.AaWire.Defs.{Error, Packet}
use project_argo.AaWire.Packets.{packet, header_size, declared}

pub packet_shrinks :
    (buf : List ℕ) (a : Packet) (rest : List ℕ)
    → packet buf ≡ item a rest
    → length rest < length buf
unfolding packet
packet_shrinks buf a rest e =
    ground
      (arith, length-drop (header_size (byte_at buf 1) + be16 (byte_at buf 2) (byte_at buf 3)) buf)

module _ (buf x : List ℕ) where
  byte_at-append : (i : ℕ) → i < length buf → byte_at (buf ++ x) i ≡ byte_at buf i
  byte_at-append i h = get_or-append buf x i 0 h

  bytes-append : (k n : ℕ) → k + n ≤ length buf → take n (drop k (buf ++ x)) ≡ take n (drop k buf)
  bytes-append k n h =
      rw (drop-append k buf x (omega arith))
        (take-append n (drop k buf) x (omega (arith, length-drop k buf)))

  declared-append : 8 ≤ length buf → declared (buf ++ x) ≡ declared buf
  declared-append h = omega (
    arith,
    byte_at-append 4 (omega arith),
    byte_at-append 5 (omega arith),
    byte_at-append 6 (omega arith),
    byte_at-append 7 (omega arith),
  )

  pub packet-append_item :
      (a : Packet) (rest : List ℕ)
      → packet buf ≡ item a rest
      → packet (buf ++ x) ≡ item a (rest ++ x)
  unfolding packet
  packet-append_item a rest e =
      let header = header_size (byte_at buf 1) in
      let size = be16 (byte_at buf 2) (byte_at buf 3) in
      ground (
        arith,
        length-append buf x,
        byte_at-append 0,
        byte_at-append 1,
        byte_at-append 2,
        byte_at-append 3,
        declared-append,
        bytes-append header size,
        drop-append (header + size) buf x,
      )

  pub packet-append_bad : (e : Error) → packet buf ≡ bad e → packet (buf ++ x) ≡ bad e
  unfolding packet
  packet-append_bad e h = ground (
    arith,
    length-append buf x,
    byte_at-append 1,
    byte_at-append 2,
    byte_at-append 3,
    declared-append,
  )

unfoldable pub packet_framing : Framing Error Packet
packet_framing = record {
  next = packet;
  shrinks = packet_shrinks;
  keeps_item = packet-append_item;
  keeps_bad = packet-append_bad;
}
