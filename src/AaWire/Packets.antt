-- ===== src/AaWire/Packets.antt =====
-- aa_wire.rs, `PacketDecoder`: its state is the buffer.
pub mod Framing
pub mod Intake
use project_argo.Common.{
  ℕ, ◌+◌, ◌*◌, List, [], ◌∷◌, ◌++◌, bit_and, ltb, ◌==◌, if◌then◌else◌, not, ◌||◌, ◌&&◌, length,
  take, drop, byte_at, be16, be32,
}
use project_argo.Common.Stream.{Step, more, bad, item}
use project_argo.AaWire.Defs.{
  Error, receive_buffer_limit, unknown_frame_flags, empty_frame, fragment_declaration_limit,
  disconnected_mid_frame, Result, ok, err, max_message, Packet,
}

-- An error leaves the buffer as it was.
unfoldable pub push : List ℕ → List ℕ → Result (List ℕ)
push buffered bytes =
    if ltb (128 * 1024) (length buffered + length bytes)
    then err receive_buffer_limit
    else ok (buffered ++ bytes)

-- 8 bytes for the first of several fragments, which declares the whole, else 4.
abbrev pub header_size : ℕ → ℕ
header_size flags = if bit_and flags 3 == 1 then 8 else 4

abbrev pub declared : List ℕ → ℕ
declared buf = be32 (byte_at buf 4) (byte_at buf 5) (byte_at buf 6) (byte_at buf 7)

-- `more` is `Ok(None)`, `item` is `Ok(Some(packet))` with the buffer after `drain`.
unfoldable pub packet : List ℕ → Step Error Packet
packet buf =
    if ltb (length buf) 4
    then more
    else let flags = byte_at buf 1 in
      let size = be16 (byte_at buf 2) (byte_at buf 3) in
      let header = header_size flags in
      if not (bit_and flags 0xf0 == 0)
      then bad unknown_frame_flags
      else if size == 0
      then bad empty_frame
      else if ltb (length buf) header
      then more
      else if header == 8 && (declared buf == 0 || ltb max_message (declared buf))
      then bad fragment_declaration_limit
      else if ltb (length buf) (header + size)
      then more
      else item
          (record { channel = byte_at buf 0; flags = flags; bytes = take size (drop header buf) })
          (drop (header + size) buf)

unfoldable pub disconnect : List ℕ → Result (Unit {0})
disconnect [] = ok tt
disconnect (b ∷ bs) = err disconnected_mid_frame
