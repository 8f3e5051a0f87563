-- ===== src/CarPlay/UsbMux.antt =====
-- native/carplay/src/protocol/usb_mux.rs: the connections that share one USB function, as in
-- TCP. The task that reads USB, the pipes and the timers are not modelled: what became of a write
-- to a pipe comes with an event. A failed write on USB ends the task, and the state with it.
pub mod Task
pub mod Flow
pub mod Bounded
pub mod Written
pub mod Counted
pub mod Sending
pub mod Flight
pub mod Unacknowledged
mod Examples
use project_argo.Common.{
  ℕ, ◌+◌, ◌-◌, ◌*◌, ◌/◌, ◌%◌, ◌^◌, List, [], ◌∷◌, ◌++◌, Bool, true, false, Option, none, some, not,
  ltb, leb, ◌==◌, ◌&&◌, ◌||◌, if◌then◌else◌, length, take, drop, byte_at, be16, be16_bytes, be32,
  be32_bytes, bit_and,
}
use project_argo.CarPlay.{
  Error, bounds, malformed, state, sequence, timeout, Result, err, ok, ◌>>=◌,
}

abbrev pub max_frame : ℕ
max_frame = 65536

unfoldable pub envelope : ℕ → ℕ → List ℕ → Result (List ℕ)
envelope protocol sequence_number body =
    if ltb max_frame (length body + 16)
    then err bounds
    else ok (
        be32_bytes protocol
        ++ (be32_bytes (length body + 16)
            ++ (be32_bytes 0xfeedface ++ (be16_bytes sequence_number ++ (0 ∷ 0 ∷ body)))))

pub record Packet : Type 0 where
  pub source : ℕ
  pub destination : ℕ
  pub sequence : ℕ
  pub ack : ℕ
  pub flags : ℕ
  pub payload : List ℕ

abbrev pub u32_at : List ℕ → ℕ → ℕ
u32_at bytes i =
    be32 (byte_at bytes i) (byte_at bytes (i + 1)) (byte_at bytes (i + 2)) (byte_at bytes (i + 3))

abbrev pub u16_at : List ℕ → ℕ → ℕ
u16_at bytes i = be16 (byte_at bytes i) (byte_at bytes (i + 1))

abbrev pub is_malformed : List ℕ → Bool
is_malformed bytes =
    ltb (length bytes) 36
    || ltb max_frame (length bytes)
    || not (u32_at bytes 0 == 6)
    || not (u32_at bytes 4 == length bytes)
    || not (u32_at bytes 8 == 0xfaceface)

abbrev pub header_of : List ℕ → ℕ
header_of bytes = byte_at bytes 28 / 16 * 4

abbrev pub packet_at : List ℕ → Packet
packet_at bytes = record {
  source = u16_at bytes 16;
  destination = u16_at bytes 18;
  sequence = u32_at bytes 20;
  ack = u32_at bytes 24;
  flags = byte_at bytes 29;
  payload = drop (16 + header_of bytes) bytes;
}

unfoldable pub packet : List ℕ → Result Packet
packet bytes =
    if is_malformed bytes
    then err malformed
    else if ltb (header_of bytes) 20 || ltb (length bytes) (16 + header_of bytes)
    then err bounds
    else ok (packet_at bytes)

-- A connection: `is_opening` while `ready` is there, and the bytes that its pipe took.
pub record Connection : Type 0 where
  pub remote : ℕ
  pub sent : ℕ
  pub received : ℕ
  pub acknowledged : ℕ
  pub is_opening : Bool
  pub delivered : List ℕ

-- `Connection::encode`, with the local port that `send` puts in front.
unfoldable pub encode : ℕ → Connection → ℕ → List ℕ → List ℕ
encode local c flags payload =
    be16_bytes local
    ++ (be16_bytes c.remote
        ++ (be32_bytes c.sent
            ++ (be32_bytes c.received ++ ((0x50 ∷ flags ∷ 2 ∷ 0 ∷ 0 ∷ 0 ∷ 0 ∷ 0 ∷ []) ++ payload))))
