-- ===== src/CarPlay/UsbMux/Task.antt =====
-- usb_mux.rs, the task that serves the connections: its state and its events.
use project_argo.Common.{
  ℕ, ◌+◌, ◌-◌, ◌%◌, List, [], ◌∷◌, ◌++◌, Bool, true, false, Option, none, some, not, ltb, leb, ◌==◌,
  ◌&&◌, ◌||◌, if◌then◌else◌, length, bit_and,
}
use project_argo.CarPlay.{
  bounds, malformed, state, sequence, timeout, rejected, Result, err, ok, ◌>>=◌,
}
use project_argo.CarPlay.UsbMux.{envelope, Packet, packet, Connection, encode, u32_at}

abbrev pub Connections : Type 0
Connections = List (ℕ × Connection)

unfoldable pub get : Connections → ℕ → Option Connection
get [] local = none
get ((k, c) ∷ rest) local = if k == local then some c else get rest local

unfoldable pub remove : Connections → ℕ → Connections
remove [] local = []
remove ((k, c) ∷ rest) local =
    let later = remove rest local in if k == local then later else (k, c) ∷ later

-- The change of a connection that is there.
unfoldable pub put : Connections → ℕ → Connection → Connections
put connections local c = (local, c) ∷ remove connections local

-- The state of the task, with the frames written on USB, the last one last.
pub record UsbMux : Type 0 where
  pub connections : Connections
  pub port : ℕ
  pub sequence_number : ℕ
  pub output : List (List ℕ)

unfoldable pub send : UsbMux → ℕ → Connection → ℕ → List ℕ → Result UsbMux
send m local c flags bytes = do
  message ← envelope 6 m.sequence_number (encode local c flags bytes)
  ok (record m {
    sequence_number = (m.sequence_number + 1) % 65536;
    output = m.output ++ (message ∷ []);
  })

unfoldable pub wrapping_add : ℕ → ℕ → ℕ
wrapping_add a b = (a + b) % 4294967296

unfoldable pub wrapping_sub : ℕ → ℕ → ℕ
wrapping_sub a b = (a + 4294967296 - b) % 4294967296

abbrev pub with_connection : UsbMux → ℕ → Connection → UsbMux
with_connection m local c = record m { connections = put m.connections local c }

abbrev pub without_connection : UsbMux → ℕ → UsbMux
without_connection m local = record m { connections = remove m.connections local }

-- `tasks` is how many tasks run.
unfoldable pub on_open : UsbMux → ℕ → ℕ → Result UsbMux
on_open m remote tasks =
    let c : Connection = record {
      remote = remote;
      sent = 0;
      received = 0;
      acknowledged = 0;
      is_opening = true;
      delivered = [];
    } in
    if leb 4 (length m.connections) || leb 9 tasks || m.port == 65535 then ok m else (do
      m' ← send (record m { port = m.port + 1 }) m.port c 2 []
      ok (with_connection m' m.port c))

abbrev pub data_of : UsbMux → ℕ → List ℕ → Option Connection → Result UsbMux
data_of m local bytes none = ok m
data_of m local bytes (some c) =
    if c.is_opening || ltb 131072 (wrapping_sub c.sent c.acknowledged) then err bounds else (do
      m' ← send m local c 16 bytes
      ok (with_connection m' local (record c { sent = wrapping_add c.sent (length bytes) })))

unfoldable pub on_data : UsbMux → ℕ → List ℕ → Result UsbMux
on_data m local bytes = data_of m local bytes (get m.connections local)

abbrev pub closed_of : UsbMux → ℕ → Option Connection → Result UsbMux
closed_of m local none = ok m
closed_of m local (some c) = send (without_connection m local) local c 17 []

unfoldable pub on_closed : UsbMux → ℕ → Result UsbMux
on_closed m local = closed_of m local (get m.connections local)

-- The acknowledgement of a packet: it may release what is sent, and nothing else.
unfoldable pub acknowledge : Connection → Packet → Result Connection
acknowledge c p =
    if bit_and p.flags 16 == 0
    then ok c
    else if leb (wrapping_sub p.ack c.acknowledged) (wrapping_sub c.sent c.acknowledged)
    then ok (record c { acknowledged = p.ack })
    else err sequence

-- What becomes of a write to a pipe: it is done, it takes longer than two seconds, or it fails.
pub data PipeWrite : Type 0 where
  written_out late broken : PipeWrite

unfoldable pub write_payload : Connection → Packet → PipeWrite → Result Connection
write_payload c p written_out = ok (record c {
  delivered = c.delivered ++ p.payload;
  received = wrapping_add c.received (length p.payload);
})
write_payload c p late = err timeout
write_payload c p broken = err rejected

-- The payload of a packet: new bytes go to the pipe, and bytes that came before are passed over.
unfoldable pub take_payload : Connection → Packet → PipeWrite → Result Connection
take_payload c p pipe =
    if p.sequence == c.received
    then write_payload c p pipe
    else if wrapping_add p.sequence (length p.payload) == c.received
    then ok c
    else err sequence

unfoldable pub on_payload :
    UsbMux → ℕ → Connection → Packet → PipeWrite → Result (UsbMux × Connection)
on_payload m local c p pipe =
    if length p.payload == 0
    then ok (m, c)
    else (do c' ← take_payload c p pipe; m' ← send m local c' 16 []; ok (m', c'))

unfoldable pub on_end : UsbMux → ℕ → Connection → Packet → Result UsbMux
on_end m local c p =
    let c' : Connection = record c { received = wrapping_add c.received 1 } in
    if bit_and p.flags 1 == 0
    then ok (with_connection m local c)
    else (do m' ← send m local c' 16 []; ok (without_connection m' local))

-- The answer to an open; `gone` says that nobody waits for it any more.
unfoldable pub on_handshake : UsbMux → ℕ → Connection → Packet → Bool → Result UsbMux
on_handshake m local c p gone =
    let c' : Connection = record c {
      sent = 1;
      acknowledged = 1;
      received = wrapping_add p.sequence 1;
      is_opening = false;
    } in
    if not (p.ack == 1) then err sequence else (do
      m' ← send m local c' 16 []
      ok (if gone then without_connection m' local else with_connection m' local c'))

unfoldable pub on_segment : UsbMux → Packet → Bool → PipeWrite → Connection → Result UsbMux
on_segment m p gone pipe c =
    let local = p.destination in
    if not (p.source == c.remote)
    then err malformed
    else if not (bit_and p.flags 4 == 0)
    then ok (without_connection m local)
    else if (bit_and p.flags 18 == 18) && c.is_opening
    then on_handshake m local c p gone
    else if c.is_opening
    then err state
    else (do c1 ← acknowledge c p; (m2, c2) ← on_payload m local c1 p pipe; on_end m2 local c2 p)

abbrev pub segment_of : UsbMux → Packet → Bool → PipeWrite → Option Connection → Result UsbMux
segment_of m p gone pipe none = ok m
segment_of m p gone pipe (some c) = on_segment m p gone pipe c

unfoldable pub on_packet : UsbMux → List ℕ → Bool → PipeWrite → Result UsbMux
on_packet m bytes gone pipe =
    if not (u32_at bytes 0 == 6)
    then ok m
    else packet bytes >>= λ p. segment_of m p gone pipe (get m.connections p.destination)

-- The events of the task, with what becomes of writes to pipes.
pub data Event : Type 0 where
  opens : (remote tasks : ℕ) → Event
  sends : (local : ℕ) → (bytes : List ℕ) → Event
  closes : (local : ℕ) → Event
  receives : (bytes : List ℕ) → (gone : Bool) (pipe : PipeWrite) → Event

unfoldable pub step : UsbMux → Event → Result UsbMux
step m (opens remote tasks) = on_open m remote tasks
step m (sends local bytes) = on_data m local bytes
step m (closes local) = on_closed m local
step m (receives bytes gone pipe) = on_packet m bytes gone pipe

-- An error ends the task.
unfoldable pub run : UsbMux → List Event → Result UsbMux
run m [] = ok m
run m (e ∷ es) = step m e >>= λ m'. run m' es

abbrev pub new : UsbMux
new = record { connections = []; port = 1; sequence_number = 1; output = [] }
