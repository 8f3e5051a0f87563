-- ===== src/CarPlay/UsbMux/Bounded.antt =====
-- The connections after any events.
use mathlib.Core.Path.{subst}
use project_argo.Common.{
  ℕ, zero, suc, ◌+◌, ◌≤◌, ◌<◌, ◌≡◌, refl, sym, arith, List, [], ◌∷◌, Bool, true, false, Option,
  none, some, not, ltb, leb, ◌==◌, ◌&&◌, ◌||◌, if_holds, length, All, AreBytes, byte_at, bit_and,
}
use project_argo.CarPlay.{Result, err, ok}
use project_argo.CarPlay.UsbMux.{
  Packet, packet, packet_at, is_malformed, header_of, Connection, u32_at,
}
use project_argo.CarPlay.UsbMux.Task.{
  PipeWrite, Event, opens, sends, closes, receives, step, run, new, get, UsbMux, send, wrapping_add,
  wrapping_sub, with_connection, without_connection, on_open, data_of, on_data, closed_of,
  on_closed, acknowledge, take_payload, on_payload, on_end, on_handshake, on_segment, segment_of,
  on_packet,
}
use project_argo.CarPlay.UsbMux.Flow.{
  Holds, bind-Holds, IsFlow, AreFlow, IsMux, Keeps, send-Keeps, get-IsFlow, remove-AreFlow,
  put-AreFlow, acknowledge-IsFlow, sent-IsFlow, take_payload-IsFlow, send-IsMux,
}

-- A pipe is read in pieces of at most 16384 bytes, and USB brings bytes.
abbrev pub IsEvent : Event → Type 0
IsEvent (opens remote tasks) = Unit {0}
IsEvent (sends local bytes) = length bytes ≤ 16384
IsEvent (closes local) = Unit {0}
IsEvent (receives bytes gone pipe) = AreBytes bytes

byte_at_small : (b : List ℕ) (i : ℕ) → AreBytes b → byte_at b i < 256
byte_at_small [] i h = omega arith
byte_at_small (x ∷ b) zero h = h.0
byte_at_small (x ∷ b) (suc i) h = byte_at_small b i h.1

packet-ack : (b : List ℕ) → AreBytes b → Holds (λ p. p.ack < 4294967296) (packet b)
unfolding packet
packet-ack b h =
    let P : Packet → Type 0 = λ p. p.ack < 4294967296 in
    let b0 = byte_at_small b 24 h in
    let b1 = byte_at_small b 25 h in
    let b2 = byte_at_small b 26 h in
    let b3 = byte_at_small b 27 h in
    let fits : P (packet_at b) = omega (arith, b0, b1, b2, b3) in
    if_holds (Holds P) (is_malformed b) _ _ (λ _. tt)
      (λ _.
        if_holds (Holds P) (ltb (header_of b) 20 || ltb (length b) (16 + header_of b)) _
          (ok (packet_at b)) (λ _. tt) (λ _. fits))

on_open-IsMux : (m : UsbMux) (remote tasks : ℕ) → IsMux m → Holds IsMux (on_open m remote tasks)
unfolding on_open
on_open-IsMux m remote tasks i =
    let c : Connection = record {
      remote = remote;
      sent = 0;
      received = 0;
      acknowledged = 0;
      is_opening = true;
      delivered = [];
    } in
    if_holds (Holds IsMux) (leb 4 (length m.connections) || leb 9 tasks || m.port == 65535) _ _
      (λ _. i)
      (λ _.
        send-IsMux (record m { port = m.port + 1 }) m.port c 2 [] _
          (λ m' k.
            put-AreFlow m'.connections m.port c k
              (unfold wrapping_sub in (omega arith, omega arith, omega arith)))
          i)

on_data-IsMux :
    (m : UsbMux) (local : ℕ) (b : List ℕ)
    → length b ≤ 16384
    → IsMux m
    → Holds IsMux (on_data m local b)
unfolding on_data
on_data-IsMux m local b h i = go (get m.connections local) refl
  where
    go : (q : Option Connection) → get m.connections local ≡ q → Holds IsMux (data_of m local b q)
    go none e = i
    go (some c) e =
        if_holds (Holds IsMux) (c.is_opening || ltb 131072 (wrapping_sub c.sent c.acknowledged)) _ _
          (λ _. tt)
          (λ f.
            send-IsMux m local c 16 b _
              (λ m' k.
                put-AreFlow m'.connections local
                  (record c { sent = wrapping_add c.sent (length b) }) k
                  (sent-IsFlow c (length b) (ground arith) h
                    (get-IsFlow m.connections local c i e)))
              i)

send-Holds :
    (m : UsbMux) (local : ℕ) (c : Connection) (flags : ℕ) (b : List ℕ)
    → IsMux m
    → Holds IsMux (send m local c flags b)
send-Holds m local c flags b i = go (send m local c flags b) (send-Keeps m local c flags b)
  where
    go : (q : Result UsbMux) → Holds (Keeps m) q → Holds IsMux q
    go (err e) k = tt
    go (ok m') k = subst AreFlow (sym k) i

on_closed-IsMux : (m : UsbMux) (local : ℕ) → IsMux m → Holds IsMux (on_closed m local)
unfolding on_closed
on_closed-IsMux m local i = go (get m.connections local)
  where
    go : (q : Option Connection) → Holds IsMux (closed_of m local q)
    go none = i
    go (some c) =
        send-Holds (without_connection m local) local c 17 [] (remove-AreFlow m.connections local i)

handshake-IsMux :
    (m : UsbMux) (local : ℕ) (c : Connection) (p : Packet) (gone : Bool)
    → IsMux m
    → Holds IsMux (on_handshake m local c p gone)
unfolding on_handshake
handshake-IsMux m local c p gone i =
    let c' : Connection = record c {
      sent = 1;
      acknowledged = 1;
      received = wrapping_add p.sequence 1;
      is_opening = false;
    } in
    let fresh : IsFlow c' = unfold wrapping_sub in (omega arith, omega arith, omega arith) in
    if_holds (Holds IsMux) (not (p.ack == 1)) _ _ (λ _. tt)
      (λ _.
        send-IsMux m local c' 16 [] _
          (λ m' k.
            if_holds IsMux gone (without_connection m' local) (with_connection m' local c')
              (λ _. remove-AreFlow m'.connections local k)
              (λ _. put-AreFlow m'.connections local c' k fresh))
          i)

-- A state with a connection that is changed but not yet put back.
abbrev IsPair : UsbMux × Connection → Type 0
IsPair (m, c) = IsMux m × IsFlow c

on_payload-IsPair :
    (m : UsbMux) (local : ℕ) (c : Connection) (p : Packet) (pipe : PipeWrite)
    → IsMux m
    → IsFlow c
    → Holds IsPair (on_payload m local c p pipe)
unfolding on_payload
on_payload-IsPair m local c p pipe i f =
    if_holds (Holds IsPair) (length p.payload == 0) _ _ (λ _. (i, f))
      (λ _.
        bind-Holds IsFlow IsPair (take_payload c p pipe) _ (take_payload-IsFlow c p pipe f) (λ c' g.
          bind-Holds (Keeps m) IsPair (send m local c' 16 []) _ (send-Keeps m local c' 16 [])
            (λ m' k. (subst AreFlow (sym k) i, g))))

on_end-IsMux :
    (m : UsbMux) (local : ℕ) (c : Connection) (p : Packet)
    → IsMux m
    → IsFlow c
    → Holds IsMux (on_end m local c p)
unfolding on_end
on_end-IsMux m local c p i f =
    let c' : Connection = record c { received = wrapping_add c.received 1 } in
    if_holds (Holds IsMux) (bit_and p.flags 1 == 0) _ _ (λ _. put-AreFlow m.connections local c i f)
      (λ _. send-IsMux m local c' 16 [] _ (λ m' k. remove-AreFlow m'.connections local k) i)

segment-IsMux :
    (m : UsbMux) (p : Packet) (gone : Bool) (pipe : PipeWrite) (c : Connection)
    → p.ack < 4294967296
    → IsMux m
    → IsFlow c
    → Holds IsMux (on_segment m p gone pipe c)
unfolding on_segment
segment-IsMux m p gone pipe c b i f =
    let local = p.destination in
    if_holds (Holds IsMux) (not (p.source == c.remote)) _ _ (λ _. tt)
      (λ _.
        if_holds (Holds IsMux) (not (bit_and p.flags 4 == 0)) _ _
          (λ _. remove-AreFlow m.connections local i)
          (λ _.
            if_holds (Holds IsMux) ((bit_and p.flags 18 == 18) && c.is_opening) _ _
              (λ _. handshake-IsMux m local c p gone i)
              (λ _.
                if_holds (Holds IsMux) c.is_opening _ _ (λ _. tt)
                  (λ _.
                    bind-Holds IsFlow IsMux (acknowledge c p) _ (acknowledge-IsFlow c p b f)
                      (λ c1 f1.
                        bind-Holds IsPair IsMux (on_payload m local c1 p pipe) _
                          (on_payload-IsPair m local c1 p pipe i f1)
                          (λ q g. on_end-IsMux q.0 local q.1 p g.0 g.1))))))

on_packet-IsMux :
    (m : UsbMux) (b : List ℕ) (gone : Bool) (pipe : PipeWrite)
    → AreBytes b
    → IsMux m
    → Holds IsMux (on_packet m b gone pipe)
unfolding on_packet
on_packet-IsMux m b gone pipe h i =
    if_holds (Holds IsMux) (not (u32_at b 0 == 6)) _ _ (λ _. i)
      (λ _.
        bind-Holds (λ p. p.ack < 4294967296) IsMux (packet b) _ (packet-ack b h)
          (λ p k. go p k (get m.connections p.destination) refl))
  where
    go :
        (p : Packet)
        → p.ack < 4294967296
        → (q : Option Connection) → get m.connections p.destination ≡ q
        → Holds IsMux (segment_of m p gone pipe q)
    go p k none e = i
    go p k (some c) e =
        segment-IsMux m p gone pipe c k i (get-IsFlow m.connections p.destination c i e)

step-IsMux : (m : UsbMux) (e : Event) → IsEvent e → IsMux m → Holds IsMux (step m e)
unfolding step
step-IsMux m (opens remote tasks) h i = on_open-IsMux m remote tasks i
step-IsMux m (sends local b) h i = on_data-IsMux m local b h i
step-IsMux m (closes local) h i = on_closed-IsMux m local i
step-IsMux m (receives b gone pipe) h i = on_packet-IsMux m b gone pipe h i

run-IsMux : (m : UsbMux) (es : List Event) → All IsEvent es → IsMux m → Holds IsMux (run m es)
unfolding run
run-IsMux m [] h i = i
run-IsMux m (e ∷ es) h i =
    bind-Holds IsMux IsMux (step m e) (λ m'. run m' es) (step-IsMux m e h.0 i)
      (λ m' k. run-IsMux m' es h.1 k)

-- After any events that do not end the task, whatever packets the phone sends: every connection has
-- at most 147456 bytes on their way that the phone has not acknowledged, which are the 131072 that
-- `Data` asks for and one read of the pipe, in the arithmetic modulo 2^32 of the sequence numbers.
pub run-AreFlow :
    (es : List Event) (m : UsbMux) → All IsEvent es → run new es ≡ ok m → AreFlow m.connections
run-AreFlow es m h e = subst (Holds IsMux) e (run-IsMux new es h tt)
