-- ===== src/CarPlay/UsbMux/Flight.antt =====
-- The other events of the task keep what holds of the connections, and so do all of them together.
use project_argo.Common.{
  ℕ, ◌≡◌, inl, inr, refl, arith, List, [], ◌∷◌, Bool, true, false, Option, none, some, not, leb,
  ◌==◌, ◌&&◌, if_holds, length, All, bit_and,
}
use project_argo.CarPlay.{Result, err, ok, ◌>>=◌}
use project_argo.CarPlay.UsbMux.{Packet, packet, Connection, u32_at}
use project_argo.CarPlay.UsbMux.Task.{
  PipeWrite, written_out, late, broken, write_payload, get, UsbMux, send, wrapping_add,
  with_connection, without_connection, acknowledge, take_payload, closed_of, on_closed, on_payload,
  on_end, on_handshake, on_segment, segment_of, on_packet, Event, opens, sends, closes, receives,
  step, run, wrapping_sub,
}
use project_argo.CarPlay.UsbMux.Flow.{Holds, bind-Holds}
use project_argo.CarPlay.UsbMux.Written.{written, IsSent, send-IsSent}
use project_argo.CarPlay.UsbMux.Counted.{
  get-All, IsCounted, IsCounted-Same, Fits, IsMux, sent-IsMux, removed-IsMux, put-IsMux,
}
use project_argo.CarPlay.UsbMux.Sending.{after_send, on_open-IsMux, on_data-IsMux}

map-Holds :
    {A : Type 0} (P Q : A → Type 0) (r : Result A)
    → Holds P r
    → ((a : A) → P a → Holds Q (ok a))
    → Holds Q r
map-Holds P Q (err e) h k = tt
map-Holds P Q (ok a) h k = k a h

module _ (Seen : Packet → Type 0) where
  on_closed-IsMux : (m : UsbMux) (local : ℕ) → IsMux Seen m → Holds (IsMux Seen) (on_closed m local)
  unfolding on_closed
  on_closed-IsMux m local i = go (get m.connections local) refl
    where
      go :
          (q : Option Connection)
          → get m.connections local ≡ q
          → Holds (IsMux Seen) (closed_of m local q)
      go none e = i
      go (some c) e =
          let f = get-All (Fits Seen m) m.connections local c i.counted e in
          let b = i.port_fits in
          map-Holds (IsSent (without_connection m local) local 0) (IsMux Seen)
            (send (without_connection m local) local c 17 [])
            (send-IsSent (without_connection m local) local c 17 [] (omega (arith, f.0)))
            (λ m' s.
              sent-IsMux Seen (without_connection m local) m' local (removed-IsMux Seen m local i)
                s)

  handshake-IsMux :
      (m : UsbMux) (c : Connection) (p : Packet) (gone : Bool)
      → IsMux Seen m
      → Seen p
      → p.source ≡ c.remote
      → c.is_opening ≡ true
      → Fits Seen m (p.destination, c)
      → Holds (IsMux Seen) (on_handshake m p.destination c p gone)
  unfolding on_handshake
  handshake-IsMux m c p gone i seen src o (h, f) =
      let local = p.destination in
      let b = i.port_fits in
      let c' : Connection = record c {
        sent = 1;
        acknowledged = 1;
        received = wrapping_add p.sequence 1;
        is_opening = false;
      } in
      let quiet : written local m.output ≡ 0 = nothing f in
      if_holds (Holds (IsMux Seen)) (not (p.ack == 1)) _ _ (λ _. tt)
        (λ a. after_send Seen (IsMux Seen) m local c' 16 _ (omega arith) i (λ m' j s.
          if_holds (IsMux Seen) gone (without_connection m' local) (with_connection m' local c')
            (λ _. removed-IsMux Seen m' local j)
            (λ _. put-IsMux Seen m' local c' j (
              omega (arith, s.0),
              inr (
                refl,
                omega (arith, s.1 local (omega arith), quiet),
                (p, seen, src, refl, ground arith),
              ),
            ))))
    where
      nothing : IsCounted Seen m.output (p.destination, c) → written p.destination m.output ≡ 0
      nothing (inl (t, w)) = w
      nothing (inr (t, w, k)) = absurd cc

  -- The pair of the state and of a connection that is not yet put back.
  abbrev IsPair : ℕ → UsbMux × Connection → Type 0
  IsPair local (m, c) = IsMux Seen m × Fits Seen m (local, c)

  write_payload-Fits :
      (m : UsbMux) (local : ℕ) (c : Connection) (p : Packet) (pipe : PipeWrite)
      → Fits Seen m (local, c)
      → Holds (λ c'. Fits Seen m (local, c')) (write_payload c p pipe)
  unfolding write_payload
  write_payload-Fits m local c p written_out f = f
  write_payload-Fits m local c p late f = tt
  write_payload-Fits m local c p broken f = tt

  take_payload-Fits :
      (m : UsbMux) (local : ℕ) (c : Connection) (p : Packet) (pipe : PipeWrite)
      → Fits Seen m (local, c)
      → Holds (λ c'. Fits Seen m (local, c')) (take_payload c p pipe)
  unfolding take_payload
  take_payload-Fits m local c p pipe f =
      let Q : Result Connection → Type 0 = Holds (λ c'. Fits Seen m (local, c')) in
      if_holds Q (p.sequence == c.received) _ _ (λ _. write_payload-Fits m local c p pipe f)
        (λ _.
          if_holds Q (wrapping_add p.sequence (length p.payload) == c.received) _ _ (λ _. f)
            (λ _. tt))

  on_payload-IsPair :
      (m : UsbMux) (local : ℕ) (c : Connection) (p : Packet) (pipe : PipeWrite)
      → IsMux Seen m
      → Fits Seen m (local, c)
      → Holds (IsPair local) (on_payload m local c p pipe)
  unfolding on_payload
  on_payload-IsPair m local c p pipe i f =
      let b = i.port_fits in
      if_holds (Holds (IsPair local)) (length p.payload == 0) _ _ (λ _. (i, f))
        (λ _.
          bind-Holds (λ c'. Fits Seen m (local, c')) (IsPair local) (take_payload c p pipe) _
            (take_payload-Fits m local c p pipe f)
            (λ c' g.
              after_send Seen (IsPair local) m local c' 16 _ (omega (arith, f.0)) i
                (λ m' j s. (j, IsCounted-Same Seen m m' (local, c') b s g))))

  on_end-IsMux :
      (m : UsbMux) (local : ℕ) (c : Connection) (p : Packet)
      → IsMux Seen m
      → Fits Seen m (local, c)
      → Holds (IsMux Seen) (on_end m local c p)
  unfolding on_end
  on_end-IsMux m local c p i f =
      let b = i.port_fits in
      let c' : Connection = record c { received = wrapping_add c.received 1 } in
      if_holds (Holds (IsMux Seen)) (bit_and p.flags 1 == 0) _ _ (λ _. put-IsMux Seen m local c i f)
        (λ _.
          after_send Seen (IsMux Seen) m local c' 16 _ (omega (arith, f.0)) i
            (λ m' j s. removed-IsMux Seen m' local j))

  acknowledge-Fits :
      (m : UsbMux) (c : Connection) (p : Packet)
      → Seen p
      → p.source ≡ c.remote
      → c.is_opening ≡ false
      → Fits Seen m (p.destination, c)
      → Holds (λ c'. Fits Seen m (p.destination, c')) (acknowledge c p)
  unfolding acknowledge
  acknowledge-Fits m c p seen src o (h, inl (t, w)) = absurd cc
  acknowledge-Fits m c p seen src o (h, inr (t, w, k)) =
      let Q : Result Connection → Type 0 = Holds (λ c'. Fits Seen m (p.destination, c')) in
      if_holds Q (bit_and p.flags 16 == 0) _ _ (λ _. (h, inr (t, w, k)))
        (λ _.
          if_holds Q (leb (wrapping_sub p.ack c.acknowledged) (wrapping_sub c.sent c.acknowledged))
            _ _ (λ _. (h, inr (t, w, (p, seen, src, refl, refl)))) (λ _. tt))

  segment-IsMux :
      (m : UsbMux) (p : Packet) (gone : Bool) (pipe : PipeWrite) (c : Connection)
      → Seen p
      → IsMux Seen m
      → Fits Seen m (p.destination, c)
      → Holds (IsMux Seen) (on_segment m p gone pipe c)
  unfolding on_segment
  segment-IsMux m p gone pipe c seen i f =
      let local = p.destination in
      if_holds (Holds (IsMux Seen)) (not (p.source == c.remote)) _ _ (λ _. tt)
        (λ src.
          if_holds (Holds (IsMux Seen)) (not (bit_and p.flags 4 == 0)) _ _
            (λ _. removed-IsMux Seen m local i)
            (λ _.
              if_holds (Holds (IsMux Seen)) ((bit_and p.flags 18 == 18) && c.is_opening) _ _
                (λ o. handshake-IsMux m c p gone i seen (ground arith) (ground arith) f)
                (λ _.
                  if_holds (Holds (IsMux Seen)) c.is_opening _ _ (λ _. tt)
                    (λ o.
                      bind-Holds (λ c'. Fits Seen m (local, c')) (IsMux Seen) (acknowledge c p) _
                        (acknowledge-Fits m c p seen (ground arith) o f)
                        (λ c1 f1.
                          bind-Holds (IsPair local) (IsMux Seen) (on_payload m local c1 p pipe) _
                            (on_payload-IsPair m local c1 p pipe i f1)
                            (λ q g. on_end-IsMux q.0 local q.1 p g.0 g.1))))))

  -- What the packets of an event are: each is seen.
  abbrev pub Shows : Event → Type 0
  Shows (opens remote tasks) = Unit {0}
  Shows (sends local bytes) = Unit {0}
  Shows (closes local) = Unit {0}
  Shows (receives bytes gone pipe) = (p : Packet) → packet bytes ≡ ok p → Seen p

  on_packet-IsMux :
      (m : UsbMux) (b : List ℕ) (gone : Bool) (pipe : PipeWrite)
      → Shows (receives b gone pipe)
      → IsMux Seen m
      → Holds (IsMux Seen) (on_packet m b gone pipe)
  unfolding on_packet
  on_packet-IsMux m b gone pipe h i =
      if_holds (Holds (IsMux Seen)) (not (u32_at b 0 == 6)) _ _ (λ _. i) (λ _. read (packet b) refl)
    where
      found :
          (p : Packet)
          → Seen p
          → (q : Option Connection) → get m.connections p.destination ≡ q
          → Holds (IsMux Seen) (segment_of m p gone pipe q)
      found p seen none e = i
      found p seen (some c) e =
          segment-IsMux m p gone pipe c seen i
            (get-All (Fits Seen m) m.connections p.destination c i.counted e)

      read :
          (r : Result Packet)
          → packet b ≡ r
          → Holds
              (IsMux Seen)
              (r >>= λ p. segment_of m p gone pipe (get m.connections p.destination))
      read (err x) e = tt
      read (ok p) e = found p (h p e) (get m.connections p.destination) refl

  step-IsMux : (m : UsbMux) (e : Event) → Shows e → IsMux Seen m → Holds (IsMux Seen) (step m e)
  unfolding step
  step-IsMux m (opens remote tasks) h i = on_open-IsMux Seen m remote tasks i
  step-IsMux m (sends local b) h i = on_data-IsMux Seen m local b i
  step-IsMux m (closes local) h i = on_closed-IsMux m local i
  step-IsMux m (receives b gone pipe) h i = on_packet-IsMux m b gone pipe h i

  pub run-IsMux :
      (m : UsbMux) (es : List Event) → All Shows es → IsMux Seen m → Holds (IsMux Seen) (run m es)
  unfolding run
  run-IsMux m [] h i = i
  run-IsMux m (e ∷ es) h i =
      bind-Holds (IsMux Seen) (IsMux Seen) (step m e) (λ m'. run m' es) (step-IsMux m e h.0 i)
        (λ m' k. run-IsMux m' es h.1 k)
