-- ===== src/CarPlay/UsbMux/Unacknowledged.antt =====
-- The bytes of a connection that are on their way to the phone.
use mathlib.Core.Path.{subst}
use project_argo.Common.{
  ℕ, ◌+◌, ◌%◌, ◌≤◌, ◌≡◌, ◌⊎◌, inl, inr, refl, arith, List, [], ◌∷◌, true, false, All,
}
use project_argo.CarPlay.{ok}
use project_argo.CarPlay.UsbMux.{Packet, packet, Connection}
use project_argo.CarPlay.UsbMux.Task.{
  Connections, UsbMux, Event, opens, sends, closes, receives, run, new, wrapping_sub,
}
use project_argo.CarPlay.UsbMux.Flow.{Holds, AreFlow}
use project_argo.CarPlay.UsbMux.Bounded.{IsEvent, run-AreFlow}
use project_argo.CarPlay.UsbMux.Written.{written}
use project_argo.CarPlay.UsbMux.Counted.{Fits, IsMux}
use project_argo.CarPlay.UsbMux.Flight.{Shows, run-IsMux}

-- The packet came with one of the events.
abbrev pub Received : List Event → Packet → Type 0
Received [] p = ⊥
Received (opens remote tasks ∷ es) p = Received es p
Received (sends local bytes ∷ es) p = Received es p
Received (closes local ∷ es) p = Received es p
Received (receives bytes gone pipe ∷ es) p = (packet bytes ≡ ok p) ⊎ Received es p

-- A connection after the events, with the frames written: nothing was written for it while it is
-- opening; then its next sequence number is one more than its payload written, modulo 2^32, its
-- peer acknowledged the number that it holds for acknowledged, and at most 147456 lie between them.
abbrev pub IsInFlight : List Event → List (List ℕ) → ℕ × Connection → Type 0
IsInFlight es out (local, c) =
    ((c.is_opening ≡ true) × (written local out ≡ 0))
    ⊎ ((c.is_opening ≡ false)
        × (c.sent ≡ (1 + written local out) % 4294967296)
        × ((p : Packet) × Received es p
            × (p.source ≡ c.remote)
            × (p.destination ≡ local)
            × (p.ack ≡ c.acknowledged)
            × (wrapping_sub ((1 + written local out) % 4294967296) p.ack ≤ 147456)))

Shows-later :
    (e : Event) (es fs : List Event)
    → All (Shows (Received es)) fs
    → All (Shows (Received (e ∷ es))) fs
Shows-later e es [] h = tt
Shows-later e es (opens remote tasks ∷ fs) h = (tt, Shows-later e es fs h.1)
Shows-later e es (sends local bytes ∷ fs) h = (tt, Shows-later e es fs h.1)
Shows-later e es (closes local ∷ fs) h = (tt, Shows-later e es fs h.1)
Shows-later e es (receives bytes gone pipe ∷ fs) h =
    ((λ p k. later e p (h.0 p k)), Shows-later e es fs h.1)
  where
    later : (e : Event) (p : Packet) → Received es p → Received (e ∷ es) p
    later (opens remote tasks) p r = r
    later (sends local bytes) p r = r
    later (closes local) p r = r
    later (receives bytes gone pipe) p r = inr r

Shows-All : (es : List Event) → All (Shows (Received es)) es
Shows-All [] = tt
Shows-All (opens remote tasks ∷ es) = (tt, Shows-later (opens remote tasks) es es (Shows-All es))
Shows-All (sends local bytes ∷ es) = (tt, Shows-later (sends local bytes) es es (Shows-All es))
Shows-All (closes local ∷ es) = (tt, Shows-later (closes local) es es (Shows-All es))
Shows-All (receives bytes gone pipe ∷ es) =
    ((λ p k. inl k), Shows-later (receives bytes gone pipe) es es (Shows-All es))

both-IsInFlight :
    (es : List Event) (m : UsbMux) (l : Connections)
    → AreFlow l
    → All (Fits (Received es) m) l
    → All (IsInFlight es m.output) l
both-IsInFlight es m [] f a = tt
both-IsInFlight es m ((local, c) ∷ l) f ((h, inl o), a) = (inl o, both-IsInFlight es m l f.1 a)
both-IsInFlight es m ((local, c) ∷ l) f ((h, inr (o, w, (p, seen, src, dst, k))), a) =
    let bounded : wrapping_sub c.sent c.acknowledged ≤ 147456 = f.0.2 in
    let counted : wrapping_sub ((1 + written local m.output) % 4294967296) c.acknowledged ≤ 147456 =
      subst (λ n. wrapping_sub n c.acknowledged ≤ 147456) w bounded in
    let small : wrapping_sub ((1 + written local m.output) % 4294967296) p.ack ≤ 147456 =
      rw k counted in
    (inr (o, w, (p, seen, src, dst, k, small)), both-IsInFlight es m l f.1 a)

-- After any events that do not end the task, the pipes being read in pieces of at most 16384 bytes
-- and whatever packets the phone sends, every connection is one of two kinds. While it is opening,
-- no payload was written on USB for its port. Then its sequence number is one more than the payload
-- bytes written on USB for its port, modulo 2^32, and a packet of its peer for its port was
-- received whose acknowledgement is the number that the connection holds for acknowledged; what was
-- written lies at most 147456 bytes beyond this acknowledgement, modulo 2^32, which are the 131072
-- that `Data` asks for and one read of the pipe.
pub run-IsInFlight :
    (es : List Event) (m : UsbMux)
    → All IsEvent es
    → run new es ≡ ok m
    → All (IsInFlight es m.output) m.connections
run-IsInFlight es m h e =
    let start : IsMux (Received es) new = record {
      port_fits = omega arith;
      silent = λ l k j. unfold written in refl;
      counted = tt;
    } in
    let final : IsMux (Received es) m =
      subst (Holds (IsMux (Received es))) e (run-IsMux (Received es) new es (Shows-All es) start) in
    both-IsInFlight es m m.connections (run-AreFlow es m h e) final.counted
