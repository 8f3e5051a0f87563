-- ===== src/CarPlay/UsbMux/Examples.antt =====
-- A run of the shared USB function, and its theorem at a concrete input.
use project_argo.Common.{ℕ, ◌≡◌, refl, List, [], ◌∷◌, false, arith, AreBytes, All}
use project_argo.CarPlay.{Result, err, ok}
use project_argo.CarPlay.UsbMux.{envelope, packet, encode}
use project_argo.CarPlay.UsbMux.Task.{
  written_out, UsbMux, Event, opens, sends, receives, step, run, new, send, get, put, remove,
  on_open, on_data, on_packet, on_segment, on_handshake, wrapping_add, wrapping_sub,
}
use project_argo.CarPlay.UsbMux.Unacknowledged.{IsInFlight, run-IsInFlight}

-- The phone accepts the connection to its port 62078.
abbrev accepted : List ℕ
accepted =
    0 ∷ 0 ∷ 0 ∷ 6 ∷ 0 ∷ 0 ∷ 0 ∷ 36 ∷ 0xfa ∷ 0xce ∷ 0xfa ∷ 0xce ∷ 0 ∷ 0 ∷ 0 ∷ 0 ∷ 242 ∷ 126 ∷ 0 ∷ 1
    ∷ 0 ∷ 0 ∷ 0 ∷ 7 ∷ 0 ∷ 0 ∷ 0 ∷ 1 ∷ 0x50 ∷ 18 ∷ 2 ∷ 0 ∷ 0 ∷ 0 ∷ 0 ∷ 0 ∷ []

abbrev events : List Event
events = opens 62078 0 ∷ receives accepted false written_out ∷ sends 1 (1 ∷ 2 ∷ 3 ∷ []) ∷ []

abbrev state_of : Result UsbMux → UsbMux
state_of (ok m) = m
state_of (err e) = new

events_run : run new events ≡ ok (state_of (run new events))
unfolding run step on_open on_data on_packet on_segment on_handshake send envelope packet encode get
    put remove wrapping_add wrapping_sub
events_run = refl

run-IsInFlight_example :
    All
      (IsInFlight events (state_of (run new events)).output)
      (state_of (run new events)).connections
run-IsInFlight_example =
    run-IsInFlight events (state_of (run new events)) (tt, (bytes, (omega arith, tt))) events_run
  where
    bytes : AreBytes accepted
    bytes = ground arith
